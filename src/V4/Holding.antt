-- ===== src/V4/Holding.antt =====
-- Contexts whose buffer holds a message, and what the steps of dhcp/v4/pipeline.rs do to them.
use Prim.Native.String.{String}
use dhcp_relay_agent.Common.{
  true, false, Option, List, Bytes, ascii, ok, err, ◌≡◌, refl, arith, list_eq, nat_eq,
}
use dhcp_relay_agent.Common.Assoc
use dhcp_relay_agent.Net.{Ipv4Addr, ipv4_eq, ipv4_beq_iff, unspecified4}
use dhcp_relay_agent.Error.{RelayError, RelayResult}
use dhcp_relay_agent.Pipeline.{Flow, modify}
use dhcp_relay_agent.V4.Dhcproto.{Dhcproto, IsDhcproto}
use dhcp_relay_agent.V4.Option82
use dhcp_relay_agent.V4.Option82.{has_opt82}
use dhcp_relay_agent.V4.Giaddr
use dhcp_relay_agent.V4.Giaddr.{first_relay, trusted_circuit, reforwarded, spoof}
use dhcp_relay_agent.V4.Giaddr.{untrusted_circuit as untrusted}
use dhcp_relay_agent.V4.Stages.{
  parse_stage, validate_stage, option82_insert_stage, giaddr_stage, set_giaddr_if_unset, act_on,
}

abbrev pub with_buffer : Bytes → Flow → Flow
with_buffer b f = record f { ctx = record f.ctx { buffer = b } }

-- Every message can be encoded.
abbrev pub Encodes : Dhcproto → Type 0
Encodes d = (m : d.Message) → (b : Bytes) × (d.encode m ≡ ok b)

module _ (d : Dhcproto) (law : IsDhcproto d) (total : Encodes d) where
  -- The buffer decodes to the message.
  abbrev pub Holds : d.Message → Flow → Type 0
  Holds m f = d.decode f.ctx.buffer ≡ ok m

  abbrev pub written : d.Message → Flow → Flow
  written m f = with_buffer (total m).0 f

  pub written-Holds : (m : d.Message) (f : Flow) → Holds m (written m f)
  written-Holds m f = law.decode-encode m (total m).0 (total m).1

  pub modify-ok :
      (stage : String) (g : d.Message → RelayResult d.Message) (m m' : d.Message) (f : Flow)
      → Holds m f
      → g m ≡ ok m'
      → modify d.decode d.encode stage g f ≡ (ok tt, written m' f)
  unfolding modify
  modify-ok stage g m m' f h e = ground (arith, h, e, (total m').1)

  pub modify-err :
      (stage : String) (g : d.Message → RelayResult d.Message) (m : d.Message) (x : RelayError)
      (f : Flow)
      → Holds m f
      → g m ≡ err x
      → modify d.decode d.encode stage g f ≡ (err x, f)
  unfolding modify
  modify-err stage g m x f h e = ground (arith, h, e)

  module _ (m : d.Message) (f : Flow) (h : Holds m f) where
    pub parse-ok : (parse_stage d).process f ≡ (ok true, written m f)
    unfolding parse_stage
    parse-ok = ground (arith, modify-ok "dhcpv4::parse" (λ msg. ok msg) m m f h refl)

    pub validate-acts :
        (addrs : List Ipv4Addr)
        → (validate_stage d addrs).process f
          ≡ act_on d m (Giaddr.validate d m addrs f.ctx.is_trusted_circuit) f
    unfolding validate_stage
    validate-acts addrs = ground (arith, h)

    pub insert-ok :
        (circuit remote : Option Bytes) (m' : d.Message)
        → f.ctx.is_reforwarded ≡ false
        → Option82.insert d circuit remote m ≡ ok m'
        → (option82_insert_stage d circuit remote).process f ≡ (
          ok true,
          record f {
            ctx = record f.ctx {
              buffer = (total m').0;
              metadata = Assoc.insert (ascii "option82_inserted") (ascii "true") f.ctx.metadata;
            };
          },
        )
    unfolding option82_insert_stage
    insert-ok circuit remote m' r e =
        ground (
          arith,
          modify-ok "dhcpv4::option82::insert" (Option82.insert d circuit remote) m m' f h e,
        )

    pub giaddr-ok :
        (ip : Ipv4Addr)
        → f.ctx.is_reforwarded ≡ false
        → d.giaddr m ≡ unspecified4
        → (giaddr_stage d ip).process f ≡ (ok true, written (d.set_giaddr ip m) f)
    unfolding giaddr_stage
    giaddr-ok ip r z = ground (
      arith,
      ipv4_beq_iff (d.giaddr m) unspecified4,
      modify-ok "dhcpv4::giaddr" (set_giaddr_if_unset d ip) m (d.set_giaddr ip m) f h,
    )
