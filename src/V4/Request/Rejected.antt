-- ===== src/V4/Request/Rejected.antt =====
-- The packets of clients that the pipeline of dhcp/v4/pipeline.rs does not let through.
use dhcp_relay_agent.Common.{
  Bool, true, false, Option, none, List, [], ◌∷◌, ◌++◌, Bytes, ok, err, ◌≡◌, ◌≢◌, refl, ap, ◌∙◌,
  arith, ◌⊎◌,
}
use dhcp_relay_agent.Net.{Ipv4Addr, unspecified4, SocketAddr}
use dhcp_relay_agent.Error.{text, address, RelayError}
use dhcp_relay_agent.Config.{VssConfig}
use dhcp_relay_agent.Pipeline.{
  Flow, Stage, execute_stages, execute, untrusted_circuit, spoof_detected, halted,
}
use dhcp_relay_agent.Pipeline.Execution.{after, execute_stages-cons}
use dhcp_relay_agent.V4.Dhcproto.{Dhcproto, IsDhcproto}
use dhcp_relay_agent.V4.Option82
use dhcp_relay_agent.V4.Option82.{already_present, no_sub_option}
use dhcp_relay_agent.V4.Giaddr.{GiaddrDecision, first_relay, trusted_circuit, spoof}
use dhcp_relay_agent.V4.Giaddr.{untrusted_circuit as untrusted}
use dhcp_relay_agent.V4.Giaddr.Decision.{Decides, IsForeign, validate_iff}
use dhcp_relay_agent.V4.Stages.{parse_stage, validate_stage, option82_insert_stage, act_on}
use dhcp_relay_agent.V4.Build.{build_request, request_tail, request_last}
use dhcp_relay_agent.V4.Holding.{Encodes, written, written-Holds, modify-err}
use dhcp_relay_agent.V4.Request.{validated}

module _ (d : Dhcproto) (law : IsDhcproto d) (total : Encodes d) (m : d.Message) (f : Flow)
    (h : d.decode f.ctx.buffer ≡ ok m) where
  -- Up to a decision that is known.
  pub decided :
      (addrs : List Ipv4Addr) (x : GiaddrDecision) (ss : List Stage)
      → Decides d m addrs f.ctx.is_trusted_circuit x
      → execute_stages (parse_stage d ∷ validate_stage d addrs ∷ ss) f
        ≡ after (validate_stage d addrs) ss (act_on d m x (written d law total m f))
  decided addrs x ss e =
      validated d law total m f h addrs ss
      ∙ ap (λ y. after (validate_stage d addrs) ss (act_on d m y (written d law total m f)))
          ((validate_iff d m addrs f.ctx.is_trusted_circuit x).1 e)

  -- After the validator has let the message pass, option 82 cannot be inserted.
  insert_fails :
      (addrs : List Ipv4Addr) (circuit remote : Option Bytes) (x : RelayError) (ss : List Stage)
      → f.ctx.is_reforwarded ≡ false
      → Option82.insert d circuit remote m ≡ err x
      → execute_stages (option82_insert_stage d circuit remote ∷ ss) (written d law total m f)
        ≡ (err x, written d law total m f)
  unfolding option82_insert_stage
  insert_fails addrs circuit remote x ss r e =
      execute_stages-cons (option82_insert_stage d circuit remote) ss (written d law total m f)
      ∙ ground (
        arith,
        modify-err d law total "dhcpv4::option82::insert" (Option82.insert d circuit remote) m x
            (written d law total m f) (written-Holds d law total m f) e,
      )

already_there :
    (d : Dhcproto) (circuit remote : Option Bytes) (m : d.Message)
    → (circuit ≢ none) ⊎ (remote ≢ none)
    → d.get_opt82 m ≢ none
    → Option82.insert d circuit remote m ≡ err already_present
unfolding Option82.insert
already_there d circuit remote m c o = ground arith

nothing_configured :
    (d : Dhcproto) (m : d.Message) → Option82.insert d none none m ≡ err no_sub_option
unfolding Option82.insert
nothing_configured d m = refl

-- The packet is not to be sent: nothing has set a destination.
abbrev pub IsUnsent : Flow → Flow → Type 0
IsUnsent f g = g.ctx.dst_addr ≡ f.ctx.dst_addr

-- A message whose relay address is a local one is a spoof: whatever else is configured, the
-- pipeline fails with that error, which is logged, and sets no destination.
pub request_spoof :
    (d : Dhcproto) (law : IsDhcproto d) (total : Encodes d) (addrs : List Ipv4Addr)
    (circuit remote : Option Bytes) (ip : Ipv4Addr) (server : SocketAddr) (vss : Option VssConfig)
    (enable_option82 : Bool) (m : d.Message) (f : Flow)
    → d.decode f.ctx.buffer ≡ ok m
    → d.giaddr m ≢ unspecified4
    → ¬ IsForeign (d.giaddr m) addrs
    → (g : Flow) × (execute (build_request d addrs circuit remote ip server vss enable_option82) f
        ≡ (
          err (
              RelayError.giaddr_spoof
                (text "giaddr " ∷ address (d.giaddr m) ∷ text " matches local interface" ∷ [])),
          g,
        ))
      × (g.log ≡ f.log ++ spoof_detected (d.giaddr m) ∷ [])
      × IsUnsent f g
unfolding execute build_request act_on validate_stage
request_spoof d law total addrs circuit remote ip server vss enable_option82 m f h nz l = (
  _,
  decided d law total m f h addrs spoof
      (request_tail d circuit remote ip server vss enable_option82) (nz, l),
  refl,
  refl,
)

-- A message without relay address that carries option 82 from a circuit that is not trusted is
-- dropped without an error: the circuit is logged and no destination is set.
pub request_untrusted :
    (d : Dhcproto) (law : IsDhcproto d) (total : Encodes d) (addrs : List Ipv4Addr)
    (circuit remote : Option Bytes) (ip : Ipv4Addr) (server : SocketAddr) (vss : Option VssConfig)
    (enable_option82 : Bool) (m : d.Message) (f : Flow)
    → d.decode f.ctx.buffer ≡ ok m
    → d.giaddr m ≡ unspecified4
    → d.get_opt82 m ≢ none
    → f.ctx.is_trusted_circuit ≡ false
    → (g : Flow) × (execute (build_request d addrs circuit remote ip server vss enable_option82) f
        ≡ (ok false, g))
      × (g.log
          ≡ (f.log ++ untrusted_circuit f.ctx.interface ∷ []) ++ halted "dhcpv4::validate" ∷ [])
      × IsUnsent f g
unfolding execute build_request act_on validate_stage
request_untrusted d law total addrs circuit remote ip server vss enable_option82 m f h z o t = (
  _,
  decided d law total m f h addrs untrusted
      (request_tail d circuit remote ip server vss enable_option82) (z, o, t),
  refl,
  refl,
)

-- With option 82 enabled and an identifier configured, a message without relay address that
-- carries option 82 from a trusted circuit, in a context that is not marked as reforwarded, fails:
-- the option is already present, and no destination is set.
pub request_trusted_fails :
    (d : Dhcproto) (law : IsDhcproto d) (total : Encodes d) (addrs : List Ipv4Addr)
    (circuit remote : Option Bytes) (ip : Ipv4Addr) (server : SocketAddr) (vss : Option VssConfig)
    (m : d.Message) (f : Flow)
    → d.decode f.ctx.buffer ≡ ok m
    → f.ctx.is_reforwarded ≡ false
    → d.giaddr m ≡ unspecified4
    → (circuit ≢ none) ⊎ (remote ≢ none)
    → d.get_opt82 m ≢ none
    → f.ctx.is_trusted_circuit ≡ true
    → (g : Flow) × (execute (build_request d addrs circuit remote ip server vss true) f
        ≡ (err already_present, g))
      × IsUnsent f g
unfolding execute build_request act_on validate_stage
request_trusted_fails d law total addrs circuit remote ip server vss m f h r z c o t =
    let e = already_there d circuit remote m c o in
    (
      written d law total m f,
      decided d law total m f h addrs trusted_circuit
            (request_tail d circuit remote ip server vss true) (z, o, t)
          ∙ insert_fails d law total m f h addrs circuit remote already_present
              (request_last d ip server vss) r e,
      refl,
    )

-- With option 82 enabled and no identifier configured, a message without relay address and option
-- 82, in a context that is not marked as reforwarded, fails for want of a sub-option, and no
-- destination is set.
pub request_unconfigured_fails :
    (d : Dhcproto) (law : IsDhcproto d) (total : Encodes d) (addrs : List Ipv4Addr) (ip : Ipv4Addr)
    (server : SocketAddr) (vss : Option VssConfig) (m : d.Message) (f : Flow)
    → d.decode f.ctx.buffer ≡ ok m
    → f.ctx.is_reforwarded ≡ false
    → d.giaddr m ≡ unspecified4
    → d.get_opt82 m ≡ none
    → (g : Flow) × (execute (build_request d addrs none none ip server vss true) f
        ≡ (err no_sub_option, g))
      × IsUnsent f g
unfolding execute build_request act_on validate_stage
request_unconfigured_fails d law total addrs ip server vss m f h r z n =
    let e = nothing_configured d m in
    (
      written d law total m f,
      decided d law total m f h addrs first_relay (request_tail d none none ip server vss true)
            (z, n)
          ∙ insert_fails d law total m f h addrs none none no_sub_option
              (request_last d ip server vss) r e,
      refl,
    )
