-- ===== src/V6/Reply.antt =====
-- The server-to-client pipeline of dhcp/v6/pipeline.rs from end to end.
use dhcp_relay_agent.Common.{
  ℕ, true, Option, none, some, List, [], ◌∷◌, ◌++◌, Bytes, ascii, ok, err, ◌≡◌, refl, ap, ◌∙◌,
  arith, list_eq, nat_eq, Bool-cases, inl, inr,
}
use dhcp_relay_agent.Common.Assoc
use dhcp_relay_agent.Net.{SocketAddr}
use dhcp_relay_agent.Error.{RelayError}
use dhcp_relay_agent.Config.{VssConfig}
use dhcp_relay_agent.Pipeline.{Flow, Stage, execute_stages, execute}
use dhcp_relay_agent.Pipeline.Execution.{after, execute_stages-cons, execute_stages-pass}
use dhcp_relay_agent.V6.Dhcproto.{DhcprotoV6}
use dhcp_relay_agent.V6.Naming.{IsFirstName, first_name-IsFirstName}
use dhcp_relay_agent.V6.RelayFwd.{decapsulate}
use dhcp_relay_agent.V6.Options.Vss
use dhcp_relay_agent.V6.Stages.{
  parse_stage, read_v6, first_name, put_interface, interface_id_extract_stage, vss_extract_stage,
  compare_vpn, relay_reply_stage, forward_stage, optional, build_reply,
}

module _ (d : DhcprotoV6) (m : d.Message) where
  compare_vpn-OnlyLogs :
      (vss : VssConfig) (found : Option (ℕ × Bytes)) (f : Flow)
      → ((compare_vpn vss found f).0 ≡ ok tt) × ((compare_vpn vss found f).1.ctx ≡ f.ctx)
  unfolding compare_vpn
  compare_vpn-OnlyLogs vss none f = (refl, refl)
  compare_vpn-OnlyLogs vss (some (vss_type, vss_info)) f = ground arith

  -- The message is read, and the context is as before.
  pub checked :
      (vss : Option VssConfig) (f : Flow) (rest : List Stage)
      → d.decode f.ctx.buffer ≡ ok m
      → (g : Flow) × (execute_stages
            (parse_stage d ∷ (optional vss (vss_extract_stage d) ++ rest))
            f
          ≡ execute_stages rest g)
        × (g.ctx ≡ f.ctx)
  checked vss f rest h =
      let parse =
        execute_stages-pass (parse_stage d) (optional vss (vss_extract_stage d) ++ rest) f f
          (unfold parse_stage read_v6 in ground (arith, h)) in
      let (g, e, same) = extracts vss in (g, parse ∙ e, same)
    where
      extracts :
          (vss : Option VssConfig)
          → (g : Flow) × (execute_stages (optional vss (vss_extract_stage d) ++ rest) f
              ≡ execute_stages rest g)
            × (g.ctx ≡ f.ctx)
      extracts none = (f, refl, refl)
      extracts (some vss) =
          let found = Vss.extract d (d.iter m) in
          let (e, same) = compare_vpn-OnlyLogs vss found f in
          elim (Bool-cases vss.enabled) [
            | inl en ↦
                let g = (compare_vpn vss found f).1 in
                (
                  g,
                  execute_stages-pass (vss_extract_stage d vss) rest f g
                      (unfold vss_extract_stage read_v6 in ground (arith, en, h, e)),
                  same,
                )
            | inr dis ↦ (
              f,
              execute_stages-pass (vss_extract_stage d vss) rest f f
                  (unfold vss_extract_stage in ground (arith, dis)),
              refl,
            )
          ]

-- The interface that a message names, or what the metadata had.
abbrev outbound_or : Option Bytes → List (Bytes × Bytes) → Option Bytes
outbound_or (some name) metadata = some name
outbound_or none metadata = Assoc.lookup (ascii "outbound_interface") metadata

-- What goes to the client: the inner message, to the given address, and in the metadata the name in
-- the first Interface-ID of the inner message that is UTF-8, if it has one.
pub record IsUnwrapped (d : DhcprotoV6) (inner : Bytes) (m : d.Message) (client : SocketAddr)
    (before after : Flow) : Type 0 where
  pub buffer : after.ctx.buffer ≡ inner
  pub destination : after.ctx.dst_addr ≡ some client
  pub name : Option Bytes
  pub is_first : IsFirstName (d.iter m) name
  pub outbound :
      Assoc.lookup (ascii "outbound_interface") after.ctx.metadata
      ≡ outbound_or name before.ctx.metadata

unfoldable named : Option Bytes → Flow → Flow
named none f = f
named (some name) f = record f {
  ctx = record f.ctx { metadata = Assoc.insert (ascii "outbound_interface") name f.ctx.metadata };
}

put_interface-named :
    (name : Option Bytes) (f : Flow) → put_interface name f ≡ (ok tt, named name f)
unfolding put_interface named
put_interface-named none f = refl
put_interface-named (some name) f = refl

abbrev with_buffer : Bytes → Flow → Flow
with_buffer b f = record f { ctx = record f.ctx { buffer = b } }

abbrev with_dst : SocketAddr → Flow → Flow
with_dst a f = record f { ctx = record f.ctx { dst_addr = some a } }

named-outbound :
    (name : Option Bytes) (f : Flow)
    → Assoc.lookup (ascii "outbound_interface") (named name f).ctx.metadata
      ≡ outbound_or name f.ctx.metadata
unfolding named
named-outbound none f = refl
named-outbound (some n) f = Assoc.lookup-insert_self (ascii "outbound_interface") n f.ctx.metadata

named-buffer : (name : Option Bytes) (f : Flow) → (named name f).ctx.buffer ≡ f.ctx.buffer
unfolding named
named-buffer none f = refl
named-buffer (some n) f = refl

reply-err :
    (x : RelayError) (f : Flow)
    → decapsulate f.ctx.buffer ≡ err x
    → relay_reply_stage.process f ≡ (err x, f)
unfolding relay_reply_stage
reply-err x f e = ground (arith, e)

abbrev last_stages : DhcprotoV6 → SocketAddr → List Stage
last_stages d client = relay_reply_stage ∷ interface_id_extract_stage d ∷ forward_stage client ∷ []

module _ (d : DhcprotoV6) (client : SocketAddr) where
  unwrapped :
      (m : d.Message) (inner : Bytes) (f : Flow)
      → decapsulate f.ctx.buffer ≡ ok inner
      → d.decode inner ≡ ok m
      → (g : Flow) × (execute_stages (last_stages d client) f ≡ (ok true, g))
        × IsUnwrapped d inner m client f g
  unwrapped m inner f e h =
      let name = first_name d (d.iter m) in
      let f1 = with_buffer inner f in
      let f2 = named name f1 in
      let extract = interface_id_extract_stage d in
      let forward = forward_stage client in
      (
        with_dst client f2,
        execute_stages-pass relay_reply_stage (extract ∷ forward ∷ []) f f1
              (unfold relay_reply_stage in ground (arith, e))
            ∙ execute_stages-pass extract (forward ∷ []) f1 f2 (
                unfold interface_id_extract_stage read_v6 in
                ground (arith, h, put_interface-named name f1))
            ∙ execute_stages-pass forward [] f2 (with_dst client f2) (unfold forward_stage in refl)
            ∙ unfold execute_stages in refl,
        record {
          buffer = named-buffer name f1;
          destination = refl;
          name = name;
          is_first = first_name-IsFirstName d (d.iter m);
          outbound = named-outbound name f1;
        },
      )

  not_unwrapped :
      (x : RelayError) (f : Flow)
      → decapsulate f.ctx.buffer ≡ err x
      → execute_stages (last_stages d client) f ≡ (err x, f)
  not_unwrapped x f e =
      execute_stages-cons relay_reply_stage
        (interface_id_extract_stage d ∷ forward_stage client ∷ []) f
      ∙ ap (after relay_reply_stage (interface_id_extract_stage d ∷ forward_stage client ∷ []))
          (reply-err x f e)

-- A reply that the codec reads, that can be unwrapped, and whose inner message the codec reads
-- goes to the client as that message: the pipeline returns true, with the inner message in the
-- buffer, the given destination, and in the metadata, as the outbound interface, the name in the
-- first of the inner message's Interface-IDs that is UTF-8; if there is none, the outbound interface
-- stays as it was.
pub reply_unwraps :
    (d : DhcprotoV6) (client : SocketAddr) (vss : Option VssConfig) (outer : d.Message)
    (m : d.Message) (inner : Bytes) (f : Flow)
    → d.decode f.ctx.buffer ≡ ok outer
    → decapsulate f.ctx.buffer ≡ ok inner
    → d.decode inner ≡ ok m
    → (g : Flow) × (execute (build_reply d client vss) f ≡ (ok true, g))
      × IsUnwrapped d inner m client f g
unfolding execute build_reply
reply_unwraps d client vss outer m inner f h e hi =
    let (g, ran, same) = checked d outer vss f (last_stages d client) h in
    let (g', ran', is) =
      unwrapped d client m inner g (ap (λ c. decapsulate c.buffer) same ∙ e) hi in
    (
      g',
      ran ∙ ran',
      record {
        buffer = is.buffer;
        destination = is.destination;
        name = is.name;
        is_first = is.is_first;
        outbound = is.outbound ∙ ap (λ c. outbound_or is.name c.metadata) same;
      },
    )

-- A reply that the codec reads and that cannot be unwrapped fails with the error of the
-- unwrapping, and its context stays as it was.
pub reply_fails :
    (d : DhcprotoV6) (client : SocketAddr) (vss : Option VssConfig) (outer : d.Message)
    (x : RelayError) (f : Flow)
    → d.decode f.ctx.buffer ≡ ok outer
    → decapsulate f.ctx.buffer ≡ err x
    → (g : Flow) × (execute (build_reply d client vss) f ≡ (err x, g)) × (g.ctx ≡ f.ctx)
unfolding execute build_reply
reply_fails d client vss outer x f h e =
    let (g, ran, same) = checked d outer vss f (last_stages d client) h in
    (g, ran ∙ not_unwrapped d client x g (ap (λ c. decapsulate c.buffer) same ∙ e), same)
