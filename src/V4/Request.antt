-- ===== src/V4/Request.antt =====
-- The client-to-server pipeline of dhcp/v4/pipeline.rs from end to end: the packet of a client that
-- no relay has handled. The modules below have the other decisions about the relay address.
pub mod Rejected
pub mod Reforwarded
use dhcp_relay_agent.Common.{
  ℕ, Bool, true, false, Option, none, some, List, [], ◌∷◌, ◌++◌, Bytes, ascii, Result, ok, err, ◌≡◌,
  ◌≢◌, ◌⊎◌, refl, sym, ap, ◌∙◌, arith, list_eq, nat_eq,
}
use dhcp_relay_agent.Common.Assoc
use dhcp_relay_agent.Net.{Ipv4Addr, ipv4_eq, ipv4_beq_iff, unspecified4, SocketAddr}
use dhcp_relay_agent.Error.{Text, text, address, RelayError, RelayResult}
use dhcp_relay_agent.Config.{VssConfig}
use dhcp_relay_agent.Pipeline.{
  PipelineContext, Flow, Stage, execute_stages, execute, untrusted_circuit, spoof_detected, ◌>>=◌,
  halted,
}
use dhcp_relay_agent.Pipeline.Execution.{after, execute_stages-cons}
use dhcp_relay_agent.V4.Dhcproto.{Dhcproto, IsDhcproto}
use dhcp_relay_agent.V4.Option82
use dhcp_relay_agent.V4.Option82.{SubOption, sub_opts, agent_info}
use dhcp_relay_agent.V4.Option82.InsertStrip.{
  IsConfigured, new_info, new_info-IsConfigured, insert-eq-ok_iff,
}
use dhcp_relay_agent.V4.Giaddr
use dhcp_relay_agent.V4.Giaddr.{first_relay, trusted_circuit, reforwarded, spoof}
use dhcp_relay_agent.V4.Giaddr.{untrusted_circuit as untrusted}
use dhcp_relay_agent.V4.Giaddr.Decision.{Decides, IsForeign, validate_iff}
use dhcp_relay_agent.V4.Stages.{
  parse_stage, validate_stage, option82_insert_stage, vss_insert_stage, giaddr_stage, forward_stage,
  act_on,
}
use dhcp_relay_agent.V4.Build.{build_request}
use dhcp_relay_agent.V4.Holding.{
  Encodes, Holds, with_buffer, written, written-Holds, modify-ok, parse-ok, validate-acts,
  insert-ok, giaddr-ok,
}

-- The last stage sets the destination.
pub forward-ok :
    (server : SocketAddr) (f : Flow)
    → execute_stages (forward_stage server ∷ []) f
      ≡ (ok true, record f { ctx = record f.ctx { dst_addr = some server } })
unfolding execute_stages forward_stage
forward-ok server f = refl

module _ (d : Dhcproto) (law : IsDhcproto d) (total : Encodes d) where
  -- The stages after the parser and the validator.
  abbrev later_stages : Option Bytes → Option Bytes → Ipv4Addr → SocketAddr → List Stage
  later_stages circuit remote ip server =
      option82_insert_stage d circuit remote ∷ giaddr_stage d ip ∷ forward_stage server ∷ []

  -- Up to the validator's decision.
  pub validated :
      (m : d.Message) (f : Flow) (h : Holds d law total m f) (addrs : List Ipv4Addr)
      (ss : List Stage)
      → execute_stages (parse_stage d ∷ validate_stage d addrs ∷ ss) f
        ≡ after (validate_stage d addrs) ss (
            act_on d m
              (Giaddr.validate d m addrs f.ctx.is_trusted_circuit)
              (written d law total m f))
  validated m f h addrs ss =
      let s = parse_stage d in
      let v = validate_stage d addrs in
      let f' = written d law total m f in
      execute_stages-cons s (v ∷ ss) f
      ∙ ap (after s (v ∷ ss)) (parse-ok d law total m f h)
      ∙ execute_stages-cons v ss f'
      ∙ ap (after v ss) (validate-acts d law total m f' (written-Holds d law total m f) addrs)

  -- The message that a first relay sends on.
  abbrev with_option : Option Bytes → Option Bytes → d.Message → d.Message
  with_option circuit remote m = d.insert_opt (d.agent_option (new_info d law circuit remote)) m

  -- The context behind the insertion of option 82.
  abbrev inserted : Option Bytes → Option Bytes → d.Message → Flow → Flow
  inserted circuit remote m f = record f {
    ctx = record f.ctx {
      buffer = (total (with_option circuit remote m)).0;
      metadata = Assoc.insert (ascii "option82_inserted") (ascii "true") f.ctx.metadata;
    };
  }

  abbrev relayed : Option Bytes → Option Bytes → Ipv4Addr → SocketAddr → d.Message → Flow → Flow
  relayed circuit remote ip server m f =
      let g =
        written d law total (d.set_giaddr ip (with_option circuit remote m))
          (inserted circuit remote m f) in
      record g { ctx = record g.ctx { dst_addr = some server } }

  later_stages-eq :
      (circuit remote : Option Bytes) (ip : Ipv4Addr) (server : SocketAddr) (m : d.Message)
      (f : Flow)
      → Holds d law total m f
      → f.ctx.is_reforwarded ≡ false
      → Option82.insert d circuit remote m ≡ ok (with_option circuit remote m)
      → d.giaddr m ≡ unspecified4
      → execute_stages (later_stages circuit remote ip server) f
        ≡ (ok true, relayed circuit remote ip server m f)
  later_stages-eq circuit remote ip server m f h r e z =
      let m' = with_option circuit remote m in
      let f' = inserted circuit remote m f in
      let i = option82_insert_stage d circuit remote in
      let g = giaddr_stage d ip in
      let w = forward_stage server in
      execute_stages-cons i (g ∷ w ∷ []) f
      ∙ ap (after i (g ∷ w ∷ [])) (insert-ok d law total m f h circuit remote m' r e)
      ∙ execute_stages-cons g (w ∷ []) f'
      ∙ ap (after g (w ∷ [])) (
          giaddr-ok d law total m' f' (written-Holds d law total m' f) ip r
            (law.giaddr-insert_opt (new_info d law circuit remote) m ∙ z))
      ∙ forward-ok server (written d law total (d.set_giaddr ip m') f')

-- What a client's packet has become at the end of the pipeline: a message with the relay's address
-- and with option 82, which holds the configured sub-options, sent to the server.
pub record IsRelayed (d : Dhcproto) (circuit remote : Option Bytes) (ip : Ipv4Addr)
    (server : SocketAddr) (f : Flow) : Type 0 where
  pub message : d.Message
  pub decoded : d.decode f.ctx.buffer ≡ ok message
  pub relay : d.giaddr message ≡ ip
  pub info : d.AgentInfo
  pub option : agent_info d message ≡ some info
  pub options : IsConfigured circuit remote (sub_opts d info)
  pub destination : f.ctx.dst_addr ≡ some server

-- With option 82 enabled, an identifier configured and VSS not configured, a message without relay
-- address and option 82, in a context that is not marked as reforwarded, is relayed: the pipeline
-- returns true, and the message is sent to the server with the relay's address and with an option
-- 82 that holds exactly the configured sub-options.
pub request_first_relay :
    (d : Dhcproto) (law : IsDhcproto d) (total : Encodes d) (addrs : List Ipv4Addr)
    (circuit remote : Option Bytes) (ip : Ipv4Addr) (server : SocketAddr) (m : d.Message) (f : Flow)
    → d.decode f.ctx.buffer ≡ ok m
    → f.ctx.is_reforwarded ≡ false
    → d.giaddr m ≡ unspecified4
    → d.get_opt82 m ≡ none
    → (circuit ≢ none) ⊎ (remote ≢ none)
    → (g : Flow) × (execute (build_request d addrs circuit remote ip server none true) f
        ≡ (ok true, g))
      × IsRelayed d circuit remote ip server g
unfolding execute build_request act_on option82_insert_stage
request_first_relay d law total addrs circuit remote ip server m f h r z n some_id =
    let info = new_info d law circuit remote in
    let m' = with_option d law total circuit remote m in
    let first = (validate_iff d m addrs f.ctx.is_trusted_circuit first_relay).1 (z, n) in
    let e = (insert-eq-ok_iff d law circuit remote m m').1 (some_id, n, refl) in
    let ss = later_stages d law total circuit remote ip server in
    let f' = written d law total m f in
    (
      relayed d law total circuit remote ip server m f',
      validated d law total m f h addrs ss
          ∙ ap (λ x. after (validate_stage d addrs) ss (act_on d m x f')) first
          ∙ later_stages-eq d law total circuit remote ip server m f'
              (written-Holds d law total m f) r e z,
      record {
        message = d.set_giaddr ip m';
        decoded = written-Holds d law total (d.set_giaddr ip m') f;
        relay = law.giaddr-set_giaddr ip m';
        info = info;
        option = ground (
          arith,
          law.get_opt82-set_giaddr ip m',
          law.get_opt82-insert_opt info m,
          law.as_agent_option-agent_option info,
        );
        options = new_info-IsConfigured d law circuit remote;
        destination = refl;
      },
    )
