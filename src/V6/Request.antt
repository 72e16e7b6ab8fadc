-- ===== src/V6/Request.antt =====
-- The client-to-server pipeline of dhcp/v6/pipeline.rs from end to end.
use dhcp_relay_agent.Common.{
  ℕ, Bool, true, Option, some, List, [], ◌∷◌, ◌++◌, Bytes, ok, ◌≡◌, refl, ◌∙◌, list_eq, nat_eq,
  if◌then◌else◌,
}
use dhcp_relay_agent.Net.{Ipv6Addr, SocketAddr}
use dhcp_relay_agent.Config.{VssConfig}
use dhcp_relay_agent.Pipeline.{Flow, execute_stages, execute}
use dhcp_relay_agent.V6.Dhcproto.{DhcprotoV6, IsDhcprotoV6}
use dhcp_relay_agent.V6.RelayFwd.{encapsulate}
use dhcp_relay_agent.V6.Stages.{
  interface_id_stage, remote_id_stage, vss_insert_stage, relay_fwd_stage, forward_stage, optional,
  enabled, build_request,
}
use dhcp_relay_agent.V6.Extending.{
  same, EncodesV6, IsExtended, IsValidVss, vss_added, interface_id-Adds, remote_id-Adds,
  enabled-Adds, optional-Adds, parse-ok,
}

-- The last two stages.
send-ok :
    (link : Ipv6Addr) (peer server : SocketAddr) (f : Flow)
    → execute_stages (relay_fwd_stage link peer ∷ forward_stage server ∷ []) f ≡ (
      ok true,
      record f {
        ctx = record f.ctx { buffer = encapsulate f.ctx.buffer link peer; dst_addr = some server };
      },
    )
unfolding execute_stages relay_fwd_stage forward_stage
send-ok link peer server f = refl

-- The options that the relay adds, the last one first.
abbrev pub relay_options : Bytes → Bytes → Option VssConfig → Bool → Bool → List (ℕ × Bytes)
relay_options name id vss enable_interface_id enable_remote_id =
    let first = if enable_interface_id then (18, name) ∷ [] else [] in
    vss_added vss (if enable_remote_id then (37, id) ∷ first else first)

-- A client's message that can be decoded is relayed, if the VSS configuration is valid where it is
-- enabled: the pipeline returns true, and what is sent to the server is a Relay-forward, with the
-- link and peer addresses, around a message of the client's type that has the client's options in
-- their order and, between them, the enabled ones of Interface-ID, Remote-ID and VSS.
pub request_relays :
    (d : DhcprotoV6) (law : IsDhcprotoV6 d) (total : EncodesV6 d) (name id : Bytes)
    (link : Ipv6Addr) (peer server : SocketAddr) (vss : Option VssConfig)
    (enable_interface_id enable_remote_id : Bool) (m : d.Message) (f : Flow)
    → d.decode f.ctx.buffer ≡ ok m
    → IsValidVss vss
    → (g : Flow) × (inner : Bytes) × (execute
          (build_request d name id link peer server vss enable_interface_id enable_remote_id)
          f
        ≡ (ok true, g))
      × (g.ctx.buffer ≡ encapsulate inner link peer)
      × (g.ctx.dst_addr ≡ some server)
      × IsExtended d m (relay_options name id vss enable_interface_id enable_remote_id) inner
unfolding execute build_request
request_relays d law total name id link peer server vss enable_interface_id enable_remote_id m f h
      valid =
    let send = relay_fwd_stage link peer ∷ forward_stage server ∷ [] in
    let on_vss = optional vss (vss_insert_stage d) in
    let on_remote = enabled enable_remote_id (remote_id_stage d id) in
    let on_interface = enabled enable_interface_id (interface_id_stage d name) in
    let added1 = if enable_interface_id then (18, name) ∷ [] else [] in
    let added2 = if enable_remote_id then (37, id) ∷ added1 else added1 in
    let x0 : IsExtended d m [] f.ctx.buffer = record {
      message = m;
      decoded = h;
      msg_type = refl;
      options = same;
    } in
    let (f1, e1, x1) =
      enabled-Adds d law total m enable_interface_id (18, name) (interface_id_stage d name) [] f
        (interface_id-Adds d law total m name [] f) (on_remote ++ (on_vss ++ send)) x0 in
    let (f2, e2, x2) =
      enabled-Adds d law total m enable_remote_id (37, id) (remote_id_stage d id) added1 f1
        (remote_id-Adds d law total m id added1 f1) (on_vss ++ send) x1 in
    let (f3, e3, x3) = optional-Adds d law total m vss added2 f2 valid send x2 in
    (
      _,
      f3.ctx.buffer,
      parse-ok d law total m (on_interface ++ (on_remote ++ (on_vss ++ send))) f h
          ∙ e1
          ∙ e2
          ∙ e3
          ∙ send-ok link peer server f3,
      refl,
      refl,
      x3,
    )
