-- ===== src/Agent/Replies.antt =====
-- What becomes of the packets of servers and clients in the loops of lib.rs.
use dhcp_relay_agent.Common.{
  Bool, true, false, none, some, [], ◌∷◌, ◌++◌, Bytes, ok, ◌≡◌, ◌≢◌, ◌⊎◌, refl, arith,
}
use dhcp_relay_agent.Net.{SocketAddr, Ipv6Addr, unspecified4}
use dhcp_relay_agent.Agent.Wire.{
  IsIpv6Of, IsLinkOf, relay_forward, link_addr-IsLinkOf, peer_ip-IsIpv6Of,
  encapsulate-relay_forward,
}
use dhcp_relay_agent.Error.{RelayResult}
use dhcp_relay_agent.Pipeline.{Flow, execute, new_context}
use dhcp_relay_agent.V4.Dhcproto.{Dhcproto, IsDhcproto}
use dhcp_relay_agent.V4.Option82.{agent_info, sub_opts}
use dhcp_relay_agent.V4.Giaddr.Decision.{IsForeign}
use dhcp_relay_agent.V4.Build
use dhcp_relay_agent.V4.Holding.{Encodes}
use dhcp_relay_agent.V4.Request.{IsRelayed, request_first_relay}
use dhcp_relay_agent.V4.Request.Rejected.{request_spoof}
use dhcp_relay_agent.V4.Reply.{IsReplyAddr, reply_echoed}
use dhcp_relay_agent.V6.Dhcproto.{DhcprotoV6, IsDhcprotoV6}
use dhcp_relay_agent.V6.RelayFwd.{peer_ip, decapsulate, relay_repl}
use dhcp_relay_agent.V6.Extending.{EncodesV6, IsExtended, IsValidVss}
use dhcp_relay_agent.V6.Request.{relay_options, request_relays}
use dhcp_relay_agent.V6.Reply.{reply_unwraps}
use dhcp_relay_agent.V6.Stages as Stages6
use dhcp_relay_agent.Agent.{
  RelayStats, Node, send, finish, start, count_received, count_forwarded, count_stripped,
  count_spoof, handle_v4_client, handle_v4_server, handle_v6_server, handle_v6_client, link_addr,
}
use dhcp_relay_agent.Agent.Receive.{
  V4Task, V6Task, receive_v4, receive_v6, vss_if, is_client6, is_client4, expected_sub_opts,
  first_byte,
}

finish-sent :
    (on_true on_err : RelayStats → RelayStats) (x : RelayResult Bool × Flow) (node : Node)
    (f : Flow) (a : SocketAddr)
    → x ≡ (ok true, f)
    → f.ctx.dst_addr ≡ some a
    → (finish on_true on_err x node).sent ≡ node.sent ++ (f.ctx.buffer, a) ∷ []
unfolding finish send
finish-sent on_true on_err x node f a e s = ground (arith, e, s)

-- With option 82 enabled, a DHCPv4 message that is no client's and carries the option is sent on
-- to its client without it, whatever sub-options it holds.
pub receive_v4-reply :
    (d : Dhcproto) (law : IsDhcproto d) (total : Encodes d) (t : V4Task) (data_bytes : Bytes)
    (src : SocketAddr) (node : Node) (m : d.Message) (info : d.AgentInfo)
    → d.decode data_bytes ≡ ok m
    → is_client4 (d.msg_type m) ≡ false
    → t.enable_option82 ≡ true
    → agent_info d m ≡ some info
    → (b : Bytes) × (a : SocketAddr) × ((receive_v4 d t data_bytes src node).sent
        ≡ node.sent ++ (b, a) ∷ [])
      × (d.decode b ≡ ok (d.remove_opt82 m))
      × IsReplyAddr (d.ciaddr m) a
unfolding receive_v4 handle_v4_server expected_sub_opts new_context
receive_v4-reply d law total t data_bytes src node m info h c en has =
    let counted = record node { stats = count_received node.stats } in
    let f = start data_bytes src t.iface_name counted in
    let vss = vss_if t.vss_enabled t.vss_cfg in
    let expected = sub_opts d info in
    let (g, ran, decoded, a, dst, is) = reply_echoed d law total expected vss m f info h has refl in
    let stats = λ (s : RelayStats). count_stripped (count_forwarded s) in
    let p = Build.build_reply d (some expected) vss true in
    let same = λ (s : RelayStats). s in
    (
      g.ctx.buffer,
      a,
      ground (arith, h, c, en, has, finish-sent stats same (execute p f) counted g a ran dst),
      decoded,
      is,
    )

-- A client's message that can be decoded and has neither a relay address nor option 82 is sent to
-- the server, with the relay's address and an option 82 that holds exactly the configured
-- sub-options, if option 82 is enabled with an identifier and VSS is not enabled.
pub receive_v4-first_relay :
    (d : Dhcproto) (law : IsDhcproto d) (total : Encodes d) (t : V4Task) (data_bytes : Bytes)
    (src : SocketAddr) (node : Node) (m : d.Message)
    → d.decode data_bytes ≡ ok m
    → is_client4 (d.msg_type m) ≡ true
    → t.enable_option82 ≡ true
    → t.vss_enabled ≡ false
    → (t.circuit_id ≢ none) ⊎ (t.remote_id ≢ none)
    → d.giaddr m ≡ unspecified4
    → d.get_opt82 m ≡ none
    → (g : Flow) × ((receive_v4 d t data_bytes src node).sent
        ≡ node.sent ++ (g.ctx.buffer, t.server_addr) ∷ [])
      × IsRelayed d t.circuit_id t.remote_id t.iface_ip t.server_addr g
unfolding receive_v4 handle_v4_client new_context
receive_v4-first_relay d law total t data_bytes src node m h c en off some_id z n =
    let counted = record node { stats = count_received node.stats } in
    let f = start data_bytes src t.iface_name counted in
    let (g, ran, is) =
      request_first_relay d law total t.local_addrs t.circuit_id t.remote_id t.iface_ip
        t.server_addr m f h refl z n some_id in
    let p =
      Build.build_request d t.local_addrs t.circuit_id t.remote_id t.iface_ip t.server_addr none
        true in
    let sent =
      finish-sent count_forwarded count_spoof (execute p f) counted g t.server_addr ran
        is.destination in
    (g, ground (arith, h, c, en, off, sent), is)

-- A client's message that can be decoded and has a relay address that is local is not sent, and it
-- is counted as received and as a spoof.
pub receive_v4-spoof :
    (d : Dhcproto) (law : IsDhcproto d) (total : Encodes d) (t : V4Task) (data_bytes : Bytes)
    (src : SocketAddr) (node : Node) (m : d.Message)
    → d.decode data_bytes ≡ ok m
    → is_client4 (d.msg_type m) ≡ true
    → d.giaddr m ≢ unspecified4
    → ¬ IsForeign (d.giaddr m) t.local_addrs
    → ((receive_v4 d t data_bytes src node).sent ≡ node.sent)
      × ((receive_v4 d t data_bytes src node).stats ≡ count_spoof (count_received node.stats))
unfolding receive_v4 handle_v4_client new_context finish
receive_v4-spoof d law total t data_bytes src node m h c nz l =
    let counted = record node { stats = count_received node.stats } in
    let f = start data_bytes src t.iface_name counted in
    let vss = vss_if t.vss_enabled t.vss_cfg in
    let (g, ran, logged, unsent) =
      request_spoof d law total t.local_addrs t.circuit_id t.remote_id t.iface_ip t.server_addr vss
        t.enable_option82 m f h nz l in
    (ground (arith, h, c, ran), ground (arith, h, c, ran))

-- A Relay-reply that the codec reads, that can be unwrapped, and whose inner message the codec
-- reads is sent, as the inner message, to the address that it came from.
pub receive_v6-reply :
    (d : DhcprotoV6) (t : V6Task) (data_bytes : Bytes) (src : SocketAddr) (node : Node)
    (outer m : d.Message) (inner : Bytes)
    → first_byte data_bytes ≡ relay_repl
    → d.decode data_bytes ≡ ok outer
    → decapsulate data_bytes ≡ ok inner
    → d.decode inner ≡ ok m
    → (receive_v6 d t data_bytes src node).sent ≡ node.sent ++ (inner, src) ∷ []
unfolding receive_v6 handle_v6_server new_context
receive_v6-reply d t data_bytes src node outer m inner first h e hi =
    let counted = record node { stats = count_received node.stats } in
    let f = start data_bytes src t.iface_name counted in
    let vss = vss_if t.vss_enabled t.vss_cfg in
    let (g, ran, is) = reply_unwraps d src vss outer m inner f h e hi in
    let same = λ (s : RelayStats). s in
    let p = Stages6.build_reply d src vss in
    let sent = finish-sent count_forwarded same (execute p f) counted g src ran is.destination in
    ground (arith, first, sent, is.buffer)

-- A client's message that the codec reads, and that does not begin with the byte of a Relay-reply,
-- is sent to the server as the option of a Relay-forward, if the VSS configuration is valid where it
-- is enabled. Its link address is that of the task's socket and its peer address is the packet's
-- source, each if it is an IPv6 one, and `::` otherwise. Inside is a message of the same type that
-- has the client's options in their order and, between them, the enabled ones of Interface-ID,
-- Remote-ID and VSS.
pub receive_v6-client :
    (d : DhcprotoV6) (law : IsDhcprotoV6 d) (total : EncodesV6 d) (t : V6Task) (data_bytes : Bytes)
    (src : SocketAddr) (node : Node) (m : d.Message)
    → first_byte data_bytes ≢ relay_repl
    → d.decode data_bytes ≡ ok m
    → is_client6 (d.msg_type m) ≡ true
    → IsValidVss (vss_if t.vss_enabled t.vss_cfg)
    → (inner : Bytes) × (link_address : Ipv6Addr) × (peer_address : Ipv6Addr) × ((receive_v6 d t
          data_bytes src node).sent
        ≡ node.sent ++ (relay_forward link_address peer_address inner, t.server_addr) ∷ [])
      × IsLinkOf t.local_addr link_address
      × IsIpv6Of src.ip peer_address
      × IsExtended d m
          (relay_options t.iface_name t.remote_id
            (vss_if t.vss_enabled t.vss_cfg)
            t.enable_interface_id
            t.enable_remote_id)
          inner
unfolding receive_v6 handle_v6_client new_context
receive_v6-client d law total t data_bytes src node m first h c valid =
    let counted = record node { stats = count_received node.stats } in
    let f = start data_bytes src t.iface_name counted in
    let vss = vss_if t.vss_enabled t.vss_cfg in
    let link = link_addr t.local_addr in
    let (g, inner, ran, buffer, dst, is) =
      request_relays d law total t.iface_name t.remote_id link src t.server_addr vss
        t.enable_interface_id t.enable_remote_id m f h valid in
    let same = λ (s : RelayStats). s in
    let p =
      Stages6.build_request d t.iface_name t.remote_id link src t.server_addr vss
        t.enable_interface_id t.enable_remote_id in
    let sent = finish-sent count_forwarded same (execute p f) counted g t.server_addr ran dst in
    (
      inner,
      link,
      peer_ip src,
      ground (arith, first, h, c, sent, buffer, encapsulate-relay_forward inner link src),
      link_addr-IsLinkOf t.local_addr,
      peer_ip-IsIpv6Of src,
      is,
    )
