-- ===== src/Tests/AgentReplies.antt =====
-- The theorems of Agent/Replies.antt at concrete inputs.
use dhcp_relay_agent.Agent.{count_received, count_spoof}
use dhcp_relay_agent.Agent.Receive.{is_client4, is_client6, receive_v4, receive_v6, vss_if}
use dhcp_relay_agent.Agent.Replies.{
  receive_v4-first_relay, receive_v4-reply, receive_v4-spoof, receive_v6-client, receive_v6-reply,
}
use dhcp_relay_agent.Agent.Wire.{IsIpv6Of, IsLinkOf, relay_forward}
use dhcp_relay_agent.Common.{Bytes, [], arith, inl, ok, refl, ◌++◌, ◌∷◌, ◌≡◌}
use dhcp_relay_agent.Net.{Ipv6Addr, SocketAddr}
use dhcp_relay_agent.Pipeline.{Flow}
use dhcp_relay_agent.Tests.Samples.{
  client, codec4, codec4-Encodes, codec4-IsDhcproto, fresh, fresh_bytes, info, node, reply,
  reply_bytes, server, spoofed, spoofed_bytes, task4,
}
use dhcp_relay_agent.Tests.SamplesV6.{
  codec6, codec6-Encodes, codec6-IsDhcprotoV6, outer, outer_bytes, peer, server6, solicit,
  solicit_bytes, task6,
}
use dhcp_relay_agent.V4.Reply.{IsReplyAddr}
use dhcp_relay_agent.V4.Request.{IsRelayed}
use dhcp_relay_agent.V6.Extending.{IsExtended}
use dhcp_relay_agent.V6.RelayFwd.{
  decapsulate, decapsulate_from, extract_from, extract_relay_msg, unwrap,
}
use dhcp_relay_agent.V6.Request.{relay_options}
use dhcp_relay_agent.Tests.CodecV6 as CodecV6

receive_v4-first_relay_example :
    (g : Flow) × ((receive_v4 codec4 task4 fresh_bytes client node).sent
      ≡ node.sent ++ (g.ctx.buffer, task4.server_addr) ∷ [])
    × IsRelayed codec4 task4.circuit_id task4.remote_id task4.iface_ip task4.server_addr g
receive_v4-first_relay_example =
    receive_v4-first_relay codec4 codec4-IsDhcproto codec4-Encodes task4 fresh_bytes client node
      fresh refl (unfold is_client4 in refl) refl refl (inl (λ e. absurd (ground (arith, e)))) refl
      refl

receive_v4-spoof_example :
    ((receive_v4 codec4 task4 spoofed_bytes client node).sent ≡ node.sent)
    × ((receive_v4 codec4 task4 spoofed_bytes client node).stats
        ≡ count_spoof (count_received node.stats))
receive_v4-spoof_example =
    receive_v4-spoof codec4 codec4-IsDhcproto codec4-Encodes task4 spoofed_bytes client node spoofed
      refl (unfold is_client4 in refl) (λ e. absurd (ground (arith, e))) (λ h. h.0 refl)

receive_v6-client_example :
    (inner : Bytes) × (link_address : Ipv6Addr) × (peer_address : Ipv6Addr) × ((receive_v6 codec6
        task6 solicit_bytes peer node).sent
      ≡ node.sent ++ (relay_forward link_address peer_address inner, task6.server_addr) ∷ [])
    × IsLinkOf task6.local_addr link_address
    × IsIpv6Of peer.ip peer_address
    × IsExtended codec6 solicit
        (relay_options task6.iface_name task6.remote_id
          (vss_if task6.vss_enabled task6.vss_cfg)
          task6.enable_interface_id
          task6.enable_remote_id)
        inner
receive_v6-client_example =
    receive_v6-client codec6 codec6-IsDhcprotoV6 codec6-Encodes task6 solicit_bytes peer node
      solicit (λ e. absurd (omega (arith, e))) (unfold CodecV6.decode CodecV6.dec in refl)
      (unfold is_client6 in refl) tt

receive_v4-reply_example :
    (b : Bytes) × (a : SocketAddr) × ((receive_v4 codec4 task4 reply_bytes server node).sent
      ≡ node.sent ++ (b, a) ∷ [])
    × (codec4.decode b ≡ ok (codec4.remove_opt82 reply))
    × IsReplyAddr (codec4.ciaddr reply) a
receive_v4-reply_example =
    receive_v4-reply codec4 codec4-IsDhcproto codec4-Encodes task4 reply_bytes server node reply
      info refl (unfold is_client4 in refl) refl refl

receive_v6-reply_example :
    (receive_v6 codec6 task6 outer_bytes server6 node).sent
    ≡ node.sent ++ (solicit_bytes, server6) ∷ []
receive_v6-reply_example =
    receive_v6-reply codec6 task6 outer_bytes server6 node outer solicit solicit_bytes refl
      (unfold CodecV6.decode CodecV6.dec in refl)
      (unfold decapsulate decapsulate_from unwrap extract_relay_msg extract_from in refl)
      (unfold CodecV6.decode CodecV6.dec in refl)
