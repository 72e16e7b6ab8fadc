-- ===== src/Tests/V4Reply.antt =====
-- The theorems of V4/Reply.antt at concrete inputs.
use dhcp_relay_agent.Common.{err, none, ok, refl, some, true, ◌≡◌}
use dhcp_relay_agent.Error.{RelayError}
use dhcp_relay_agent.Net.{SocketAddr}
use dhcp_relay_agent.Pipeline.{Flow, execute}
use dhcp_relay_agent.Tests.Samples.{
  codec4, codec4-Encodes, codec4-IsDhcproto, expected, info, reply, reply-differs, reply_flow,
  some_vss, unexpected,
}
use dhcp_relay_agent.V4.Build.{build_reply}
use dhcp_relay_agent.V4.Option82.{relay_info_to_sub_opt, sub_opts}
use dhcp_relay_agent.V4.Reply.{IsReplyAddr, WithoutOpt82, reply_echoed, reply_not_echoed}

reply_echoed_example :
    (g : Flow) × (execute (build_reply codec4 (some expected) some_vss true) reply_flow
      ≡ (ok true, g))
    × (codec4.decode g.ctx.buffer ≡ ok (codec4.remove_opt82 reply))
    × (a : SocketAddr) × (g.ctx.dst_addr ≡ some a)
    × IsReplyAddr (codec4.ciaddr reply) a
reply_echoed_example =
    reply_echoed codec4 codec4-IsDhcproto codec4-Encodes expected some_vss reply reply_flow info
      refl refl (unfold sub_opts relay_info_to_sub_opt in refl)

reply_not_echoed_example :
    ((g : Flow) × (execute (build_reply codec4 (some unexpected) some_vss true) reply_flow
        ≡ (err RelayError.option82_mismatch, g))
      × (g.ctx.dst_addr ≡ reply_flow.ctx.dst_addr))
    × ((g : Flow) × (execute (build_reply codec4 none some_vss true) reply_flow ≡ (ok true, g))
        × (m' : codec4.Message) × (codec4.decode g.ctx.buffer ≡ ok m')
        × WithoutOpt82 codec4 reply m'
        × (a : SocketAddr) × (g.ctx.dst_addr ≡ some a)
        × IsReplyAddr (codec4.ciaddr reply) a)
reply_not_echoed_example =
    reply_not_echoed codec4 codec4-IsDhcproto codec4-Encodes unexpected some_vss reply reply_flow
      refl reply-differs
