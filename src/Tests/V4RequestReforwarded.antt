-- ===== src/Tests/V4RequestReforwarded.antt =====
-- The theorems of V4/Request/Reforwarded.antt at concrete inputs.
use dhcp_relay_agent.Common.{arith, none, ok, refl, some, true, ◌≡◌}
use dhcp_relay_agent.Config.{validate_vss}
use dhcp_relay_agent.Pipeline.{Flow, execute}
use dhcp_relay_agent.Tests.Samples.{
  circuit, codec4, codec4-Encodes, codec4-IsDhcproto, foreign, foreign_flow, info, local_addrs,
  relay_ip, remote, server, vss,
}
use dhcp_relay_agent.V4.Build.{build_request}
use dhcp_relay_agent.V4.Request.Reforwarded.{request_reforwarded, request_reforwarded_vss, with_vss}

request_reforwarded_example :
    (g : Flow) × (execute
        (build_request codec4 local_addrs circuit remote relay_ip server none true)
        foreign_flow
      ≡ (ok true, g))
    × (codec4.decode g.ctx.buffer ≡ ok foreign)
    × (g.ctx.dst_addr ≡ some server)
request_reforwarded_example =
    request_reforwarded codec4 codec4-IsDhcproto codec4-Encodes local_addrs circuit remote relay_ip
      server true foreign foreign_flow refl (λ e. absurd (ground (arith, e)))
      ((λ e. absurd (ground (arith, e))), tt)

request_reforwarded_vss_example :
    (g : Flow) × (execute
        (build_request codec4 local_addrs circuit remote relay_ip server (some vss) true)
        foreign_flow
      ≡ (ok true, g))
    × (codec4.decode g.ctx.buffer
        ≡ ok (codec4.insert_opt (codec4.agent_option (with_vss codec4 vss info)) foreign))
    × (g.ctx.dst_addr ≡ some server)
request_reforwarded_vss_example =
    request_reforwarded_vss codec4 codec4-IsDhcproto codec4-Encodes local_addrs circuit remote
      relay_ip server vss true foreign foreign_flow info refl (λ e. absurd (ground (arith, e)))
      ((λ e. absurd (ground (arith, e))), tt) refl (unfold validate_vss in refl) refl
