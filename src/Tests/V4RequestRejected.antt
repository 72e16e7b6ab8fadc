-- ===== src/Tests/V4RequestRejected.antt =====
-- The theorems of V4/Request/Rejected.antt at concrete inputs.
use dhcp_relay_agent.Common.{[], arith, err, false, inl, none, ok, refl, true, ◌++◌, ◌∷◌, ◌≡◌}
use dhcp_relay_agent.Pipeline.{Flow, execute, halted, untrusted_circuit}
use dhcp_relay_agent.Tests.Samples.{
  carrying, carrying_flow, circuit, codec4, codec4-Encodes, codec4-IsDhcproto, fresh, fresh_flow,
  local_addrs, relay_ip, remote, server, some_vss, trusted_flow,
}
use dhcp_relay_agent.V4.Build.{build_request}
use dhcp_relay_agent.V4.Option82.{already_present, no_sub_option}
use dhcp_relay_agent.V4.Request.Rejected.{
  IsUnsent, request_trusted_fails, request_unconfigured_fails, request_untrusted,
}

request_untrusted_example :
    (g : Flow) × (execute
        (build_request codec4 local_addrs circuit remote relay_ip server some_vss true)
        carrying_flow
      ≡ (ok false, g))
    × (g.log
        ≡ (carrying_flow.log ++ untrusted_circuit carrying_flow.ctx.interface ∷ [])
          ++ halted "dhcpv4::validate" ∷ [])
    × IsUnsent carrying_flow g
request_untrusted_example =
    request_untrusted codec4 codec4-IsDhcproto codec4-Encodes local_addrs circuit remote relay_ip
      server some_vss true carrying carrying_flow refl refl (λ e. absurd (ground (arith, e))) refl

request_trusted_fails_example :
    (g : Flow) × (execute
        (build_request codec4 local_addrs circuit remote relay_ip server some_vss true)
        trusted_flow
      ≡ (err already_present, g))
    × IsUnsent trusted_flow g
request_trusted_fails_example =
    request_trusted_fails codec4 codec4-IsDhcproto codec4-Encodes local_addrs circuit remote
      relay_ip server some_vss carrying trusted_flow refl refl refl
      (inl (λ e. absurd (ground (arith, e)))) (λ e. absurd (ground (arith, e))) refl

request_unconfigured_fails_example :
    (g : Flow) × (execute
        (build_request codec4 local_addrs none none relay_ip server some_vss true)
        fresh_flow
      ≡ (err no_sub_option, g))
    × IsUnsent fresh_flow g
request_unconfigured_fails_example =
    request_unconfigured_fails codec4 codec4-IsDhcproto codec4-Encodes local_addrs relay_ip server
      some_vss fresh fresh_flow refl refl refl refl
