-- ===== src/Tests/V6Reply.antt =====
-- The theorems of V6/Reply.antt at concrete inputs.
use dhcp_relay_agent.Common.{ok, refl, true, ◌≡◌}
use dhcp_relay_agent.Pipeline.{Flow, execute}
use dhcp_relay_agent.Tests.Samples.{some_vss}
use dhcp_relay_agent.Tests.SamplesV6.{codec6, outer, outer_flow, peer, solicit, solicit_bytes}
use dhcp_relay_agent.V6.RelayFwd.{
  decapsulate, decapsulate_from, extract_from, extract_relay_msg, unwrap,
}
use dhcp_relay_agent.V6.Reply.{IsUnwrapped, reply_unwraps}
use dhcp_relay_agent.V6.Stages.{build_reply}
use dhcp_relay_agent.Tests.CodecV6 as CodecV6

reply_unwraps_example :
    (g : Flow) × (execute (build_reply codec6 peer some_vss) outer_flow ≡ (ok true, g))
    × IsUnwrapped codec6 solicit_bytes solicit peer outer_flow g
reply_unwraps_example =
    reply_unwraps codec6 peer some_vss outer solicit solicit_bytes outer_flow
      (unfold CodecV6.decode CodecV6.dec in refl)
      (unfold decapsulate decapsulate_from unwrap extract_relay_msg extract_from in refl)
      (unfold CodecV6.decode CodecV6.dec in refl)
