-- ===== src/Tests/AgentAtomicMoments.antt =====
-- The theorems of Agent/Atomic/Moments.antt at concrete inputs.
use dhcp_relay_agent.Agent.{no_stats}
use dhcp_relay_agent.Agent.Atomic.{stats_after}
use dhcp_relay_agent.Agent.Atomic.Moments.{received_first}
use dhcp_relay_agent.Common.{arith, ◌+◌, ◌≤◌}
use dhcp_relay_agent.Tests.SamplesAgent.{
  both_received, both_received-Interleaves, to_come, two_arrivals,
}

received_first_example :
    (stats_after both_received no_stats).packets_forwarded
      + (stats_after both_received no_stats).packets_dropped_spoof
    ≤ (stats_after both_received no_stats).packets_received
received_first_example =
    received_first two_arrivals both_received to_come both_received-Interleaves (omega arith)
