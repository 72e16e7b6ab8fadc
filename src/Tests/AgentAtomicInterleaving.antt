-- ===== src/Tests/AgentAtomicInterleaving.antt =====
-- The theorems of Agent/Atomic/Interleaving.antt at concrete inputs.
use mathlib.Core.List.{Perm}
use dhcp_relay_agent.Agent.Atomic.{sent_by, stats_after}
use dhcp_relay_agent.Agent.Atomic.Interleaving.{in_turn, in_turn-Interleaves}
use dhcp_relay_agent.Common.{◌++◌, ◌≡◌}
use dhcp_relay_agent.Tests.Samples.{node}
use dhcp_relay_agent.Tests.SamplesAgent.{by_turns, two_arrivals, two_arrivals-Interleaves}

in_turn-Interleaves_example :
    (stats_after by_turns node.stats ≡ (in_turn two_arrivals node).stats)
    × Perm (node.sent ++ sent_by by_turns) (in_turn two_arrivals node).sent
in_turn-Interleaves_example =
    in_turn-Interleaves two_arrivals node by_turns two_arrivals-Interleaves
