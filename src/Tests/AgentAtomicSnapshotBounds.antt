-- ===== src/Tests/AgentAtomicSnapshotBounds.antt =====
-- The theorems of Agent/Atomic/Snapshot/Bounds.antt at concrete inputs.
use dhcp_relay_agent.Agent.{no_stats}
use dhcp_relay_agent.Agent.Atomic.Snapshot.{moment, snapshot}
use dhcp_relay_agent.Agent.Atomic.Snapshot.Bounds.{IsBetween, snapshot-IsBetween}
use dhcp_relay_agent.Tests.SamplesAgent.{no_stats-HasRoom, one_gap}

snapshot-IsBetween_example :
    IsBetween no_stats (moment one_gap no_stats 8) (snapshot one_gap no_stats)
snapshot-IsBetween_example = snapshot-IsBetween one_gap no_stats no_stats-HasRoom
