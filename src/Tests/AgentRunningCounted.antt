-- ===== src/Tests/AgentRunningCounted.antt =====
-- The theorems of Agent/Running/Counted.antt at concrete inputs.
use dhcp_relay_agent.Agent.Counted.{IsCounted}
use dhcp_relay_agent.Agent.Running.{moves}
use dhcp_relay_agent.Agent.Running.Counted.{moves-IsCounted, moves-uncounted}
use dhcp_relay_agent.Agent.Uncounted.{uncounted}
use dhcp_relay_agent.Common.{◌≡◌}
use dhcp_relay_agent.Tests.SamplesAgent.{earlier_moves, just_started, just_started-IsCounted, watch}

moves-IsCounted_example : IsCounted (moves watch earlier_moves just_started).node
moves-IsCounted_example = moves-IsCounted watch earlier_moves just_started just_started-IsCounted

moves-uncounted_example :
    uncounted (moves watch earlier_moves just_started).node.stats
    ≡ uncounted just_started.node.stats
moves-uncounted_example = moves-uncounted watch earlier_moves just_started
