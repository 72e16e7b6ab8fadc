-- ===== src/Tests/AgentRunningShutdown.antt =====
-- The theorems of Agent/Running/Shutdown.antt at concrete inputs.
use dhcp_relay_agent.Agent.Life.{initial_tx, shutdown}
use dhcp_relay_agent.Agent.Running.{call_shutdown, is_running, moves, running, step}
use dhcp_relay_agent.Agent.Running.Shutdown.{call_shutdown-ends, running-shutdown}
use dhcp_relay_agent.Agent.Running.Stopping.{here, there}
use dhcp_relay_agent.Common.{false, ◌≡◌}
use dhcp_relay_agent.Tests.Samples.{node, some_config}
use dhcp_relay_agent.Tests.SamplesAgent.{
  earlier_moves, early_shutdown, later_moves, new_agent, new_agent-new, starts4, starts6, watch,
  watch-IsWatch,
}

call_shutdown-ends_example :
    let s =
      moves watch earlier_moves
        (running watch starts4 early_shutdown starts6 (initial_tx watch) node) in
    let s' = moves watch later_moves (step watch call_shutdown s) in
    (s'.node ≡ s.node) × (is_running watch s'.loops 0 ≡ false)
call_shutdown-ends_example =
    call_shutdown-ends watch watch-IsWatch starts4 early_shutdown starts6 (initial_tx watch) node
      earlier_moves later_moves 0 (there here)

running-shutdown_example :
    ((shutdown watch new_agent).shutdown_tx ≡ new_agent.shutdown_tx)
    × (moves watch earlier_moves
          (running watch starts4 earlier_moves starts6 (shutdown watch new_agent).shutdown_tx node)
        ≡ moves watch earlier_moves
            (running watch starts4 earlier_moves starts6 new_agent.shutdown_tx node))
running-shutdown_example =
    running-shutdown watch watch-IsWatch some_config new_agent starts4 earlier_moves starts6 node
      earlier_moves new_agent-new
