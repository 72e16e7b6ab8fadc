-- ===== src/Tests/AgentRunningWaiting.antt =====
-- The theorems of Agent/Running/Waiting.antt at concrete inputs.
use dhcp_relay_agent.Agent.Life.{initial_tx}
use dhcp_relay_agent.Agent.Running.{call_shutdown, moves, running, step, waited}
use dhcp_relay_agent.Agent.Running.Stopping.{here, there}
use dhcp_relay_agent.Agent.Running.Waiting.{run-returns, run-waits, run-waits_v6}
use dhcp_relay_agent.Common.{[], arith, none, ok, refl, some, ◌++◌, ◌∷◌, ◌≡◌}
use dhcp_relay_agent.Tests.Samples.{node}
use dhcp_relay_agent.Tests.SamplesAgent.{
  earlier_moves, early_shutdown, later_moves, starts4, starts6, watch, watch-IsWatch,
}

run-returns_example :
    let s =
      moves watch earlier_moves
        (running watch starts4 early_shutdown starts6 (initial_tx watch) node) in
    waited watch (0 ∷ 1 ∷ []) (moves watch later_moves (step watch call_shutdown s)).loops
    ≡ some (ok tt)
run-returns_example =
    run-returns watch watch-IsWatch starts4 early_shutdown starts6 (initial_tx watch) node
      earlier_moves later_moves (0 ∷ 1 ∷ []) (there here, (here, tt))

run-waits_v6_example :
    waited watch
      ((0 ∷ []) ++ 1 ∷ [])
      (moves watch earlier_moves
        (running watch starts4 early_shutdown starts6 (initial_tx watch) node)).loops
    ≡ none
run-waits_v6_example =
    run-waits_v6 watch watch-IsWatch starts4 early_shutdown starts6 (initial_tx watch) node
      earlier_moves (0 ∷ []) [] 1 ((refl, tt), refl) refl (omega arith) (omega arith)

run-waits_example :
    waited watch
      ((0 ∷ []) ++ 1 ∷ [])
      (moves watch earlier_moves
        (running watch starts4 earlier_moves starts6 (initial_tx watch) node)).loops
    ≡ none
run-waits_example =
    run-waits watch watch-IsWatch starts4 earlier_moves starts6 (initial_tx watch) node
      earlier_moves (0 ∷ []) [] 1 ((refl, tt), refl) refl ((refl, tt), refl) refl (omega arith)
