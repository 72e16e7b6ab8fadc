-- ===== src/Tests/AgentSpawnStarted.antt =====
-- The theorems of Agent/Spawn/Started.antt at concrete inputs.
use dhcp_relay_agent.Agent.Spawn.{start_tasks}
use dhcp_relay_agent.Agent.Spawn.Loop.{finished, places, served}
use dhcp_relay_agent.Agent.Spawn.Started.{no_tasks, place4, place6, start_tasks-HasSocket}
use dhcp_relay_agent.Agent.Spawn.Steps.{task4_at, task6_at}
use dhcp_relay_agent.Common.{[], length, map, ok, refl, ◌++◌, ◌+◌, ◌∷◌, ◌≡◌}
use dhcp_relay_agent.Tests.Samples.{codec4, some_config}
use dhcp_relay_agent.Tests.SamplesAgent.{listener, listener-HasSocket, local, sockets}
use dhcp_relay_agent.Tests.SamplesV6.{codec6}

start_tasks-HasSocket_example : start_tasks sockets codec4 codec6 some_config no_tasks ≡ (
  ok (places 0 (length (listener ∷ []) + length (listener ∷ []))),
  record {
    tried = map (λ l. (place4 l).1) (listener ∷ []) ++ map (λ l. (place6 l).1) (listener ∷ []);
    tasks =
        map (λ l. task4_at sockets local codec4 codec6 some_config (place4 l)) (listener ∷ [])
        ++ map (λ l. task6_at sockets local codec4 codec6 some_config (place6 l)) (listener ∷ []);
  },
)
start_tasks-HasSocket_example =
    start_tasks-HasSocket sockets local codec4 codec6 some_config (listener ∷ [])
      (λ earlier a. refl) (served refl listener-HasSocket finished)
