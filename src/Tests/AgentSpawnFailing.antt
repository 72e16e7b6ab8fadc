-- ===== src/Tests/AgentSpawnFailing.antt =====
-- The theorems of Agent/Spawn/Failing.antt at concrete inputs.
use dhcp_relay_agent.Agent.Setup.{address_of}
use dhcp_relay_agent.Agent.Spawn.{start_tasks, syntax_error}
use dhcp_relay_agent.Agent.Spawn.Failing.{start_tasks-ok, start_tasks-v6_address}
use dhcp_relay_agent.Agent.Spawn.Loop.{finished, grown, served}
use dhcp_relay_agent.Agent.Spawn.Started.{no_tasks, start_tasks-HasSocket}
use dhcp_relay_agent.Agent.Spawn.Steps.{addr_of, task4_at, task6_at}
use dhcp_relay_agent.Common.{[], ap, err, refl, some, ◌∷◌, ◌≡◌}
use dhcp_relay_agent.Error.{RelayError, text}
use dhcp_relay_agent.Net.{Ipv4Addr, SocketAddr}
use dhcp_relay_agent.Net.Socket.{parse_socket}
use dhcp_relay_agent.Tests.Samples.{codec4, interface4, some_config}
use dhcp_relay_agent.Tests.SamplesAgent.{
  config6, interface6, interface6-address, listener, listener-HasSocket, local, place6-Enabled,
  places4-Enabled, sockets, udp_place, udp_place_547, udp_place_v6,
}
use dhcp_relay_agent.Tests.SamplesV6.{codec6}

start_tasks-v6_address_example : start_tasks sockets codec4 codec6 config6 no_tasks ≡ (
  err (RelayError.config (text "invalid v6 IP: " ∷ syntax_error)),
  grown addr_of (task6_at sockets local codec4 codec6 config6) (udp_place_547 ∷ []) (
      grown addr_of
        (task4_at sockets local codec4 codec6 config6)
        (udp_place ∷ udp_place_v6 ∷ [])
        no_tasks),
)
start_tasks-v6_address_example =
    start_tasks-v6_address sockets local codec4 codec6 config6 (λ earlier a. refl)
      (udp_place ∷ udp_place_v6 ∷ []) (udp_place_547 ∷ []) interface6 (interface4 ∷ []) [] no_tasks
      refl places4-Enabled place6-Enabled refl interface6-address

start_tasks-ok_example :
    ((a : SocketAddr) × (parse_socket interface4.ip_addr ≡ some a))
    × ((ip : Ipv4Addr) × (address_of interface4 ≡ some ip))
start_tasks-ok_example =
    start_tasks-ok sockets codec4 codec6 some_config interface4 [] [] no_tasks (0 ∷ 1 ∷ []) refl
      refl
      (ap (λ r. r.0)
        (start_tasks-HasSocket sockets local codec4 codec6 some_config (listener ∷ [])
          (λ earlier a. refl) (served refl listener-HasSocket finished)))
