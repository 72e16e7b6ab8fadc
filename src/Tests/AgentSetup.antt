-- ===== src/Tests/AgentSetup.antt =====
-- The theorems of Agent/Setup.antt at concrete inputs.
use dhcp_relay_agent.Agent.Setup.{interface, no_interface, v4_task_of, v4_task_of-addresses}
use dhcp_relay_agent.Common.{◌≡◌}
use dhcp_relay_agent.Tests.Samples.{
  interface4, interface4-HasAddress, local_addrs, relay_ip, server, some_config,
}

v4_task_of-addresses_example :
    ((v4_task_of some_config interface4 server).local_addrs ≡ local_addrs)
    × ((v4_task_of some_config interface4 server).iface_ip ≡ relay_ip)
v4_task_of-addresses_example =
    v4_task_of-addresses some_config interface4 server relay_ip local_addrs
      (interface interface4-HasAddress no_interface) interface4-HasAddress
