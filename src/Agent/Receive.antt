-- ===== src/Agent/Receive.antt =====
-- The loops of `spawn_v4_tasks` and `spawn_v6_tasks` in lib.rs: what is done with each packet, and
-- the end at a shutdown.
use dhcp_relay_agent.Common.{
  ℕ, Bool, true, false, Option, none, some, List, [], ◌∷◌, Bytes, ok, err, ◌==◌, nat_eq,
  if◌then◌else◌,
}
use dhcp_relay_agent.Net.{Ipv4Addr, SocketAddr}
use dhcp_relay_agent.Error.{RelayResult}
use dhcp_relay_agent.Config.{VssConfig}
use dhcp_relay_agent.V4.Dhcproto.{Dhcproto}
use dhcp_relay_agent.V4.Dhcproto
use dhcp_relay_agent.V4.Option82.{SubOption, agent_info, sub_opts}
use dhcp_relay_agent.V6.Dhcproto.{DhcprotoV6}
use dhcp_relay_agent.V6.Dhcproto as Messages6
use dhcp_relay_agent.V6.RelayFwd.{relay_repl}
use dhcp_relay_agent.Agent.{
  Node, count_received, handle_v4_client, handle_v4_server, handle_v6_client, handle_v6_server,
}

-- What a task of an interface keeps of the configuration: the fields of `V4SpawnContext`, and the
-- interface's name, its address and the server.
pub record V4Task : Type 0 where
  pub enable_option82 : Bool
  pub vss_enabled : Bool
  pub vss_cfg : VssConfig
  pub circuit_id : Option Bytes
  pub remote_id : Option Bytes
  pub local_addrs : List Ipv4Addr
  pub iface_name : Bytes
  pub iface_ip : Ipv4Addr
  pub server_addr : SocketAddr

-- The fields of `V6SpawnContext`, the interface's name, the server and `transport.local_addr()`.
pub record V6Task : Type 0 where
  pub enable_interface_id : Bool
  pub enable_remote_id : Bool
  pub vss_enabled : Bool
  pub vss_cfg : VssConfig
  pub remote_id : Bytes
  pub iface_name : Bytes
  pub server_addr : SocketAddr
  pub local_addr : RelayResult SocketAddr

-- `vss_enabled.then(|| vss_cfg.clone())`
abbrev pub vss_if : Bool → VssConfig → Option VssConfig
vss_if flag vss = if flag then some vss else none

unfoldable pub is_client4 : Option Dhcproto.MessageType → Bool
is_client4 (some Dhcproto.discover) = true
is_client4 (some Dhcproto.request) = true
is_client4 (some Dhcproto.inform) = true
is_client4 (some Dhcproto.decline) = true
is_client4 (some Dhcproto.release) = true
is_client4 (some (Dhcproto.other _)) = false
is_client4 none = false

unfoldable pub is_client6 : Messages6.MessageType → Bool
is_client6 (Messages6.other _) = false
is_client6 _ = true

-- The sub-options that a reply is expected to echo are taken from the reply.
unfoldable pub expected_sub_opts : (d : Dhcproto) → d.Message → Option (List SubOption)
expected_sub_opts d msg = elim (agent_info d msg) [
  | none ↦ none
  | some info ↦ some (sub_opts d info)
]

unfoldable pub receive_v4 : Dhcproto → V4Task → Bytes → SocketAddr → Node → Node
unfolding is_client4 expected_sub_opts
receive_v4 d t data_bytes src node =
    let counted = record node { stats = count_received node.stats } in
    let vss = vss_if t.vss_enabled t.vss_cfg in
    elim (d.decode data_bytes) [
      | err _ ↦ counted
      | ok msg ↦
          if is_client4 (d.msg_type msg)
          then handle_v4_client d data_bytes src t.iface_name t.iface_ip t.local_addrs t.circuit_id
              t.remote_id t.server_addr vss t.enable_option82 counted
          else handle_v4_server d data_bytes src t.iface_name (expected_sub_opts d msg) vss
              t.enable_option82 counted
    ]

-- `data.first().copied().unwrap_or(0)`
abbrev pub first_byte : Bytes → ℕ
first_byte [] = 0
first_byte (b ∷ _) = b

unfoldable pub receive_v6 : DhcprotoV6 → V6Task → Bytes → SocketAddr → Node → Node
unfolding is_client6
receive_v6 d t data_bytes src node =
    let counted = record node { stats = count_received node.stats } in
    let vss = vss_if t.vss_enabled t.vss_cfg in
    if first_byte data_bytes == relay_repl
    then handle_v6_server d data_bytes src t.iface_name vss counted
    else elim (d.decode data_bytes) [
      | err _ ↦ counted
      | ok msg ↦
          if is_client6 (d.msg_type msg)
          then handle_v6_client d t.local_addr data_bytes src t.iface_name t.remote_id t.server_addr
              vss t.enable_interface_id t.enable_remote_id counted
          else counted
    ]

-- What a round of the `select!` sees: a change of the shutdown signal, or what was received.
pub data Event : Type 0 where
  changed : Bool → Event
  received : Bytes → SocketAddr → Event
  receive_failed : Event

-- The loop ends at a signal that is set, and does nothing where there is no packet.
unfoldable pub run_task : (Bytes → SocketAddr → Node → Node) → List Event → Node → Node
run_task receive [] node = node
run_task receive (changed true ∷ _) node = node
run_task receive (changed false ∷ es) node = run_task receive es node
run_task receive (received data_bytes src ∷ es) node =
    run_task receive es (receive data_bytes src node)
run_task receive (receive_failed ∷ es) node = run_task receive es node

-- A task of one of the two kinds.
pub data Task : Type 1 where
  v4_task : Dhcproto → V4Task → Task
  v6_task : DhcprotoV6 → V6Task → Task

abbrev pub receive : Task → Bytes → SocketAddr → Node → Node
receive (v4_task d t) = receive_v4 d t
receive (v6_task d t) = receive_v6 d t
