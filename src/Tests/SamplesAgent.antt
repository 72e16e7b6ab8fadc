-- ===== src/Tests/SamplesAgent.antt =====
-- The values that the tests of the agent's set-up and shutdown are about.
use dhcp_relay_agent.Common.{
  zero, suc, ◌++◌, ℕ, ◌+◌, ◌-◌, Bool, none, some, List, [], ◌∷◌, Result, ok, err, ◌≡◌, refl, arith,
  ascii, ◌==◌, nat_eq, if◌then◌else◌, replicate,
}
use dhcp_relay_agent.Net.{SocketAddr, socket, v4, v6, ipv6}
use dhcp_relay_agent.Net.Text.{split, octet, parse_ipv4}
use dhcp_relay_agent.Net.Text.RoundTrip.{show_octet}
use dhcp_relay_agent.Net.Socket.{number, parse_socket}
use dhcp_relay_agent.Error.{Text}
use dhcp_relay_agent.Config.{InterfaceConfig, RelayConfig, validate, validate_vss}
use dhcp_relay_agent.Transport.{Sockets, UdpTransport, buf_len, recv_from}
use dhcp_relay_agent.Agent.{no_stats}
use dhcp_relay_agent.Agent.Life.{RelayAgent, new, initial_tx}
use dhcp_relay_agent.Agent.Setup.{address_of}
use dhcp_relay_agent.Agent.Receive.{Task, v4_task, v6_task}
use dhcp_relay_agent.Agent.Atomic.{
  Effect, effects, effects_v4, effects_v6, counts_received, counts_forwarded,
}
use dhcp_relay_agent.Agent.Atomic.Snapshot.{HasRoom, accesses}
use dhcp_relay_agent.Agent.Atomic.Orders.{Interleaves, alternate, alternate-Interleaves}
use dhcp_relay_agent.Agent.Atomic.Interleaving.{Arrival, effects_of}
use dhcp_relay_agent.Agent.Watch.{Watch, IsWatch}
use dhcp_relay_agent.Agent.Spawn.{v6_bind_text}
use dhcp_relay_agent.Agent.Spawn.Loop.{Enabled, finished, served}
use dhcp_relay_agent.Agent.Spawn.Steps.{Place, Binds4, Binds6}
use dhcp_relay_agent.Agent.Spawn.Started.{Listener, HasSocket}
use dhcp_relay_agent.Agent.Running.{
  Move, round, call_shutdown, Starts, System, running, subscribed, cloned, moves,
}
use dhcp_relay_agent.Agent.Counted.{IsCounted}
use dhcp_relay_agent.Tests.Samples.{
  task, node, codec4, task4, interface4, relay_ip, some_config, fresh_bytes, client,
}
use dhcp_relay_agent.Tests.SamplesV6.{codec6, task6, peer, solicit_bytes}

-- Every bind succeeds, with the address that was asked for.
abbrev pub local : SocketAddr → Result Text SocketAddr
local a = ok a

abbrev pub sockets : Sockets
sockets earlier a = ok (local a)

abbrev pub transport : UdpTransport
transport = record { local_addr = ok client; buf = replicate buf_len 0 }

abbrev pub used_transport : UdpTransport
used_transport = (recv_from (ok (fresh_bytes, client)) transport).1

abbrev pub listener : Listener
listener = record { iface = interface4; ip = relay_ip; port = 67 }

pub listener-HasSocket : HasSocket listener interface4
unfolding show_octet number
listener-HasSocket = record {
  is_iface = refl;
  octets = record {
    a_byte = omega arith;
    b_byte = omega arith;
    c_byte = omega arith;
    d_byte = omega arith;
  };
  port_text = ascii "67";
  port = refl;
  address = refl;
}

-- An interface with an IPv6 address.
abbrev pub interface6 : InterfaceConfig
interface6 = record interface4 { ip_addr = ascii "[::1]:67" }

abbrev pub config6 : RelayConfig
config6 = record some_config { interfaces = interface4 ∷ interface6 ∷ [] }

abbrev pub udp_place : Place
udp_place = (interface4, socket (v4 relay_ip) 67)

abbrev pub udp_place_v6 : Place
udp_place_v6 = (interface6, socket (v6 (ipv6 0 0 0 0 0 0 0 1)) 67)

abbrev pub udp_place_547 : Place
udp_place_547 = (interface4, socket (v4 relay_ip) 547)

pub places4-Enabled : Enabled Binds4 (udp_place ∷ udp_place_v6 ∷ []) (interface4 ∷ interface6 ∷ [])
unfolding parse_socket octet parse_ipv4 number
places4-Enabled = served refl (refl, refl) (served refl (refl, refl) finished)

pub place6-Enabled : Enabled Binds6 (udp_place_547 ∷ []) (interface4 ∷ [])
unfolding parse_socket octet parse_ipv4 number v6_bind_text
place6-Enabled = served refl (refl, refl) finished

pub interface6-address : address_of interface6 ≡ none
unfolding address_of split octet parse_ipv4
interface6-address = refl

-- The channel of a value: how many receivers it has, and how many values were sent.
pub record Channel : Type 0 where
  pub count : ℕ
  pub sent : ℕ
  pub last : Bool

abbrev pub watch : Watch
watch = record {
  Sender = Channel;
  Receiver = ℕ;
  channel = λ b. (record { count = 1; sent = 0; last = b }, 0);
  subscribe = λ tx. (tx.sent, record tx { count = tx.count + 1 });
  clone = λ rx tx. (rx, record tx { count = tx.count + 1 });
  drop = λ rx tx. record tx { count = tx.count - 1 };
  send = λ b tx. if tx.count == 0 then tx else record tx { sent = tx.sent + 1; last = b };
  changed = λ rx tx. if rx == tx.sent then none else some tx.sent;
  value = λ tx. tx.last;
  receivers = λ tx. tx.count;
  version = λ tx. tx.sent;
  seen = λ rx. rx;
}

pub watch-IsWatch : IsWatch watch
watch-IsWatch = record {
  channel_receivers = λ b. refl;
  subscribe_receivers = λ tx. refl;
  subscribe_version = λ tx. refl;
  subscribe_seen = λ tx. refl;
  clone_receivers = λ rx tx. refl;
  clone_version = λ rx tx. refl;
  clone_seen = λ rx tx. refl;
  drop_receivers = λ rx tx. refl;
  drop_version = λ rx tx. refl;
  drop_value = λ rx tx. refl;
  send_nobody = λ b tx e. ground (arith, e);
  send_receivers = λ b tx. ground arith;
  send_version = λ b tx h. ground (arith, h);
  send_value = λ b tx h. ground (arith, h);
  changed_unseen = λ rx tx h. (tx.sent, ground (arith, h));
  changed_sees = λ rx rx' tx e. ground (arith, e);
  changed_seen = λ rx tx e. ground (arith, e);
}

abbrev pub task_of_v6 : Task
task_of_v6 = v6_task codec6 task6

abbrev pub earlier_moves : List Move
earlier_moves = round 0 (ok (fresh_bytes, client)) ∷ round 1 (err []) ∷ []

abbrev pub later_moves : List Move
later_moves = round 1 (ok (fresh_bytes, client)) ∷ round 0 (err []) ∷ []

abbrev pub new_agent : RelayAgent watch
new_agent = record {
  config = some_config;
  stats = no_stats;
  shutdown_tx = initial_tx watch;
  topology_provider = none;
  relay_selector = none;
}

pub new_agent-new : new watch some_config ≡ ok new_agent
unfolding new validate validate_vss
new_agent-new = refl

-- A client's message to each of the tasks, and their accesses by turns.
abbrev pub two_arrivals : List Arrival
two_arrivals =
    record { task = v4_task codec4 task4; data_bytes = fresh_bytes; src = client }
    ∷ record { task = v6_task codec6 task6; data_bytes = solicit_bytes; src = peer }
    ∷ []

abbrev pub by_turns : List Effect
by_turns =
    alternate (effects (v4_task codec4 task4) fresh_bytes client [])
      (effects (v6_task codec6 task6) solicit_bytes peer [])

pub two_arrivals-Interleaves : Interleaves (effects_of two_arrivals) by_turns
unfolding effects_of
two_arrivals-Interleaves =
    alternate-Interleaves (effects (v4_task codec4 task4) fresh_bytes client [])
      (effects (v6_task codec6 task6) solicit_bytes peer [])

-- Both tasks have counted their packets, and done nothing else yet.
abbrev pub both_received : List Effect
both_received = counts_received ∷ counts_received ∷ []

abbrev behind_first : List Effect → List Effect
behind_first [] = []
behind_first (e ∷ es) = es

abbrev pub to_come : List Effect
to_come =
    alternate (behind_first (effects (v4_task codec4 task4) fresh_bytes client []))
      (behind_first (effects (v6_task codec6 task6) solicit_bytes peer []))

pub both_received-Interleaves : Interleaves (effects_of two_arrivals) (both_received ++ to_come)
unfolding effects_of effects_v4 effects_v6
both_received-Interleaves =
    alternate-Interleaves (effects (v4_task codec4 task4) fresh_bytes client [])
      (effects (v6_task codec6 task6) solicit_bytes peer [])

-- A packet that is received and forwarded behind the load of the first counter.
abbrev pub one_gap : ℕ → List Effect
one_gap zero = counts_received ∷ counts_forwarded ∷ []
one_gap (suc k) = []

pub no_stats-HasRoom : HasRoom (accesses one_gap 8) no_stats
no_stats-HasRoom = record {
  received = omega arith;
  forwarded = omega arith;
  spoof = omega arith;
  stripped = omega arith;
}

-- The starts of the tasks: plain ones, and ones with packets between them.
abbrev pub starts4 : Starts
starts4 = record { tasks = ([], task) ∷ []; at_last = [] }

abbrev pub plain_starts6 : Starts
plain_starts6 = record { tasks = ([], task_of_v6) ∷ []; at_last = [] }

abbrev pub starts6 : Starts
starts6 = record {
  tasks = (round 0 (ok (fresh_bytes, client)) ∷ [], task_of_v6) ∷ [];
  at_last = round 0 (err []) ∷ [];
}

-- The signal comes before the DHCPv6 tasks.
abbrev pub early_shutdown : List Move
early_shutdown = call_shutdown ∷ round 0 (err []) ∷ []

abbrev pub just_started : System watch
just_started = running watch starts4 [] plain_starts6 (initial_tx watch) node

pub just_started-IsCounted : IsCounted just_started.node
unfolding running subscribed cloned moves
just_started-IsCounted = refl
