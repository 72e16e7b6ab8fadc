-- ===== src/Agent/Atomic/Performing.antt =====
-- The tasks of lib.rs do to the shared state what the list of a packet's effects says.
use dhcp_relay_agent.Common.{
  Bool, true, false, List, [], ◌∷◌, ◌++◌, Bytes, ok, err, ◌≡◌, refl, sym, arith, append-nil,
  Bool-cases, Option-cases, Result-cases, inl, inr, ◌==◌, nat_eq,
}
use dhcp_relay_agent.Net.{SocketAddr}
use dhcp_relay_agent.Error.{RelayResult}
use dhcp_relay_agent.Pipeline.{Flow}
use dhcp_relay_agent.V4.Dhcproto.{Dhcproto}
use dhcp_relay_agent.V6.Dhcproto.{DhcprotoV6}
use dhcp_relay_agent.V6.RelayFwd.{relay_repl}
use dhcp_relay_agent.Agent.{
  RelayStats, Node, send, finish, count_received, count_forwarded, count_spoof, count_stripped,
  handle_v4_client, handle_v4_server, handle_v6_client, handle_v6_server,
}
use dhcp_relay_agent.Agent.Receive.{
  Task, v4_task, v6_task, receive, V4Task, V6Task, receive_v4, receive_v6, is_client4, is_client6,
  first_byte,
}
use dhcp_relay_agent.Agent.Atomic.{
  Effect, counts_received, on_stats, stats_after, sent_by, sending, after_v4_client,
  after_v4_server, after_v6, effects_v4, effects_v6, effects,
}

-- A node after these effects, in their order.
pub record Performs (es : List Effect) (node node' : Node) : Type 0 where
  pub stats : node'.stats ≡ stats_after es node.stats
  pub sent : node'.sent ≡ node.sent ++ sent_by es

sending-stats : (f : Flow) (s : RelayStats) → stats_after (sending f.ctx) s ≡ s
unfolding stats_after on_stats
sending-stats f s = elim (Option-cases f.ctx.dst_addr) [ inl n ↦ rw n | inr (dst, e) ↦ rw e ]

sending-sent :
    (f : Flow) (sent : List (Bytes × SocketAddr))
    → send f.ctx sent ≡ sent ++ sent_by (sending f.ctx)
unfolding send sent_by
sending-sent f sent = elim (Option-cases f.ctx.dst_addr) [
  | inl n ↦ ground (arith, n, append-nil sent)
  | inr (dst, e) ↦ ground (arith, e)
]

client4-Performs :
    (x : RelayResult Bool × Flow) (node : Node)
    → Performs (after_v4_client x) node (finish count_forwarded count_spoof x node)
unfolding after_v4_client finish stats_after sent_by on_stats
client4-Performs (ok true, f) node = record {
  stats = sym (sending-stats f _);
  sent = sending-sent f node.sent;
}
client4-Performs (ok false, f) node = record { stats = refl; sent = sym (append-nil node.sent) }
client4-Performs (err x, f) node = record { stats = refl; sent = sym (append-nil node.sent) }

server4-Performs :
    (x : RelayResult Bool × Flow) (node : Node)
    → Performs
        (after_v4_server x)
        node
        (finish (λ s. count_stripped (count_forwarded s)) (λ s. s) x node)
unfolding after_v4_server finish stats_after sent_by on_stats
server4-Performs (ok true, f) node = record {
  stats = sym (sending-stats f _);
  sent = sending-sent f node.sent;
}
server4-Performs (ok false, f) node = record { stats = refl; sent = sym (append-nil node.sent) }
server4-Performs (err x, f) node = record { stats = refl; sent = sym (append-nil node.sent) }

v6-Performs :
    (x : RelayResult Bool × Flow) (node : Node)
    → Performs (after_v6 x) node (finish count_forwarded (λ s. s) x node)
unfolding after_v6 finish stats_after sent_by on_stats
v6-Performs (ok true, f) node = record {
  stats = sym (sending-stats f _);
  sent = sending-sent f node.sent;
}
v6-Performs (ok false, f) node = record { stats = refl; sent = sym (append-nil node.sent) }
v6-Performs (err x, f) node = record { stats = refl; sent = sym (append-nil node.sent) }

pub nothing-Performs : (node : Node) → Performs [] node node
unfolding stats_after sent_by
nothing-Performs node = record { stats = refl; sent = sym (append-nil node.sent) }

-- The packet is counted first.
received-Performs :
    (es : List Effect) (node node' : Node)
    → Performs es (record node { stats = count_received node.stats }) node'
    → Performs (counts_received ∷ es) node node'
unfolding stats_after sent_by on_stats
received-Performs es node node' h = record { stats = h.stats; sent = h.sent }

module _ (data_bytes : Bytes) (src : SocketAddr) (node : Node) where
  abbrev counted : Node
  counted = record node { stats = count_received node.stats }

  receive_v4-Performs :
      (d : Dhcproto) (t : V4Task)
      → Performs (effects_v4 d t data_bytes src node.log) node (receive_v4 d t data_bytes src node)
  unfolding receive_v4 effects_v4 handle_v4_client handle_v4_server
  receive_v4-Performs d t = received-Performs _ node _ (elim (Result-cases (d.decode data_bytes)) [
    | inl (m, e) ↦ elim (Bool-cases (is_client4 (d.msg_type m))) [
      | inl y ↦ rw (e, y, receive_v4) (client4-Performs _ counted)
      | inr n ↦ rw (e, n, receive_v4) (server4-Performs _ counted)
    ]
    | inr (x, e) ↦ rw (e, receive_v4) (nothing-Performs counted)
  ])

  receive_v6-Performs :
      (d : DhcprotoV6) (t : V6Task)
      → Performs (effects_v6 d t data_bytes src node.log) node (receive_v6 d t data_bytes src node)
  unfolding receive_v6 effects_v6 handle_v6_client handle_v6_server
  receive_v6-Performs d t =
      received-Performs _ node _ (elim (Bool-cases (first_byte data_bytes == relay_repl)) [
        | inl y ↦ rw (y, receive_v6) (v6-Performs _ counted)
        | inr n ↦ elim (Result-cases (d.decode data_bytes)) [
          | inl (m, e) ↦ elim (Bool-cases (is_client6 (d.msg_type m))) [
            | inl y ↦ rw (n, e, y, receive_v6) (v6-Performs _ counted)
            | inr z ↦ rw (n, e, z, receive_v6) (nothing-Performs counted)
          ]
          | inr (x, e) ↦ rw (n, e, receive_v6) (nothing-Performs counted)
        ]
      ])

pub receive-Performs :
    (t : Task) (data_bytes : Bytes) (src : SocketAddr) (node : Node)
    → Performs (effects t data_bytes src node.log) node (receive t data_bytes src node)
receive-Performs (v4_task d t) data_bytes src node = receive_v4-Performs data_bytes src node d t
receive-Performs (v6_task d t) data_bytes src node = receive_v6-Performs data_bytes src node d t
