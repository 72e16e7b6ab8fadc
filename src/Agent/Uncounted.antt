-- ===== src/Agent/Uncounted.antt =====
-- The counters of lib.rs that no code increments.
use dhcp_relay_agent.Common.{
  ℕ, Bool, true, false, Bytes, ok, err, ◌≡◌, refl, Result-cases, Bool-cases, inl, inr, ◌==◌, nat_eq,
}
use dhcp_relay_agent.Net.{SocketAddr}
use dhcp_relay_agent.Error.{RelayResult}
use dhcp_relay_agent.Pipeline.{Flow}
use dhcp_relay_agent.V4.Dhcproto.{Dhcproto}
use dhcp_relay_agent.V6.Dhcproto.{DhcprotoV6}
use dhcp_relay_agent.Agent.{
  RelayStats, Node, finish, count_received, count_forwarded, count_spoof, count_stripped,
  handle_v4_client, handle_v4_server, handle_v6_client, handle_v6_server,
}
use dhcp_relay_agent.Agent.Receive.{
  Task, v4_task, v6_task, receive, V4Task, V6Task, receive_v4, receive_v6, is_client4, is_client6,
  first_byte,
}
use dhcp_relay_agent.V6.RelayFwd.{relay_repl}

-- The counts of parse errors, of insertions of option 82, of missing VSS support and of the two
-- events of the multicast engine.
abbrev pub uncounted : RelayStats → ℕ × ℕ × ℕ × ℕ × ℕ
uncounted s = (
  s.packets_dropped_parse_error, s.option82_inserted, s.vss_not_supported,
  s.smf_duplicates_detected, s.smf_forwarded,
)

record Keeps (stats : RelayStats) (node : Node) : Type 0 where
  kept : uncounted node.stats ≡ uncounted stats

finish-Keeps :
    (on_true on_err : RelayStats → RelayStats) (x : RelayResult Bool × Flow) (node : Node)
    → ((s : RelayStats) → uncounted (on_true s) ≡ uncounted s)
    → ((s : RelayStats) → uncounted (on_err s) ≡ uncounted s)
    → Keeps node.stats (finish on_true on_err x node)
unfolding finish
finish-Keeps on_true on_err (ok true, f) node t n = record { kept = t node.stats }
finish-Keeps on_true on_err (ok false, f) node t n = record { kept = refl }
finish-Keeps on_true on_err (err x, f) node t n = record { kept = n node.stats }

-- Every handler ends in `finish`.
module _ (data_bytes : Bytes) (src : SocketAddr) (node : Node) where
  abbrev received_node : Node
  received_node = record node { stats = count_received node.stats }

  received-Keeps : Keeps received_node.stats received_node
  received-Keeps = record { kept = refl }

  forwarded-Keeps :
      (x : RelayResult Bool × Flow)
      → Keeps received_node.stats (finish count_forwarded (λ s. s) x received_node)
  forwarded-Keeps x = finish-Keeps count_forwarded (λ s. s) x received_node (λ s. refl) (λ s. refl)

  receive_v4-Keeps :
      (d : Dhcproto) (t : V4Task) → Keeps received_node.stats (receive_v4 d t data_bytes src node)
  unfolding receive_v4 handle_v4_client handle_v4_server
  receive_v4-Keeps d t = elim (Result-cases (d.decode data_bytes)) [
    | inl (m, e) ↦ elim (Bool-cases (is_client4 (d.msg_type m))) [
      | inl y ↦
          rw (e, y, receive_v4)
            (finish-Keeps count_forwarded count_spoof _ received_node (λ s. refl) (λ s. refl))
      | inr n ↦
          rw (e, n, receive_v4)
            (finish-Keeps (λ s. count_stripped (count_forwarded s)) (λ s. s) _ received_node
              (λ s. refl) (λ s. refl))
    ]
    | inr (x, e) ↦ rw (e, receive_v4) received-Keeps
  ]

  receive_v6-Keeps :
      (d : DhcprotoV6) (t : V6Task) → Keeps received_node.stats (receive_v6 d t data_bytes src node)
  unfolding receive_v6 handle_v6_client handle_v6_server
  receive_v6-Keeps d t = elim (Bool-cases (first_byte data_bytes == relay_repl)) [
    | inl y ↦ rw (y, receive_v6) (forwarded-Keeps _)
    | inr n ↦ elim (Result-cases (d.decode data_bytes)) [
      | inl (m, e) ↦ elim (Bool-cases (is_client6 (d.msg_type m))) [
        | inl y ↦ rw (n, e, y, receive_v6) (forwarded-Keeps _)
        | inr z ↦ rw (n, e, z, receive_v6) received-Keeps
      ]
      | inr (x, e) ↦ rw (n, e, receive_v6) received-Keeps
    ]
  ]

pub receive-uncounted :
    (t : Task) (data_bytes : Bytes) (src : SocketAddr) (node : Node)
    → uncounted (receive t data_bytes src node).stats ≡ uncounted node.stats
receive-uncounted (v4_task d t) data_bytes src node =
    (receive_v4-Keeps data_bytes src node d t).kept
receive-uncounted (v6_task d t) data_bytes src node =
    (receive_v6-Keeps data_bytes src node d t).kept
