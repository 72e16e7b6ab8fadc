-- ===== src/Agent/Atomic/Interleaving.antt =====
-- Packets that several tasks of lib.rs process at the same time, and the same packets one after the
-- other.
use dhcp_relay_agent.Common.{
  List, [], ◌∷◌, ◌++◌, Bytes, ◌≡◌, ◌∙◌, refl, sym, ap, append_assoc, subst, nat_eq,
}
use mathlib.Core.List.{Perm}
use mathlib.Core.List.Perm
use dhcp_relay_agent.Net.{SocketAddr}
use dhcp_relay_agent.Agent.{RelayStats, Node}
use dhcp_relay_agent.Agent.Receive.{Task, receive}
use dhcp_relay_agent.Agent.Atomic.{Effect, on_stats, stats_after, sent_by, effects}
use dhcp_relay_agent.Agent.Atomic.Logless.{effects-log}
use dhcp_relay_agent.Agent.Atomic.Performing.{Performs, nothing-Performs, receive-Performs}
use dhcp_relay_agent.Agent.Atomic.Orders.{
  Interleaves, joined, stats_after-Interleaves, sent_by-Interleaves, sent_by-append,
}

-- A task, and a packet that it has received.
pub record Arrival : Type 1 where
  pub task : Task
  pub data_bytes : Bytes
  pub src : SocketAddr

-- The packets one after the other.
unfoldable pub in_turn : List Arrival → Node → Node
in_turn [] node = node
in_turn (a ∷ later) node = in_turn later (receive a.task a.data_bytes a.src node)

-- What each of them does on its own.
unfoldable pub effects_of : List Arrival → List (List Effect)
effects_of [] = []
effects_of (a ∷ later) = effects a.task a.data_bytes a.src [] ∷ effects_of later

stats_after-append :
    (xs ys : List Effect) (s : RelayStats)
    → stats_after (xs ++ ys) s ≡ stats_after ys (stats_after xs s)
unfolding stats_after
stats_after-append [] ys s = refl
stats_after-append (x ∷ xs) ys s = stats_after-append xs ys (on_stats x s)

in_turn-Performs :
    (arrivals : List Arrival) (node : Node)
    → Performs (joined (effects_of arrivals)) node (in_turn arrivals node)
unfolding in_turn effects_of
in_turn-Performs [] node = nothing-Performs node
in_turn-Performs (a ∷ later) node =
    let es = effects a.task a.data_bytes a.src [] in
    let node₁ = receive a.task a.data_bytes a.src node in
    let first =
      subst (λ t. Performs t node node₁) (effects-log a.task a.data_bytes a.src node.log [])
        (receive-Performs a.task a.data_bytes a.src node) in
    let rest = joined (effects_of later) in
    let others = in_turn-Performs later node₁ in
    record {
      stats =
          others.stats
          ∙ ap (stats_after rest) first.stats
          ∙ sym (stats_after-append es rest node.stats);
      sent =
          others.sent
          ∙ ap (λ t. t ++ sent_by rest) first.sent
          ∙ append_assoc node.sent (sent_by es) (sent_by rest)
          ∙ ap (λ t. node.sent ++ t) (sym (sent_by-append es rest));
    }

-- However the accesses to the shared state of packets that are processed at the same time
-- interleave, as long as each packet's own come in their order, the counters are in the end what
-- they are when the packets are processed one after the other, and the same packets are sent, up to
-- their order.
pub in_turn-Interleaves :
    (arrivals : List Arrival) (node : Node) (es : List Effect)
    → Interleaves (effects_of arrivals) es
    → (stats_after es node.stats ≡ (in_turn arrivals node).stats)
      × Perm (node.sent ++ sent_by es) (in_turn arrivals node).sent
in_turn-Interleaves arrivals node es h =
    let seq = in_turn-Performs arrivals node in
    (
      stats_after-Interleaves node.stats h ∙ sym seq.stats,
      rw seq.sent (Perm.append_left node.sent (sent_by-Interleaves h)),
    )
