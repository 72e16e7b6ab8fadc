-- ===== src/Agent/Running/Counted.antt =====
-- The counters while the tasks of `run` (lib.rs) share the statistics.
use dhcp_relay_agent.Common.{List, ◌≡◌, ◌∙◌, refl}
use dhcp_relay_agent.Agent.Counted.{IsCounted, receive-IsCounted}
use dhcp_relay_agent.Agent.Uncounted.{uncounted, receive-uncounted}
use dhcp_relay_agent.Agent.Watch.{Watch}
use dhcp_relay_agent.Agent.Running.{Move, System, moves}
use dhcp_relay_agent.Agent.Running.Keeping.{moves-Keeps}

-- In whatever order the tasks of `run` do their rounds, and whenever `shutdown` is called, the
-- number of packets counted as forwarded stays the number of those that were handed to the
-- transports, up to the width of the counter.
pub moves-IsCounted :
    (w : Watch) (ms : List Move) (s : System w) → IsCounted s.node → IsCounted (moves w ms s).node
moves-IsCounted w ms s h = moves-Keeps w IsCounted receive-IsCounted ms s h

-- The counters of parse errors, of insertions of option 82, of servers without VSS support, of
-- duplicates and of multicast packets never change, whatever packets the tasks of `run` process in
-- whatever order.
pub moves-uncounted :
    (w : Watch) (ms : List Move) (s : System w)
    → uncounted (moves w ms s).node.stats ≡ uncounted s.node.stats
moves-uncounted w ms s =
    moves-Keeps w (λ node. uncounted node.stats ≡ uncounted s.node.stats)
      (λ t data_bytes src node h. receive-uncounted t data_bytes src node ∙ h) ms s refl
