-- ===== src/Agent/Running/Starting.antt =====
-- What the tasks that `run` (lib.rs) starts have seen of the shutdown signal.
use dhcp_relay_agent.Common.{ℕ, ◌+◌, ◌≤◌, List, [], ◌∷◌, ◌++◌, ◌≡◌, arith, All}
use dhcp_relay_agent.Agent.{Node}
use dhcp_relay_agent.Agent.Receive.{Task}
use dhcp_relay_agent.Agent.Watch.{Watch, IsWatch}
use dhcp_relay_agent.Agent.Running.{
  Move, Starts, waiting, Loop, System, moves, cloned, subscribed, running,
}
use dhcp_relay_agent.Agent.Running.Live.{alive, UpTo, IsLive, moves-IsLive}

module _ (w : Watch) (laws : IsWatch w) where
  alive-append :
      (ls ks : List (Loop w)) → alive w laws (ls ++ ks) ≡ alive w laws ls + alive w laws ks
  alive-append [] ks = omega arith
  alive-append (l ∷ ls) ks = omega (arith, alive-append ls ks)

  All-append :
      (n : ℕ) (ls ks : List (Loop w))
      → All (UpTo w laws n) ls
      → All (UpTo w laws n) ks
      → All (UpTo w laws n) (ls ++ ks)
  All-append n [] ks h g = g
  All-append n (l ∷ ls) ks (h, hs) g = (h, All-append n ls ks hs g)

  -- One more task, with a copy of the receiver.
  one_more-IsLive :
      (k : ℕ) (t : Task) (rx : w.Receiver) (s : System w)
      → IsLive w laws k s
      → w.seen rx ≤ w.version s.tx
      → let (sr, tx) = w.clone rx s.tx in
        IsLive w laws k
          (record s { tx = tx; loops = s.loops ++ record { task = t; phase = waiting sr } ∷ [] })
  one_more-IsLive k t rx s h le =
      let (sr, tx) = w.clone rx s.tx in
      let l : Loop w = record { task = t; phase = waiting sr } in
      record {
        count = omega (arith, h.count, alive-append s.loops (l ∷ []), laws.clone_receivers rx s.tx);
        seen =
            All-append (w.version tx) s.loops (l ∷ []) (rw (laws.clone_version rx s.tx) h.seen)
              (omega (arith, le, laws.clone_seen rx s.tx, laws.clone_version rx s.tx), tt);
      }

  cloned-IsLive :
      (k : ℕ) (starts : List (List Move × Task)) (rx : w.Receiver) (s : System w)
      → IsLive w laws k s
      → w.seen rx ≤ w.version s.tx
      → IsLive w laws k (cloned w starts rx s)
  unfolding cloned
  cloned-IsLive k [] rx s h le = h
  cloned-IsLive k ((ms, t) ∷ starts) rx s h le =
      let (live, later) = moves-IsLive w laws k ms s h in
      let s₁ = moves w ms s in
      let (sr, tx) = w.clone rx s₁.tx in
      let l : Loop w = record { task = t; phase = waiting sr } in
      cloned-IsLive k starts rx (record s₁ { tx = tx; loops = s₁.loops ++ l ∷ [] })
        (one_more-IsLive k t rx s₁ live (omega (arith, le, later)))
        (omega (arith, le, later, laws.clone_version rx s₁.tx))

  subscribed-IsLive :
      (starts : Starts) (s : System w) → IsLive w laws 0 s → IsLive w laws 0 (subscribed w starts s)
  unfolding subscribed
  subscribed-IsLive starts s h =
      let (rx, tx) = w.subscribe s.tx in
      let s₁ : System w = record s { tx = tx } in
      let live₁ : IsLive w laws 1 s₁ = record {
        count = omega (arith, h.count, laws.subscribe_receivers s.tx);
        seen = rw (laws.subscribe_version s.tx) h.seen;
      } in
      let live₂ =
        cloned-IsLive 1 starts.tasks rx s₁ live₁
          (omega (arith, laws.subscribe_seen s.tx, laws.subscribe_version s.tx)) in
      let s₂ = cloned w starts.tasks rx s₁ in
      let (live₃, _) = moves-IsLive w laws 1 starts.at_last s₂ live₂ in
      let s₃ = moves w starts.at_last s₂ in
      record {
        count = omega (arith, live₃.count, laws.drop_receivers rx s₃.tx);
        seen = rw (laws.drop_version rx s₃.tx) live₃.seen;
      }

  pub running-IsLive :
      (v4 : Starts) (between : List Move) (v6 : Starts) (tx : w.Sender) (node : Node)
      → IsLive w laws 0 (running w v4 between v6 tx node)
  unfolding running
  running-IsLive v4 between v6 tx node =
      let s : System w = record { tx = tx; node = node; loops = [] } in
      let s₄ = subscribed w v4 s in
      let live₄ = subscribed-IsLive v4 s (record { count = omega arith; seen = tt }) in
      subscribed-IsLive v6 (moves w between s₄) (moves-IsLive w laws 0 between s₄ live₄).0
