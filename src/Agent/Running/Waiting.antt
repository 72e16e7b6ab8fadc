-- ===== src/Agent/Running/Waiting.antt =====
-- When `run` of lib.rs returns.
use dhcp_relay_agent.Common.{
  ℕ, ◌+◌, ◌≤◌, ◌<◌, true, false, none, some, List, [], ◌∷◌, ◌++◌, ◌≡◌, refl, arith, length, All, ok,
}
use dhcp_relay_agent.Agent.{Node}
use dhcp_relay_agent.Agent.Watch.{Watch, IsWatch}
use dhcp_relay_agent.Agent.Running.{
  Move, Starts, call_shutdown, Loop, System, is_running, waited, step, moves, subscribed, running,
}
use dhcp_relay_agent.Agent.Running.Stopping.{HasTurn}
use dhcp_relay_agent.Agent.Running.Shutdown.{call_shutdown-ends}
use dhcp_relay_agent.Agent.Running.Staying.{
  no_shutdown, Stays, is_running-Stays, moves-Stays, moves-length,
}
use dhcp_relay_agent.Agent.Running.Growing.{
  IsQuiet, Grown-trans, moves-Grown, subscribed-Grown, subscribed-length,
}

module _ (w : Watch) (laws : IsWatch w) where
  waited-ended :
      (handles : List ℕ) (ls : List (Loop w))
      → All (λ i. is_running w ls i ≡ false) handles
      → waited w handles ls ≡ some (ok tt)
  unfolding waited
  waited-ended [] ls h = refl
  waited-ended (i ∷ handles) ls (h, hs) = rw (h, waited) (waited-ended handles ls hs)

  waited-running :
      (front back : List ℕ) (i : ℕ) (ls : List (Loop w))
      → is_running w ls i ≡ true
      → waited w (front ++ i ∷ back) ls ≡ none
  unfolding waited
  waited-running [] back i ls h = rw (h, waited)
  waited-running (j ∷ front) back i ls h = ground (arith, waited-running front back i ls h)

  All-ended :
      (v4 : Starts) (between : List Move) (v6 : Starts) (tx : w.Sender) (node : Node)
      (earlier later : List Move) (handles : List ℕ)
      → All (λ i. HasTurn w laws i later) handles
      → let s = moves w earlier (running w v4 between v6 tx node) in
        All (λ i. is_running w (moves w later (step w call_shutdown s)).loops i ≡ false) handles
  All-ended v4 between v6 tx node earlier later [] h = tt
  All-ended v4 between v6 tx node earlier later (i ∷ handles) (h, hs) = (
    (call_shutdown-ends w laws v4 between v6 tx node earlier later i h).1,
    All-ended v4 between v6 tx node earlier later handles hs,
  )

  -- If `shutdown` is called once `run` has started all its tasks, `run` returns without an error as
  -- soon as each task that it waits for has had one more round, whatever happened before the call.
  pub run-returns :
      (v4 : Starts) (between : List Move) (v6 : Starts) (tx : w.Sender) (node : Node)
      (earlier later : List Move) (handles : List ℕ)
      → All (λ i. HasTurn w laws i later) handles
      → let s = moves w earlier (running w v4 between v6 tx node) in
        waited w handles (moves w later (step w call_shutdown s)).loops ≡ some (ok tt)
  run-returns v4 between v6 tx node earlier later handles h =
      let s = moves w earlier (running w v4 between v6 tx node) in
      waited-ended handles (moves w later (step w call_shutdown s)).loops
        (All-ended v4 between v6 tx node earlier later handles h)

  -- A task that stays, while there is no call of `shutdown`.
  waited-Stays :
      (ms : List Move) (s : System w) (front back : List ℕ) (i : ℕ)
      → no_shutdown ms ≡ true
      → Stays w laws (w.version s.tx) s.loops i
      → waited w (front ++ i ∷ back) (moves w ms s).loops ≡ none
  waited-Stays ms s front back i quiet h = waited-running front back i (moves w ms s).loops (
      is_running-Stays w laws (w.version s.tx) (moves w ms s).loops i
        (moves-Stays w laws ms s i quiet h))

  -- `run` does not return before a call of `shutdown`: whatever its tasks do from the start of the
  -- first of them on, it waits as long as it has a handle of one of them.
  pub run-waits :
      (v4 : Starts) (between : List Move) (v6 : Starts) (tx : w.Sender) (node : Node)
      (ms : List Move) (front back : List ℕ) (i : ℕ)
      → IsQuiet v4
      → no_shutdown between ≡ true
      → IsQuiet v6
      → no_shutdown ms ≡ true
      → i < length v4.tasks + length v6.tasks
      → waited w (front ++ i ∷ back) (moves w ms (running w v4 between v6 tx node)).loops ≡ none
  unfolding running
  run-waits v4 between v6 tx node ms front back i quiet4 quiet quiet6 later under =
      let s : System w = record { tx = tx; node = node; loops = [] } in
      let s₄ = subscribed w v4 s in
      let s₅ = moves w between s₄ in
      let n6 = length v6.tasks in
      let g₄ = subscribed-Grown w laws v4 s quiet4 in
      let g₅ = moves-Grown w laws between s₄ quiet in
      let g₆ = subscribed-Grown w laws v6 s₅ quiet6 in
      let g =
        Grown-trans w laws (length v4.tasks) (0 + n6) s s₄ (subscribed w v6 s₅) g₄
          (Grown-trans w laws 0 n6 s₄ s₅ (subscribed w v6 s₅) g₅ g₆) in
      waited-Stays ms (subscribed w v6 s₅) front back i later
        (rw g.version (g.more i (omega arith) (omega (arith, under))))

  -- A call of `shutdown` before the DHCPv6 tasks have subscribed to its signal is lost for them:
  -- whatever happens up to then, such calls included, `run` does not return without a later call,
  -- as long as it has a handle of a DHCPv6 task.
  pub run-waits_v6 :
      (v4 : Starts) (between : List Move) (v6 : Starts) (tx : w.Sender) (node : Node)
      (ms : List Move) (front back : List ℕ) (i : ℕ)
      → IsQuiet v6
      → no_shutdown ms ≡ true
      → length v4.tasks ≤ i
      → i < length v4.tasks + length v6.tasks
      → waited w (front ++ i ∷ back) (moves w ms (running w v4 between v6 tx node)).loops ≡ none
  unfolding running
  run-waits_v6 v4 between v6 tx node ms front back i quiet6 later from under =
      let s : System w = record { tx = tx; node = node; loops = [] } in
      let s₄ = subscribed w v4 s in
      let s₅ = moves w between s₄ in
      let count : length s₅.loops ≡ length v4.tasks =
        omega (arith, moves-length w laws between s₄, subscribed-length w laws v4 s) in
      let g = subscribed-Grown w laws v6 s₅ quiet6 in
      waited-Stays ms (subscribed w v6 s₅) front back i later
        (rw g.version (g.more i (omega (arith, count, from)) (omega (arith, count, under))))
