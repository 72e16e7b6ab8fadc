-- ===== src/Agent/Running/Live.antt =====
-- The receivers of the shutdown signal that the tasks of `run` (lib.rs) hold.
use dhcp_relay_agent.Common.{
  ℕ, zero, suc, ◌+◌, ◌≤◌, ◌<◌, Bool, true, false, List, [], ◌∷◌, ◌≡◌, refl, arith, All,
  Option-cases, inl, inr, ◌⊎◌,
}
use dhcp_relay_agent.Agent.{Node}
use dhcp_relay_agent.Agent.Receive.{Task}
use dhcp_relay_agent.Agent.Watch.{Watch, IsWatch}
use dhcp_relay_agent.Agent.Running.{
  Received, Move, call_shutdown, round, Phase, waiting, ended, Loop, System, on_changed, select,
  turn, step, moves,
}

pub zero_or_more : (n : ℕ) → (n ≡ 0) ⊎ (0 < n)
zero_or_more zero = inl refl
zero_or_more (suc n) = inr (omega arith)

module _ (w : Watch) (laws : IsWatch w) where
  abbrev pub weight : Phase w → ℕ
  weight ended = 0
  weight (waiting _) = 1

  -- The number of the tasks that have not ended.
  abbrev pub alive : List (Loop w) → ℕ
  alive [] = 0
  alive (l ∷ ls) = weight l.phase + alive ls

  -- What a task has seen was sent.
  abbrev pub UpToPhase : ℕ → Phase w → Type 0
  UpToPhase version ended = Unit
  UpToPhase version (waiting rx) = w.seen rx ≤ version

  abbrev pub UpTo : ℕ → Loop w → Type 0
  UpTo version l = UpToPhase version l.phase

  -- A task that has not ended has a receiver, and has seen no value that was not sent.
  pub record IsLive (k : ℕ) (s : System w) : Type 0 where
    pub count : k + alive s.loops ≤ w.receivers s.tx
    pub seen : All (UpTo (w.version s.tx)) s.loops

  All-UpTo : (m n : ℕ) (ls : List (Loop w)) → m ≡ n → All (UpTo m) ls → All (UpTo n) ls
  All-UpTo m n ls e h = rw (← e) h

  on_changed-IsLive :
      (k : ℕ) (b : Bool) (rx : w.Receiver) (t : Task) (p : Phase w) (s : System w)
      → k + suc (alive s.loops) ≤ w.receivers s.tx
      → w.seen rx ≡ w.version s.tx
      → All (UpTo (w.version s.tx)) s.loops
      → IsLive k (on_changed w b rx (record { task = t; phase = p }) s)
        × (w.version (on_changed w b rx (record { task = t; phase = p }) s).tx ≡ w.version s.tx)
  on_changed-IsLive k true rx t p s c e h = (
    record {
      count = omega (arith, laws.drop_receivers rx s.tx);
      seen = (
        tt,
        All-UpTo (w.version s.tx) (w.version (w.drop rx s.tx)) s.loops
            (omega (arith, laws.drop_version rx s.tx)) h,
      );
    },
    laws.drop_version rx s.tx,
  )
  on_changed-IsLive k false rx t p s c e h =
      (record { count = omega (arith, c); seen = (omega (arith, e), h) }, refl)

  select-IsLive :
      (k : ℕ) (packet : Received) (t : Task) (p : Phase w) (s : System w)
      → IsLive k (record s { loops = record { task = t; phase = p } ∷ s.loops })
      → IsLive k (select w packet (record { task = t; phase = p }) s)
        × (w.version (select w packet (record { task = t; phase = p }) s).tx ≡ w.version s.tx)
  unfolding select
  select-IsLive k packet t ended s h = (h, refl)
  select-IsLive k packet t (waiting rx) s h = elim (Option-cases (w.changed rx s.tx)) [
    | inl n ↦ rw (n, select) (record { count = h.count; seen = h.seen }, refl)
    | inr (rx', e) ↦
        rw (e, select)
          (on_changed-IsLive k (w.value s.tx) rx' t (waiting rx) s (omega (arith, h.count))
            (laws.changed_sees rx rx' s.tx e) h.seen.1)
  ]

  turn-IsLive :
      (i k : ℕ) (packet : Received) (ls : List (Loop w)) (tx : w.Sender) (node : Node)
      → IsLive k (record { tx = tx; node = node; loops = ls })
      → IsLive k (turn w i packet ls tx node)
        × (w.version (turn w i packet ls tx node).tx ≡ w.version tx)
  unfolding turn
  turn-IsLive i k packet [] tx node h = (h, refl)
  turn-IsLive zero k packet (l ∷ ls) tx node h =
      select-IsLive k packet l.task l.phase (record { tx = tx; node = node; loops = ls }) h
  turn-IsLive (suc i) k packet (l ∷ ls) tx node h =
      let (live, same) =
        turn-IsLive i (k + weight l.phase) packet ls tx node
          (record { count = omega (arith, h.count); seen = h.seen.1 }) in
      (record { count = omega (arith, live.count); seen = (rw same h.seen.0, live.seen) }, same)

  UpTo-mono_one : (m n : ℕ) (p : Phase w) → m ≤ n → UpToPhase m p → UpToPhase n p
  UpTo-mono_one m n ended e h = tt
  UpTo-mono_one m n (waiting rx) e h = omega arith

  UpTo-mono : (m n : ℕ) (ls : List (Loop w)) → m ≤ n → All (UpTo m) ls → All (UpTo n) ls
  UpTo-mono m n [] e h = tt
  UpTo-mono m n (l ∷ ls) e (h, hs) = (UpTo-mono_one m n l.phase e h, UpTo-mono m n ls e hs)

  send-version : (b : Bool) (tx : w.Sender) → w.version tx ≤ w.version (w.send b tx)
  send-version b tx = elim (zero_or_more (w.receivers tx)) [
    | inl none_left ↦ rw (laws.send_nobody b tx none_left) (omega arith)
    | inr some_left ↦ omega (arith, laws.send_version b tx some_left)
  ]

  step-IsLive :
      (k : ℕ) (m : Move) (s : System w)
      → IsLive k s
      → IsLive k (step w m s) × (w.version s.tx ≤ w.version (step w m s).tx)
  unfolding step
  step-IsLive k call_shutdown s h = (
    record {
      count = omega (arith, h.count, laws.send_receivers true s.tx);
      seen =
          UpTo-mono (w.version s.tx) (w.version (w.send true s.tx)) s.loops (send-version true s.tx)
            h.seen;
    },
    send-version true s.tx,
  )
  step-IsLive k (round i packet) s h =
      let (live, same) = turn-IsLive i k packet s.loops s.tx s.node h in (live, omega (arith, same))

  pub moves-IsLive :
      (k : ℕ) (ms : List Move) (s : System w)
      → IsLive k s
      → IsLive k (moves w ms s) × (w.version s.tx ≤ w.version (moves w ms s).tx)
  unfolding moves
  moves-IsLive k [] s h = (h, omega arith)
  moves-IsLive k (m ∷ ms) s h =
      let (live, le) = step-IsLive k m s h in
      let (live', le') = moves-IsLive k ms (step w m s) live in (live', omega (arith, le, le'))
