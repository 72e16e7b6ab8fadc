-- ===== src/Agent/Running/Stopping.antt =====
-- The tasks of `run` (lib.rs) after a call of `shutdown`.
use dhcp_relay_agent.Common.{
  ℕ, zero, suc, ◌<◌, true, false, List, [], ◌∷◌, ◌≡◌, ◌∙◌, refl, ap, arith, All, inl, inr,
}
use dhcp_relay_agent.Agent.{Node}
use dhcp_relay_agent.Agent.Receive.{Task}
use dhcp_relay_agent.Agent.Watch.{Watch, IsWatch}
use dhcp_relay_agent.Agent.Running.{
  Received, Move, call_shutdown, round, Phase, waiting, ended, Loop, System, is_running, put,
  select, turn, step, moves,
}
use dhcp_relay_agent.Agent.Running.Live.{zero_or_more}

module _ (w : Watch) (laws : IsWatch w) where
  -- The signal is set, and the task has not seen it.
  abbrev pub WarnedPhase : w.Sender → Phase w → Type 0
  WarnedPhase tx ended = Unit
  WarnedPhase tx (waiting rx) = (w.seen rx < w.version tx) × (w.value tx ≡ true)

  abbrev pub Warned : w.Sender → Loop w → Type 0
  Warned tx l = WarnedPhase tx l.phase

  Warned-same :
      (tx tx' : w.Sender) (p : Phase w)
      → w.version tx' ≡ w.version tx
      → w.value tx' ≡ w.value tx
      → WarnedPhase tx p
      → WarnedPhase tx' p
  Warned-same tx tx' ended e f h = tt
  Warned-same tx tx' (waiting rx) e f (seen, value) = (omega (arith, e), f ∙ value)

  All-Warned-same :
      (tx tx' : w.Sender) (ls : List (Loop w))
      → w.version tx' ≡ w.version tx
      → w.value tx' ≡ w.value tx
      → All (Warned tx) ls
      → All (Warned tx') ls
  All-Warned-same tx tx' [] e f h = tt
  All-Warned-same tx tx' (l ∷ ls) e f (h, hs) =
      (Warned-same tx tx' l.phase e f h, All-Warned-same tx tx' ls e f hs)

  abbrev end_at : ℕ → List (Loop w) → List (Loop w)
  end_at i [] = []
  end_at zero (l ∷ ls) = record l { phase = ended } ∷ ls
  end_at (suc i) (l ∷ ls) = l ∷ end_at i ls

  -- What a round of a warned task does: it ends, and only drops its receiver.
  select-Warned :
      (packet : Received) (t : Task) (p : Phase w) (s : System w)
      → WarnedPhase s.tx p
      → (tx : w.Sender) × (select w packet (record { task = t; phase = p }) s
          ≡ record s { tx = tx; loops = record { task = t; phase = ended } ∷ s.loops })
        × (w.version tx ≡ w.version s.tx)
        × (w.value tx ≡ w.value s.tx)
  unfolding select
  select-Warned packet t ended s h = (s.tx, refl, refl, refl)
  select-Warned packet t (waiting rx) s (unseen, value) =
      let (rx', e) = laws.changed_unseen rx s.tx unseen in
      (w.drop rx' s.tx, rw (e, value, select), laws.drop_version rx' s.tx, laws.drop_value rx' s.tx)

  turn-Warned :
      (i : ℕ) (packet : Received) (ls : List (Loop w)) (tx : w.Sender) (node : Node)
      → All (Warned tx) ls
      → (tx' : w.Sender) × (turn w i packet ls tx node
          ≡ record { tx = tx'; node = node; loops = end_at i ls })
        × (w.version tx' ≡ w.version tx)
        × (w.value tx' ≡ w.value tx)
  unfolding turn
  turn-Warned i packet [] tx node h = (tx, refl, refl, refl)
  turn-Warned zero packet (l ∷ ls) tx node (h, hs) =
      select-Warned packet l.task l.phase (record { tx = tx; node = node; loops = ls }) h
  turn-Warned (suc i) packet (l ∷ ls) tx node (h, hs) =
      let (tx', e, version, value) = turn-Warned i packet ls tx node hs in
      (tx', ap (put w l) e, version, value)

  All-end_at :
      (tx : w.Sender) (i : ℕ) (ls : List (Loop w))
      → All (Warned tx) ls
      → All (Warned tx) (end_at i ls)
  All-end_at tx i [] h = tt
  All-end_at tx zero (l ∷ ls) (h, hs) = (tt, hs)
  All-end_at tx (suc i) (l ∷ ls) (h, hs) = (h, All-end_at tx i ls hs)

  is_running-end_at : (i : ℕ) (ls : List (Loop w)) → is_running w (end_at i ls) i ≡ false
  is_running-end_at i [] = refl
  is_running-end_at zero (l ∷ ls) = refl
  is_running-end_at (suc i) (l ∷ ls) = is_running-end_at i ls

  is_running-end_at_other :
      (i j : ℕ) (ls : List (Loop w))
      → is_running w ls j ≡ false
      → is_running w (end_at i ls) j ≡ false
  is_running-end_at_other i j [] h = refl
  is_running-end_at_other zero zero (l ∷ ls) h = refl
  is_running-end_at_other zero (suc j) (l ∷ ls) h = h
  is_running-end_at_other (suc i) zero (l ∷ ls) h = h
  is_running-end_at_other (suc i) (suc j) (l ∷ ls) h = is_running-end_at_other i j ls h

  -- What a move leaves of warned tasks.
  abbrev left_by : Move → List (Loop w) → List (Loop w)
  left_by call_shutdown ls = ls
  left_by (round i packet) ls = end_at i ls

  -- A further signal warns again, or reaches nobody.
  send-Warned : (tx : w.Sender) (p : Phase w) → WarnedPhase tx p → WarnedPhase (w.send true tx) p
  send-Warned tx ended h = tt
  send-Warned tx (waiting rx) (unseen, value) = elim (zero_or_more (w.receivers tx)) [
    | inl none_left ↦ rw (laws.send_nobody true tx none_left) (unseen, value)
    | inr some_left ↦
        (omega (arith, laws.send_version true tx some_left), laws.send_value true tx some_left)
  ]

  All-send-Warned :
      (tx : w.Sender) (ls : List (Loop w)) → All (Warned tx) ls → All (Warned (w.send true tx)) ls
  All-send-Warned tx [] h = tt
  All-send-Warned tx (l ∷ ls) (h, hs) = (send-Warned tx l.phase h, All-send-Warned tx ls hs)

  step-Warned :
      (m : Move) (s : System w)
      → All (Warned s.tx) s.loops
      → (tx' : w.Sender) × (step w m s
          ≡ record { tx = tx'; node = s.node; loops = left_by m s.loops })
        × All (Warned tx') (left_by m s.loops)
  unfolding step
  step-Warned call_shutdown s h = (w.send true s.tx, refl, All-send-Warned s.tx s.loops h)
  step-Warned (round i packet) s h =
      let (tx', e, version, value) = turn-Warned i packet s.loops s.tx s.node h in
      (
        tx',
        e,
        All-Warned-same s.tx tx' (end_at i s.loops) version value (All-end_at s.tx i s.loops h),
      )

  -- Among these moves is a round of the task at this place.
  pub data HasTurn (i : ℕ) : List Move → Type 0 where
    here : {packet : Received} {ms : List Move} → HasTurn i (round i packet ∷ ms)
    there : {m : Move} {ms : List Move} → HasTurn i ms → HasTurn i (m ∷ ms)

  left_by-is_running :
      (m : Move) (j : ℕ) (ls : List (Loop w))
      → is_running w ls j ≡ false
      → is_running w (left_by m ls) j ≡ false
  left_by-is_running call_shutdown j ls h = h
  left_by-is_running (round i packet) j ls h = is_running-end_at_other i j ls h

  pub moves-Warned :
      (ms : List Move) (s : System w)
      → All (Warned s.tx) s.loops
      → ((moves w ms s).node ≡ s.node)
        × ((i : ℕ) → is_running w s.loops i ≡ false → is_running w (moves w ms s).loops i ≡ false)
  unfolding moves
  moves-Warned [] s h = (refl, λ i e. e)
  moves-Warned (m ∷ ms) s h =
      let (tx', e, warned) = step-Warned m s h in
      let (node, ends) =
        moves-Warned ms (record { tx = tx'; node = s.node; loops = left_by m s.loops }) warned in
      rw (e, moves) (node, λ i q. ends i (left_by-is_running m i s.loops q))

  pub moves-HasTurn :
      (i : ℕ) {ms : List Move} (s : System w)
      → HasTurn i ms
      → All (Warned s.tx) s.loops
      → is_running w (moves w ms s).loops i ≡ false
  unfolding moves
  moves-HasTurn i s (here {packet} {ms}) h =
      let (tx', e, warned) = step-Warned (round i packet) s h in
      rw (e, moves)
        ((moves-Warned ms (record { tx = tx'; node = s.node; loops = end_at i s.loops }) warned).1 i
          (is_running-end_at i s.loops))
  moves-HasTurn i s (there {m} {ms} t) h =
      let (tx', e, warned) = step-Warned m s h in
      rw (e, moves)
        (moves-HasTurn i (record { tx = tx'; node = s.node; loops = left_by m s.loops }) t warned)
