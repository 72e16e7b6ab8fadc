-- ===== src/Agent/Running/Staying.antt =====
-- A task of `run` (lib.rs) that has seen the present value of the shutdown signal goes on as long as
-- `shutdown` is not called.
use dhcp_relay_agent.Common.{
  ℕ, zero, suc, Bool, true, false, List, [], ◌∷◌, ◌≡◌, ◌∙◌, refl, ap, arith, length, Option-cases,
  inl, inr,
}
use dhcp_relay_agent.Agent.{Node}
use dhcp_relay_agent.Agent.Receive.{Task}
use dhcp_relay_agent.Agent.Watch.{Watch, IsWatch}
use dhcp_relay_agent.Agent.Running.{
  Received, Move, call_shutdown, round, Phase, waiting, ended, Loop, System, is_running, on_changed,
  select, turn, step, moves,
}

-- Among these moves is no call of `shutdown`.
abbrev pub no_shutdown : List Move → Bool
no_shutdown [] = true
no_shutdown (call_shutdown ∷ ms) = false
no_shutdown (round i packet ∷ ms) = no_shutdown ms

module _ (w : Watch) (laws : IsWatch w) where
  abbrev pub StaysPhase : ℕ → Phase w → Type 0
  StaysPhase version ended = ⊥
  StaysPhase version (waiting rx) = w.seen rx ≡ version

  -- There is a task at this place, which waits and has seen this version of the signal.
  abbrev pub Stays : ℕ → List (Loop w) → ℕ → Type 0
  Stays version [] i = ⊥
  Stays version (l ∷ ls) zero = StaysPhase version l.phase
  Stays version (l ∷ ls) (suc i) = Stays version ls i

  is_running-StaysPhase :
      (version : ℕ) (t : Task) (p : Phase w) (ls : List (Loop w))
      → StaysPhase version p
      → is_running w (record { task = t; phase = p } ∷ ls) 0 ≡ true
  is_running-StaysPhase version t ended ls h = absurd h
  is_running-StaysPhase version t (waiting rx) ls h = refl

  pub is_running-Stays :
      (version : ℕ) (ls : List (Loop w)) (i : ℕ) → Stays version ls i → is_running w ls i ≡ true
  is_running-Stays version [] i h = absurd h
  is_running-Stays version (l ∷ ls) zero h = is_running-StaysPhase version l.task l.phase ls h
  is_running-Stays version (l ∷ ls) (suc i) h = is_running-Stays version ls i h

  -- What a round keeps: the version, and the other tasks.
  on_changed-tail :
      (b : Bool) (rx : w.Receiver) (l : Loop w) (s : System w)
      → (w.version (on_changed w b rx l s).tx ≡ w.version s.tx)
        × (l' : Loop w) × ((on_changed w b rx l s).loops ≡ l' ∷ s.loops)
  on_changed-tail true rx l s =
      (laws.drop_version rx s.tx, record { task = l.task; phase = ended }, refl)
  on_changed-tail false rx l s = (refl, record { task = l.task; phase = waiting rx }, refl)

  select-tail :
      (packet : Received) (t : Task) (p : Phase w) (s : System w)
      → let s' = select w packet (record { task = t; phase = p }) s in
        (w.version s'.tx ≡ w.version s.tx) × (l' : Loop w) × (s'.loops ≡ l' ∷ s.loops)
  unfolding select
  select-tail packet t ended s = (refl, record { task = t; phase = ended }, refl)
  select-tail packet t (waiting rx) s = elim (Option-cases (w.changed rx s.tx)) [
    | inl n ↦ rw (n, select) (refl, record { task = t; phase = waiting rx }, refl)
    | inr (rx', e) ↦
        rw (e, select)
          (on_changed-tail (w.value s.tx) rx' (record { task = t; phase = waiting rx }) s)
  ]

  pub turn-version :
      (i : ℕ) (packet : Received) (ls : List (Loop w)) (tx : w.Sender) (node : Node)
      → (w.version (turn w i packet ls tx node).tx ≡ w.version tx)
        × (length (turn w i packet ls tx node).loops ≡ length ls)
  unfolding turn
  turn-version i packet [] tx node = (refl, refl)
  turn-version zero packet (l ∷ ls) tx node =
      let (same, l', e) =
        select-tail packet l.task l.phase (record { tx = tx; node = node; loops = ls }) in
      (same, ap length e)
  turn-version (suc i) packet (l ∷ ls) tx node =
      let (same, count) = turn-version i packet ls tx node in (same, ap suc count)

  -- The task's own round changes neither its phase nor the signal.
  select-StaysPhase :
      (packet : Received) (t : Task) (p : Phase w) (s : System w)
      → StaysPhase (w.version s.tx) p
      → Stays (w.version s.tx) (select w packet (record { task = t; phase = p }) s).loops 0
  unfolding select
  select-StaysPhase packet t ended s h = absurd h
  select-StaysPhase packet t (waiting rx) s h = rw (laws.changed_seen rx s.tx h, select) h

  turn-Stays :
      (i j : ℕ) (packet : Received) (ls : List (Loop w)) (tx : w.Sender) (node : Node)
      → Stays (w.version tx) ls i
      → Stays (w.version tx) (turn w j packet ls tx node).loops i
  unfolding turn
  turn-Stays i j packet [] tx node h = absurd h
  turn-Stays zero zero packet (l ∷ ls) tx node h =
      select-StaysPhase packet l.task l.phase (record { tx = tx; node = node; loops = ls }) h
  turn-Stays (suc i) zero packet (l ∷ ls) tx node h =
      let (same, l', e) =
        select-tail packet l.task l.phase (record { tx = tx; node = node; loops = ls }) in
      rw e h
  turn-Stays zero (suc j) packet (l ∷ ls) tx node h = h
  turn-Stays (suc i) (suc j) packet (l ∷ ls) tx node h = turn-Stays i j packet ls tx node h

  pub moves-length : (ms : List Move) (s : System w) → length (moves w ms s).loops ≡ length s.loops
  unfolding moves step
  moves-length [] s = refl
  moves-length (call_shutdown ∷ ms) s = moves-length ms (record s { tx = w.send true s.tx })
  moves-length (round i packet ∷ ms) s =
      moves-length ms (turn w i packet s.loops s.tx s.node)
      ∙ (turn-version i packet s.loops s.tx s.node).1

  pub moves-version :
      (ms : List Move) (s : System w)
      → no_shutdown ms ≡ true
      → w.version (moves w ms s).tx ≡ w.version s.tx
  unfolding moves step
  moves-version [] s quiet = refl
  moves-version (call_shutdown ∷ ms) s quiet = absurd (ground (arith, quiet))
  moves-version (round i packet ∷ ms) s quiet =
      moves-version ms (turn w i packet s.loops s.tx s.node) quiet
      ∙ (turn-version i packet s.loops s.tx s.node).0

  pub moves-Stays :
      (ms : List Move) (s : System w) (i : ℕ)
      → no_shutdown ms ≡ true
      → Stays (w.version s.tx) s.loops i
      → Stays (w.version s.tx) (moves w ms s).loops i
  unfolding moves step
  moves-Stays [] s i quiet h = h
  moves-Stays (call_shutdown ∷ ms) s i quiet h = absurd (ground (arith, quiet))
  moves-Stays (round j packet ∷ ms) s i quiet h =
      let s₁ = turn w j packet s.loops s.tx s.node in
      let same = (turn-version j packet s.loops s.tx s.node).0 in
      let kept = turn-Stays i j packet s.loops s.tx s.node h in
      rw (← same) (moves-Stays ms s₁ i quiet (rw same kept))
