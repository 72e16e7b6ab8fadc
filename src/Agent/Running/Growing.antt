-- ===== src/Agent/Running/Growing.antt =====
-- The tasks that `run` (lib.rs) starts while `shutdown` is not called.
use dhcp_relay_agent.Common.{
  ℕ, zero, suc, ◌+◌, ◌≤◌, ◌<◌, true, List, [], ◌∷◌, ◌++◌, ◌≡◌, ◌⊎◌, ◌∙◌, refl, sym, subst, arith,
  length, length-append, All, inl, inr, Bool-cases, leb,
}
use dhcp_relay_agent.Agent.Receive.{Task}
use dhcp_relay_agent.Agent.Watch.{Watch, IsWatch}
use dhcp_relay_agent.Agent.Running.{Move, Starts, waiting, Loop, System, moves, cloned, subscribed}
use dhcp_relay_agent.Agent.Running.Staying.{
  no_shutdown, Stays, StaysPhase, moves-length, moves-version, moves-Stays,
}

abbrev pub IsQuiet : Starts → Type 0
IsQuiet starts =
    All (λ x. no_shutdown x.0 ≡ true) starts.tasks × (no_shutdown starts.at_last ≡ true)

below_or_not : (i n : ℕ) → (i < n) ⊎ (n ≤ i)
below_or_not i n = elim (Bool-cases (leb n i)) [
  | inl y ↦ inr (ground (arith, y))
  | inr x ↦ inl (ground (arith, x))
]

module _ (w : Watch) (laws : IsWatch w) where
  Stays-append :
      (version : ℕ) (ls ks : List (Loop w)) (i : ℕ)
      → Stays w laws version ls i
      → Stays w laws version (ls ++ ks) i
  Stays-append version [] ks i h = absurd h
  Stays-append version (l ∷ ls) ks zero h = h
  Stays-append version (l ∷ ls) ks (suc i) h = Stays-append version ls ks i h

  Stays-last :
      (version : ℕ) (ls : List (Loop w)) (l : Loop w)
      → StaysPhase w laws version l.phase
      → Stays w laws version (ls ++ l ∷ []) (length ls)
  Stays-last version [] l h = h
  Stays-last version (k ∷ ls) l h = Stays-last version ls l h

  -- A signal with the same version, the tasks that stay, and so many more.
  pub record Grown (n : ℕ) (s s' : System w) : Type 0 where
    pub version : w.version s'.tx ≡ w.version s.tx
    pub count : length s'.loops ≡ length s.loops + n
    pub old :
        (i : ℕ) → Stays w laws (w.version s.tx) s.loops i → Stays w laws (w.version s.tx) s'.loops i
    pub more :
        (i : ℕ)
        → length s.loops ≤ i
        → i < length s.loops + n
        → Stays w laws (w.version s.tx) s'.loops i

  pub Grown-trans :
      (m n : ℕ) (s s' s'' : System w) → Grown m s s' → Grown n s' s'' → Grown (m + n) s s''
  Grown-trans m n s s' s'' g h = record {
    version = h.version ∙ g.version;
    count = omega (arith, g.count, h.count);
    old = λ i stays. rw (← g.version) (h.old i (rw g.version (g.old i stays)));
    more = λ i from below. elim (below_or_not i (length s'.loops)) [
      | inl l ↦
          rw (← g.version) (h.old i (rw g.version (g.more i from (omega (arith, l, g.count)))))
      | inr r ↦ rw (← g.version) (h.more i r (omega (arith, below, g.count)))
    ];
  }

  pub moves-Grown :
      (ms : List Move) (s : System w) → no_shutdown ms ≡ true → Grown 0 s (moves w ms s)
  moves-Grown ms s quiet = record {
    version = moves-version w laws ms s quiet;
    count = omega (arith, moves-length w laws ms s);
    old = λ i h. moves-Stays w laws ms s i quiet h;
    more = λ i from below. absurd (omega (arith, from, below));
  }

  same-Grown :
      (s : System w) (tx : w.Sender)
      → w.version tx ≡ w.version s.tx
      → Grown 0 s (record s { tx = tx })
  same-Grown s tx same = record {
    version = same;
    count = omega arith;
    old = λ i h. h;
    more = λ i from below. absurd (omega (arith, from, below));
  }

  one_more-Grown :
      (s : System w) (tx : w.Sender) (l : Loop w)
      → w.version tx ≡ w.version s.tx
      → StaysPhase w laws (w.version s.tx) l.phase
      → Grown 1 s (record s { tx = tx; loops = s.loops ++ l ∷ [] })
  one_more-Grown s tx l same h = record {
    version = same;
    count = length-append s.loops (l ∷ []);
    old = λ i stays. Stays-append (w.version s.tx) s.loops (l ∷ []) i stays;
    more = λ i from below.
        subst (λ j. Stays w laws (w.version s.tx) (s.loops ++ l ∷ []) j) (same_place i from below)
          (Stays-last (w.version s.tx) s.loops l h);
  }
    where
      same_place : (i : ℕ) → length s.loops ≤ i → i < length s.loops + 1 → length s.loops ≡ i
      same_place i from below = omega (arith, from, below)

  Grown-same : {m n : ℕ} {s s' : System w} → m ≡ n → Grown m s s' → Grown n s s'
  Grown-same {s} {s'} e g = subst (λ k. Grown k s s') e g

  cloned-Grown :
      (starts : List (List Move × Task)) (rx : w.Receiver) (s : System w)
      → All (λ x. no_shutdown x.0 ≡ true) starts
      → w.seen rx ≡ w.version s.tx
      → Grown (length starts) s (cloned w starts rx s)
  unfolding cloned
  cloned-Grown [] rx s quiet seen = same-Grown s s.tx refl
  cloned-Grown ((ms, t) ∷ starts) rx s (quiet, quiets) seen =
      let s₁ = moves w ms s in
      let g₁ = moves-Grown ms s quiet in
      let (sr, tx) = w.clone rx s₁.tx in
      let l : Loop w = record { task = t; phase = waiting sr } in
      let s₂ : System w = record s₁ { tx = tx; loops = s₁.loops ++ l ∷ [] } in
      let same = laws.clone_version rx s₁.tx in
      let g₂ = one_more-Grown s₁ tx l same (laws.clone_seen rx s₁.tx ∙ seen ∙ sym g₁.version) in
      let g₃ = cloned-Grown starts rx s₂ quiets (seen ∙ sym g₁.version ∙ sym same) in
      Grown-same (omega arith) (
        Grown-trans 0 (1 + length starts) s s₁ (cloned w starts rx s₂) g₁
          (Grown-trans 1 (length starts) s₁ s₂ (cloned w starts rx s₂) g₂ g₃))

  pub subscribed-Grown :
      (starts : Starts) (s : System w)
      → IsQuiet starts
      → Grown (length starts.tasks) s (subscribed w starts s)
  unfolding subscribed
  subscribed-Grown starts s (quiet, quiet_last) =
      let (rx, tx) = w.subscribe s.tx in
      let s₁ : System w = record s { tx = tx } in
      let same = laws.subscribe_version s.tx in
      let s₂ = cloned w starts.tasks rx s₁ in
      let s₃ = moves w starts.at_last s₂ in
      let s₄ : System w = record s₃ { tx = w.drop rx s₃.tx } in
      let n = length starts.tasks in
      let g₁ = same-Grown s tx same in
      let g₂ = cloned-Grown starts.tasks rx s₁ quiet (laws.subscribe_seen s.tx ∙ sym same) in
      let g₃ = moves-Grown starts.at_last s₂ quiet_last in
      let g₄ = same-Grown s₃ (w.drop rx s₃.tx) (laws.drop_version rx s₃.tx) in
      Grown-same (omega arith) (
        Grown-trans 0 (n + (0 + 0)) s s₁ s₄ g₁
          (Grown-trans n (0 + 0) s₁ s₂ s₄ g₂ (Grown-trans 0 0 s₂ s₃ s₄ g₃ g₄)))

  cloned-length :
      (starts : List (List Move × Task)) (rx : w.Receiver) (s : System w)
      → length (cloned w starts rx s).loops ≡ length s.loops + length starts
  unfolding cloned
  cloned-length [] rx s = omega arith
  cloned-length ((ms, t) ∷ starts) rx s =
      let s₁ = moves w ms s in
      let (sr, tx) = w.clone rx s₁.tx in
      let l : Loop w = record { task = t; phase = waiting sr } in
      let rest = cloned-length starts rx (record s₁ { tx = tx; loops = s₁.loops ++ l ∷ [] }) in
      omega (arith, rest, length-append s₁.loops (l ∷ []), moves-length w laws ms s)

  pub subscribed-length :
      (starts : Starts) (s : System w)
      → length (subscribed w starts s).loops ≡ length s.loops + length starts.tasks
  unfolding subscribed
  subscribed-length starts s =
      let (rx, tx) = w.subscribe s.tx in
      let s₁ : System w = record s { tx = tx } in
      let s₂ = cloned w starts.tasks rx s₁ in
      moves-length w laws starts.at_last s₂ ∙ cloned-length starts.tasks rx s₁
