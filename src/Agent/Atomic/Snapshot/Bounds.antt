-- ===== src/Agent/Atomic/Snapshot/Bounds.antt =====
-- A snapshot of the counters (lib.rs) and the counters while it is taken.
use dhcp_relay_agent.Common.{
  ℕ, zero, suc, ◌+◌, ◌≤◌, List, [], ◌∷◌, length, ◌≡◌, sym, subst, arith, inl, inr, leb, Bool-cases,
  ◌⊎◌,
}
use dhcp_relay_agent.Agent.{RelayStats}
use dhcp_relay_agent.Agent.Atomic.{Effect, on_stats, stats_after}
use dhcp_relay_agent.Agent.Atomic.Snapshot.{RelayStatsSnapshot, moment, snapshot, accesses, HasRoom}

on_stats-HasRoom :
    (e : Effect) (n : ℕ) (s : RelayStats) → HasRoom (suc n) s → HasRoom n (on_stats e s)
unfolding on_stats
on_stats-HasRoom e n s h = record {
  received = ground (arith, h.received);
  forwarded = ground (arith, h.forwarded);
  spoof = ground (arith, h.spoof);
  stripped = ground (arith, h.stripped);
}

stats_after-HasRoom :
    (es : List Effect) (n : ℕ) (s : RelayStats)
    → HasRoom (length es + n) s
    → HasRoom n (stats_after es s)
unfolding stats_after
stats_after-HasRoom [] n s h = subst (λ k. HasRoom k s) (omega arith) h
stats_after-HasRoom (e ∷ es) n s h =
    stats_after-HasRoom es n (on_stats e s)
      (on_stats-HasRoom e (length es + n) s (subst (λ k. HasRoom k s) (omega arith) h))

-- No counter is smaller.
record Below (s t : RelayStats) : Type 0 where
  packets_received : s.packets_received ≤ t.packets_received
  packets_forwarded : s.packets_forwarded ≤ t.packets_forwarded
  packets_dropped_parse_error : s.packets_dropped_parse_error ≤ t.packets_dropped_parse_error
  packets_dropped_spoof : s.packets_dropped_spoof ≤ t.packets_dropped_spoof
  option82_inserted : s.option82_inserted ≤ t.option82_inserted
  option82_stripped : s.option82_stripped ≤ t.option82_stripped
  vss_not_supported : s.vss_not_supported ≤ t.vss_not_supported
  smf_duplicates_detected : s.smf_duplicates_detected ≤ t.smf_duplicates_detected
  smf_forwarded : s.smf_forwarded ≤ t.smf_forwarded

Below-refl : (s : RelayStats) → Below s s
Below-refl s = record {
  packets_received = omega arith;
  packets_forwarded = omega arith;
  packets_dropped_parse_error = omega arith;
  packets_dropped_spoof = omega arith;
  option82_inserted = omega arith;
  option82_stripped = omega arith;
  vss_not_supported = omega arith;
  smf_duplicates_detected = omega arith;
  smf_forwarded = omega arith;
}

Below-trans : {s t u : RelayStats} → Below s t → Below t u → Below s u
Below-trans h k = record {
  packets_received = omega (arith, h.packets_received, k.packets_received);
  packets_forwarded = omega (arith, h.packets_forwarded, k.packets_forwarded);
  packets_dropped_parse_error =
      omega (arith, h.packets_dropped_parse_error, k.packets_dropped_parse_error);
  packets_dropped_spoof = omega (arith, h.packets_dropped_spoof, k.packets_dropped_spoof);
  option82_inserted = omega (arith, h.option82_inserted, k.option82_inserted);
  option82_stripped = omega (arith, h.option82_stripped, k.option82_stripped);
  vss_not_supported = omega (arith, h.vss_not_supported, k.vss_not_supported);
  smf_duplicates_detected = omega (arith, h.smf_duplicates_detected, k.smf_duplicates_detected);
  smf_forwarded = omega (arith, h.smf_forwarded, k.smf_forwarded);
}

on_stats-Below : (e : Effect) (n : ℕ) (s : RelayStats) → HasRoom (suc n) s → Below s (on_stats e s)
unfolding on_stats
on_stats-Below e n s h = record {
  packets_received = ground (arith, h.received);
  packets_forwarded = ground (arith, h.forwarded);
  packets_dropped_parse_error = ground (arith);
  packets_dropped_spoof = ground (arith, h.spoof);
  option82_inserted = ground (arith);
  option82_stripped = ground (arith, h.stripped);
  vss_not_supported = ground (arith);
  smf_duplicates_detected = ground (arith);
  smf_forwarded = ground (arith);
}

stats_after-Below :
    (es : List Effect) (n : ℕ) (s : RelayStats)
    → HasRoom (length es + n) s
    → Below s (stats_after es s)
unfolding stats_after
stats_after-Below [] n s h = Below-refl s
stats_after-Below (e ∷ es) n s h =
    let h' = subst (λ k. HasRoom k s) (omega arith) h in
    Below-trans (on_stats-Below e (length es + n) s h')
      (stats_after-Below es n (on_stats e s) (on_stats-HasRoom e (length es + n) s h'))

fewer-HasRoom : {m n : ℕ} {s : RelayStats} → m ≤ n → HasRoom n s → HasRoom m s
fewer-HasRoom le h = record {
  received = omega (arith, le, h.received);
  forwarded = omega (arith, le, h.forwarded);
  spoof = omega (arith, le, h.spoof);
  stripped = omega (arith, le, h.stripped);
}

least : (k : ℕ) → k ≤ 0 → 0 ≡ k
least k le = omega (arith, le)

-- A bound that is reached or not.
at_most : (k m : ℕ) → k ≤ suc m → (k ≤ m) ⊎ (k ≡ suc m)
at_most k m le = elim (Bool-cases (leb k m)) [
  | inl y ↦ inl (ground (arith, y, le))
  | inr n ↦ inr (ground (arith, n, le))
]

accesses-le : (gaps : ℕ → List Effect) (k m : ℕ) → k ≤ m → accesses gaps k ≤ accesses gaps m
accesses-le gaps k zero le = subst (λ j. accesses gaps j ≤ 0) (least k le) (omega arith)
accesses-le gaps k (suc m) le = elim (at_most k m le) [
  | inl l ↦ omega (arith, accesses-le gaps k m l)
  | inr e ↦ subst (λ j. accesses gaps j ≤ accesses gaps (suc m)) (sym e) (omega arith)
]

module _ (gaps : ℕ → List Effect) (s : RelayStats) where
  moment-HasRoom : (m n : ℕ) → HasRoom (accesses gaps m + n) s → HasRoom n (moment gaps s m)
  unfolding moment
  moment-HasRoom zero n h = subst (λ k. HasRoom k s) (omega arith) h
  moment-HasRoom (suc m) n h =
      stats_after-HasRoom (gaps m) n (moment gaps s m)
        (moment-HasRoom m (length (gaps m) + n) (subst (λ k. HasRoom k s) (omega arith) h))

  moment-Below :
      (k m : ℕ) → k ≤ m → HasRoom (accesses gaps m) s → Below (moment gaps s k) (moment gaps s m)
  unfolding moment
  moment-Below k zero le h = subst (λ j. Below (moment gaps s j) s) (least k le) (Below-refl s)
  moment-Below k (suc m) le h = elim (at_most k m le) [
    | inl l ↦
        let room = moment-HasRoom m (length (gaps m)) h in
        Below-trans (moment-Below k m l (fewer-HasRoom (omega arith) h)) (
          stats_after-Below (gaps m) 0 (moment gaps s m)
            (subst (λ j. HasRoom j (moment gaps s m)) (omega arith) room))
    | inr e ↦ subst (λ j. Below (moment gaps s j) (moment gaps s (suc m))) (sym e) (Below-refl _)
  ]

  first_moment : (k : ℕ) → Below (moment gaps s 0) (moment gaps s k) → Below s (moment gaps s k)
  unfolding moment
  first_moment k h = h

-- Each counter of a snapshot is between its values in two states.
pub record IsBetween (s t : RelayStats) (x : RelayStatsSnapshot) : Type 0 where
  pub packets_received :
      (s.packets_received ≤ x.packets_received) × (x.packets_received ≤ t.packets_received)
  pub packets_forwarded :
      (s.packets_forwarded ≤ x.packets_forwarded) × (x.packets_forwarded ≤ t.packets_forwarded)
  pub packets_dropped_parse_error :
      (s.packets_dropped_parse_error ≤ x.packets_dropped_parse_error)
      × (x.packets_dropped_parse_error ≤ t.packets_dropped_parse_error)
  pub packets_dropped_spoof :
      (s.packets_dropped_spoof ≤ x.packets_dropped_spoof)
      × (x.packets_dropped_spoof ≤ t.packets_dropped_spoof)
  pub option82_inserted :
      (s.option82_inserted ≤ x.option82_inserted) × (x.option82_inserted ≤ t.option82_inserted)
  pub option82_stripped :
      (s.option82_stripped ≤ x.option82_stripped) × (x.option82_stripped ≤ t.option82_stripped)
  pub vss_not_supported :
      (s.vss_not_supported ≤ x.vss_not_supported) × (x.vss_not_supported ≤ t.vss_not_supported)
  pub smf_duplicates_detected :
      (s.smf_duplicates_detected ≤ x.smf_duplicates_detected)
      × (x.smf_duplicates_detected ≤ t.smf_duplicates_detected)
  pub smf_forwarded : (s.smf_forwarded ≤ x.smf_forwarded) × (x.smf_forwarded ≤ t.smf_forwarded)

-- However the tasks go on while the counters are loaded, as long as no counter wraps, each counter of
-- the snapshot is at least what it was when the first was loaded and at most what it is when the last
-- is loaded.
pub snapshot-IsBetween :
    (gaps : ℕ → List Effect) (s : RelayStats)
    → HasRoom (accesses gaps 8) s
    → IsBetween s (moment gaps s 8) (snapshot gaps s)
unfolding snapshot
snapshot-IsBetween gaps s h = record {
  packets_received =
      ((since 0 (omega arith)).packets_received, (until 0 (omega arith)).packets_received);
  packets_forwarded =
      ((since 1 (omega arith)).packets_forwarded, (until 1 (omega arith)).packets_forwarded);
  packets_dropped_parse_error = (
    (since 2 (omega arith)).packets_dropped_parse_error,
    (until 2 (omega arith)).packets_dropped_parse_error,
  );
  packets_dropped_spoof = (
    (since 3 (omega arith)).packets_dropped_spoof,
    (until 3 (omega arith)).packets_dropped_spoof,
  );
  option82_inserted =
      ((since 4 (omega arith)).option82_inserted, (until 4 (omega arith)).option82_inserted);
  option82_stripped =
      ((since 5 (omega arith)).option82_stripped, (until 5 (omega arith)).option82_stripped);
  vss_not_supported =
      ((since 6 (omega arith)).vss_not_supported, (until 6 (omega arith)).vss_not_supported);
  smf_duplicates_detected = (
    (since 7 (omega arith)).smf_duplicates_detected,
    (until 7 (omega arith)).smf_duplicates_detected,
  );
  smf_forwarded = ((since 8 (omega arith)).smf_forwarded, (until 8 (omega arith)).smf_forwarded);
}
  where
    until : (k : ℕ) → k ≤ 8 → Below (moment gaps s k) (moment gaps s 8)
    until k le = moment-Below gaps s k 8 le h

    since : (k : ℕ) → k ≤ 8 → Below s (moment gaps s k)
    since k le =
        first_moment gaps s k
          (moment-Below gaps s 0 k (omega arith) (fewer-HasRoom (accesses-le gaps k 8 le) h))
