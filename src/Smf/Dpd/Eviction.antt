-- ===== src/Smf/Dpd/Eviction.antt =====
-- The task of `spawn_eviction_task` (smf/dpd.rs), whose ticks come a quarter of the window apart,
-- the first at once, and the age that an entry can reach while it runs.
use dhcp_relay_agent.Common.{
  ℕ, ◌+◌, ◌/◌, ◌≤◌, ◌<◌, ◌≡◌, ◌∙◌, refl, none, some, List, [], ◌∷◌, arith, nat_eq, Option-cases,
  inl, inr,
}
use dhcp_relay_agent.Common.Assoc
use dhcp_relay_agent.Smf.Dpd.{
  DpdKey, key_eq, DpdEntry, DpdCache, new, find, check_and_insert, evict_expired, second,
  eviction_interval,
}
use dhcp_relay_agent.Smf.Dpd.Verdict.{
  find-check_and_insert, window-check_and_insert, check_and_insert-IsMap, find-evict_expired,
  evict_expired-IsMap, window-evict_expired,
}
use dhcp_relay_agent.Smf.Dpd.History.{Event, packet, evict, step, run}

-- The events from time `now` on, in their order and until time `end`, where the next tick of the
-- task comes at time `next`, each tick evicts, and no other eviction is run.
pub data Ticking (interval : ℕ) : (next now end : ℕ) → List Event → Type 0 where
  over : {next now end : ℕ} → now ≤ end → end ≤ next → Ticking interval next now end []
  arrival :
      {next now end : ℕ} {es : List Event} (key : DpdKey) (at ttl : ℕ)
      → now ≤ at
      → at ≤ next
      → Ticking interval next at end es
      → Ticking interval next now end (packet key at ttl ∷ es)
  tick :
      {next now end : ℕ} {es : List Event}
      → now ≤ next
      → Ticking interval (next + interval) next end es
      → Ticking interval next now end (evict next ∷ es)

-- No entry will be older than the window and an interval at the next tick.
record Young (interval window next now : ℕ) (c : DpdCache) : Type 0 where
  young : (k : DpdKey) (e : DpdEntry) → find k c ≡ some e → next < e.first_seen + window + interval
  soon : next ≤ now + interval
  wide : 0 < window
  width : c.window ≡ window
  is_map : Assoc.IsMap c.map

module _ (interval window : ℕ) where
  packet-Young :
      (key : DpdKey) (next now at ttl : ℕ) (c : DpdCache)
      → now ≤ at
      → Young interval window next now c
      → Young interval window next at (check_and_insert key at ttl c).1
  packet-Young key next now at ttl c later y = record {
    young = λ k e found. elim (Option-cases (find key c)) [
      | inl n ↦
          ground
            (arith, n, found, find-check_and_insert key at ttl c k, y.young k e, y.soon, y.wide)
      | inr (old, o) ↦ ground (
        arith,
        o,
        found,
        find-check_and_insert key at ttl c k,
        y.young k e,
        y.young key old,
        y.soon,
        y.wide,
      )
    ];
    soon = omega (arith, y.soon);
    wide = y.wide;
    width = window-check_and_insert key at ttl c ∙ y.width;
    is_map = check_and_insert-IsMap key at ttl c y.is_map;
  }

  evict-Young :
      (next now : ℕ) (c : DpdCache)
      → Young interval window next now c
      → Young interval window (next + interval) next (evict_expired next c)
  evict-Young next now c y = record {
    young = λ k e found. elim (Option-cases (find k c)) [
      | inl n ↦ ground (arith, n, found, find-evict_expired k next c y.is_map)
      | inr (old, o) ↦ ground (arith, o, found, y.width, find-evict_expired k next c y.is_map)
    ];
    soon = omega arith;
    wide = y.wide;
    width = window-evict_expired next c ∙ y.width;
    is_map = evict_expired-IsMap next c y.is_map;
  }

  run-Young :
      {next now end : ℕ} {es : List Event} (c : DpdCache)
      → Ticking interval next now end es
      → Young interval window next now c
      → (k : DpdKey) (e : DpdEntry) → find k (run es c) ≡ some e
      → end < e.first_seen + window + interval
  unfolding run step
  run-Young c (over h l) y k e found = omega (arith, y.young k e found)
  run-Young c (arrival {next} {now} key at ttl h l t) y k e found =
      run-Young (check_and_insert key at ttl c).1 t (packet-Young key next now at ttl c h y) k e
        found
  run-Young c (tick {next} {now} h t) y k e found =
      run-Young (evict_expired next c) t (evict-Young next now c y) k e found

find-new : (k : DpdKey) (window : ℕ) → find k (new window) ≡ none
unfolding Assoc.lookup
find-new k window = refl

eviction_interval-some :
    (c : DpdCache) (interval : ℕ)
    → eviction_interval c ≡ some interval
    → (c.window / 4 ≡ interval) × (second ≤ interval)
unfolding eviction_interval
eviction_interval-some c interval set = (ground (arith, set), ground (arith, set))

-- While the eviction task of a cache that was empty runs, no entry reaches the age of a window and
-- a quarter: whatever packets arrive, at every time the entry of every key is younger than that.
pub run-Ticking :
    (window interval start end : ℕ) (es : List Event) (k : DpdKey) (e : DpdEntry)
    → eviction_interval (new window) ≡ some interval
    → Ticking interval start start end es
    → find k (run es (new window)) ≡ some e
    → end < e.first_seen + window + window / 4
run-Ticking window interval start end es k e set t found =
    let (quarter, long) = eviction_interval-some (new window) interval set in
    let bound =
      run-Young interval window (new window) t
        (record {
          young = λ j f h. ground (arith, h, find-new j window);
          soon = omega arith;
          wide = omega (arith, quarter, long);
          width = refl;
          is_map = tt;
        })
        k e found in
    omega (arith, quarter, bound)
