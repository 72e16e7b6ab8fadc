-- ===== src/Smf/Dpd/History.antt =====
-- Sequences of packets and evictions on the cache of smf/dpd.rs.
use dhcp_relay_agent.Common.{
  ℕ, ◌+◌, ◌≤◌, ◌<◌, ◌≡◌, ◌≢◌, ◌∙◌, refl, true, some, List, [], ◌∷◌, All, arith, ok, ◌==◌,
  if◌then◌else◌, ==-refl,
}
use dhcp_relay_agent.Common.Assoc
use dhcp_relay_agent.Smf.Dpd.{
  DpdKey, key_eq, key_beq_iff, DpdEntry, DpdCache, find, check_and_insert, evict_expired,
}
use dhcp_relay_agent.Smf.Dpd.Verdict.{
  updated, check_and_insert-verdict, find-check_and_insert, window-check_and_insert,
  check_and_insert-IsMap, window-evict_expired, find-evict_expired, evict_expired-IsMap,
}

-- A packet that is checked, or a run of the eviction task, each with its time.
pub data Event : Type 0 where
  packet : (key : DpdKey) (now ttl : ℕ) → Event
  evict : (now : ℕ) → Event

abbrev pub time : Event → ℕ
time (packet key now ttl) = now
time (evict now) = now

unfoldable pub step : Event → DpdCache → DpdCache
step (packet key now ttl) c = (check_and_insert key now ttl c).1
step (evict now) c = evict_expired now c

unfoldable pub run : List Event → DpdCache → DpdCache
run [] c = c
run (e ∷ es) c = run es (step e c)

-- Since time `start` a packet of this key and at least this TTL has been recorded.
record Remembers (key : DpdKey) (start ttl window : ℕ) (c : DpdCache) : Type 0 where
  entry : DpdEntry
  found : find key c ≡ some entry
  high : ttl ≤ entry.ttl
  young : start ≤ entry.first_seen
  width : c.window ≡ window
  is_map : Assoc.IsMap c.map

-- Not before `start`, and before the window that begins there is over.
abbrev pub IsWithin : ℕ → ℕ → Event → Type 0
IsWithin start window e = (start ≤ time e) × (time e < start + window)

module _ (key : DpdKey) (start ttl window : ℕ) where
  packet-Remembers :
      (k : DpdKey) (now t : ℕ) (c : DpdCache)
      → start ≤ now
      → Remembers key start ttl window c
      → Remembers key start ttl window (check_and_insert k now t c).1
  packet-Remembers k now t c late r = record {
    entry = if k == key then updated now t (some r.entry) else r.entry;
    found = ground (arith, r.found, find-check_and_insert k now t c key, key_beq_iff k key);
    high = ground (arith, r.high);
    young = ground (arith, r.young);
    width = window-check_and_insert k now t c ∙ r.width;
    is_map = check_and_insert-IsMap k now t c r.is_map;
  }

  evict-Remembers :
      (now : ℕ) (c : DpdCache)
      → now < start + window
      → Remembers key start ttl window c
      → Remembers key start ttl window (evict_expired now c)
  evict-Remembers now c early r = record {
    entry = r.entry;
    found = ground (arith, r.found, r.young, r.width, find-evict_expired key now c r.is_map);
    high = r.high;
    young = r.young;
    width = window-evict_expired now c ∙ r.width;
    is_map = evict_expired-IsMap now c r.is_map;
  }

  run-Remembers :
      (es : List Event) (c : DpdCache)
      → All (IsWithin start window) es
      → Remembers key start ttl window c
      → Remembers key start ttl window (run es c)
  unfolding run step
  run-Remembers [] c h r = r
  run-Remembers (packet k now t ∷ es) c (w, h) r =
      run-Remembers es (check_and_insert k now t c).1 h (packet-Remembers k now t c w.0 r)
  run-Remembers (evict now ∷ es) c (w, h) r =
      run-Remembers es (evict_expired now c) h (evict-Remembers now c w.1 r)

  -- After an accepted packet the key is remembered.
  accepted-Remembers :
      (c : DpdCache)
      → c.window ≡ window
      → Assoc.IsMap c.map
      → (check_and_insert key start ttl c).0 ≡ ok true
      → Remembers key start ttl window (check_and_insert key start ttl c).1
  accepted-Remembers c w m h = record {
    entry = updated start ttl (find key c);
    found = ground (arith, find-check_and_insert key start ttl c key, ==-refl key);
    high = ground (arith, check_and_insert-verdict key start ttl c);
    young = ground (arith, check_and_insert-verdict key start ttl c);
    width = window-check_and_insert key start ttl c ∙ w;
    is_map = check_and_insert-IsMap key start ttl c m;
  }

  remembered-ne-accepted :
      (c : DpdCache) (now t : ℕ)
      → Remembers key start ttl window c
      → t ≤ ttl
      → (check_and_insert key now t c).0 ≢ ok true
  remembered-ne-accepted c now t r low =
      ground (arith, r.found, r.high, check_and_insert-verdict key now t c)

-- A packet that was accepted is not accepted again, nor with a smaller TTL, while the window lasts:
-- whatever packets are checked and however often the eviction runs in between, if none of that
-- is earlier than the first acceptance or as late as the end of its window.
pub no_second_acceptance :
    (key : DpdKey) (start ttl : ℕ) (c : DpdCache) (es : List Event) (now t : ℕ)
    → Assoc.IsMap c.map
    → (check_and_insert key start ttl c).0 ≡ ok true
    → All (IsWithin start c.window) es
    → t ≤ ttl
    → (check_and_insert key now t (run es (check_and_insert key start ttl c).1)).0 ≢ ok true
no_second_acceptance key start ttl c es now t m h within low =
    remembered-ne-accepted key start ttl c.window (run es (check_and_insert key start ttl c).1) now
      t
      (run-Remembers key start ttl c.window es (check_and_insert key start ttl c).1 within
        (accepted-Remembers key start ttl c.window c refl m h))
      low
