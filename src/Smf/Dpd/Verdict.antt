-- ===== src/Smf/Dpd/Verdict.antt =====
-- What one call on the cache of smf/dpd.rs answers, and what it leaves in the cache.
use dhcp_relay_agent.Common.{
  ℕ, ◌≡◌, refl, Bool, true, false, Option, none, some, arith, ok, err, ◌==◌, ltb, if◌then◌else◌,
  ==-refl,
}
use dhcp_relay_agent.Common.Assoc
use dhcp_relay_agent.Error.{RelayError, RelayResult}
use dhcp_relay_agent.Smf.Dpd.{
  DpdKey, key_eq, key_beq_iff, DpdEntry, DpdCache, find, check_and_insert, is_fresh, evict_expired,
}

-- The verdict on a packet of TTL `ttl`, given the entry of its key.
abbrev pub verdict : ℕ → Option DpdEntry → RelayResult Bool
verdict ttl none = ok true
verdict ttl (some entry) =
    if ltb entry.ttl ttl
    then ok true
    else if ltb ttl entry.ttl
    then err RelayError.dpd_stale_packet
    else ok false

-- The entry that the packet leaves.
abbrev pub updated : ℕ → ℕ → Option DpdEntry → DpdEntry
updated now ttl none = record { first_seen = now; ttl = ttl }
updated now ttl (some entry) =
    if ltb entry.ttl ttl then record { first_seen = now; ttl = ttl } else entry

module _ (key : DpdKey) (now ttl : ℕ) (c : DpdCache) where
  pub check_and_insert-verdict : (check_and_insert key now ttl c).0 ≡ verdict ttl (find key c)
  unfolding check_and_insert
  check_and_insert-verdict = ground arith

  pub find-check_and_insert :
      (k : DpdKey)
      → find k (check_and_insert key now ttl c).1
        ≡ (if key == k then some (updated now ttl (find key c)) else find k c)
  unfolding check_and_insert
  find-check_and_insert k = ground (
    arith,
    key_beq_iff key k,
    Assoc.lookup-insert key k (record { first_seen = now; ttl = ttl }) c.map,
  )

  pub window-check_and_insert : (check_and_insert key now ttl c).1.window ≡ c.window
  unfolding check_and_insert
  window-check_and_insert = ground arith

  pub check_and_insert-IsMap :
      Assoc.IsMap c.map → Assoc.IsMap (check_and_insert key now ttl c).1.map
  unfolding check_and_insert
  check_and_insert-IsMap h =
      ground (arith, Assoc.insert-IsMap key (record { first_seen = now; ttl = ttl }) c.map h)

-- A packet is new exactly if the cache has no entry for its key or only one of a smaller TTL; it is
-- a duplicate exactly if the cached TTL is the same, and stale exactly if the cached one is larger.
-- Afterwards the key's entry is the new one, stamped with the present time, exactly if the packet
-- was new, and the entries of all other keys are as before.
pub check_and_insert_lem :
    (key : DpdKey) (now ttl : ℕ) (c : DpdCache)
    → ((check_and_insert key now ttl c).0 ≡ verdict ttl (find key c))
      × (find key (check_and_insert key now ttl c).1 ≡ some (updated now ttl (find key c)))
      × ((k : DpdKey) → (key == k) ≡ false → find k (check_and_insert key now ttl c).1 ≡ find k c)
check_and_insert_lem key now ttl c = (
  check_and_insert-verdict key now ttl c,
  ground (arith, find-check_and_insert key now ttl c key, ==-refl key),
  λ k h. ground (arith, find-check_and_insert key now ttl c k),
)

-- An eviction removes exactly the entries that are at least a window old.
pub find-evict_expired :
    (k : DpdKey) (now : ℕ) (c : DpdCache)
    → Assoc.IsMap c.map
    → find k (evict_expired now c) ≡ Assoc.kept (is_fresh now c.window) (find k c)
unfolding evict_expired
find-evict_expired k now c h = Assoc.lookup-retain (is_fresh now c.window) k c.map h

pub evict_expired-IsMap :
    (now : ℕ) (c : DpdCache) → Assoc.IsMap c.map → Assoc.IsMap (evict_expired now c).map
unfolding evict_expired
evict_expired-IsMap now c h = Assoc.retain-IsMap (is_fresh now c.window) c.map h

pub window-evict_expired : (now : ℕ) (c : DpdCache) → (evict_expired now c).window ≡ c.window
unfolding evict_expired
window-evict_expired now c = refl
