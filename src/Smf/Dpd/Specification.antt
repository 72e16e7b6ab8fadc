-- ===== src/Smf/Dpd/Specification.antt =====
-- What the cache of smf/dpd.rs promises, without its map: a memory that gives each key's entry.
use dhcp_relay_agent.Common.{
  ℕ, ◌≡◌, ◌∙◌, refl, ap, ap₂, Bool, Option, none, some, List, [], ◌∷◌, ◌==◌, if◌then◌else◌,
}
use dhcp_relay_agent.Common.Assoc
use dhcp_relay_agent.Error.{RelayResult}
use dhcp_relay_agent.Smf.Dpd.{
  DpdKey, key_eq, DpdEntry, DpdCache, new, find, check_and_insert, is_fresh, evict_expired,
}
use dhcp_relay_agent.Smf.Dpd.Verdict.{
  verdict, updated, check_and_insert-verdict, find-check_and_insert, window-check_and_insert,
  check_and_insert-IsMap, find-evict_expired, evict_expired-IsMap, window-evict_expired,
}
use dhcp_relay_agent.Smf.Dpd.History.{Event, packet, evict}

-- The answers of `check_and_insert` to the packets, in their order.
unfoldable pub answers : List Event → DpdCache → List (RelayResult Bool)
answers [] c = []
answers (packet key now ttl ∷ es) c =
    let (r, c') = check_and_insert key now ttl c in r ∷ answers es c'
answers (evict now ∷ es) c = answers es (evict_expired now c)

abbrev pub Memory : Type 0
Memory = DpdKey → Option DpdEntry

abbrev pub nothing : Memory
nothing key = none

-- The key's entry is stamped anew by a packet that is new, and no other entry changes.
abbrev pub remember : DpdKey → ℕ → ℕ → Memory → Memory
remember key now ttl m k = if key == k then some (updated now ttl (m key)) else m k

-- Entries that are as old as the window are gone.
abbrev pub forget : ℕ → ℕ → Memory → Memory
forget now window m k = Assoc.kept (is_fresh now window) (m k)

unfoldable pub promised : ℕ → List Event → Memory → List (RelayResult Bool)
promised window [] m = []
promised window (packet key now ttl ∷ es) m =
    verdict ttl (m key) ∷ promised window es (remember key now ttl m)
promised window (evict now ∷ es) m = promised window es (forget now window m)

answers-promised :
    (es : List Event) (c : DpdCache) (m : Memory)
    → Assoc.IsMap c.map
    → ((k : DpdKey) → find k c ≡ m k)
    → answers es c ≡ promised c.window es m
unfolding answers promised
answers-promised [] c m h same = refl
answers-promised (packet key now ttl ∷ es) c m h same =
    ap₂ (λ r rs. r ∷ rs) (check_and_insert-verdict key now ttl c ∙ ap (verdict ttl) (same key))
      (answers-promised es (check_and_insert key now ttl c).1 (remember key now ttl m)
          (check_and_insert-IsMap key now ttl c h)
          (λ k.
            find-check_and_insert key now ttl c k
            ∙ ap₂ (λ e o. if key == k then some (updated now ttl e) else o) (same key) (same k))
        ∙ ap (λ window. promised window es (remember key now ttl m))
            (window-check_and_insert key now ttl c))
answers-promised (evict now ∷ es) c m h same =
    answers-promised es (evict_expired now c) (forget now c.window m) (evict_expired-IsMap now c h)
      (λ k. find-evict_expired k now c h ∙ ap (Assoc.kept (is_fresh now c.window)) (same k))
    ∙ ap (λ window. promised window es (forget now c.window m)) (window-evict_expired now c)

-- Whatever packets arrive and whenever evictions run, a new cache answers each packet as the memory
-- does that remembers nothing at first: by the TTL of the key's entry, which is the last packet of
-- the key that was new and has not grown as old as the window at an eviction since.
pub answers-new :
    (window : ℕ) (es : List Event) → answers es (new window) ≡ promised window es nothing
answers-new window es =
    answers-promised es (new window) nothing tt (λ k. unfold Assoc.lookup in refl)
