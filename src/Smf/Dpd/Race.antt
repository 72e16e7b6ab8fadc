-- ===== src/Smf/Dpd/Race.antt =====
-- Two calls of `check_and_insert` (smf/dpd.rs) that run at the same time. The map's lock is held
-- while an entry that was found is judged; where none was found it is released, and taken again by
-- the insertion. So a call is one atomic step or two.
use dhcp_relay_agent.Common.{ℕ, ◌≡◌, refl, ap, Bool, true, none, some, List, [], ◌∷◌, arith, ok}
use dhcp_relay_agent.Common.Assoc
use dhcp_relay_agent.Error.{RelayResult}
use dhcp_relay_agent.Smf.Dpd.{DpdKey, key_eq, DpdCache, find, store, judge, check_and_insert}

-- Where a call is: before its look-up, after a look-up that found nothing, or returned.
pub data Phase : Type 0 where
  idle missed : Phase
  returned : RelayResult Bool → Phase

abbrev pub judged : RelayResult Bool × DpdCache → Phase × DpdCache
judged (r, c) = (returned r, c)

-- The next atomic step of a call.
unfoldable pub advance : DpdKey → ℕ → ℕ → Phase → DpdCache → Phase × DpdCache
unfolding judge
advance key now ttl idle c = elim (find key c) [
  | some entry ↦ judged (judge key now ttl entry c)
  | none ↦ (missed, c)
]
advance key now ttl missed c =
    (returned (ok true), store key (record { first_seen = now; ttl = ttl }) c)
advance key now ttl (returned r) c = (returned r, c)

pub data Thread : Type 0 where
  left right : Thread

pub record System : Type 0 where
  pub first : Phase
  pub second : Phase
  pub cache : DpdCache

-- Two calls for one key, each with its own time and TTL, under a schedule of their steps.
module _ (key : DpdKey) (now₁ ttl₁ now₂ ttl₂ : ℕ) where
  unfoldable pub turn : Thread → System → System
  turn left s =
      let (p, c) = advance key now₁ ttl₁ s.first s.cache in
      record { first = p; second = s.second; cache = c }
  turn right s =
      let (p, c) = advance key now₂ ttl₂ s.second s.cache in
      record { first = s.first; second = p; cache = c }

  unfoldable pub schedule : List Thread → System → System
  schedule [] s = s
  schedule (t ∷ ts) s = schedule ts (turn t s)

abbrev pub both_idle : DpdCache → System
both_idle c = record { first = idle; second = idle; cache = c }

-- A call whose two steps are not interrupted is `check_and_insert`.
pub advance_twice :
    (key : DpdKey) (now ttl : ℕ) (c : DpdCache)
    → (let (p, c') = advance key now ttl idle c in advance key now ttl p c')
      ≡ (returned (check_and_insert key now ttl c).0, (check_and_insert key now ttl c).1)
unfolding advance check_and_insert
advance_twice key now ttl c = ground arith

advance_twice_phase :
    (key : DpdKey) (now ttl : ℕ) (c : DpdCache)
    → (advance key now ttl (advance key now ttl idle c).0 (advance key now ttl idle c).1).0
      ≡ returned (check_and_insert key now ttl c).0
advance_twice_phase key now ttl c = ap (λ p. p.0) (advance_twice key now ttl c)

advance_twice_cache :
    (key : DpdKey) (now ttl : ℕ) (c : DpdCache)
    → (advance key now ttl (advance key now ttl idle c).0 (advance key now ttl idle c).1).1
      ≡ (check_and_insert key now ttl c).1
advance_twice_cache key now ttl c = ap (λ p. p.1) (advance_twice key now ttl c)

advance_missing :
    (key : DpdKey) (now ttl : ℕ) (c : DpdCache)
    → find key c ≡ none
    → advance key now ttl idle c ≡ (missed, c)
unfolding advance
advance_missing key now ttl c h = ground arith

-- One after the other, the calls answer as two calls of `check_and_insert` in that order.
pub in_turn :
    (key : DpdKey) (now₁ ttl₁ now₂ ttl₂ : ℕ) (c : DpdCache)
    → schedule key now₁ ttl₁ now₂ ttl₂ (left ∷ left ∷ right ∷ right ∷ []) (both_idle c) ≡ (
        let (r₁, c₁) = check_and_insert key now₁ ttl₁ c in
        let (r₂, c₂) = check_and_insert key now₂ ttl₂ c₁ in
        record { first = returned r₁; second = returned r₂; cache = c₂ })
unfolding schedule turn
in_turn key now₁ ttl₁ now₂ ttl₂ c = simp (advance_twice_phase, advance_twice_cache)

-- Whatever their TTLs, two calls for a key that is not cached both accept the packet if the first
-- looks it up, then the second, and then they insert it in the same order, and the TTL of the second
-- insertion stays in the cache, also where it is the smaller one.
pub both_accept :
    (key : DpdKey) (now₁ ttl₁ now₂ ttl₂ : ℕ) (c : DpdCache)
    → find key c ≡ none
    → (let s = schedule key now₁ ttl₁ now₂ ttl₂ (left ∷ right ∷ left ∷ right ∷ []) (both_idle c) in
        (s.first ≡ returned (ok true))
        × (s.second ≡ returned (ok true))
        × (find key s.cache ≡ some (record { first_seen = now₂; ttl = ttl₂ })))
unfolding schedule turn
both_accept key now₁ ttl₁ now₂ ttl₂ c fresh =
    simp (advance_missing key now₁ ttl₁ c fresh, advance_missing key now₂ ttl₂ c fresh)
      (unfold advance in (refl, refl, Assoc.lookup-insert_self key _ _))
