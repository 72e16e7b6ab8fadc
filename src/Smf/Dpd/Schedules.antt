-- ===== src/Smf/Dpd/Schedules.antt =====
-- Every schedule of two calls of `check_and_insert` (smf/dpd.rs) for one key.
use dhcp_relay_agent.Common.{
  ℕ, ◌≡◌, inl, inr, Bool, true, none, some, List, [], ◌∷◌, arith, ok, Option-cases,
}
use dhcp_relay_agent.Error.{RelayResult}
use dhcp_relay_agent.Smf.Dpd.{DpdKey, key_eq, DpdEntry, DpdCache, find, store, check_and_insert}
use dhcp_relay_agent.Smf.Dpd.Verdict.{check_and_insert_lem}
use dhcp_relay_agent.Smf.Dpd.Race.{
  Phase, idle, missed, returned, advance, Thread, left, right, System, turn, schedule, both_idle,
}

advance-found :
    (key : DpdKey) (now ttl : ℕ) (c : DpdCache) (e : DpdEntry)
    → find key c ≡ some e
    → advance key now ttl idle c
      ≡ (returned (check_and_insert key now ttl c).0, (check_and_insert key now ttl c).1)
unfolding advance check_and_insert
advance-found key now ttl c e h = ground (arith, h)

advance-missed :
    (key : DpdKey) (now ttl : ℕ) (c : DpdCache)
    → find key c ≡ none
    → (advance key now ttl idle c ≡ (missed, c))
      × (advance key now ttl missed c
          ≡ (returned (check_and_insert key now ttl c).0, (check_and_insert key now ttl c).1))
unfolding advance check_and_insert
advance-missed key now ttl c h = (ground (arith, h), ground (arith, h))

module _ (key : DpdKey) (now₁ ttl₁ now₂ ttl₂ : ℕ) (c : DpdCache) where
  abbrev pub stamped : ℕ → ℕ → DpdEntry
  stamped now ttl = record { first_seen = now; ttl = ttl }

  -- The calls one after the other, in either order.
  abbrev pub first_alone : RelayResult Bool × DpdCache
  first_alone = check_and_insert key now₁ ttl₁ c

  abbrev pub second_after : RelayResult Bool × DpdCache
  second_after = check_and_insert key now₂ ttl₂ first_alone.1

  abbrev pub second_alone : RelayResult Bool × DpdCache
  second_alone = check_and_insert key now₂ ttl₂ c

  abbrev pub first_after : RelayResult Bool × DpdCache
  first_after = check_and_insert key now₁ ttl₁ second_alone.1

  -- How two calls can have answered: one after the other in either order, or both as for a new
  -- packet where the key was not cached.
  pub data Answered : RelayResult Bool → RelayResult Bool → DpdCache → Type 0 where
    first_then_second : Answered first_alone.0 second_after.0 second_after.1
    second_then_first : Answered first_after.0 second_alone.0 first_after.1
    both_first :
        find key c ≡ none
        → Answered
            (ok true)
            (ok true)
            (store key (stamped now₂ ttl₂) (store key (stamped now₁ ttl₁) c))
    both_second :
        find key c ≡ none
        → Answered
            (ok true)
            (ok true)
            (store key (stamped now₁ ttl₁) (store key (stamped now₂ ttl₂) c))

  abbrev system : Phase → Phase → DpdCache → System
  system p q d = record { first = p; second = q; cache = d }

  -- The states that a schedule can reach.
  data Reached : System → Type 0 where
    neither : Reached (system idle idle c)
    first_missed : find key c ≡ none → Reached (system missed idle c)
    second_missed : find key c ≡ none → Reached (system idle missed c)
    both_missed : find key c ≡ none → Reached (system missed missed c)
    first_done : Reached (system (returned first_alone.0) idle first_alone.1)
    second_done : Reached (system idle (returned second_alone.0) second_alone.1)
    first_done_missed :
        find key c ≡ none
        → Reached (system (returned (ok true)) missed (store key (stamped now₁ ttl₁) c))
    second_done_missed :
        find key c ≡ none
        → Reached (system missed (returned (ok true)) (store key (stamped now₂ ttl₂) c))
    both_done :
        {r₁ r₂ : RelayResult Bool} {d : DpdCache}
        → Answered r₁ r₂ d
        → Reached (system (returned r₁) (returned r₂) d)

  turn-Reached : (t : Thread) (s : System) → Reached s → Reached (turn key now₁ ttl₁ now₂ ttl₂ t s)
  unfolding turn
  turn-Reached left s neither = elim (Option-cases (find key c)) [
    | inl n ↦ rw (advance-missed key now₁ ttl₁ c n).0 (first_missed n)
    | inr (e, h) ↦ rw (advance-found key now₁ ttl₁ c e h) first_done
  ]
  turn-Reached right s neither = elim (Option-cases (find key c)) [
    | inl n ↦ rw (advance-missed key now₂ ttl₂ c n).0 (second_missed n)
    | inr (e, h) ↦ rw (advance-found key now₂ ttl₂ c e h) second_done
  ]
  turn-Reached left s (first_missed n) = rw (advance-missed key now₁ ttl₁ c n).1 first_done
  turn-Reached right s (first_missed n) = rw (advance-missed key now₂ ttl₂ c n).0 (both_missed n)
  turn-Reached left s (second_missed n) = rw (advance-missed key now₁ ttl₁ c n).0 (both_missed n)
  turn-Reached right s (second_missed n) = rw (advance-missed key now₂ ttl₂ c n).1 second_done
  turn-Reached left s (both_missed n) = unfold advance in first_done_missed n
  turn-Reached right s (both_missed n) = unfold advance in second_done_missed n
  turn-Reached left s first_done = unfold advance in first_done
  turn-Reached right s first_done =
      rw (advance-found key now₂ ttl₂ first_alone.1 _ (check_and_insert_lem key now₁ ttl₁ c).1)
        (both_done first_then_second)
  turn-Reached left s second_done =
      rw (advance-found key now₁ ttl₁ second_alone.1 _ (check_and_insert_lem key now₂ ttl₂ c).1)
        (both_done second_then_first)
  turn-Reached right s second_done = unfold advance in second_done
  turn-Reached left s (first_done_missed n) = unfold advance in first_done_missed n
  turn-Reached right s (first_done_missed n) = unfold advance in both_done (both_first n)
  turn-Reached left s (second_done_missed n) = unfold advance in both_done (both_second n)
  turn-Reached right s (second_done_missed n) = unfold advance in second_done_missed n
  turn-Reached left s (both_done a) = unfold advance in both_done a
  turn-Reached right s (both_done a) = unfold advance in both_done a

  schedule-Reached :
      (ts : List Thread) (s : System) → Reached s → Reached (schedule key now₁ ttl₁ now₂ ttl₂ ts s)
  unfolding schedule
  schedule-Reached [] s h = h
  schedule-Reached (t ∷ ts) s h =
      schedule-Reached ts (turn key now₁ ttl₁ now₂ ttl₂ t s) (turn-Reached t s h)

  Reached-Answered :
      (s : System) (r₁ r₂ : RelayResult Bool)
      → Reached s
      → s.first ≡ returned r₁
      → s.second ≡ returned r₂
      → Answered r₁ r₂ s.cache
  Reached-Answered s r₁ r₂ neither e f = absurd (ground (arith, e))
  Reached-Answered s r₁ r₂ (first_missed n) e f = absurd (ground (arith, e))
  Reached-Answered s r₁ r₂ (second_missed n) e f = absurd (ground (arith, e))
  Reached-Answered s r₁ r₂ (both_missed n) e f = absurd (ground (arith, e))
  Reached-Answered s r₁ r₂ first_done e f = absurd (ground (arith, f))
  Reached-Answered s r₁ r₂ second_done e f = absurd (ground (arith, e))
  Reached-Answered s r₁ r₂ (first_done_missed n) e f = absurd (ground (arith, f))
  Reached-Answered s r₁ r₂ (second_done_missed n) e f = absurd (ground (arith, e))
  Reached-Answered s r₁ r₂ (both_done {r₁ = p} {r₂ = q} {d} a) e f =
      let same₁ : p ≡ r₁ = cc in let same₂ : q ≡ r₂ = cc in rw (← same₁, ← same₂) a

-- Under every schedule of the atomic steps of two calls for one key in which both return, they
-- answer and leave the cache as if they had run one after the other, in one of the two orders, except
-- where the key was not cached: then both can accept, and the entry of the later insertion is kept.
pub schedule-Answered :
    (key : DpdKey) (now₁ ttl₁ now₂ ttl₂ : ℕ) (c : DpdCache) (ts : List Thread)
    (r₁ r₂ : RelayResult Bool)
    → (schedule key now₁ ttl₁ now₂ ttl₂ ts (both_idle c)).first ≡ returned r₁
    → (schedule key now₁ ttl₁ now₂ ttl₂ ts (both_idle c)).second ≡ returned r₂
    → Answered key now₁ ttl₁ now₂ ttl₂ c r₁ r₂
        (schedule key now₁ ttl₁ now₂ ttl₂ ts (both_idle c)).cache
schedule-Answered key now₁ ttl₁ now₂ ttl₂ c ts r₁ r₂ e f =
    Reached-Answered key now₁ ttl₁ now₂ ttl₂ c (schedule key now₁ ttl₁ now₂ ttl₂ ts (both_idle c))
      r₁ r₂ (schedule-Reached key now₁ ttl₁ now₂ ttl₂ c ts (both_idle c) neither) e f
