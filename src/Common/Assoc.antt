-- ===== src/Common/Assoc.antt =====
-- Maps with keys that can be compared, as association lists: a key's first entry counts. The code
-- never reads a map's order, and `entries` is used only by `retain`.
use mathlib.Core.Path.{◌≡◌, refl}
use mathlib.Core.Bool.{Bool}
use mathlib.Core.List.{List, [], ◌∷◌}
use mathlib.Core.Option.{Option, none, some}
use native.Mathlib.Omega.{arith}
use dhcp_relay_agent.Common.Tests.{Eq, ◌==◌, if◌then◌else◌, ==-refl}

-- `opt.filter(keep)`
abbrev pub kept {ℓ} : {V : Type ℓ} → (V → Bool) → Option V → Option V
kept keep none = none
kept keep (some v) = if keep v then some v else none

module _ {ℓ} {K V : Type ℓ} ⦃e : Eq K⦄ where
  -- `map.get(&k)`
  unfoldable pub lookup : K → List (K × V) → Option V
  lookup k [] = none
  lookup k ((j, v) ∷ m) = if j == k then some v else lookup k m

  -- `map.insert(k, v)`: the value of a key that is there is replaced.
  unfoldable pub insert : K → V → List (K × V) → List (K × V)
  insert k v [] = (k, v) ∷ []
  insert k v ((j, w) ∷ m) = let rest = insert k v m in if j == k then (k, v) ∷ m else (j, w) ∷ rest

  -- What a key finds behind an insertion.
  pub lookup-insert :
      (new key : K) (value : V) (map : List (K × V))
      → lookup key (insert new value map) ≡ (if new == key then some value else lookup key map)
  unfolding insert lookup
  lookup-insert new key value [] = refl
  lookup-insert new key value ((here, old) ∷ map) = ground (
    arith,
    lookup-insert new key value map,
    e.beq_iff here key,
    e.beq_iff here new,
    e.beq_iff new key,
  )

  pub lookup-insert_self : (k : K) (v : V) (m : List (K × V)) → lookup k (insert k v m) ≡ some v
  lookup-insert_self k v m = ground (arith, lookup-insert k k v m, ==-refl k)

  -- Every key stands once.
  abbrev pub HasNo : K → List (K × V) → Type ℓ
  HasNo k m = lookup k m ≡ none

  abbrev pub IsMap : List (K × V) → Type ℓ
  IsMap [] = Unit
  IsMap ((k, v) ∷ m) = HasNo k m × IsMap m

  -- `map.retain(|_, v| keep(v))`
  unfoldable pub retain : (V → Bool) → List (K × V) → List (K × V)
  retain keep [] = []
  retain keep ((j, v) ∷ m) = let rest = retain keep m in if keep v then (j, v) ∷ rest else rest

  lookup-retain-none :
      (keep : V → Bool) (k : K) (m : List (K × V))
      → lookup k m ≡ none
      → lookup k (retain keep m) ≡ none
  unfolding lookup retain
  lookup-retain-none keep k [] h = refl
  lookup-retain-none keep k ((j, v) ∷ m) h = ground (arith, lookup-retain-none keep k m)

  pub lookup-retain :
      (keep : V → Bool) (k : K) (m : List (K × V))
      → IsMap m
      → lookup k (retain keep m) ≡ kept keep (lookup k m)
  unfolding lookup retain
  lookup-retain keep k [] h = refl
  lookup-retain keep k ((j, v) ∷ m) (fresh, h) =
      ground (arith, e.beq_iff j k, lookup-retain keep k m h, lookup-retain-none keep k m)

  pub insert-IsMap : (k : K) (v : V) (m : List (K × V)) → IsMap m → IsMap (insert k v m)
  unfolding insert lookup
  insert-IsMap k v [] h = ground arith
  insert-IsMap k v ((j, w) ∷ m) (fresh, h) =
      ground (arith, e.beq_iff j k, e.beq_iff k j, insert-IsMap k v m h, lookup-insert k j v m)

  pub retain-IsMap : (keep : V → Bool) (m : List (K × V)) → IsMap m → IsMap (retain keep m)
  unfolding retain
  retain-IsMap keep [] h = tt
  retain-IsMap keep ((j, v) ∷ m) (fresh, h) =
      ground (arith, retain-IsMap keep m h, lookup-retain-none keep j m fresh)
