-- ===== src/Common/AssocList.antt =====
-- Go maps as association lists with one entry for each key. The order of the entries stands for the
-- order in which `range` visits them, which Go leaves open: theorems hold for every order.
use Prim.Native.Nat.{◌+◌}
use mathlib.Core.Path.{◌≡◌, refl}
use mathlib.Core.Bool.{Bool, false}
use mathlib.Core.List.{List, [], ◌∷◌}
use mathlib.Core.Option.{Option, none, some}
use native.Mathlib.Omega.{arith}
use myflowhub_core.Common.Tests.{if◌then◌else◌}
use myflowhub_core.Common.Lists.{length}
use myflowhub_core.Common.Equality.{Key, same_refl}

abbrev pub Assoc : Type 0 → Type 0 → Type 0
Assoc K V = List (K × V)

module _ {K V : Type 0} where
  -- `for k, v := range m { if drop(v) { delete(m, k) } }`
  unfoldable pub erase_values : (V → Bool) → Assoc K V → Assoc K V
  erase_values d [] = []
  erase_values d ((k, v) ∷ m) = let rest = erase_values d m in if d v then rest else (k, v) ∷ rest

module _ {K V : Type 0} ⦃e : Key K⦄ where
  -- `v, ok := m[k]`
  unfoldable pub lookup : K → Assoc K V → Option V
  lookup k [] = none
  lookup k ((j, v) ∷ m) = if e.same j k then some v else lookup k m

  -- `delete(m, k)`
  unfoldable pub erase : K → Assoc K V → Assoc K V
  erase k [] = []
  erase k ((j, v) ∷ m) = let rest = erase k m in if e.same j k then rest else (j, v) ∷ rest

  -- `m[k] = v`
  unfoldable pub insert : K → V → Assoc K V → Assoc K V
  unfolding erase
  insert k v m = (k, v) ∷ erase k m

  pub lookup-erase :
      (k j : K) (m : Assoc K V) → lookup j (erase k m) ≡ (if e.same k j then none else lookup j m)
  unfolding lookup erase
  lookup-erase k j [] = ground arith
  lookup-erase k j ((i, v) ∷ m) =
      ground (arith, e.same_iff k j, e.same_iff i k, e.same_iff i j, lookup-erase k j m)

  pub lookup-insert :
      (k j : K) (v : V) (m : Assoc K V)
      → lookup j (insert k v m) ≡ (if e.same k j then some v else lookup j m)
  unfolding insert lookup
  lookup-insert k j v m = ground (arith, lookup-erase k j m)

  pub lookup-insert_self : (k : K) (v : V) (m : Assoc K V) → lookup k (insert k v m) ≡ some v
  lookup-insert_self k v m = ground (arith, lookup-insert k k v m, same_refl k)

  -- Every entry found has a value that the filter keeps.
  pub lookup-erase_values :
      (d : V → Bool) (k : K) (v : V) (m : Assoc K V)
      → lookup k (erase_values d m) ≡ some v
      → d v ≡ false
  unfolding lookup erase_values
  lookup-erase_values d k v [] h = cc
  lookup-erase_values d k v ((j, w) ∷ m) h = ground (arith, lookup-erase_values d k v m)

abbrev pub keep_unless : {V : Type 0} → (V → Bool) → Option V → Option V
keep_unless d none = none
keep_unless d (some v) = if d v then none else some v

-- Every key has one entry.
module _ {K V : Type 0} ⦃e : Key K⦄ where
  abbrev pub UniqueKeys : Assoc K V → Type 0
  UniqueKeys [] = Unit {0}
  UniqueKeys ((k, v) ∷ m) = (lookup k m ≡ none) × UniqueKeys m

  lookup-erase_values-none :
      (d : V → Bool) (k : K) (m : Assoc K V)
      → lookup k m ≡ none
      → lookup k (erase_values d m) ≡ none
  unfolding lookup erase_values
  lookup-erase_values-none d k [] h = refl
  lookup-erase_values-none d k ((j, w) ∷ m) h = ground (arith, lookup-erase_values-none d k m)

  pub lookup-erase_values_eq :
      (d : V → Bool) (k : K) (m : Assoc K V)
      → UniqueKeys m
      → lookup k (erase_values d m) ≡ keep_unless d (lookup k m)
  unfolding lookup erase_values
  lookup-erase_values_eq d k [] u = refl
  lookup-erase_values_eq d k ((j, w) ∷ m) u =
      ground (
        arith,
        lookup-erase_values_eq d k m u.1,
        lookup-erase_values-none d j m u.0,
        e.same_iff j k,
      )

  pub erase_values-UniqueKeys :
      (d : V → Bool) (m : Assoc K V) → UniqueKeys m → UniqueKeys (erase_values d m)
  unfolding erase_values
  erase_values-UniqueKeys d [] u = tt
  erase_values-UniqueKeys d ((j, w) ∷ m) u =
      ground (arith, erase_values-UniqueKeys d m u.1, lookup-erase_values-none d j m u.0)

  pub erase-UniqueKeys : (k : K) (m : Assoc K V) → UniqueKeys m → UniqueKeys (erase k m)
  unfolding erase
  erase-UniqueKeys k [] u = tt
  erase-UniqueKeys k ((j, w) ∷ m) u = ground (arith, erase-UniqueKeys k m u.1, lookup-erase k j m)

  pub insert-UniqueKeys : (k : K) (v : V) (m : Assoc K V) → UniqueKeys m → UniqueKeys (insert k v m)
  unfolding insert
  insert-UniqueKeys k v m u =
      ground (arith, erase-UniqueKeys k m u, lookup-erase k k m, same_refl k)

  erase_missing : (k : K) (m : Assoc K V) → lookup k m ≡ none → erase k m ≡ m
  unfolding lookup erase
  erase_missing k [] h = refl
  erase_missing k ((j, w) ∷ m) h = ground (arith, erase_missing k m)

  pub length-insert_missing :
      (k : K) (v : V) (m : Assoc K V) → lookup k m ≡ none → length (insert k v m) ≡ length m + 1
  unfolding insert
  length-insert_missing k v m h = rw (erase_missing k m h) (omega arith)

  pub length-erase_found :
      (k : K) (v : V) (m : Assoc K V)
      → UniqueKeys m
      → lookup k m ≡ some v
      → length m ≡ length (erase k m) + 1
  unfolding lookup erase
  length-erase_found k v [] u h = cc
  length-erase_found k v ((j, w) ∷ m) u h =
      ground (arith, length-erase_found k v m u.1, erase_missing k m, e.same_iff j k)
