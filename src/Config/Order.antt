-- ===== src/Config/Order.antt =====
-- Keys lists the keys of the store in order.
use myflowhub_core.Common.{
  ◌+◌, ◌≡◌, ◌≢◌, ◌⊎◌, ◌↔◌, inl, inr, refl, List, [], ◌∷◌, map, none, true, false, Text, text_eq_iff,
  text_instance, lookup, length, Bool-cases, arith,
}
use myflowhub_core.Config.{MapConfig, get, text_leb, insert_sorted, sort, keys}
use myflowhub_core.Permission.Roles.{Holds}

text_leb_total : (s t : Text) → text_leb s t ≡ false → text_leb t s ≡ true
text_leb_total [] t h = absurd (ground arith)
text_leb_total (x ∷ s) [] h = refl
text_leb_total (x ∷ s) (y ∷ t) h = ground (arith, text_leb_total s t)

-- Each text is at most the next one, byte by byte.
abbrev pub IsSorted : List Text → Type 0
IsSorted [] = Unit {0}
IsSorted (k ∷ []) = Unit {0}
IsSorted (k ∷ j ∷ ks) = (text_leb k j ≡ true) × IsSorted (j ∷ ks)

insert_sorted-IsSorted : (k : Text) (ks : List Text) → IsSorted ks → IsSorted (insert_sorted k ks)
unfolding insert_sorted
insert_sorted-IsSorted k [] h = tt
insert_sorted-IsSorted k (j ∷ []) h = elim (Bool-cases (text_leb k j)) [
  | inl y ↦ rw y (y, tt)
  | inr n ↦ rw n (text_leb_total k j n, tt)
]
insert_sorted-IsSorted k (j ∷ i ∷ ks) (h, hs) = elim (Bool-cases (text_leb k j)) [
  | inl y ↦ rw y (y, (h, hs))
  | inr n ↦
      let ih = insert_sorted-IsSorted k (i ∷ ks) hs in
      let back = text_leb_total k j n in
      rw n (elim (Bool-cases (text_leb k i)) [
        | inl y ↦ rw y (back, (y, hs))
        | inr m ↦ rw m (h, rw m at ih)
      ])
]

sort-IsSorted : (ks : List Text) → IsSorted (sort ks)
unfolding sort
sort-IsSorted [] = tt
sort-IsSorted (k ∷ ks) = insert_sorted-IsSorted k (sort ks) (sort-IsSorted ks)

Holds-insert_sorted :
    (i k : Text) (ks : List Text) → Holds i (insert_sorted k ks) ↔ ((k ≡ i) ⊎ Holds i ks)
unfolding insert_sorted
Holds-insert_sorted i k [] = (λ h. h, λ h. h)
Holds-insert_sorted i k (j ∷ ks) = (
  λ h. ground (arith, (Holds-insert_sorted i k ks).0),
  λ h. ground (arith, (Holds-insert_sorted i k ks).1),
)

Holds-sort : (i : Text) (ks : List Text) → Holds i (sort ks) ↔ Holds i ks
unfolding sort
Holds-sort i [] = (λ h. h, λ h. h)
Holds-sort i (k ∷ ks) = (
  λ h. ground (arith, (Holds-insert_sorted i k (sort ks)).0, (Holds-sort i ks).0),
  λ h. ground (arith, (Holds-insert_sorted i k (sort ks)).1, (Holds-sort i ks).1),
)

Holds-keys_of : (i : Text) (m : MapConfig) → Holds i (map (λ e. e.0) m) ↔ (lookup i m ≢ none)
unfolding lookup
Holds-keys_of i [] = (λ h. absurd h, λ h. absurd (h refl))
Holds-keys_of i ((j, v) ∷ m) = (
  λ h. ground (arith, text_eq_iff j i, (Holds-keys_of i m).0),
  λ h. ground (arith, text_eq_iff j i, (Holds-keys_of i m).1),
)

length-insert_sorted : (k : Text) (ks : List Text) → length (insert_sorted k ks) ≡ length ks + 1
unfolding insert_sorted
length-insert_sorted k [] = omega arith
length-insert_sorted k (j ∷ ks) = ground (arith, length-insert_sorted k ks)

length-keys : (m : MapConfig) → length (sort (map (λ e. e.0) m)) ≡ length m
unfolding sort
length-keys [] = refl
length-keys ((j, v) ∷ m) =
    omega (arith, length-insert_sorted j (sort (map (λ e. e.0) m)), length-keys m)

-- Keys answers the keys for which Get finds a value, in ascending order of their bytes, and as many
-- as the store has entries.
pub keys_lem :
    (m : MapConfig)
    → IsSorted (keys m)
      × ((k : Text) → Holds k (keys m) ↔ (get k m ≢ none))
      × (length (keys m) ≡ length m)
unfolding keys get
keys_lem m = (
  sort-IsSorted (map (λ e. e.0) m),
  λ k.
      let (a, b) = Holds-sort k (map (λ e. e.0) m) in
      let (c, d) = Holds-keys_of k m in (λ h. c (a h), λ h. b (d h)),
  length-keys m,
)
