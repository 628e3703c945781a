-- ===== src/Config/Store.antt =====
-- The configuration store as a function from keys to values.
use myflowhub_core.Common.{
  ◌≡◌, inl, inr, refl, sym, ap, ◌∙◌, List, [], ◌∷◌, Option, none, some, Text, text_eq, text_eq_iff,
  text_instance, lookup, insert, lookup-insert, if◌then◌else◌, Bool-cases, Option-cases, arith,
}
use myflowhub_core.Config.{MapConfig, get, set, ensure_default, put_all, merge, ensure_all}
use myflowhub_core.Config.Keys.{defaults, new_map}

-- The last value of a key in a list of entries: that which a range over them leaves.
abbrev pub last_value : Text → List (Text × Text) → Option Text
last_value k [] = none
last_value k ((j, v) ∷ es) = elim (last_value k es) [
  | some w ↦ some w
  | none ↦ if text_eq j k then some v else none
]

abbrev pub or_else : Option Text → Option Text → Option Text
or_else none b = b
or_else (some a) b = some a

lookup-put_all :
    (k : Text) (es : List (Text × Text)) (m : MapConfig)
    → lookup k (put_all es m) ≡ or_else (last_value k es) (lookup k m)
unfolding put_all
lookup-put_all k [] m = refl
lookup-put_all k ((j, v) ∷ es) m = elim (Option-cases (last_value k es)) [
  | inl e ↦ ground (arith, lookup-put_all k es (insert j v m), lookup-insert j k v m)
  | inr (w, e) ↦ ground (arith, lookup-put_all k es (insert j v m))
]

lookup-ensure_default :
    (k j v : Text) (m : MapConfig)
    → lookup k (ensure_default j v m) ≡ or_else (lookup k m) (if text_eq j k then some v else none)
unfolding ensure_default
lookup-ensure_default k j v m = elim (Option-cases (lookup j m)) [
  | inl e ↦ elim (Bool-cases (text_eq j k)) [
    | inl y ↦
        let here : lookup k m ≡ none = ap (λ x. lookup x m) (sym ((text_eq_iff j k).0 y)) ∙ e in
        ground (arith, lookup-insert j k v m)
    | inr n ↦ ground (arith, lookup-insert j k v m, Option-cases (lookup k m))
  ]
  | inr (w, e) ↦ elim (Bool-cases (text_eq j k)) [
    | inl y ↦
        let here : lookup k m ≡ some w = ap (λ x. lookup x m) (sym ((text_eq_iff j k).0 y)) ∙ e in
        ground arith
    | inr n ↦ ground (arith, Option-cases (lookup k m))
  ]
]

or_else_assoc : (a b c : Option Text) → or_else (or_else a b) c ≡ or_else a (or_else b c)
or_else_assoc none b c = refl
or_else_assoc (some a) b c = refl

lookup-ensure_all :
    (k : Text) (ds : List (Text × Text)) (m : MapConfig)
    → lookup k (ensure_all ds m) ≡ or_else (lookup k m) (lookup k ds)
unfolding ensure_all lookup
lookup-ensure_all k [] m = ground (arith, Option-cases (lookup k m))
lookup-ensure_all k ((j, v) ∷ ds) m =
    lookup-ensure_all k ds (ensure_default j v m)
    ∙ (ap (λ x. or_else x (lookup k ds)) (lookup-ensure_default k j v m)
        ∙ (or_else_assoc (lookup k m) (if text_eq j k then some v else none) (lookup k ds)
            ∙ ap (or_else (lookup k m)) (ground arith)))

-- A call that changes the store.
pub data Op : Type 0 where
  sets : Text → Text → Op
  merges : Option (List (Text × Text)) → Op

unfoldable pub run : List Op → MapConfig → MapConfig
run [] m = m
run (sets k v ∷ ops) m = run ops (set k v m)
run (merges d ∷ ops) m = run ops (merge d m)

abbrev merged : Option (List (Text × Text)) → Text → Option Text
merged none k = none
merged (some es) k = last_value k es

-- The same calls on a function.
abbrev pub replay : List Op → (Text → Option Text) → Text → Option Text
replay [] f = f
replay (sets k v ∷ ops) f = replay ops (λ j. if text_eq k j then some v else f j)
replay (merges d ∷ ops) f = replay ops (λ j. or_else (merged d j) (f j))

replay_same :
    (ops : List Op) (f g : Text → Option Text)
    → ((k : Text) → f k ≡ g k)
    → (k : Text) → replay ops f k ≡ replay ops g k
replay_same [] f g h k = h k
replay_same (sets j v ∷ ops) f g h k =
    replay_same ops (λ i. if text_eq j i then some v else f i)
      (λ i. if text_eq j i then some v else g i)
      (λ i. ap (λ x. if text_eq j i then some v else x) (h i)) k
replay_same (merges d ∷ ops) f g h k =
    replay_same ops (λ i. or_else (merged d i) (f i)) (λ i. or_else (merged d i) (g i))
      (λ i. ap (or_else (merged d i)) (h i)) k

run_reads :
    (ops : List Op) (m : MapConfig) (k : Text) → get k (run ops m) ≡ replay ops (λ j. get j m) k
unfolding run get set merge
run_reads [] m k = refl
run_reads (sets j v ∷ ops) m k =
    run_reads ops (set j v m) k ∙ replay_same ops _ _ (λ i. lookup-insert j i v m) k
run_reads (merges none ∷ ops) m k = run_reads ops m k
run_reads (merges (some es) ∷ ops) m k =
    run_reads ops (merge (some es) m) k ∙ replay_same ops _ _ (λ i. lookup-put_all i es m) k

abbrev no_entries : MapConfig
no_entries = []

or_else-nothing : (j : Text) (a : Option Text) → or_else a (lookup j no_entries) ≡ a
unfolding lookup
or_else-nothing j none = refl
or_else-nothing j (some a) = refl

-- A store reads as a function: NewMap gives each key the value of the data, or else its default, and
-- then every Set and Merge, in any number and order, changes exactly the keys that it names.
pub store_refines :
    (data' : List (Text × Text)) (ops : List Op) (k : Text)
    → get k (run ops (new_map data'))
      ≡ replay ops (λ j. or_else (last_value j data') (lookup j defaults)) k
unfolding new_map get
store_refines data' ops k =
    run_reads ops (new_map data') k
    ∙ replay_same ops _ _
        (λ j.
          lookup-ensure_all j defaults (put_all data' [])
          ∙ ap (λ x. or_else x (lookup j defaults))
              (lookup-put_all j data' [] ∙ or_else-nothing j (last_value j data')))
        k
