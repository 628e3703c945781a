-- ===== src/Config.antt =====
-- config/config.go, config/builder/env.go and yaml.go, util.go: the configuration store and what
-- fills it. A receiver or another configuration is not nil.
pub mod Keys
pub mod Store
pub mod Order
pub mod Env
use myflowhub_core.Common.{
  ℕ, List, [], ◌∷◌, ◌++◌, map, Option, none, some, Bool, true, false, ◌||◌, Text, codes, text_eq,
  text_instance, Assoc, lookup, insert, is_empty, ◌==◌, leb, if◌then◌else◌,
}
use myflowhub_core.Strings.{trim_space, to_lower, split_pair}

-- MapConfig.
abbrev pub MapConfig : Type 0
MapConfig = Assoc Text Text

-- Get and Set.
unfoldable pub get : Text → MapConfig → Option Text
get key m = lookup key m

unfoldable pub set : Text → Text → MapConfig → MapConfig
set key val m = insert key val m

-- ensureDefault.
unfoldable pub ensure_default : Text → Text → MapConfig → MapConfig
ensure_default key val m = elim (lookup key m) [ none ↦ insert key val m | some v ↦ m ]

-- `for k, v := range data { m[k] = v }`, in the order of the list.
unfoldable pub put_all : List (Text × Text) → MapConfig → MapConfig
put_all [] m = m
put_all ((k, v) ∷ data') m = put_all data' (insert k v m)

-- MergeFile and Merge; another implementation of the interface leaves the store as it is.
unfoldable pub merge : Option (List (Text × Text)) → MapConfig → MapConfig
unfolding put_all
merge none m = m
merge (some data') m = put_all data' m

unfoldable pub ensure_all : List (Text × Text) → MapConfig → MapConfig
unfolding ensure_default
ensure_all [] m = m
ensure_all ((k, v) ∷ defaults) m = ensure_all defaults (ensure_default k v m)

-- ParseBool.
abbrev pub one_of : Text → List Text → Bool
one_of s [] = false
one_of s (t ∷ ts) = text_eq s t || one_of s ts

abbrev pub truthy : List Text
truthy = codes "1" ∷ codes "true" ∷ codes "yes" ∷ codes "y" ∷ codes "on" ∷ []

abbrev pub falsy : List Text
falsy = codes "0" ∷ codes "false" ∷ codes "no" ∷ codes "n" ∷ codes "off" ∷ []

unfoldable pub parse_bool : Text → Bool → Bool
parse_bool s def =
    let v = to_lower (trim_space s) in
    if one_of v truthy then true else if one_of v falsy then false else def

-- The loop of Keys, before the keys are sorted, and the sort of sort.Strings.
abbrev pub text_leb : Text → Text → Bool
text_leb [] t = true
text_leb (x ∷ s) [] = false
text_leb (x ∷ s) (y ∷ t) = if x == y then text_leb s t else leb x y

insert_sorted : Text → List Text → List Text
insert_sorted k [] = k ∷ []
insert_sorted k (j ∷ ks) =
    let rest = insert_sorted k ks in if text_leb k j then k ∷ j ∷ ks else j ∷ rest

sort : List Text → List Text
unfolding insert_sorted
sort [] = []
sort (k ∷ ks) = insert_sorted k (sort ks)

-- Keys.
unfoldable pub keys : MapConfig → List Text
unfolding sort
keys m = sort (map (λ e. e.0) m)
