-- ===== src/Examples/Config.antt =====
-- A store from one environment variable and one call of Set.
use myflowhub_core.Common.{
  ◌≡◌, ◌≢◌, ◌↔◌, refl, List, [], ◌∷◌, none, some, Text, codes, text_instance, length, arith,
}
use myflowhub_core.Strings.{trim_space, to_lower}
use myflowhub_core.Permission.Roles.{Holds}
use myflowhub_core.Config.{MapConfig, get, keys}
use myflowhub_core.Config.Keys.{new_map, key_parent_addr}
use myflowhub_core.Config.Store.{sets, run, store_refines}
use myflowhub_core.Config.Order.{IsSorted, keys_lem}
use myflowhub_core.Config.Env.{normalize_env_key, normalize_env_key-env_name}

abbrev entries : List (Text × Text)
entries = (key_parent_addr, codes "10.0.0.1:9000") ∷ []

store_refines_example :
    get (codes "parent.addr") (run (sets (codes "parent.addr") (codes "x") ∷ []) (new_map entries))
    ≡ some (codes "x")
store_refines_example =
    store_refines entries (sets (codes "parent.addr") (codes "x") ∷ []) (codes "parent.addr")

abbrev two : MapConfig
two = (codes "b", []) ∷ (codes "a", []) ∷ []

keys_lem_example :
    IsSorted (keys two)
    × ((k : Text) → Holds k (keys two) ↔ (get k two ≢ none))
    × (length (keys two) ≡ length two)
keys_lem_example = keys_lem two

normalize_env_key-env_name_example : normalize_env_key (codes " PARENT_ADDR ") ≡ codes "parent.addr"
unfolding to_lower trim_space
normalize_env_key-env_name_example =
    normalize_env_key-env_name (codes "parent.addr") (codes " PARENT_ADDR ") (ground arith) refl
