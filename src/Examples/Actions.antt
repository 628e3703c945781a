-- ===== src/Examples/Actions.antt =====
-- Actions under names in several spellings.
use myflowhub_core.Common.{
  ◌≡◌, refl, List, [], ◌∷◌, none, some, true, codes, lookup, insert, text_instance,
}
use myflowhub_core.Strings.{has_prefix, trim_space, to_lower}
use myflowhub_core.Actions.{
  Action, with_require_auth, new_action, built, apply_options, kind_from_name, assist_action,
  lookup_action, register_action,
}
use myflowhub_core.Actions.Registry.{Op, registers, removes, run, registry_refines}

abbrev query : Action
query = record {
  name = codes "Assist_Query";
  require_auth = true;
  kind = assist_action;
  handle = some 3;
}

abbrev ops : List Op
ops =
    registers (codes " Assist_Query ") (some 3) (with_require_auth true ∷ [])
    ∷ registers (codes "login") (some 4) []
    ∷ removes (codes "LOGIN")
    ∷ []

query_made : new_action (codes " Assist_Query ") (some 3) (with_require_auth true ∷ []) ≡ some query
unfolding new_action built apply_options kind_from_name has_prefix to_lower trim_space
query_made = refl

registry_refines_example : lookup_action (codes "assist_query ") (run ops []) ≡ some query
unfolding new_action built apply_options kind_from_name has_prefix to_lower trim_space
registry_refines_example = registry_refines ops (codes "assist_query ")

-- An action of another kind whose name has outer spaces is not found under its name.
spaced :
    lookup_action (codes " a") (register_action (some (record query { name = codes " a" })) [])
    ≡ none
unfolding lookup_action register_action lookup insert to_lower trim_space
spaced = refl
