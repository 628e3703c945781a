-- ===== src/Actions.antt =====
-- subproto/base_subprocess.go and subproto/kit/action.go: the actions of a subprotocol by name. A nil
-- map and an empty one answer alike, and a receiver is not nil.
pub mod Registry
use myflowhub_core.Common.{
  ℕ, List, [], ◌∷◌, Option, none, some, Bool, true, false, Text, codes, text_instance, Assoc,
  lookup, insert, erase, is_empty, ◌==◌, if◌then◌else◌,
}
use myflowhub_core.Strings.{has_prefix, trim_space, to_lower}

pub data ActionKind : Type 0 where
  unknown_action local_action assist_action up_action notify_action : ActionKind

-- String.
unfoldable pub kind_name : ActionKind → Text
kind_name local_action = codes "local"
kind_name assist_action = codes "assist"
kind_name up_action = codes "up"
kind_name notify_action = codes "notify"
kind_name unknown_action = codes "unknown"

-- KindFromName.
unfoldable pub kind_from_name : Text → ActionKind
unfolding has_prefix
kind_from_name name =
    let n = to_lower (trim_space name) in
    if has_prefix n (codes "assist_")
    then assist_action
    else if has_prefix n (codes "up_")
    then up_action
    else if has_prefix n (codes "notify_")
    then notify_action
    else if is_empty n
    then unknown_action
    else local_action

-- FuncAction, its handler as a number; another SubProcessAction is known by the same fields.
pub record Action : Type 0 where
  pub name : Text
  pub require_auth : Bool
  pub kind : ActionKind
  pub handle : Option ℕ

-- WithRequireAuth, WithKind and nil.
pub data ActionOption : Type 0 where
  with_require_auth : Bool → ActionOption
  with_kind : ActionKind → ActionOption
  nil_option : ActionOption

unfoldable pub apply_options : List ActionOption → Action → Action
apply_options [] a = a
apply_options (with_require_auth b ∷ opts) a = apply_options opts (record a { require_auth = b })
apply_options (with_kind k ∷ opts) a = apply_options opts (record a { kind = k })
apply_options (nil_option ∷ opts) a = apply_options opts a

-- The action that NewAction makes, and its test of the name.
unfoldable pub built : Text → Option ℕ → List ActionOption → Action
unfolding kind_from_name apply_options
built raw handler opts = apply_options opts (record {
  name = trim_space raw;
  require_auth = false;
  kind = kind_from_name (trim_space raw);
  handle = handler;
})

abbrev pub unless_nameless : Action → Option Action
unless_nameless act = if is_empty act.name then none else some act

-- NewAction.
unfoldable pub new_action : Text → Option ℕ → List ActionOption → Option Action
unfolding built
new_action raw handler opts = unless_nameless (built raw handler opts)

-- The field Actions.
abbrev pub Actions : Type 0
Actions = Assoc Text Action

-- ResetActions.
unfoldable pub reset_actions : Actions → Actions
reset_actions as' = []

-- RemoveAction.
unfoldable pub remove_action : Text → Actions → Actions
remove_action name as' =
    let key = to_lower (trim_space name) in if is_empty key then as' else erase key as'

-- RegisterAction.
unfoldable pub register_action : Option Action → Actions → Actions
register_action none as' = as'
register_action (some act) as' =
    if is_empty act.name then as' else insert (to_lower act.name) act as'

-- LookupAction.
unfoldable pub lookup_action : Text → Actions → Option Action
lookup_action name as' = lookup (to_lower (trim_space name)) as'
