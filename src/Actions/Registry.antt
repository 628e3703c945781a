-- ===== src/Actions/Registry.antt =====
-- subproto/base_subprocess.go: the actions as a function from normalised names.
use myflowhub_core.Common.{
  ℕ, ◌≡◌, refl, sym, ap, ◌∙◌, List, [], ◌∷◌, Option, none, Text, text_instance, text_eq, lookup,
  lookup-insert, lookup-erase, is_empty, if◌then◌else◌, Bool-cases, inl, inr,
}
use myflowhub_core.Strings.{trim_space, to_lower}
use myflowhub_core.Actions.{
  Action, ActionOption, with_require_auth, with_kind, nil_option, apply_options, built,
  unless_nameless, new_action, Actions, reset_actions, remove_action, register_action,
  lookup_action,
}

-- A call on the actions: a registration of what NewAction made, a removal, a reset.
pub data Op : Type 0 where
  registers : Text → Option ℕ → List ActionOption → Op
  removes : Text → Op
  resets : Op

unfoldable pub run : List Op → Actions → Actions
run [] as' = as'
run (registers raw h opts ∷ ops) as' = run ops (register_action (new_action raw h opts) as')
run (removes name ∷ ops) as' = run ops (remove_action name as')
run (resets ∷ ops) as' = run ops (reset_actions as')

abbrev pub key_of : Text → Text
key_of name = to_lower (trim_space name)

abbrev pub set_at : Text → Option Action → (Text → Option Action) → Text → Option Action
set_at key a f k = if text_eq key k then a else f k

-- The same calls on a function.
abbrev pub replay : List Op → (Text → Option Action) → Text → Option Action
replay [] f = f
replay (registers raw h opts ∷ ops) f =
    replay ops (if is_empty (key_of raw) then f else set_at (key_of raw) (new_action raw h opts) f)
replay (removes name ∷ ops) f =
    replay ops (if is_empty (key_of name) then f else set_at (key_of name) none f)
replay (resets ∷ ops) f = replay ops (λ k. none)

abbrev pub nothing : Text → Option Action
nothing k = none

Same : Actions → (Text → Option Action) → Type 0
Same as' f = (k : Text) → lookup k as' ≡ f k

name_kept : (opts : List ActionOption) (a : Action) → (apply_options opts a).name ≡ a.name
unfolding apply_options
name_kept [] a = refl
name_kept (with_require_auth b ∷ opts) a = name_kept opts (record a { require_auth = b })
name_kept (with_kind k ∷ opts) a = name_kept opts (record a { kind = k })
name_kept (nil_option ∷ opts) a = name_kept opts a

empty-to_lower : (s : Text) → is_empty (to_lower s) ≡ is_empty s
unfolding to_lower
empty-to_lower [] = refl
empty-to_lower (c ∷ s) = refl

built-name :
    (raw : Text) (h : Option ℕ) (opts : List ActionOption)
    → (built raw h opts).name ≡ trim_space raw
unfolding built
built-name raw h opts = name_kept opts _

register-unless_nameless :
    (act : Action) (as' : Actions) (k : Text)
    → lookup k (register_action (unless_nameless act) as') ≡ (
        if is_empty act.name
        then lookup k as'
        else if text_eq (to_lower act.name) k
        then unless_nameless act
        else lookup k as')
unfolding register_action
register-unless_nameless act as' k = elim (Bool-cases (is_empty act.name)) [
  | inl e ↦ rw e refl
  | inr e ↦ rw (e, register_action, e) (lookup-insert (to_lower act.name) k act as')
]

register-new_action :
    (raw : Text) (h : Option ℕ) (opts : List ActionOption) (as' : Actions) (k : Text)
    → lookup k (register_action (new_action raw h opts) as') ≡ (
        if is_empty (key_of raw)
        then lookup k as'
        else if text_eq (key_of raw) k
        then new_action raw h opts
        else lookup k as')
unfolding new_action
register-new_action raw h opts as' k =
    let act = built raw h opts in
    register-unless_nameless act as' k
    ∙ ap
        (λ n.
          if is_empty n
          then lookup k as'
          else if text_eq (to_lower n) k
          then new_action raw h opts
          else lookup k as')
        (built-name raw h opts)
    ∙ ap
        (λ b.
          if b
          then lookup k as'
          else if text_eq (key_of raw) k
          then new_action raw h opts
          else lookup k as')
        (sym (empty-to_lower (trim_space raw)))

run_reads :
    (ops : List Op) (as' : Actions) (f : Text → Option Action)
    → Same as' f
    → Same (run ops as') (replay ops f)
unfolding run Same reset_actions remove_action
run_reads [] as' f h = h
run_reads (registers raw x opts ∷ ops) as' f h =
    run_reads ops (register_action (new_action raw x opts) as') _ (λ k.
      elim (Bool-cases (is_empty (key_of raw))) [
        | inl e ↦ rw e (register-new_action raw x opts as' k ∙ rw e (h k))
        | inr e ↦ rw e (
            register-new_action raw x opts as' k
            ∙ rw e (ap (λ v. if text_eq (key_of raw) k then new_action raw x opts else v) (h k)))
      ])
run_reads (removes name ∷ ops) as' f h = run_reads ops (remove_action name as') _ (λ k.
    elim (Bool-cases (is_empty (key_of name))) [
      | inl e ↦ rw e (h k)
      | inr e ↦ rw e (
          lookup-erase (key_of name) k as'
          ∙ ap (λ v. if text_eq (key_of name) k then none else v) (h k))
    ])
run_reads (resets ∷ ops) as' f h = run_reads ops [] (λ k. none) (λ k. unfold lookup in refl)

-- Registrations of what NewAction made, removals and resets, in any number and order: LookupAction
-- answers, for every spelling of a name, what a function from lower-case names without outer spaces
-- answers after the same calls.
pub registry_refines :
    (ops : List Op) (name : Text)
    → lookup_action name (run ops []) ≡ replay ops nothing (key_of name)
unfolding lookup_action Same
registry_refines ops name = run_reads ops [] nothing (λ k. unfold lookup in refl) (key_of name)
