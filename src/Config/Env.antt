-- ===== src/Config/Env.antt =====
-- config/builder/env.go: environment variables as keys.
use myflowhub_core.Common.{
  ℕ, ◌≡◌, ◌≢◌, refl, sym, ap, ◌∙◌, List, [], ◌∷◌, ◌++◌, Option, none, some, Text, is_empty, ◌==◌,
  if◌then◌else◌, Bool-cases, inl, inr, arith, text_instance,
}
use myflowhub_core.Strings.{trim_space, to_lower, split_pair}
use myflowhub_core.Config.{MapConfig}
use myflowhub_core.Config.Keys.{new_map}

-- The loop of normalizeEnvKey.
unfoldable pub dots : Text → Text
dots [] = []
dots (c ∷ []) = (if c == b'_' then b'.' else c) ∷ []
dots (c ∷ d ∷ k) =
    let skipped = dots k in
    let rest = dots (d ∷ k) in
    if c == b'_' then (if d == b'_' then b'_' ∷ skipped else b'.' ∷ rest) else c ∷ rest

-- normalizeEnvKey.
unfoldable pub normalize_env_key : Text → Text
unfolding dots
normalize_env_key k = dots (to_lower (trim_space k))

-- strings.TrimPrefix after strings.HasPrefix.
unfoldable pub strip_prefix : Text → Text → Option Text
strip_prefix [] k = some k
strip_prefix (p ∷ ps) [] = none
strip_prefix (p ∷ ps) (c ∷ k) = let rest = strip_prefix ps k in if p == c then rest else none

-- One round of the loop of Load: the key and the value that a variable gives, if any.
unfoldable pub env_entry : Text → Text → Option (Text × Text)
unfolding strip_prefix normalize_env_key
env_entry prefix kv = elim (split_pair b'=' kv) [
  | none ↦ none
  | some (name, v) ↦ elim (strip_prefix prefix name) [
    | none ↦ none
    | some k ↦
        let norm = normalize_env_key k in
        if is_empty k then none else if is_empty norm then none else some (norm, v)
  ]
]

unfoldable pub env_data : Text → List Text → List (Text × Text)
unfolding env_entry
env_data prefix [] = []
env_data prefix (kv ∷ kvs) = elim (env_entry prefix kv) [
  | none ↦ env_data prefix kvs
  | some e ↦ e ∷ env_data prefix kvs
]

-- EnvBuilder.Load and Reload; the environment is the argument.
unfoldable pub load_env : Text → List Text → MapConfig
unfolding env_data
load_env prefix environ = new_map (env_data (trim_space prefix) environ)

-- The name of the variable that stands for a key: `_` for a dot, `__` for an underscore.
abbrev pub env_char : ℕ → Text
env_char c = if c == b'.' then b'_' ∷ [] else if c == b'_' then b'_' ∷ b'_' ∷ [] else c ∷ []

abbrev pub env_name : Text → Text
env_name [] = []
env_name (c ∷ k) = env_char c ++ env_name k

-- Neither an underscore nor a dot follows a dot.
abbrev pub IsNameable : Text → Type 0
IsNameable [] = Unit {0}
IsNameable (c ∷ []) = Unit {0}
IsNameable (c ∷ d ∷ k) = (c ≡ b'.' → (d ≢ b'_') × (d ≢ b'.')) × IsNameable (d ∷ k)

dots_plain : (c : ℕ) (s : Text) → c ≢ b'_' → dots (c ∷ s) ≡ c ∷ dots s
unfolding dots
dots_plain c [] h = ground arith
dots_plain c (d ∷ s) h = ground arith

dots_double : (s : Text) → dots (b'_' ∷ b'_' ∷ s) ≡ b'_' ∷ dots s
unfolding dots
dots_double s = refl

dots_single : (d : ℕ) (s : Text) → d ≢ b'_' → dots (b'_' ∷ d ∷ s) ≡ b'.' ∷ dots (d ∷ s)
unfolding dots
dots_single d s h = ground arith

env_char_dot : (c : ℕ) → c ≡ b'.' → env_char c ≡ b'_' ∷ []
env_char_dot c e = ground arith

env_char_underscore : (c : ℕ) → c ≡ b'_' → env_char c ≡ b'_' ∷ b'_' ∷ []
env_char_underscore c e = ground arith

env_char_plain : (c : ℕ) → c ≢ b'.' → c ≢ b'_' → env_char c ≡ c ∷ []
env_char_plain c n m = ground arith

-- One character read back, before a rest that is.
dots-env_char :
    (c : ℕ) (s k : Text)
    → (c ≡ b'.' → (d : ℕ) × (t : Text) × (s ≡ d ∷ t) × (d ≢ b'_'))
    → dots s ≡ k
    → dots (env_char c ++ s) ≡ c ∷ k
dots-env_char c s k after e = elim (Bool-cases (c == b'.')) [
  | inl y ↦
      let dot : c ≡ b'.' = ground arith in
      let (d, t, same, ne) = after dot in
      ap (λ x. dots (x ++ s)) (env_char_dot c dot)
      ∙ (ap (λ x. dots (b'_' ∷ x)) same
          ∙ (dots_single d t ne ∙ (ap (λ x. b'.' ∷ dots x) (sym same) ∙ ground (arith, e))))
  | inr n ↦ elim (Bool-cases (c == b'_')) [
    | inl y ↦
        let underscore : c ≡ b'_' = ground arith in
        ap (λ x. dots (x ++ s)) (env_char_underscore c underscore)
        ∙ (dots_double s ∙ ground (arith, e))
    | inr m ↦
        let plain : c ≢ b'_' = ground arith in
        ap (λ x. dots (x ++ s)) (env_char_plain c (ground arith) plain)
        ∙ (dots_plain c s plain ∙ ap (◌∷◌ c) e)
  ]
]

one_char : (c : ℕ) → dots (env_char c ++ []) ≡ c ∷ []
unfolding dots
one_char c = ground arith

dots-env_name : (k : Text) → IsNameable k → dots (env_name k) ≡ k
dots-env_name [] h = unfold dots in refl
dots-env_name (c ∷ []) h = one_char c
dots-env_name (c ∷ d ∷ k) (h, hs) =
    dots-env_char c (env_name (d ∷ k)) (d ∷ k)
      (λ dot. (
        d,
        env_name k,
        ap (λ x. x ++ env_name k) (env_char_plain d (h dot).1 (h dot).0),
        (h dot).0,
      ))
      (dots-env_name (d ∷ k) hs)

-- A variable whose name, in any case and with any outer spaces, is that of a key, where neither an
-- underscore nor a dot follows a dot in the key, is read as that key.
pub normalize_env_key-env_name :
    (k name : Text)
    → IsNameable k
    → to_lower (trim_space name) ≡ env_name k
    → normalize_env_key name ≡ k
unfolding normalize_env_key
normalize_env_key-env_name k name h e = ap dots e ∙ dots-env_name k h
