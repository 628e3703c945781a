-- ===== src/Strings/Laws.antt =====
-- Trimming and splitting.
use myflowhub_core.Common.{
  ℕ, ◌≤◌, length, ◌≡◌, ◌≢◌, refl, ap, ◌∙◌, [], ◌∷◌, ◌++◌, false, Text, inl, inr, Bool-cases, arith,
}
use myflowhub_core.Strings.{is_space, trim_left, trim_right, trim_space, split}

-- A text that TrimSpace leaves alone.
abbrev pub IsTrimmed : Text → Type 0
IsTrimmed s = trim_space s ≡ s

first_not_space : (s : Text) → trim_left (trim_left s) ≡ trim_left s
unfolding trim_left
first_not_space [] = refl
first_not_space (c ∷ s) = ground (arith, first_not_space s)

trim_right_idem : (s : Text) → trim_right (trim_right s) ≡ trim_right s
unfolding trim_right
trim_right_idem [] = refl
trim_right_idem (c ∷ s) = ground (arith, trim_right_idem s)

length-trim_left : (s : Text) → length (trim_left s) ≤ length s
unfolding trim_left
length-trim_left [] = omega arith
length-trim_left (c ∷ s) = ground (arith, length-trim_left s)

no_leading_space : (c : ℕ) (s : Text) → trim_left (c ∷ s) ≡ c ∷ s → is_space c ≡ false
unfolding trim_left
no_leading_space c s h = elim (Bool-cases (is_space c)) [
  | inl e ↦
      let shrunk : trim_left s ≡ c ∷ s = rw e at h in
      absurd (omega (arith, ap length shrunk, length-trim_left s))
  | inr e ↦ e
]

-- Trimming on the right keeps a first character that is no space.
trim_left-trim_right : (s : Text) → trim_left s ≡ s → trim_left (trim_right s) ≡ trim_right s
unfolding trim_left trim_right
trim_left-trim_right [] h = refl
trim_left-trim_right (c ∷ s) h = ground (arith, no_leading_space c s h)

pub trim_space_idem : (s : Text) → IsTrimmed (trim_space s)
unfolding trim_space
trim_space_idem s =
    ap trim_right (trim_left-trim_right (trim_left s) (first_not_space s))
    ∙ trim_right_idem (trim_left s)

-- A text without a byte.
abbrev pub Lacks : ℕ → Text → Type 0
Lacks sep [] = Unit {0}
Lacks sep (c ∷ s) = (c ≢ sep) × Lacks sep s

pub split_lacking : (sep : ℕ) (s : Text) → Lacks sep s → split sep s ≡ s ∷ []
unfolding split
split_lacking sep [] h = refl
split_lacking sep (c ∷ s) h = ground (arith, split_lacking sep s h.1)

pub split-append : (sep : ℕ) (s t : Text) → Lacks sep s → split sep (s ++ sep ∷ t) ≡ s ∷ split sep t
unfolding split
split-append sep [] t h = ground arith
split-append sep (c ∷ s) t h = ground (arith, split-append sep s t h.1)
