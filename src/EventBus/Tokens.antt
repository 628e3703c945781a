-- ===== src/EventBus/Tokens.antt =====
-- Tokens are different for different counts.
use myflowhub_core.Common.{
  ℕ, zero, suc, ◌+◌, ◌-◌, ◌*◌, ◌/◌, ◌%◌, ◌≤◌, ◌<◌, ◌≡◌, refl, sym, ap, ◌∙◌, [], ◌∷◌, ◌++◌, Text,
  ltb, Bool-cases, inl, inr, arith,
}
use myflowhub_core.EventBus.{show_digits, show_nat, token_of}

-- The number that decimal digits stand for, read from the left.
value : ℕ → Text → ℕ
value acc [] = acc
value acc (c ∷ s) = value (acc * 10 + (c - 48)) s

value-append : (acc : ℕ) (s : Text) (c : ℕ) → value acc (s ++ c ∷ []) ≡ value acc s * 10 + (c - 48)
unfolding value
value-append acc [] c = refl
value-append acc (d ∷ s) c = value-append (acc * 10 + (d - 48)) s c

value-show_digits : (fuel n : ℕ) → n < fuel → value 0 (show_digits fuel n) ≡ n
unfolding value show_digits
value-show_digits zero n h = absurd (omega (arith, h))
value-show_digits (suc fuel) n h = elim (Bool-cases (ltb n 10)) [
  | inl small ↦ rw small (ground arith)
  | inr large ↦
      let big : 10 ≤ n = ground arith in
      let ih = value-show_digits fuel (n / 10) (omega (arith, h, big)) in
      rw large (value-append 0 (show_digits fuel (n / 10)) (48 + n % 10) ∙ omega (arith, ih))
]

value-show_nat : (n : ℕ) → value 0 (show_nat n) ≡ n
unfolding show_nat
value-show_nat n = value-show_digits (suc n) n (omega arith)

after_key : Text → Text → Text
after_key [] s = s
after_key (k ∷ key) [] = []
after_key (k ∷ key) (c ∷ s) = after_key key s

after_key-append : (key s : Text) → after_key key (key ++ s) ≡ s
unfolding after_key
after_key-append [] s = refl
after_key-append (k ∷ key) s = after_key-append key s

-- Two subscriptions to a name get the same token only if the counter, which has 64 bits, has the
-- same value.
pub token_injective : (key : Text) (n m : ℕ) → token_of key n ≡ token_of key m → n ≡ m
unfolding token_of
token_injective key n m e =
    let tails : (b'#' ∷ show_nat n) ≡ (b'#' ∷ show_nat m) =
      sym (after_key-append key (b'#' ∷ show_nat n))
      ∙ (ap (after_key key) e ∙ after_key-append key (b'#' ∷ show_nat m)) in
    let digits : show_nat n ≡ show_nat m = cc tails in
    sym (value-show_nat n) ∙ (ap (value 0) digits ∙ value-show_nat m)
