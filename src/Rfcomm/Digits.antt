-- ===== src/Rfcomm/Digits.antt =====
-- Hexadecimal digits of bytes, and what the normalisation of an address makes of them.
use myflowhub_core.Common.{
  ℕ, zero, suc, ◌+◌, ◌-◌, ◌*◌, ◌/◌, ◌%◌, ◌<◌, ◌≡◌, refl, sym, ap, ◌∙◌, List, [], ◌∷◌, ◌++◌, true,
  false, Text, ok, length, All, is_empty, ◌==◌, leb, if◌then◌else◌, arith, Bool-cases, inl, inr,
}
use myflowhub_core.Strings.{is_space, trim_left, trim_right, trim_space, remove_all, to_upper}
use myflowhub_core.Rfcomm.{
  is_upper_hex, all_upper_hex, colon_slices, check_digits, normalize_bd_addr,
}
use myflowhub_core.Rfcomm.Address.{hex_digit, hex_pair, colon_hex, IsByte}

-- The digits of some bytes, without separators.
abbrev pub plain_hex : List ℕ → Text
plain_hex [] = []
plain_hex (b ∷ bs) = hex_pair b ++ plain_hex bs

abbrev pub IsDigit : ℕ → Type 0
IsDigit c = is_upper_hex c ≡ true

pub hex_digit-IsDigit : (n : ℕ) → n < 16 → IsDigit (hex_digit n)
hex_digit-IsDigit n h = ground (arith, h)

pub plain_hex-IsDigit : (bs : List ℕ) → All IsByte bs → All IsDigit (plain_hex bs)
plain_hex-IsDigit [] h = tt
plain_hex-IsDigit (b ∷ bs) (h, hs) = (
  hex_digit-IsDigit (b / 16) (omega (arith, h)),
  (hex_digit-IsDigit (b % 16) (omega arith), plain_hex-IsDigit bs hs),
)

pub remove_all-digit :
    (sep c : ℕ) (s : Text)
    → IsDigit c
    → is_upper_hex sep ≡ false
    → remove_all sep (c ∷ s) ≡ c ∷ remove_all sep s
unfolding remove_all
remove_all-digit sep c s d n = ground (arith, d, n)

pub remove_all-digits :
    (sep : ℕ) (s : Text) → All IsDigit s → is_upper_hex sep ≡ false → remove_all sep s ≡ s
unfolding remove_all
remove_all-digits sep [] h n = refl
remove_all-digits sep (c ∷ s) (h, hs) n =
    remove_all-digit sep c s h n ∙ ap (◌∷◌ c) (remove_all-digits sep s hs n)

pub remove_all-colon_hex :
    (bs : List ℕ) → All IsByte bs → remove_all b':' (colon_hex bs) ≡ plain_hex bs
unfolding remove_all
remove_all-colon_hex [] h = refl
remove_all-colon_hex (b ∷ []) h =
    remove_all-digits b':' (hex_pair b) (plain_hex-IsDigit (b ∷ []) h) refl
remove_all-colon_hex (b ∷ c ∷ bs) (h, hs) =
    let hi = hex_digit-IsDigit (b / 16) (omega (arith, h)) in
    let lo = hex_digit-IsDigit (b % 16) (omega arith) in
    let rest = colon_hex (c ∷ bs) in
    remove_all-digit b':' (hex_digit (b / 16)) (hex_digit (b % 16) ∷ b':' ∷ rest) hi refl
    ∙ ap (◌∷◌ (hex_digit (b / 16))) (
        remove_all-digit b':' (hex_digit (b % 16)) (b':' ∷ rest) lo refl
        ∙ ap (◌∷◌ (hex_digit (b % 16))) (remove_all-colon_hex (c ∷ bs) hs))

pub to_upper-digits : (s : Text) → All IsDigit s → to_upper s ≡ s
unfolding to_upper
to_upper-digits [] h = refl
to_upper-digits (c ∷ s) (h, hs) = ground (arith, h, to_upper-digits s hs)

pub all_upper_hex-digits : (s : Text) → All IsDigit s → all_upper_hex s ≡ true
unfolding all_upper_hex
all_upper_hex-digits [] h = refl
all_upper_hex-digits (c ∷ s) (h, hs) = ground (arith, h, all_upper_hex-digits s hs)

trim_left-no_space : (c : ℕ) (s : Text) → is_space c ≡ false → trim_left (c ∷ s) ≡ c ∷ s
unfolding trim_left
trim_left-no_space c s h = ground (arith, h)

-- A text without spaces.
abbrev pub Solid : Text → Type 0
Solid s = All (λ c. is_space c ≡ false) s

trim_right-Solid : (s : Text) → Solid s → trim_right s ≡ s
unfolding trim_right
trim_right-Solid [] h = refl
trim_right-Solid (c ∷ s) (h, hs) = ground (arith, h, trim_right-Solid s hs)

pub trim_space-Solid : (s : Text) → Solid s → trim_space s ≡ s
unfolding trim_space trim_left trim_right
trim_space-Solid [] h = refl
trim_space-Solid (c ∷ s) (h, hs) =
    ap trim_right (trim_left-no_space c s h) ∙ trim_right-Solid (c ∷ s) (h, hs)

digit-no_space : (c : ℕ) → IsDigit c → is_space c ≡ false
digit-no_space c d = ground (arith, d)

pair-Solid : (b : ℕ) → IsByte b → Solid (hex_pair b)
pair-Solid b h = (
  digit-no_space (hex_digit (b / 16)) (hex_digit-IsDigit (b / 16) (omega (arith, h))),
  (digit-no_space (hex_digit (b % 16)) (hex_digit-IsDigit (b % 16) (omega arith)), tt),
)

pub colon_hex-Solid : (bs : List ℕ) → All IsByte bs → Solid (colon_hex bs)
colon_hex-Solid [] h = tt
colon_hex-Solid (b ∷ []) (h, hs) = pair-Solid b h
colon_hex-Solid (b ∷ c ∷ bs) (h, hs) =
    let p = pair-Solid b h in (p.0, (p.1.0, (refl, colon_hex-Solid (c ∷ bs) hs)))

length-plain_hex : (bs : List ℕ) → length (plain_hex bs) ≡ length bs * 2
length-plain_hex [] = refl
length-plain_hex (b ∷ bs) = omega (arith, length-plain_hex bs)

colon_slices-plain_hex : (bs : List ℕ) → length bs ≡ 6 → colon_slices (plain_hex bs) ≡ colon_hex bs
unfolding colon_slices
colon_slices-plain_hex [] h = absurd (omega (arith, h))
colon_slices-plain_hex (a ∷ []) h = absurd (omega (arith, h))
colon_slices-plain_hex (a ∷ b ∷ []) h = absurd (omega (arith, h))
colon_slices-plain_hex (a ∷ b ∷ c ∷ []) h = absurd (omega (arith, h))
colon_slices-plain_hex (a ∷ b ∷ c ∷ d ∷ []) h = absurd (omega (arith, h))
colon_slices-plain_hex (a ∷ b ∷ c ∷ d ∷ e ∷ []) h = absurd (omega (arith, h))
colon_slices-plain_hex (a ∷ b ∷ c ∷ d ∷ e ∷ f ∷ []) h = refl
colon_slices-plain_hex (a ∷ b ∷ c ∷ d ∷ e ∷ f ∷ g ∷ bs) h = absurd (omega (arith, h))

pub check_digits-plain_hex :
    (bs : List ℕ) → length bs ≡ 6 → All IsByte bs → check_digits (plain_hex bs) ≡ ok (colon_hex bs)
unfolding check_digits
check_digits-plain_hex bs six v =
    let len : length (plain_hex bs) == 12 ≡ true = ground (arith, length-plain_hex bs, six) in
    rw
      (
        check_digits,
        len,
        all_upper_hex-digits (plain_hex bs) (plain_hex-IsDigit bs v),
        colon_slices-plain_hex bs six,
      )
      refl

-- What normalizeBDAddr makes of a trimmed address before its tests.
abbrev cleaned : Text → Text
cleaned s = to_upper (remove_all b'.' (remove_all b'-' (remove_all b':' s)))

normalize_eq :
    (raw s : Text)
    → trim_space raw ≡ s
    → is_empty s ≡ false
    → normalize_bd_addr raw ≡ check_digits (cleaned s)
unfolding normalize_bd_addr
normalize_eq raw s e n = rw (e, normalize_bd_addr, n) refl

cleaned-colon_hex : (bs : List ℕ) → All IsByte bs → cleaned (colon_hex bs) ≡ plain_hex bs
cleaned-colon_hex bs v =
    let d = plain_hex-IsDigit bs v in
    ap (λ t. to_upper (remove_all b'.' (remove_all b'-' t))) (remove_all-colon_hex bs v)
    ∙ ap (λ t. to_upper (remove_all b'.' t)) (remove_all-digits b'-' (plain_hex bs) d refl)
    ∙ ap to_upper (remove_all-digits b'.' (plain_hex bs) d refl)
    ∙ to_upper-digits (plain_hex bs) d

pub not_empty-colon_hex : (bs : List ℕ) → length bs ≡ 6 → is_empty (colon_hex bs) ≡ false
not_empty-colon_hex [] h = absurd (omega (arith, h))
not_empty-colon_hex (b ∷ []) h = refl
not_empty-colon_hex (b ∷ c ∷ bs) h = refl

-- A normal address is normal.
pub normalize-colon_hex :
    (bs : List ℕ)
    → length bs ≡ 6
    → All IsByte bs
    → normalize_bd_addr (colon_hex bs) ≡ ok (colon_hex bs)
normalize-colon_hex bs six v =
    normalize_eq (colon_hex bs) (colon_hex bs)
      (trim_space-Solid (colon_hex bs) (colon_hex-Solid bs v)) (not_empty-colon_hex bs six)
    ∙ ap check_digits (cleaned-colon_hex bs v)
    ∙ check_digits-plain_hex bs six v

abbrev digit_value : ℕ → ℕ
digit_value c = if leb c b'9' then c - 48 else c - 55

digit_back : (c : ℕ) → IsDigit c → (hex_digit (digit_value c) ≡ c) × (digit_value c < 16)
digit_back c d = (ground (arith, d), ground (arith, d))

-- The bytes of a normal address.
pub record IsNormal (s : Text) : Type 0 where
  pub bytes : List ℕ
  pub six : length bytes ≡ 6
  pub valid : All IsByte bytes
  pub spelled : s ≡ colon_hex bytes

two_digits :
    (c d : ℕ)
    → IsDigit c
    → IsDigit d
    → let b = digit_value c * 16 + digit_value d in (hex_pair b ≡ c ∷ d ∷ []) × IsByte b
two_digits c d hc hd =
    let (back_c, small_c) = digit_back c hc in
    let (back_d, small_d) = digit_back d hd in
    let b = digit_value c * 16 + digit_value d in
    let high : b / 16 ≡ digit_value c = omega (arith, small_d) in
    let low : b % 16 ≡ digit_value d = omega (arith, small_d) in
    (
      ap (λ x. hex_digit x ∷ hex_digit (b % 16) ∷ []) high
          ∙ ap (λ x. hex_digit (digit_value c) ∷ hex_digit x ∷ []) low
          ∙ ap (λ x. x ∷ hex_digit (digit_value d) ∷ []) back_c
          ∙ ap (λ x. c ∷ x ∷ []) back_d,
      omega (arith, small_c, small_d),
    )

digits_are_bytes :
    (n : ℕ) (s : Text)
    → length s ≡ n * 2
    → all_upper_hex s ≡ true
    → (bs : List ℕ) × (s ≡ plain_hex bs) × (length bs ≡ n) × All IsByte bs
unfolding all_upper_hex
digits_are_bytes zero [] h d = ([], refl, refl, tt)
digits_are_bytes zero (c ∷ s) h d = absurd (omega (arith, h))
digits_are_bytes (suc n) [] h d = absurd (omega (arith, h))
digits_are_bytes (suc n) (c ∷ []) h d = absurd (omega (arith, h))
digits_are_bytes (suc n) (c ∷ e ∷ s) h d =
    let hc : IsDigit c = ground (arith, d) in
    let he : IsDigit e = ground (arith, d) in
    let (bs, spelled, len, valid) = digits_are_bytes n s (omega (arith, h)) (ground (arith, d)) in
    let (pair, small) = two_digits c e hc he in
    (
      (digit_value c * 16 + digit_value e) ∷ bs,
      ap (λ t. c ∷ e ∷ t) spelled ∙ ap (λ p. p ++ plain_hex bs) (sym pair),
      ap suc len,
      (small, valid),
    )

check_digits-IsNormal : (t s : Text) → check_digits t ≡ ok s → IsNormal s
unfolding check_digits
check_digits-IsNormal t s e =
    let len : length t ≡ 12 = ground (arith, e) in
    let hex : all_upper_hex t ≡ true = ground (arith, e) in
    let (bs, spelled, six, valid) = digits_are_bytes 6 t len hex in
    let shape : colon_slices t ≡ s = ground (arith, e) in
    record {
      bytes = bs;
      six = six;
      valid = valid;
      spelled = sym shape ∙ ap colon_slices spelled ∙ colon_slices-plain_hex bs six;
    }

pub normalize-IsNormal : (raw s : Text) → normalize_bd_addr raw ≡ ok s → IsNormal s
normalize-IsNormal raw s e = elim (Bool-cases (is_empty (trim_space raw))) [
  | inl none_given ↦ absurd (unfold normalize_bd_addr in ground (arith, e))
  | inr given ↦
      check_digits-IsNormal (cleaned (trim_space raw)) s
        (sym (normalize_eq raw (trim_space raw) refl given) ∙ e)
]
