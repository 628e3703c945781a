-- ===== src/Quic/Pins.antt =====
-- tls_config.go: a pinned digest that is printed in hexadecimal is read back.
use myflowhub_core.Common.{
  ℕ, ◌+◌, ◌*◌, ◌/◌, ◌%◌, ◌<◌, ◌≡◌, ◌⊎◌, inl, inr, refl, sym, ap, ◌∙◌, subst, List, [], ◌∷◌, Option,
  none, some, true, false, Bool-cases, Text, ok, err, All, length, is_empty, ◌==◌, ltb, arith,
}
use myflowhub_core.Strings.{trim_space, to_lower, lower, is_space, remove_all}
use myflowhub_core.Rfcomm.{from_hex, nibbles}
use myflowhub_core.Rfcomm.Address.{IsByte}
use myflowhub_core.Rfcomm.Digits.{Solid, trim_space-Solid}
use myflowhub_core.Quic.{
  lower_digit, encode_hex, cons_byte, decode_hex, decoded, pin_invalid, pin_of_digits,
  normalize_pin_sha256,
}

-- What the readers of a pin make of a printed digit.
from_hex-lower_digit : (n : ℕ) → n < 16 → from_hex (lower_digit n) ≡ some n
unfolding from_hex
from_hex-lower_digit n h = elim (Bool-cases (ltb n 10)) [
  | inl y ↦ ground (arith, y)
  | inr m ↦ ground (arith, h, m)
]

digit-Solid : (n : ℕ) → n < 16 → is_space (lower_digit n) ≡ false
digit-Solid n h = ground (arith, h)

digit-lower : (n : ℕ) → n < 16 → lower (lower_digit n) ≡ lower_digit n
digit-lower n h = ground (arith, h)

digit-no_colon : (n : ℕ) → n < 16 → (lower_digit n == b':') ≡ false
digit-no_colon n h = ground (arith, h)

nibbles-digits :
    (b : ℕ)
    → IsByte b
    → nibbles (from_hex (lower_digit (b / 16))) (from_hex (lower_digit (b % 16))) ≡ some b
nibbles-digits b h =
    (λ i.
      nibbles (from_hex-lower_digit (b / 16) (omega (arith, h)) i)
        (from_hex-lower_digit (b % 16) (omega arith) i))
    ∙ ap (λ n. some n) (omega (arith, h))

decode-encode_hex : (bs : List ℕ) → All IsByte bs → decode_hex (encode_hex bs) ≡ some bs
unfolding decode_hex encode_hex
decode-encode_hex [] h = refl
decode-encode_hex (b ∷ bs) (h, hs) = rw (nibbles-digits b h, decode-encode_hex bs hs) refl

pub encode_hex-Solid : (bs : List ℕ) → All IsByte bs → Solid (encode_hex bs)
unfolding encode_hex
encode_hex-Solid [] h = tt
encode_hex-Solid (b ∷ bs) (h, hs) = (
  digit-Solid (b / 16) (omega (arith, h)),
  (digit-Solid (b % 16) (omega arith), encode_hex-Solid bs hs),
)

to_lower-encode_hex : (bs : List ℕ) → All IsByte bs → to_lower (encode_hex bs) ≡ encode_hex bs
unfolding to_lower encode_hex
to_lower-encode_hex [] h = refl
to_lower-encode_hex (b ∷ bs) (h, hs) = λ i.
    digit-lower (b / 16) (omega (arith, h)) i
    ∷ digit-lower (b % 16) (omega arith) i
    ∷ to_lower-encode_hex bs hs i

remove_all-encode_hex :
    (bs : List ℕ) → All IsByte bs → remove_all b':' (encode_hex bs) ≡ encode_hex bs
unfolding remove_all encode_hex
remove_all-encode_hex [] h = refl
remove_all-encode_hex (b ∷ bs) (h, hs) =
    rw
      (
        digit-no_colon (b / 16) (omega (arith, h)),
        digit-no_colon (b % 16) (omega arith),
        remove_all-encode_hex bs hs,
      )
      refl

length-encode_hex : (bs : List ℕ) → length (encode_hex bs) ≡ 2 * length bs
unfolding encode_hex
length-encode_hex [] = refl
length-encode_hex (b ∷ bs) = omega (arith, length-encode_hex bs)

-- The digest of 32 bytes or none at all.
abbrev pub IsPin : List ℕ → Type 0
IsPin bs = (bs ≡ []) ⊎ ((length bs ≡ 32) × All IsByte bs)

empty_or_given : (bs : List ℕ) → length bs ≡ 32 → is_empty (encode_hex bs) ≡ false
unfolding encode_hex
empty_or_given [] h = absurd (omega (arith, h))
empty_or_given (b ∷ bs) h = refl

pub normalize-encode_hex : (bs : List ℕ) → IsPin bs → normalize_pin_sha256 (encode_hex bs) ≡ ok bs
unfolding normalize_pin_sha256 pin_of_digits
normalize-encode_hex bs (inl e) =
    subst (λ t. normalize_pin_sha256 (encode_hex t) ≡ ok t) (sym e)
      (unfold trim_space encode_hex in refl)
normalize-encode_hex bs (inr (len, v)) =
    let trimmed = trim_space-Solid (encode_hex bs) (encode_hex-Solid bs v) in
    let all : (length (encode_hex bs) == 64) ≡ true = ground (arith, length-encode_hex bs, len) in
    rw
      (
        trimmed,
        normalize_pin_sha256,
        empty_or_given bs len,
        remove_all-encode_hex bs v,
        to_lower-encode_hex bs v,
        all,
        decode-encode_hex bs v,
      )
      refl

from_hex_small : (c n : ℕ) → from_hex c ≡ some n → n < 16
unfolding from_hex
from_hex_small c n e = ground (arith, e)

nibbles-IsByte :
    (x y : Option ℕ) (b : ℕ)
    → ((n : ℕ) → x ≡ some n → n < 16)
    → ((n : ℕ) → y ≡ some n → n < 16)
    → nibbles x y ≡ some b
    → IsByte b
nibbles-IsByte none y b h g e = absurd (cc e)
nibbles-IsByte (some hi) none b h g e = absurd (cc e)
nibbles-IsByte (some hi) (some lo) b h g e =
    let same : hi * 16 % 256 + lo ≡ b = cc e in omega (arith, same, h hi refl, g lo refl)

cons_byte-some :
    (x : Option ℕ) (y : Option (List ℕ)) (bs : List ℕ)
    → cons_byte x y ≡ some bs
    → (b : ℕ) × (cs : List ℕ) × (x ≡ some b) × (y ≡ some cs) × (bs ≡ b ∷ cs)
cons_byte-some none y bs e = absurd (cc e)
cons_byte-some (some b) none bs e = absurd (cc e)
cons_byte-some (some b) (some cs) bs e = (b, cs, refl, refl, cc e)

-- What DecodeString answers are bytes, half as many as the digits.
decode_hex-bytes :
    (s : Text) (bs : List ℕ) → decode_hex s ≡ some bs → (length s ≡ 2 * length bs) × All IsByte bs
unfolding decode_hex
decode_hex-bytes [] bs e =
    let same : [] ≡ bs = cc e in
    subst (λ t. (0 ≡ 2 * length t) × All IsByte t) same (omega arith, tt)
decode_hex-bytes (c ∷ []) bs e = absurd (cc e)
decode_hex-bytes (hi ∷ lo ∷ s) bs e =
    let (b, cs, one, rest, is) = cons_byte-some _ (decode_hex s) bs e in
    let (len, v) = decode_hex-bytes s cs rest in
    subst (λ t. (length (hi ∷ lo ∷ s) ≡ 2 * length t) × All IsByte t) (sym is)
      (
        omega (arith, len),
        (
          nibbles-IsByte (from_hex hi) (from_hex lo) b (from_hex_small hi) (from_hex_small lo) one,
          v,
        ),
      )

decoded_ok : (o : Option (List ℕ)) (bs : List ℕ) → decoded o ≡ ok bs → o ≡ some bs
decoded_ok none bs e = absurd (cc e)
decoded_ok (some cs) bs e = ap (λ t. some t) (cc e)

pin_of_digits_eq :
    (raw : Text)
    → (length (to_lower (remove_all b':' raw)) == 64) ≡ true
    → pin_of_digits raw ≡ decoded (decode_hex (to_lower (remove_all b':' raw)))
unfolding pin_of_digits
pin_of_digits_eq raw all = rw (pin_of_digits, all) refl

pin_of_digits_short :
    (raw : Text)
    → (length (to_lower (remove_all b':' raw)) == 64) ≡ false
    → pin_of_digits raw ≡ err pin_invalid
unfolding pin_of_digits
pin_of_digits_short raw other = rw (pin_of_digits, other) refl

sixty_four : (n : ℕ) → (n == 64) ≡ true → n ≡ 64
sixty_four n h = ground (arith, h)

pin_of_digits-IsPin : (raw : Text) (bs : List ℕ) → pin_of_digits raw ≡ ok bs → IsPin bs
pin_of_digits-IsPin raw bs e =
    let digits = to_lower (remove_all b':' raw) in
    elim (Bool-cases (length digits == 64)) [
      | inl all ↦
          let (len, v) =
            decode_hex-bytes digits bs
              (decoded_ok (decode_hex digits) bs (sym (pin_of_digits_eq raw all) ∙ e)) in
          inr (omega (arith, len, sixty_four (length digits) all), v)
      | inr other ↦ absurd (cc (pin_of_digits_short raw other, e))
    ]

pub normalize-IsPin : (raw : Text) (bs : List ℕ) → normalize_pin_sha256 raw ≡ ok bs → IsPin bs
unfolding normalize_pin_sha256
normalize-IsPin raw bs e = elim (Bool-cases (is_empty (trim_space raw))) [
  | inl none' ↦ inl (ground (arith, e, none'))
  | inr given ↦ pin_of_digits-IsPin (trim_space raw) bs (ground (arith, e, given))
]
