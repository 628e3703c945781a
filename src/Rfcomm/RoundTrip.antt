-- ===== src/Rfcomm/RoundTrip.antt =====
-- listener/rfcomm_listener/native_windows.go: addresses as texts and as numbers of 48 bits.
use myflowhub_core.Common.{
  ℕ, suc, ◌+◌, ◌*◌, ◌/◌, ◌%◌, ◌^◌, ◌<◌, ◌≡◌, ◌≢◌, ◌↔◌, refl, sym, ap, ◌∙◌, subst, List, [], ◌∷◌,
  map, some, true, Text, Result, ok, err, length, All, ◌==◌, arith, Result-cases, inl, inr,
}
use myflowhub_core.Strings.{trim_space, split}
use myflowhub_core.Strings.Laws.{Lacks, split_lacking, split-append, trim_space_idem}
use myflowhub_core.Rfcomm.{BdAddrError, normalize_bd_addr, from_hex, nibbles, strconv_hex_byte}
use myflowhub_core.Rfcomm.Address.{
  AddressError, hex_bytes, shift_in, parts_to_bth_addr, bd_addr_to_bth_addr, hex_digit, hex_pair,
  colon_hex, six_bytes, bth_addr_to_bd_addr, IsByte,
}
use myflowhub_core.Rfcomm.Digits.{IsDigit, hex_digit-IsDigit, IsNormal, normalize-IsNormal}

from_hex-hex_digit : (n : ℕ) → n < 16 → from_hex (hex_digit n) ≡ some n
unfolding from_hex
from_hex-hex_digit n h = ground (arith, h)

hex_byte-hex_pair : (b : ℕ) → IsByte b → strconv_hex_byte (hex_pair b) ≡ some b
unfolding strconv_hex_byte
hex_byte-hex_pair b h =
    ap (λ x. nibbles x (from_hex (hex_digit (b % 16))))
      (from_hex-hex_digit (b / 16) (omega (arith, h)))
    ∙ ap (nibbles (some (b / 16))) (from_hex-hex_digit (b % 16) (omega arith))
    ∙ ap (λ x. some x) (omega (arith, h))

hex_bytes-pairs : (bs : List ℕ) → All IsByte bs → hex_bytes (map hex_pair bs) ≡ some bs
unfolding hex_bytes
hex_bytes-pairs [] h = refl
hex_bytes-pairs (b ∷ bs) (h, hs) = rw (hex_byte-hex_pair b h, hex_bytes, hex_bytes-pairs bs hs) refl

digit-no_colon : (c : ℕ) → IsDigit c → c ≢ b':'
digit-no_colon c d = ground (arith, d)

pair-Lacks : (b : ℕ) → IsByte b → Lacks b':' (hex_pair b)
pair-Lacks b h = (
  digit-no_colon (hex_digit (b / 16)) (hex_digit-IsDigit (b / 16) (omega (arith, h))),
  (digit-no_colon (hex_digit (b % 16)) (hex_digit-IsDigit (b % 16) (omega arith)), tt),
)

split-colon_hex :
    (b : ℕ) (bs : List ℕ)
    → All IsByte (b ∷ bs)
    → split b':' (colon_hex (b ∷ bs)) ≡ map hex_pair (b ∷ bs)
split-colon_hex b [] (h, hs) = split_lacking b':' (hex_pair b) (pair-Lacks b h)
split-colon_hex b (c ∷ bs) (h, hs) =
    split-append b':' (hex_pair b) (colon_hex (c ∷ bs)) (pair-Lacks b h)
    ∙ ap (◌∷◌ (hex_pair b)) (split-colon_hex c bs hs)

length-pairs : (bs : List ℕ) → length (map hex_pair bs) ≡ length bs
length-pairs [] = refl
length-pairs (b ∷ bs) = ap suc (length-pairs bs)

parts-pairs :
    (bs : List ℕ)
    → length bs ≡ 6
    → All IsByte bs
    → parts_to_bth_addr (map hex_pair bs) ≡ ok (shift_in 0 bs)
unfolding parts_to_bth_addr
parts-pairs bs six v =
    let len : length (map hex_pair bs) == 6 ≡ true = ground (arith, length-pairs bs, six) in
    rw (parts_to_bth_addr, len, hex_bytes-pairs bs v) refl

bth_addr_eq :
    (raw : Text) (r : Result BdAddrError Text)
    → normalize_bd_addr (trim_space raw) ≡ r
    → bd_addr_to_bth_addr raw ≡ (elim r [
      | ok s ↦ parts_to_bth_addr (split b':' s)
      | err e ↦ err (AddressError.not_normal e)
    ])
unfolding bd_addr_to_bth_addr
bth_addr_eq raw (ok s) e = rw (bd_addr_to_bth_addr, e) refl
bth_addr_eq raw (err x) e = rw (bd_addr_to_bth_addr, e) refl

-- The number of a normal address.
number_of :
    (raw s : Text) (n : IsNormal s)
    → normalize_bd_addr (trim_space raw) ≡ ok s
    → bd_addr_to_bth_addr raw ≡ ok (shift_in 0 n.bytes)
number_of raw s n e =
    bth_addr_eq raw (ok s) e
    ∙ ap (λ t. parts_to_bth_addr (split b':' t)) n.spelled
    ∙ spelled n.bytes n.six n.valid
  where
    spelled :
        (bs : List ℕ)
        → length bs ≡ 6
        → All IsByte bs
        → parts_to_bth_addr (split b':' (colon_hex bs)) ≡ ok (shift_in 0 bs)
    spelled [] six v = absurd (omega (arith, six))
    spelled (b ∷ bs) six v =
        ap parts_to_bth_addr (split-colon_hex b bs v) ∙ parts-pairs (b ∷ bs) six v

six_bytes-valid : (a : ℕ) → All IsByte (six_bytes a)
six_bytes-valid a =
    (omega arith, (omega arith, (omega arith, (omega arith, (omega arith, (omega arith, tt))))))

shift_in-six_bytes : (a : ℕ) → a < 2 ^ 48 → shift_in 0 (six_bytes a) ≡ a
shift_in-six_bytes a h = omega (arith, h)

pub six_bytes-shift_in :
    (bs : List ℕ)
    → length bs ≡ 6
    → All IsByte bs
    → (six_bytes (shift_in 0 bs) ≡ bs) × (shift_in 0 bs < 2 ^ 48)
six_bytes-shift_in [] h v = absurd (omega (arith, h))
six_bytes-shift_in (a ∷ []) h v = absurd (omega (arith, h))
six_bytes-shift_in (a ∷ b ∷ []) h v = absurd (omega (arith, h))
six_bytes-shift_in (a ∷ b ∷ c ∷ []) h v = absurd (omega (arith, h))
six_bytes-shift_in (a ∷ b ∷ c ∷ d ∷ []) h v = absurd (omega (arith, h))
six_bytes-shift_in (a ∷ b ∷ c ∷ d ∷ e ∷ []) h v = absurd (omega (arith, h))
six_bytes-shift_in (a ∷ b ∷ c ∷ d ∷ e ∷ f ∷ g ∷ bs) h v = absurd (omega (arith, h))
six_bytes-shift_in (a ∷ b ∷ c ∷ d ∷ e ∷ f ∷ []) h (va, (vb, (vc, (vd, (ve, (vf, _)))))) =
    let n = (((((0 + a) * 256 + b) * 256 + c) * 256 + d) * 256 + e) * 256 + f in
    let pa : n / 2 ^ 40 % 256 ≡ a = omega (arith, va, vb, vc, vd, ve, vf) in
    let pb : n / 2 ^ 32 % 256 ≡ b = omega (arith, vb, vc, vd, ve, vf) in
    let pc : n / 2 ^ 24 % 256 ≡ c = omega (arith, vc, vd, ve, vf) in
    let pd : n / 2 ^ 16 % 256 ≡ d = omega (arith, vd, ve, vf) in
    let pe : n / 2 ^ 8 % 256 ≡ e = omega (arith, ve, vf) in
    let pf : n % 256 ≡ f = omega (arith, vf) in
    (λ i. pa i ∷ pb i ∷ pc i ∷ pd i ∷ pe i ∷ pf i ∷ [], omega (arith, va, vb, vc, vd, ve, vf))

ok_injective : {E A : Type 0} {x y : A} → ◌≡◌ {A = Result E A} (ok x) (ok y) → x ≡ y
ok_injective e = cc e

err-ne-ok : {E A : Type 0} {x : E} {y : A} → ◌≡◌ {A = Result E A} (err x) (ok y) → ⊥
err-ne-ok e = cc e

pub printed_eq : (a : ℕ) → colon_hex (six_bytes a) ≡ bth_addr_to_bd_addr a
unfolding bth_addr_to_bd_addr
printed_eq a = refl

number_printed :
    (raw : Text) (a : ℕ)
    → a < 2 ^ 48
    → normalize_bd_addr (trim_space raw) ≡ ok (bth_addr_to_bd_addr a)
    → bd_addr_to_bth_addr raw ≡ ok a
unfolding bth_addr_to_bd_addr
number_printed raw a h e =
    let n : IsNormal (colon_hex (six_bytes a)) = record {
      bytes = six_bytes a;
      six = refl;
      valid = six_bytes-valid a;
      spelled = refl;
    } in
    number_of raw (colon_hex (six_bytes a)) n e ∙ ap (λ x. ok x) (shift_in-six_bytes a h)

normalize-trim_space : (raw : Text) → normalize_bd_addr (trim_space raw) ≡ normalize_bd_addr raw
unfolding normalize_bd_addr
normalize-trim_space raw = rw (trim_space_idem raw, normalize_bd_addr) refl

-- bdAddrToBTHAddr answers a number exactly if it has 48 bits and normalizeBDAddr gives the address
-- that bthAddrToBDAddr prints for it: an address is read as it is printed, and no address that is
-- normal is refused.
pub bd_addr_to_bth_addr_iff :
    (raw : Text) (a : ℕ)
    → (bd_addr_to_bth_addr raw ≡ ok a)
      ↔ ((a < 2 ^ 48) × (normalize_bd_addr raw ≡ ok (bth_addr_to_bd_addr a)))
bd_addr_to_bth_addr_iff raw a = (parsed, printed)
  where
    printed :
        (a < 2 ^ 48) × (normalize_bd_addr raw ≡ ok (bth_addr_to_bd_addr a))
        → bd_addr_to_bth_addr raw ≡ ok a
    printed (h, e) = number_printed raw a h (normalize-trim_space raw ∙ e)

    parsed :
        bd_addr_to_bth_addr raw ≡ ok a
        → (a < 2 ^ 48) × (normalize_bd_addr raw ≡ ok (bth_addr_to_bd_addr a))
    parsed e = elim (Result-cases (normalize_bd_addr (trim_space raw))) [
      | inl (s, normal) ↦
          let n = normalize-IsNormal (trim_space raw) s normal in
          let same : shift_in 0 n.bytes ≡ a = ok_injective (sym (number_of raw s n normal) ∙ e) in
          let (back, bound) = six_bytes-shift_in n.bytes n.six n.valid in
          (
            subst (λ x. x < 2 ^ 48) same bound,
            sym (normalize-trim_space raw)
                ∙ normal
                ∙ ap (λ t. ok t)
                    (n.spelled ∙ ap colon_hex (sym back ∙ ap six_bytes same) ∙ printed_eq a),
          )
      | inr (x, bad) ↦ absurd (err-ne-ok (sym (bth_addr_eq raw (err x) bad) ∙ e))
    ]
