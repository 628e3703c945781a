-- ===== src/Quic.antt =====
-- listener/quic_listener: the pinned digests of tls_config.go, in hexadecimal.
pub mod Pins
pub mod Endpoint
pub mod Options
pub mod Tls
pub mod Dial
pub mod Pinned
use myflowhub_core.Common.{
  ℕ, ◌+◌, ◌*◌, ◌/◌, ◌%◌, List, [], ◌∷◌, Option, none, some, Bool, true, false, not, Text, Result,
  ok, err, length, is_empty, ◌==◌, ltb, if◌then◌else◌,
}
use myflowhub_core.Strings.{trim_space, to_lower, remove_all}
use myflowhub_core.Rfcomm.{from_hex, nibbles}

-- The digits of hex.EncodeToString.
abbrev pub lower_digit : ℕ → ℕ
lower_digit n = if ltb n 10 then 48 + n else 87 + n

-- hex.EncodeToString
unfoldable pub encode_hex : List ℕ → Text
encode_hex [] = []
encode_hex (b ∷ bs) = lower_digit (b / 16) ∷ lower_digit (b % 16) ∷ encode_hex bs

abbrev pub cons_byte : Option ℕ → Option (List ℕ) → Option (List ℕ)
cons_byte (some b) (some bs) = some (b ∷ bs)
cons_byte _ _ = none

-- hex.DecodeString; `none` is its error.
unfoldable pub decode_hex : Text → Option (List ℕ)
decode_hex [] = some []
decode_hex (c ∷ []) = none
decode_hex (hi ∷ lo ∷ s) = cons_byte (nibbles (from_hex hi) (from_hex lo)) (decode_hex s)

pub data PinError : Type 0 where
  pin_invalid : PinError

abbrev pub decoded : Option (List ℕ) → Result PinError (List ℕ)
decoded none = err pin_invalid
decoded (some bs) = ok bs

-- normalizePinSHA256 on a trimmed text that is not empty.
unfoldable pub pin_of_digits : Text → Result PinError (List ℕ)
unfolding decode_hex
pin_of_digits raw =
    let digits = to_lower (remove_all b':' raw) in
    if not (length digits == 64) then err pin_invalid else decoded (decode_hex digits)

-- normalizePinSHA256; nil is the empty list.
unfoldable pub normalize_pin_sha256 : Text → Result PinError (List ℕ)
normalize_pin_sha256 raw = let s = trim_space raw in if is_empty s then ok [] else pin_of_digits s
