-- ===== src/Rfcomm/Address.antt =====
-- listener/rfcomm_listener/native_windows.go: Bluetooth addresses as numbers.
use myflowhub_core.Common.{
  ℕ, ◌+◌, ◌*◌, ◌/◌, ◌%◌, ◌^◌, ◌<◌, List, [], ◌∷◌, ◌++◌, Option, none, some, not, Text, Result, ok,
  err, length, ◌==◌, ltb, if◌then◌else◌,
}
use myflowhub_core.Strings.{trim_space, split}
use myflowhub_core.Rfcomm.{BdAddrError, normalize_bd_addr, strconv_hex_byte}

pub data AddressError : Type 0 where
  not_normal : BdAddrError → AddressError
  wrong_parts wrong_byte : AddressError

-- The loop of bdAddrToBTHAddr over the parts.
unfoldable pub hex_bytes : List Text → Option (List ℕ)
unfolding strconv_hex_byte
hex_bytes [] = some []
hex_bytes (p ∷ ps) = elim (strconv_hex_byte p) [
  | none ↦ none
  | some b ↦ elim (hex_bytes ps) [ none ↦ none | some bs ↦ some (b ∷ bs) ]
]

-- The shifts of bdAddrToBTHAddr, whose bits do not overlap.
abbrev pub shift_in : ℕ → List ℕ → ℕ
shift_in acc [] = acc
shift_in acc (b ∷ bs) = shift_in (acc * 256 + b) bs

abbrev pub assembled : Option (List ℕ) → Result AddressError ℕ
assembled none = err wrong_byte
assembled (some bs) = ok (shift_in 0 bs)

-- bdAddrToBTHAddr on a normal address.
unfoldable pub parts_to_bth_addr : List Text → Result AddressError ℕ
unfolding hex_bytes
parts_to_bth_addr parts =
    if not (length parts == 6) then err wrong_parts else assembled (hex_bytes parts)

-- bdAddrToBTHAddr.
unfoldable pub bd_addr_to_bth_addr : Text → Result AddressError ℕ
unfolding parts_to_bth_addr
bd_addr_to_bth_addr bdaddr = elim (normalize_bd_addr (trim_space bdaddr)) [
  | ok s ↦ parts_to_bth_addr (split b':' s)
  | err e ↦ err (not_normal e)
]

-- %02X of a byte.
abbrev pub hex_digit : ℕ → ℕ
hex_digit n = if ltb n 10 then 48 + n else 55 + n

abbrev pub hex_pair : ℕ → Text
hex_pair b = hex_digit (b / 16) ∷ hex_digit (b % 16) ∷ []

-- "%02X:%02X:…" of some bytes.
abbrev pub colon_hex : List ℕ → Text
colon_hex [] = []
colon_hex (b ∷ []) = hex_pair b
colon_hex (b ∷ c ∷ bs) = hex_pair b ++ (b':' ∷ colon_hex (c ∷ bs))

-- The bytes of a 48-bit number, the highest first.
abbrev pub six_bytes : ℕ → List ℕ
six_bytes a =
    (a / 2 ^ 40 % 256)
    ∷ (a / 2 ^ 32 % 256)
    ∷ (a / 2 ^ 24 % 256)
    ∷ (a / 2 ^ 16 % 256)
    ∷ (a / 2 ^ 8 % 256)
    ∷ (a % 256)
    ∷ []

-- bthAddrToBDAddr.
unfoldable pub bth_addr_to_bd_addr : ℕ → Text
bth_addr_to_bd_addr a = colon_hex (six_bytes a)

abbrev pub IsByte : ℕ → Type 0
IsByte b = b < 256
