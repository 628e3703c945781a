-- ===== src/Rfcomm.antt =====
-- listener/rfcomm_listener/endpoint.go and hex.go: Bluetooth addresses and service UUIDs as texts.
-- Texts are ASCII.
pub mod Address
pub mod Digits
pub mod RoundTrip
pub mod Endpoint
pub mod Parsed
pub mod Options
pub mod Dial
pub mod Pipe
pub mod Packets
pub mod Written
pub mod Reads
pub mod Bluez
use myflowhub_core.Common.{
  ℕ, zero, suc, ◌+◌, ◌-◌, ◌*◌, ◌/◌, ◌%◌, List, [], ◌∷◌, ◌++◌, Option, none, some, Bool, true, false,
  ◌&&◌, ◌||◌, not, Text, Result, ok, err, length, take, drop, is_empty, ◌==◌, leb, if◌then◌else◌,
}
use myflowhub_core.Strings.{trim_space, remove_all, to_upper}

pub data BdAddrError : Type 0 where
  empty_address wrong_length invalid_hex : BdAddrError

abbrev pub is_upper_hex : ℕ → Bool
is_upper_hex c = (leb b'0' c && leb c b'9') || (leb b'A' c && leb c b'F')

abbrev pub is_hex : ℕ → Bool
is_hex c = (leb b'0' c && leb c b'9') || ((leb b'a' c && leb c b'f') || (leb b'A' c && leb c b'F'))

-- The loop of normalizeBDAddr over the digits.
unfoldable pub all_upper_hex : Text → Bool
all_upper_hex [] = true
all_upper_hex (c ∷ s) = is_upper_hex c && all_upper_hex s

-- The Sprintf of normalizeBDAddr.
unfoldable pub colon_slices : Text → Text
colon_slices s =
    take 2 s
    ++ (b':'
        ∷ (take 2 (drop 2 s)
            ++ (b':'
                ∷ (take 2 (drop 4 s)
                    ++ (b':'
                        ∷ (take 2 (drop 6 s)
                            ++ (b':' ∷ (take 2 (drop 8 s) ++ (b':' ∷ take 2 (drop 10 s))))))))))

-- The tests of normalizeBDAddr on the address without separators.
unfoldable pub check_digits : Text → Result BdAddrError Text
unfolding all_upper_hex colon_slices
check_digits s =
    if not (length s == 12)
    then err wrong_length
    else if all_upper_hex s
    then ok (colon_slices s)
    else err invalid_hex

-- normalizeBDAddr.
unfoldable pub normalize_bd_addr : Text → Result BdAddrError Text
unfolding check_digits
normalize_bd_addr raw =
    let s = trim_space raw in
    if is_empty s
    then err empty_address
    else check_digits (to_upper (remove_all b'.' (remove_all b'-' (remove_all b':' s))))

-- One step of the loop of isUUIDLike, at the index `i`.
abbrev pub uuid_char : ℕ → ℕ → Bool
uuid_char i c = if (i == 8) || ((i == 13) || ((i == 18) || (i == 23))) then c == b'-' else is_hex c

unfoldable pub uuid_chars : ℕ → Text → Bool
uuid_chars i [] = true
uuid_chars i (c ∷ s) = uuid_char i c && uuid_chars (suc i) s

-- isUUIDLike.
unfoldable pub is_uuid_like : Text → Bool
unfolding uuid_chars
is_uuid_like s = if not (length s == 36) then false else uuid_chars 0 s

-- fromHex; `none` is false.
unfoldable pub from_hex : ℕ → Option ℕ
from_hex c =
    if leb b'0' c && leb c b'9'
    then some (c - b'0')
    else if leb b'a' c && leb c b'f'
    then some (c - b'a' + 10)
    else if leb b'A' c && leb c b'F'
    then some (c - b'A' + 10)
    else none

abbrev pub nibbles : Option ℕ → Option ℕ → Option ℕ
nibbles (some hi) (some lo) = some (hi * 16 % 256 + lo)
nibbles (some hi) none = none
nibbles none lo = none

-- strconvHexByte; the two parts of the or share no bit.
unfoldable pub strconv_hex_byte : Text → Option ℕ
unfolding from_hex
strconv_hex_byte (hi ∷ lo ∷ []) = nibbles (from_hex hi) (from_hex lo)
strconv_hex_byte _ = none
