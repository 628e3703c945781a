-- ===== src/Strings.antt =====
-- The functions of Go's strings and strconv packages that the core calls, on ASCII texts.
pub mod Laws
use myflowhub_core.Common.{
  ℕ, ◌+◌, ◌-◌, ◌*◌, ◌^◌, List, [], ◌∷◌, ◌++◌, Option, none, some, Bool, true, false, ◌&&◌, ◌||◌,
  Text, is_empty, ◌==◌, leb, ltb, if◌then◌else◌,
}

-- unicode.IsSpace on ASCII.
abbrev pub is_space : ℕ → Bool
is_space c = (leb 9 c && leb c 13) || c == 32

unfoldable pub trim_left : Text → Text
trim_left [] = []
trim_left (c ∷ s) = let rest = trim_left s in if is_space c then rest else c ∷ s

unfoldable pub trim_right : Text → Text
trim_right [] = []
trim_right (c ∷ s) = let rest = trim_right s in if is_space c && is_empty rest then [] else c ∷ rest

-- strings.TrimSpace
unfoldable pub trim_space : Text → Text
unfolding trim_left trim_right
trim_space s = trim_right (trim_left s)

abbrev pub lower : ℕ → ℕ
lower c = if leb b'A' c && leb c b'Z' then c + 32 else c

-- strings.ToLower
unfoldable pub to_lower : Text → Text
to_lower [] = []
to_lower (c ∷ s) = lower c ∷ to_lower s

abbrev pub cons_head : ℕ → List Text → List Text
cons_head c [] = (c ∷ []) ∷ []
cons_head c (s ∷ ss) = (c ∷ s) ∷ ss

-- strings.Split by one byte.
unfoldable pub split : ℕ → Text → List Text
split sep [] = [] ∷ []
split sep (c ∷ s) = let rest = split sep s in if c == sep then [] ∷ rest else cons_head c rest

-- strings.SplitN with a limit of 2, where that gives two parts.
unfoldable pub split_pair : ℕ → Text → Option (Text × Text)
split_pair sep [] = none
split_pair sep (c ∷ s) =
    let rest : Option (Text × Text) = elim (split_pair sep s) [
      | none ↦ none
      | some (a, b) ↦ some (c ∷ a, b)
    ] in
    if c == sep then some ([], s) else rest

is_digit : ℕ → Bool
is_digit c = leb b'0' c && leb c b'9'

digits_value : ℕ → Text → Option ℕ
unfolding is_digit
digits_value acc [] = some acc
digits_value acc (c ∷ s) =
    let rest = digits_value (acc * 10 + (c - b'0')) s in if is_digit c then rest else none

below_32 : Option ℕ → Option ℕ
below_32 none = none
below_32 (some v) = if ltb v (2 ^ 32) then some v else none

-- strconv.ParseUint in base 10 for 32 bits; `none` is any error.
unfoldable pub parse_uint32 : Text → Option ℕ
unfolding digits_value below_32
parse_uint32 [] = none
parse_uint32 (c ∷ s) = below_32 (digits_value 0 (c ∷ s))

-- strings.ReplaceAll of one byte by nothing, and by another byte.
unfoldable pub remove_all : ℕ → Text → Text
remove_all sep [] = []
remove_all sep (c ∷ s) = let rest = remove_all sep s in if c == sep then rest else c ∷ rest

unfoldable pub replace_all : ℕ → ℕ → Text → Text
replace_all old by [] = []
replace_all old by (c ∷ s) = (if c == old then by else c) ∷ replace_all old by s

abbrev pub upper : ℕ → ℕ
upper c = if leb b'a' c && leb c b'z' then c - 32 else c

-- strings.ToUpper
unfoldable pub to_upper : Text → Text
to_upper [] = []
to_upper (c ∷ s) = upper c ∷ to_upper s

-- strings.HasPrefix
unfoldable pub has_prefix : Text → Text → Bool
has_prefix s [] = true
has_prefix [] (d ∷ start) = false
has_prefix (c ∷ s) (d ∷ start) = (c == d) && has_prefix s start
