-- ===== src/Rfcomm/Bluez/Paths.antt =====
-- bluez_linux.go: the object path of a device is read back as its address.
use myflowhub_core.Common.{
  ℕ, zero, suc, ◌+◌, ◌/◌, ◌%◌, ◌≡◌, ◌≢◌, inl, inr, refl, sym, ap, ◌∙◌, subst, List, [], ◌∷◌, ◌++◌,
  append_assoc, none, some, Bool, true, false, Bool-cases, Text, codes, Result-cases, length, drop,
  is_empty, All, ◌==◌, if◌then◌else◌, arith,
}
use myflowhub_core.Strings.{has_prefix, trim_space, replace_all}
use myflowhub_core.Strings.Laws.{Lacks}
use myflowhub_core.Rfcomm.{normalize_bd_addr}
use myflowhub_core.Rfcomm.Address.{colon_hex, hex_digit, IsByte}
use myflowhub_core.Rfcomm.Digits.{
  IsNormal, normalize-IsNormal, normalize-colon_hex, IsDigit, hex_digit-IsDigit,
}
use myflowhub_core.Rfcomm.Bluez.{
  last_index, normal_or_empty, address_of_tail, bluez_device_object_path,
  bluez_bd_addr_from_device_path, new_bluez_profile, wanted_adapter,
}

has_prefix-append : (s t : Text) → has_prefix (s ++ t) s ≡ true
unfolding has_prefix
has_prefix-append [] [] = refl
has_prefix-append [] (c ∷ t) = refl
has_prefix-append (c ∷ s) t = ground (arith, has_prefix-append s t)

-- A text without the first byte of what is sought does not have it.
last_index-Lacks : (sep : ℕ) (rest s : Text) → Lacks sep s → last_index s (sep ∷ rest) ≡ none
unfolding last_index has_prefix
last_index-Lacks sep rest [] h = refl
last_index-Lacks sep rest (c ∷ s) (h, hs) =
    let other : c == sep ≡ false = ground (arith, h) in
    rw (last_index-Lacks sep rest s hs, other) refl

last_index-tail :
    (sep : ℕ) (rest front s : Text) (i : ℕ)
    → last_index s (sep ∷ rest) ≡ some i
    → last_index (front ++ s) (sep ∷ rest) ≡ some (length front + i)
unfolding last_index
last_index-tail sep rest [] s i h = h ∙ ap (λ n. some n) (omega arith)
last_index-tail sep rest (c ∷ front) s i h =
    rw (last_index-tail sep rest front s i h) (ap (λ n. some n) (omega arith))

last_index-here :
    (c : ℕ) (s sep : Text)
    → last_index s sep ≡ none
    → has_prefix (c ∷ s) sep ≡ true
    → last_index (c ∷ s) sep ≡ some 0
unfolding last_index
last_index-here c s sep e h = rw (e, h) refl

last_index-last :
    (sep : ℕ) (rest tail : Text)
    → Lacks sep (rest ++ tail)
    → last_index (sep ∷ (rest ++ tail)) (sep ∷ rest) ≡ some 0
last_index-last sep rest tail h =
    last_index-here sep (rest ++ tail) (sep ∷ rest) (last_index-Lacks sep rest (rest ++ tail) h)
      (has_prefix-append (sep ∷ rest) tail)

replace_all-back :
    (old by : ℕ) (s : Text) → Lacks by s → replace_all by old (replace_all old by s) ≡ s
unfolding replace_all
replace_all-back old by [] h = refl
replace_all-back old by (c ∷ s) (h, hs) = elim (Bool-cases (c == old)) [
  | inl y ↦ ground (arith, y, replace_all-back old by s hs)
  | inr n ↦ ground (arith, n, h, replace_all-back old by s hs)
]

replace_all-Lacks :
    (sep old by : ℕ) (s : Text) → sep ≢ by → Lacks sep s → Lacks sep (replace_all old by s)
unfolding replace_all
replace_all-Lacks sep old by [] n h = tt
replace_all-Lacks sep old by (c ∷ s) n (h, hs) =
    (ground (arith, n, h), replace_all-Lacks sep old by s n hs)

-- A byte that is neither a digit nor a colon is not in an address.
colon_hex-Lacks :
    (sep : ℕ) (bs : List ℕ)
    → ((c : ℕ) → IsDigit c → c ≢ sep)
    → b':' ≢ sep
    → All IsByte bs
    → Lacks sep (colon_hex bs)
colon_hex-Lacks sep [] d n v = tt
colon_hex-Lacks sep (b ∷ []) d n (v, vs) = (
  d (hex_digit (b / 16)) (hex_digit-IsDigit (b / 16) (omega (arith, v))),
  (d (hex_digit (b % 16)) (hex_digit-IsDigit (b % 16) (omega arith)), tt),
)
colon_hex-Lacks sep (b ∷ c ∷ bs) d n (v, vs) = (
  d (hex_digit (b / 16)) (hex_digit-IsDigit (b / 16) (omega (arith, v))),
  (
    d (hex_digit (b % 16)) (hex_digit-IsDigit (b % 16) (omega arith)),
    (n, colon_hex-Lacks sep (c ∷ bs) d n vs),
  ),
)

drop-front :
    (n : ℕ) (front sep tail : Text)
    → n ≡ length front + length sep
    → drop n (front ++ (sep ++ tail)) ≡ tail
drop-front n [] sep tail e =
    subst (λ k. drop k (sep ++ tail) ≡ tail) (sym (e ∙ omega arith)) (drop-sep sep tail)
  where
    drop-sep : (s t : Text) → drop (length s) (s ++ t) ≡ t
    drop-sep [] t = refl
    drop-sep (x ∷ s) t = drop-sep s t
drop-front zero (c ∷ front) sep tail e = absurd (omega (arith, e))
drop-front (suc n) (c ∷ front) sep tail e = drop-front n front sep tail (omega (arith, e))

replaced_given :
    (bs : List ℕ) → length bs ≡ 6 → is_empty (replace_all b':' b'_' (colon_hex bs)) ≡ false
unfolding replace_all
replaced_given [] h = absurd (omega (arith, h))
replaced_given (b ∷ []) h = refl
replaced_given (b ∷ c ∷ bs) h = refl

normal_or_empty-colon_hex :
    (bs : List ℕ) → length bs ≡ 6 → All IsByte bs → normal_or_empty (colon_hex bs) ≡ colon_hex bs
unfolding normal_or_empty
normal_or_empty-colon_hex bs six v = rw (normalize-colon_hex bs six v, normal_or_empty) refl

address_of_tail-colon_hex :
    (bs : List ℕ)
    → length bs ≡ 6
    → All IsByte bs
    → address_of_tail (replace_all b':' b'_' (colon_hex bs)) ≡ colon_hex bs
unfolding address_of_tail
address_of_tail-colon_hex bs six v =
    let back =
      replace_all-back b':' b'_' (colon_hex bs)
        (colon_hex-Lacks b'_' bs (λ c d e. ground (arith, d, e)) (λ e. omega (arith, e)) v) in
    rw (replaced_given bs six, back) (normal_or_empty-colon_hex bs six v)

read_back :
    (front tail : Text)
    → Lacks b'/' tail
    → bluez_bd_addr_from_device_path (front ++ (codes "/dev_" ++ tail)) ≡ address_of_tail tail
unfolding bluez_bd_addr_from_device_path
read_back front tail h =
    let found : last_index (front ++ (codes "/dev_" ++ tail)) (codes "/dev_")
        ≡ some (length front + 0) =
      last_index-tail b'/' (codes "dev_") front (codes "/dev_" ++ tail) 0 (
        last_index-last b'/' (codes "dev_") tail (
          (λ e. omega (arith, e)),
          ((λ e. omega (arith, e)), ((λ e. omega (arith, e)), ((λ e. omega (arith, e)), h))),
        )) in
    rw (bluez_bd_addr_from_device_path, found)
      (ap address_of_tail
        (drop-front (length front + 0 + 5) front (codes "/dev_") tail (omega arith)))

-- A text that the path of a device can end with.
abbrev ReadsBack : Text → Type 0
ReadsBack t = Lacks b'/' (replace_all b':' b'_' t) × (address_of_tail (replace_all b':' b'_' t) ≡ t)

IsNormal-ReadsBack : (t : Text) → IsNormal t → ReadsBack t
IsNormal-ReadsBack t n = subst ReadsBack (sym n.spelled) (
  replace_all-Lacks b'/' b':' b'_' (colon_hex n.bytes) (λ e. omega (arith, e))
      (colon_hex-Lacks b'/' n.bytes (λ c d e. ground (arith, d, e)) (λ e. omega (arith, e))
        n.valid),
  address_of_tail-colon_hex n.bytes n.six n.valid,
)

empty-ReadsBack : ReadsBack []
unfolding replace_all address_of_tail
empty-ReadsBack = (tt, refl)

normal_or_empty-ReadsBack : (bd_addr : Text) → ReadsBack (normal_or_empty bd_addr)
unfolding normal_or_empty
normal_or_empty-ReadsBack bd_addr = elim (Result-cases (normalize_bd_addr bd_addr)) [
  | inl (s, fine) ↦
      subst ReadsBack (sym (rw (fine, normal_or_empty) refl))
        (IsNormal-ReadsBack s (normalize-IsNormal bd_addr s fine))
  | inr (e, bad) ↦ subst ReadsBack (sym (rw (bad, normal_or_empty) refl)) empty-ReadsBack
]

path_read_back :
    (named tail : Text)
    → Lacks b'/' tail
    → bluez_bd_addr_from_device_path
        (codes "/org/bluez/" ++ (named ++ (b'/' ∷ (codes "dev_" ++ tail))))
      ≡ address_of_tail tail
path_read_back named tail h =
    ap bluez_bd_addr_from_device_path
      (sym (append_assoc (codes "/org/bluez/") named (codes "/dev_" ++ tail)))
    ∙ read_back (codes "/org/bluez/" ++ named) tail h

path_prefix :
    (named rest : Text)
    → has_prefix
        (codes "/org/bluez/" ++ (named ++ (b'/' ∷ rest)))
        (codes "/org/bluez/" ++ (named ++ (b'/' ∷ [])))
      ≡ true
path_prefix named rest =
    let start = codes "/org/bluez/" ++ (named ++ (b'/' ∷ [])) in
    subst (λ s. has_prefix s start ≡ true)
      (append_assoc (codes "/org/bluez/") (named ++ (b'/' ∷ [])) rest
        ∙ ap (◌++◌ (codes "/org/bluez/")) (append_assoc named (b'/' ∷ []) rest))
      (has_prefix-append start rest)

-- BlueZ's path of a device is read back as the normal form of its address, empty if it has none,
-- whatever the adapter; and a profile of that adapter takes the path for one of its own.
pub device_path_reads_back :
    (adapter bd_addr uuid role : Text) (single_shot : Bool)
    → (bluez_bd_addr_from_device_path (bluez_device_object_path adapter bd_addr)
        ≡ normal_or_empty bd_addr)
      × (wanted_adapter
            (bluez_device_object_path adapter bd_addr)
            (new_bluez_profile uuid adapter role single_shot)
          ≡ true)
unfolding bluez_device_object_path wanted_adapter new_bluez_profile
device_path_reads_back adapter bd_addr uuid role single_shot =
    let (no_slash, back) = normal_or_empty-ReadsBack bd_addr in
    let a = trim_space adapter in
    let tail = replace_all b':' b'_' (normal_or_empty bd_addr) in
    (
      path_read_back (if is_empty a then codes "hci0" else a) tail no_slash ∙ back,
      elim (Bool-cases (is_empty a)) [
        | inl default ↦ rw default refl
        | inr own ↦ rw own (path_prefix a (codes "dev_" ++ tail))
      ],
    )
