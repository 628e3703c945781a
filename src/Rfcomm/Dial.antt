-- ===== src/Rfcomm/Dial.antt =====
-- listener/rfcomm_listener: from the URI of an endpoint to the platform's dial.
use myflowhub_core.Common.{
  ℕ, suc, ◌^◌, ◌<◌, ◌≤◌, ◌≡◌, refl, sym, ap, ◌∙◌, subst, [], ◌∷◌, Option, none, Bool, true, false,
  ◌&&◌, ◌||◌, Text, codes, ok, is_empty, ◌==◌, arith, Bool-cases, inl, inr,
}
use myflowhub_core.Conn.{ℤ, pos}
use myflowhub_core.Strings.{trim_space, to_lower, is_space}
use myflowhub_core.Rfcomm.{normalize_bd_addr, is_uuid_like, uuid_chars, uuid_char}
use myflowhub_core.Rfcomm.Address.{bd_addr_to_bth_addr, bth_addr_to_bd_addr, colon_hex, shift_in}
use myflowhub_core.Rfcomm.Digits.{
  normalize-IsNormal, Solid, trim_space-Solid, colon_hex-Solid, not_empty-colon_hex,
}
use myflowhub_core.Rfcomm.RoundTrip.{bd_addr_to_bth_addr_iff, six_bytes-shift_in, printed_eq}
use myflowhub_core.Rfcomm.Endpoint.{
  Endpoint, Url, bad_channel, refuses, default_rfcomm_uuid, parse_endpoint,
}
use myflowhub_core.Rfcomm.Parsed.{parse_endpoint-IsDialable, uuid_not_empty}
use myflowhub_core.Rfcomm.Options.{
  DialOptions, if_blank, dial_defaults, validate_dial, dial_options, dial_prepared, unless_invalid,
}

uuid_char-no_space : (i c : ℕ) → uuid_char i c ≡ true → is_space c ≡ false
uuid_char-no_space i c h = elim (Bool-cases ((i == 8) || ((i == 13) || ((i == 18) || (i == 23))))) [
  | inl y ↦ ground (arith, h, y)
  | inr n ↦ ground (arith, h, n)
]

uuid_chars-Solid : (i : ℕ) (s : Text) → uuid_chars i s ≡ true → Solid s
unfolding uuid_chars
uuid_chars-Solid i [] h = tt
uuid_chars-Solid i (c ∷ s) h = (
  uuid_char-no_space i c (and-left (uuid_char i c) (uuid_chars (suc i) s) h),
  uuid_chars-Solid (suc i) s (and-right (uuid_char i c) (uuid_chars (suc i) s) h),
)
  where
    and-left : (a b : Bool) → (a && b) ≡ true → a ≡ true
    and-left true b h = refl
    and-left false b h = cc h

    and-right : (a b : Bool) → (a && b) ≡ true → b ≡ true
    and-right true b h = h
    and-right false b h = cc h

uuid_like-Solid : (s : Text) → is_uuid_like s ≡ true → Solid s
unfolding is_uuid_like
uuid_like-Solid s h = uuid_chars-Solid 0 s (ground (arith, h))

-- A text that is neither blank nor padded is kept.
if_blank-given : (d s : Text) → trim_space s ≡ s → is_empty s ≡ false → if_blank d s ≡ s
if_blank-given d s t g = ground (arith, ap is_empty t, g)

dial_defaults_keep :
    (o : DialOptions)
    → if_blank default_rfcomm_uuid o.uuid ≡ o.uuid
    → if_blank (codes "hci0") o.adapter ≡ o.adapter
    → dial_defaults o ≡ o
unfolding dial_defaults
dial_defaults_keep o u a = λ i. record o { uuid = u i; adapter = a i }

validate_dial_ok :
    (o : DialOptions) (n : ℕ)
    → trim_space o.bd_addr ≡ o.bd_addr
    → is_empty o.bd_addr ≡ false
    → normalize_bd_addr o.bd_addr ≡ ok o.bd_addr
    → trim_space o.uuid ≡ o.uuid
    → is_uuid_like o.uuid ≡ true
    → o.channel ≡ pos n
    → n ≤ 30
    → is_empty (trim_space o.adapter) ≡ false
    → validate_dial o ≡ none
unfolding validate_dial
validate_dial_ok o n bt bg normal ut like ch range adapter =
    let given : is_empty (trim_space o.bd_addr) ≡ false = ap is_empty bt ∙ bg in
    let fine : refuses (normalize_bd_addr o.bd_addr) ≡ false = ap refuses normal in
    let uuid : is_empty (trim_space o.uuid) ≡ false = ap is_empty ut ∙ uuid_not_empty o.uuid like in
    let in_range : bad_channel o.channel ≡ false = ap bad_channel ch ∙ ground (arith, range) in
    ground (arith, given, fine, uuid, like, in_range, adapter)

dial_prepared_eq :
    (o : DialOptions)
    → dial_defaults o ≡ o
    → to_lower (trim_space o.uuid) ≡ o.uuid
    → trim_space o.bd_addr ≡ o.bd_addr
    → validate_dial o ≡ none
    → dial_prepared o ≡ ok o
unfolding dial_prepared
dial_prepared_eq o kept uuid bd valid =
    ap
      (λ (d : DialOptions).
        let p : DialOptions = record d {
          uuid = to_lower (trim_space d.uuid);
          bd_addr = trim_space d.bd_addr;
        } in
        unless_invalid p (validate_dial p))
      kept
    ∙ ap (λ p. unless_invalid p (validate_dial p)) (λ i. record o { uuid = uuid i; bd_addr = bd i })
    ∙ ap (unless_invalid o) valid

-- An endpoint that ParseEndpoint answers is taken by Dial as it is: its defaults and its Validate
-- change and refuse nothing, and the platform reads the address as a number of 48 bits that is
-- printed as the address again.
pub dial_endpoint_accepts :
    (atoi : Text → Option ℤ) (url_parse : Text → Option Url) (raw : Text) (ep : Endpoint)
    → parse_endpoint atoi url_parse raw ≡ ok ep
    → (dial_prepared (dial_options ep) ≡ ok (dial_options ep))
      × (a : ℕ) × (a < 2 ^ 48)
      × (bd_addr_to_bth_addr ep.bd_addr ≡ ok a)
      × (bth_addr_to_bd_addr a ≡ ep.bd_addr)
dial_endpoint_accepts atoi url_parse raw ep e =
    let d = parse_endpoint-IsDialable atoi url_parse raw ep e in
    let o = dial_options ep in
    let n = normalize-IsNormal ep.bd_addr ep.bd_addr d.normal in
    let (back, bound) = six_bytes-shift_in n.bytes n.six n.valid in
    let a = shift_in 0 n.bytes in
    let printed : bth_addr_to_bd_addr a ≡ ep.bd_addr =
      sym (printed_eq a) ∙ ap colon_hex back ∙ sym n.spelled in
    let bd : trim_space ep.bd_addr ≡ ep.bd_addr =
      subst (λ t. trim_space t ≡ t) (sym n.spelled)
        (trim_space-Solid (colon_hex n.bytes) (colon_hex-Solid n.bytes n.valid)) in
    let bd_given : is_empty ep.bd_addr ≡ false =
      ap is_empty n.spelled ∙ not_empty-colon_hex n.bytes n.six in
    let uuid : trim_space ep.uuid ≡ ep.uuid =
      trim_space-Solid ep.uuid (uuid_like-Solid ep.uuid d.uuid_like) in
    let (k, ch, range) = d.channel_range in
    let kept =
      dial_defaults_keep o
        (if_blank-given default_rfcomm_uuid ep.uuid uuid (uuid_not_empty ep.uuid d.uuid_like))
        (if_blank-given (codes "hci0") ep.adapter d.adapter_trimmed d.adapter_given) in
    (
      dial_prepared_eq o kept (ap to_lower uuid ∙ d.lower_case) bd (
          validate_dial_ok o k bd bd_given d.normal uuid d.uuid_like ch range
            (ap is_empty d.adapter_trimmed ∙ d.adapter_given)),
      a,
      bound,
      (bd_addr_to_bth_addr_iff ep.bd_addr a).1 (bound, d.normal ∙ ap (λ t. ok t) (sym printed)),
      printed,
    )
