-- ===== src/Rfcomm/Parsed.antt =====
-- listener/rfcomm_listener/endpoint.go: what holds of every endpoint that ParseEndpoint answers.
use myflowhub_core.Common.{
  ℕ, ◌≤◌, ◌≡◌, refl, sym, ap, ◌∙◌, subst, [], ◌∷◌, Option, none, some, Bool, true, false, not, Text,
  codes, Result, ok, err, ◌>>=◌, is_empty, arith, Bool-cases, List-cases, Option-cases,
  Result-cases, inl, inr,
}
use myflowhub_core.Conn.{ℤ, pos, negsuc}
use myflowhub_core.Strings.{trim_space, to_lower, lower}
use myflowhub_core.Strings.Laws.{IsTrimmed, trim_space_idem}
use myflowhub_core.Rfcomm.{normalize_bd_addr, is_uuid_like}
use myflowhub_core.Rfcomm.Digits.{
  IsNormal, not_empty-colon_hex, normalize-IsNormal, normalize-colon_hex,
}
use myflowhub_core.Rfcomm.Endpoint.{
  Url, Endpoint, bad_channel, refuses, validate, or_default, default_rfcomm_uuid, address_text,
  parse_addr, parse_uuid, parse_channel, parse_secure, dialable, normal_or_invalid, named_endpoint,
  parse_fields, parse_url, parse_endpoint,
}

-- An endpoint in the form that the platform layers take.
pub record IsDialable (e : Endpoint) : Type 0 where
  pub normal : normalize_bd_addr e.bd_addr ≡ ok e.bd_addr
  pub uuid_like : is_uuid_like e.uuid ≡ true
  pub lower_case : to_lower e.uuid ≡ e.uuid
  pub channel_range : (n : ℕ) × (e.channel ≡ pos n) × (n ≤ 30)
  pub adapter_trimmed : IsTrimmed e.adapter
  pub adapter_given : is_empty e.adapter ≡ false
  pub nameless : e.name ≡ []

lower_idem : (c : ℕ) → lower (lower c) ≡ lower c
lower_idem c = ground arith

to_lower_idem : (s : Text) → to_lower (to_lower s) ≡ to_lower s
unfolding to_lower
to_lower_idem [] = refl
to_lower_idem (c ∷ s) = λ i. lower_idem c i ∷ to_lower_idem s i

pub ok_injective : {E A : Type 0} {x y : A} → ◌≡◌ {A = Result E A} (ok x) (ok y) → x ≡ y
ok_injective e = cc e

pub bind_ok :
    {A B E : Type 0} (x : Result E A) (f : A → Result E B) (b : B)
    → (x >>= f) ≡ ok b
    → (a : A) × (x ≡ ok a) × (f a ≡ ok b)
bind_ok (ok a) f b e = (a, refl, e)
bind_ok (err x) f b e = cc

normal_again : (s : Text) → IsNormal s → normalize_bd_addr s ≡ ok s
normal_again s n =
    ap normalize_bd_addr n.spelled
    ∙ normalize-colon_hex n.bytes n.six n.valid
    ∙ ap (λ t. ok t) (sym n.spelled)

normal_or_invalid_ok :
    {E : Type 0} (r : Result E Text) (s : Text) → normal_or_invalid r ≡ ok s → r ≡ ok s
normal_or_invalid_ok (ok t) s e = ap (λ x. ok x) (cc e)
normal_or_invalid_ok (err x) s e = cc e

parse_addr-normal : (u : Url) (s : Text) → parse_addr u ≡ ok s → normalize_bd_addr s ≡ ok s
unfolding parse_addr
parse_addr-normal u s e = elim (Bool-cases (is_empty (address_text u))) [
  | inl y ↦ absurd (ground (arith, e, y))
  | inr n ↦
      let normal =
        normal_or_invalid_ok (normalize_bd_addr (address_text u)) s (ground (arith, e, n)) in
      normal_again s (normalize-IsNormal (address_text u) s normal)
]

parse_uuid_ok :
    (u : Url) (s : Text) → parse_uuid u ≡ ok s → (is_uuid_like s ≡ true) × (to_lower s ≡ s)
unfolding parse_uuid
parse_uuid_ok u s e =
    let raw = or_default default_rfcomm_uuid (trim_space (u.query (codes "uuid"))) in
    elim (Bool-cases (is_uuid_like (to_lower raw))) [
      | inl y ↦
          let same : to_lower raw ≡ s = ground (arith, e) in
          (
            subst (λ t. is_uuid_like t ≡ true) same y,
            subst (λ t. to_lower t ≡ t) same (to_lower_idem raw),
          )
      | inr n ↦ absurd (ground (arith, e))
    ]

dialable_ok : (o : Option ℤ) (c : ℤ) → dialable o ≡ ok c → (n : ℕ) × (c ≡ pos n) × (n ≤ 30)
dialable_ok none c e = cc e
dialable_ok (some (pos n)) c e = (n, ground (arith, e), ground (arith, e))
dialable_ok (some (negsuc n)) c e = cc e

parse_channel_ok :
    (atoi : Text → Option ℤ) (u : Url) (c : ℤ)
    → parse_channel atoi u ≡ ok c
    → (n : ℕ) × (c ≡ pos n) × (n ≤ 30)
unfolding parse_channel
parse_channel_ok atoi u c e =
    elim (Bool-cases (is_empty (trim_space (u.query (codes "channel"))))) [
      | inl y ↦ (0, ground (arith, e), omega arith)
      | inr n ↦ dialable_ok (atoi (trim_space (u.query (codes "channel")))) c (ground (arith, e, n))
    ]

pub given_or_default :
    (d s : Text)
    → is_empty d ≡ false
    → IsTrimmed d
    → IsTrimmed s
    → (is_empty (or_default d s) ≡ false) × IsTrimmed (or_default d s)
given_or_default d [] h t t' = (h, t)
given_or_default d (c ∷ s) h t t' = (refl, t')

named_endpoint_made :
    (u : Url) (bd uuid : Text) (ch : ℤ) (secure : Bool)
    → trim_space (u.query (codes "name")) ≡ []
    → named_endpoint u bd uuid ch secure
      ≡ ok (record {
        bd_addr = bd;
        uuid = uuid;
        channel = ch;
        adapter = or_default (codes "hci0") (trim_space (u.query (codes "adapter")));
        insecure = not secure;
        name = trim_space (u.query (codes "name"));
      })
unfolding named_endpoint
named_endpoint_made u bd uuid ch secure y = rw (y, named_endpoint) refl

named_endpoint_ok :
    (u : Url) (bd uuid : Text) (ch : ℤ) (secure : Bool) (ep : Endpoint)
    → named_endpoint u bd uuid ch secure ≡ ok ep
    → (ep.bd_addr ≡ bd)
      × (ep.uuid ≡ uuid)
      × (ep.channel ≡ ch)
      × (ep.adapter ≡ or_default (codes "hci0") (trim_space (u.query (codes "adapter"))))
      × (ep.name ≡ [])
unfolding named_endpoint
named_endpoint_ok u bd uuid ch secure ep e =
    elim (List-cases (trim_space (u.query (codes "name")))) [
      | inl y ↦
          let made : Endpoint = record {
            bd_addr = bd;
            uuid = uuid;
            channel = ch;
            adapter = or_default (codes "hci0") (trim_space (u.query (codes "adapter")));
            insecure = not secure;
            name = trim_space (u.query (codes "name"));
          } in
          let same : made ≡ ep =
            ok_injective (sym (named_endpoint_made u bd uuid ch secure y) ∙ e) in
          (
            sym (ap (λ z. z.bd_addr) same),
            sym (ap (λ z. z.uuid) same),
            sym (ap (λ z. z.channel) same),
            sym (ap (λ z. z.adapter) same),
            sym (ap (λ z. z.name) same) ∙ y,
          )
      | inr (c, s, y) ↦ absurd (ground (arith, e, y))
    ]

parse_fields-IsDialable :
    (atoi : Text → Option ℤ) (u : Url) (ep : Endpoint) → parse_fields atoi u ≡ ok ep → IsDialable ep
unfolding parse_fields
parse_fields-IsDialable atoi u ep e =
    let (bd, addr, e1) = bind_ok _ _ ep e in
    let (uuid, id, e2) = bind_ok _ _ ep e1 in
    let (ch, channel, e3) = bind_ok _ _ ep e2 in
    let (secure, flag, e4) = bind_ok (parse_secure u) (named_endpoint u bd uuid ch) ep e3 in
    let (bd_is, uuid_is, ch_is, adapter_is, name_is) =
      named_endpoint_ok u bd uuid ch secure ep e4 in
    let (like, low) = parse_uuid_ok u uuid id in
    let (n, number, range) = parse_channel_ok atoi u ch channel in
    let (given, trimmed) =
      given_or_default (codes "hci0") (trim_space (u.query (codes "adapter"))) refl
        (unfold trim_space in refl) (trim_space_idem (u.query (codes "adapter"))) in
    record {
      normal = subst (λ t. normalize_bd_addr t ≡ ok t) (sym bd_is) (parse_addr-normal u bd addr);
      uuid_like = subst (λ t. is_uuid_like t ≡ true) (sym uuid_is) like;
      lower_case = subst (λ t. to_lower t ≡ t) (sym uuid_is) low;
      channel_range = (n, ch_is ∙ number, range);
      adapter_trimmed = subst IsTrimmed (sym adapter_is) trimmed;
      adapter_given = subst (λ t. is_empty t ≡ false) (sym adapter_is) given;
      nameless = name_is;
    }

pub uuid_not_empty : (s : Text) → is_uuid_like s ≡ true → is_empty s ≡ false
unfolding is_uuid_like
uuid_not_empty [] h = cc h
uuid_not_empty (c ∷ s) h = refl

-- Validate accepts every such endpoint.
pub IsDialable-validate : (ep : Endpoint) → IsDialable ep → validate ep ≡ none
unfolding validate
IsDialable-validate ep d =
    let n = normalize-IsNormal ep.bd_addr ep.bd_addr d.normal in
    let given : is_empty ep.bd_addr ≡ false =
      ap is_empty n.spelled ∙ not_empty-colon_hex n.bytes n.six in
    let fine : refuses (normalize_bd_addr ep.bd_addr) ≡ false = ap refuses d.normal in
    let uuid_given = uuid_not_empty ep.uuid d.uuid_like in
    let (k, is, range) = d.channel_range in
    let in_range : bad_channel ep.channel ≡ false = ap bad_channel is ∙ ground (arith, range) in
    let adapter : is_empty (trim_space ep.adapter) ≡ false =
      ap is_empty d.adapter_trimmed ∙ d.adapter_given in
    let unnamed : is_empty (trim_space ep.name) ≡ true =
      ap (λ t. is_empty (trim_space t)) d.nameless ∙ unfold trim_space in refl in
    let like = d.uuid_like in
    ground (arith, given, fine, uuid_given, like, in_range, adapter, unnamed)

parse_url-IsDialable :
    (atoi : Text → Option ℤ) (u : Url) (ep : Endpoint) → parse_url atoi u ≡ ok ep → IsDialable ep
unfolding parse_url
parse_url-IsDialable atoi u ep e = elim (Result-cases (parse_fields atoi u)) [
  | inl (ep', parsed) ↦
      let d = parse_fields-IsDialable atoi u ep' parsed in
      let valid = IsDialable-validate ep' d in
      let same : ep' ≡ ep = ground (arith, e, parsed, valid) in subst IsDialable same d
  | inr (x, bad) ↦ absurd (ground (arith, e, bad))
]

pub parse_endpoint-IsDialable :
    (atoi : Text → Option ℤ) (url_parse : Text → Option Url) (raw : Text) (ep : Endpoint)
    → parse_endpoint atoi url_parse raw ≡ ok ep
    → IsDialable ep
unfolding parse_endpoint
parse_endpoint-IsDialable atoi url_parse raw ep e =
    elim (Option-cases (url_parse (trim_space raw))) [
      | inl missing ↦ absurd (ground (arith, e, missing))
      | inr (u, found) ↦ parse_url-IsDialable atoi u ep (ground (arith, e, found))
    ]
