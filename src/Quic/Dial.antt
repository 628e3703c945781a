-- ===== src/Quic/Dial.antt =====
-- listener/quic_listener: from the URI of an endpoint to the options and the pin of its dial.
use myflowhub_core.Common.{
  ℕ, ◌≡◌, inl, inr, refl, sym, ap, ◌∙◌, subst, List, Option, none, some, Option-cases, Bool, true,
  false, Bool-cases, Text, codes, Result, Result-cases, ok, err, is_empty, arith,
}
use myflowhub_core.Conn.{ℤ}
use myflowhub_core.Strings.{trim_space}
use myflowhub_core.Strings.Laws.{IsTrimmed, trim_space_idem}
use myflowhub_core.Rfcomm.Endpoint.{Url}
use myflowhub_core.Rfcomm.Parsed.{bind_ok, ok_injective, given_or_default}
use myflowhub_core.Quic.{normalize_pin_sha256}
use myflowhub_core.Quic.Endpoint.{
  Endpoint, default_alpn, trim_brackets, field, without_error, or_error, pin_or_error,
  insecure_invalid, parse_bool_default, validate, split_host, server_name_of, made_endpoint,
  validated, pinned_endpoint, parse_fields, parse_url, validate_host_port, options_error,
  parse_endpoint,
}
use myflowhub_core.Quic.Options.{
  dial_options, if_blank, default_server_name, dial_defaults, validate_dial,
}

module _ (split_host_port : Text → Option (Text × Text)) (atoi : Text → Option ℤ)
    (is_ip : Text → Bool) where
  -- What ParseEndpoint makes of a URL that it accepts.
  pub record Parsed (u : Url) (ep : Endpoint) : Type 0 where
    pub insecure : Bool
    pub pin : List ℕ
    pub pinned : normalize_pin_sha256 (field u (codes "pin_sha256")) ≡ ok pin
    pub made : ep ≡ made_endpoint split_host_port atoi is_ip u (trim_space u.host) insecure pin
    pub valid : validate split_host_port atoi ep ≡ none

  pin_or_error_ok : (r : Result _ (List ℕ)) (pin : List ℕ) → pin_or_error r ≡ ok pin → r ≡ ok pin
  pin_or_error_ok (ok bs) pin e = ap (λ t. ok t) (ok_injective e)
  pin_or_error_ok (err x) pin e = absurd (cc e)

  validated_ok :
      (e ep : Endpoint)
      → validated split_host_port atoi is_ip e ≡ ok ep
      → (ep ≡ e) × (validate split_host_port atoi e ≡ none)
  validated_ok e ep h = elim (Option-cases (validate split_host_port atoi e)) [
    | inl fine ↦ (sym (ok_injective (ap (without_error e) (sym fine) ∙ h)), fine)
    | inr (x, bad) ↦ absurd (cc (ap (without_error e) (sym bad) ∙ h))
  ]

  parse_fields-Parsed :
      (u : Url) (ep : Endpoint)
      → parse_fields split_host_port atoi is_ip u (trim_space u.host) ≡ ok ep
      → Parsed u ep
  unfolding parse_fields pinned_endpoint
  parse_fields-Parsed u ep e =
      let addr = trim_space u.host in
      let (insecure, flag, e1) =
        bind_ok (or_error insecure_invalid (parse_bool_default (u.query (codes "insecure")) false))
          (pinned_endpoint split_host_port atoi is_ip u addr) ep e in
      let (pin, read, e2) =
        bind_ok (pin_or_error (normalize_pin_sha256 (field u (codes "pin_sha256"))))
          (λ pin.
            validated split_host_port atoi is_ip
              (made_endpoint split_host_port atoi is_ip u addr insecure pin))
          ep e1 in
      let (made, valid) = validated_ok _ ep e2 in
      record {
        insecure = insecure;
        pin = pin;
        pinned = pin_or_error_ok _ pin read;
        made = made;
        valid = ap (validate split_host_port atoi) made ∙ valid;
      }

  parse_url-Parsed :
      (u : Url) (ep : Endpoint) → parse_url split_host_port atoi is_ip u ≡ ok ep → Parsed u ep
  unfolding parse_url
  parse_url-Parsed u ep e =
      elim (Result-cases (parse_fields split_host_port atoi is_ip u (trim_space u.host))) [
        | inl (ep', parsed) ↦
            let same : ep' ≡ ep = ground (arith, e, parsed) in
            subst (Parsed u) same (parse_fields-Parsed u ep' parsed)
        | inr (x, bad) ↦ absurd (ground (arith, e, bad))
      ]

  pub parse_endpoint-Parsed :
      (url_parse : Text → Option Url) (raw : Text) (ep : Endpoint)
      → parse_endpoint split_host_port atoi is_ip url_parse raw ≡ ok ep
      → (u : Url) × (url_parse (trim_space raw) ≡ some u) × Parsed u ep
  unfolding parse_endpoint
  parse_endpoint-Parsed url_parse raw ep e = elim (Option-cases (url_parse (trim_space raw))) [
    | inl missing ↦ absurd (ground (arith, e, missing))
    | inr (u, found) ↦ (u, found, parse_url-Parsed u ep (ground (arith, e, found)))
  ]

  -- What setDefaults finds of the address is what ParseEndpoint found.
  server_name_kept :
      (split : Option (Text × Text)) (given : Text)
      → IsTrimmed given
      → default_server_name is_ip split
          (server_name_of split_host_port atoi is_ip given (split_host split))
        ≡ server_name_of split_host_port atoi is_ip given (split_host split)
  unfolding server_name_of default_server_name split_host
  server_name_kept none given t = refl
  server_name_kept (some (host, port)) given t =
      let h = trim_brackets host in
      elim (Bool-cases (is_empty given)) [
        | inr named ↦
            let kept : is_empty (trim_space given) ≡ false = ap is_empty t ∙ named in
            rw (named, kept) refl
        | inl unnamed ↦ elim (Bool-cases (is_ip h)) [
          | inl ip ↦
              let kept : is_empty (trim_space given) ≡ true = ap is_empty t ∙ unnamed in
              rw (unnamed, ip, kept) refl
          | inr name ↦ rw (unnamed, name) (ground arith)
        ]
      ]

  dial_defaults_keep :
      (u : Url) (ep : Endpoint)
      → Parsed u ep
      → dial_defaults split_host_port atoi is_ip (dial_options ep) ≡ dial_options ep
  unfolding dial_defaults dial_options made_endpoint
  dial_defaults_keep u ep p =
      let addr = trim_space u.host in
      let e = made_endpoint split_host_port atoi is_ip u addr p.insecure p.pin in
      let (given, trimmed) =
        given_or_default default_alpn (field u (codes "alpn")) refl (unfold trim_space in refl)
          (trim_space_idem (u.query (codes "alpn"))) in
      let alpn : if_blank default_alpn e.alpn ≡ e.alpn =
        ground (arith, ap is_empty trimmed, given) in
      let name : default_server_name is_ip (split_host_port (trim_space e.addr)) e.server_name
          ≡ e.server_name =
        ap (λ a. default_server_name is_ip (split_host_port a) e.server_name)
          (trim_space_idem u.host)
        ∙ server_name_kept (split_host_port addr) (field u (codes "server_name"))
            (trim_space_idem (u.query (codes "server_name"))) in
      subst (λ ep. dial_defaults split_host_port atoi is_ip (dial_options ep) ≡ dial_options ep)
        (sym p.made) (λ i. record (dial_options e) { alpn = alpn i; server_name = name i })

  validate_dial_eq :
      (u : Url) (ep : Endpoint)
      → Parsed u ep
      → validate_dial split_host_port atoi (dial_options ep) ≡ none
  unfolding validate_dial dial_options validate made_endpoint
  validate_dial_eq u ep p =
      let same : trim_space ep.addr ≡ ep.addr =
        ap (λ e. trim_space e.addr) p.made
        ∙ trim_space_idem u.host
        ∙ ap (λ e. e.addr) (sym p.made) in
      subst
        (λ a.
          (elim (validate_host_port split_host_port atoi a) [
            | some x ↦ some x
            | none ↦
                options_error split_host_port atoi ep.alpn ep.pin_sha256 ep.client_cert_file
                  ep.client_key_file
          ])
          ≡ none)
        (sym same) p.valid

-- Dial takes an endpoint that ParseEndpoint answers as it is: its defaults change nothing and its
-- Validate refuses nothing, whatever net.SplitHostPort, net.ParseIP, url.Parse and strconv.Atoi do.
pub dial_accepts_endpoint :
    (split_host_port : Text → Option (Text × Text)) (atoi : Text → Option ℤ) (is_ip : Text → Bool)
    (url_parse : Text → Option Url) (raw : Text) (ep : Endpoint)
    → parse_endpoint split_host_port atoi is_ip url_parse raw ≡ ok ep
    → (dial_defaults split_host_port atoi is_ip (dial_options ep) ≡ dial_options ep)
      × (validate_dial split_host_port atoi (dial_options ep) ≡ none)
dial_accepts_endpoint split_host_port atoi is_ip url_parse raw ep e =
    let (u, found, p) = parse_endpoint-Parsed split_host_port atoi is_ip url_parse raw ep e in
    (
      dial_defaults_keep split_host_port atoi is_ip u ep p,
      validate_dial_eq split_host_port atoi is_ip u ep p,
    )
