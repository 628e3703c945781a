-- ===== src/Quic/Pinned.antt =====
-- listener/quic_listener: from the pin of an endpoint's URI to the check of the peer.
use myflowhub_core.Common.{
  ℕ, ◌≡◌, ◌↔◌, inl, inr, refl, sym, ap, ◌∙◌, subst, List, [], ◌∷◌, Option, none, some, Bool, false,
  Bool-cases, Text, codes, text_eq, text_eq_iff, ok, ◌>>=◌, is_empty, if◌then◌else◌,
}
use myflowhub_core.Conn.{ℤ}
use myflowhub_core.Strings.{trim_space}
use myflowhub_core.Strings.Laws.{trim_space_idem}
use myflowhub_core.Rfcomm.Digits.{trim_space-Solid}
use myflowhub_core.Rfcomm.Endpoint.{Url}
use myflowhub_core.Rfcomm.Parsed.{bind_ok, ok_injective}
use myflowhub_core.Quic.{encode_hex, normalize_pin_sha256, pin_of_digits}
use myflowhub_core.Quic.Pins.{IsPin, normalize-encode_hex, normalize-IsPin, encode_hex-Solid}
use myflowhub_core.Quic.Endpoint.{Endpoint, made_endpoint, parse_endpoint}
use myflowhub_core.Quic.Options.{DialOptions, dial_options}
use myflowhub_core.Quic.Tls.{
  Files, ClientTls, verify_connection, root_cas_of, client_certificate_of, client_tls,
  build_client_tls_config, pin_of,
}
use myflowhub_core.Quic.Dial.{parse_endpoint-Parsed}

normalize_trimmed : (s : Text) → normalize_pin_sha256 (trim_space s) ≡ normalize_pin_sha256 s
unfolding normalize_pin_sha256
normalize_trimmed s = ap (λ t. if is_empty t then ok [] else pin_of_digits t) (trim_space_idem s)

-- A pin of the options that is printed from a digest.
pin_of_printed :
    {Cert Pool Data : Type 0} (files : Files Cert Pool Data) (o : DialOptions) (b : ℕ) (bs : List ℕ)
    → o.pin_sha256 ≡ encode_hex (b ∷ bs)
    → IsPin (b ∷ bs)
    → pin_of files o ≡ ok (some (b ∷ bs))
unfolding pin_of
pin_of_printed files o b bs e (inl none') = absurd (cc none')
pin_of_printed files o b bs e (inr (len, v)) =
    let kept : trim_space o.pin_sha256 ≡ encode_hex (b ∷ bs) =
      ap trim_space e ∙ trim_space-Solid (encode_hex (b ∷ bs)) (encode_hex-Solid (b ∷ bs) v) in
    let given : is_empty (encode_hex (b ∷ bs)) ≡ false = unfold encode_hex in refl in
    rw (kept, given, normalize-encode_hex (b ∷ bs) (inr (len, v))) refl

built_pin :
    {Cert Pool Data : Type 0} (files : Files Cert Pool Data) (o : DialOptions)
    (cfg : ClientTls Cert Pool)
    → build_client_tls_config files o ≡ ok cfg
    → pin_of files o ≡ ok cfg.pin
unfolding build_client_tls_config
built_pin files o cfg e =
    let (roots, r, e1) =
      bind_ok (root_cas_of files o)
        (λ roots.
          client_certificate_of files o
          >>= (λ cert. pin_of files o >>= (λ pin. ok (client_tls files o roots cert pin))))
        cfg e in
    let (cert, c, e2) =
      bind_ok (client_certificate_of files o)
        (λ cert. pin_of files o >>= (λ pin. ok (client_tls files o roots cert pin))) cfg e1 in
    let (pin, p, e3) =
      bind_ok (pin_of files o) (λ pin. ok (client_tls files o roots cert pin)) cfg e2 in
    p ∙ ap (λ t. ok t) (ap (λ t. t.pin) (ok_injective e3))

head_eq : {A : Type 0} {x y : A} {xs ys : List A} → x ∷ xs ≡ y ∷ ys → x ≡ y
head_eq e = cc e

verified_iff :
    {Peer : Type 0}
    → (sha256 : Peer → List ℕ) (pin : List ℕ) (peers : List Peer)
    → (verify_connection sha256 (some pin) peers ≡ none)
      ↔ ((c : Peer) × (cs : List Peer) × (peers ≡ c ∷ cs) × (sha256 c ≡ pin))
unfolding verify_connection
verified_iff sha256 pin [] = ((λ h. absurd (cc h)), (λ (c, cs, is, h). absurd (cc is)))
verified_iff sha256 pin (d ∷ ds) = elim (Bool-cases (text_eq (sha256 d) pin)) [
  | inl same ↦ rw same ((λ h. (d, ds, refl, (text_eq_iff (sha256 d) pin).0 same)), (λ h. refl))
  | inr other ↦ rw other (
    (λ h. absurd (cc h)),
    (λ (c, cs, is, h).
        absurd (cc (other, (text_eq_iff (sha256 d) pin).1 (ap sha256 (head_eq is) ∙ h)))),
  )
]

-- A dial of an endpoint whose URI pins a digest: VerifyConnection accepts the peer exactly if the
-- peer shows a certificate, and the SHA-256 of the first is the digest that the URI spells.
pub endpoint_pin_verified :
    {Cert Pool Data Peer : Type 0}
    → (files : Files Cert Pool Data) (sha256 : Peer → List ℕ)
      (split_host_port : Text → Option (Text × Text)) (atoi : Text → Option ℤ) (is_ip : Text → Bool)
      (url_parse : Text → Option Url) (raw : Text) (ep : Endpoint) (u : Url)
      (cfg : ClientTls Cert Pool) (b : ℕ) (bs : List ℕ) (peers : List Peer)
    → parse_endpoint split_host_port atoi is_ip url_parse raw ≡ ok ep
    → url_parse (trim_space raw) ≡ some u
    → normalize_pin_sha256 (u.query (codes "pin_sha256")) ≡ ok (b ∷ bs)
    → build_client_tls_config files (dial_options ep) ≡ ok cfg
    → (verify_connection sha256 cfg.pin peers ≡ none)
      ↔ ((c : Peer) × (cs : List Peer) × (peers ≡ c ∷ cs) × (sha256 c ≡ b ∷ bs))
unfolding dial_options made_endpoint
endpoint_pin_verified files sha256 split_host_port atoi is_ip url_parse raw ep u cfg b bs peers e
      found pinned built =
    let (u', found', p) = parse_endpoint-Parsed split_host_port atoi is_ip url_parse raw ep e in
    let same : u' ≡ u = cc (found, found') in
    let read : normalize_pin_sha256 (u.query (codes "pin_sha256")) ≡ ok p.pin =
      ap (λ t. normalize_pin_sha256 (t.query (codes "pin_sha256"))) (sym same)
      ∙ sym (normalize_trimmed (u'.query (codes "pin_sha256")))
      ∙ p.pinned in
    let digest : p.pin ≡ b ∷ bs = ok_injective (sym read ∙ pinned) in
    let printed : (dial_options ep).pin_sha256 ≡ encode_hex (b ∷ bs) =
      ap (λ t. t.pin_sha256) p.made ∙ ap encode_hex digest in
    let pin : some (b ∷ bs) ≡ cfg.pin = ok_injective (
      sym (
        pin_of_printed files (dial_options ep) b bs printed
          (normalize-IsPin (u.query (codes "pin_sha256")) (b ∷ bs) pinned))
      ∙ built_pin files (dial_options ep) cfg built) in
    subst
      (λ t.
        (verify_connection sha256 t peers ≡ none)
        ↔ ((c : _) × (cs : List _) × (peers ≡ c ∷ cs) × (sha256 c ≡ b ∷ bs)))
      pin (verified_iff sha256 (b ∷ bs) peers)
