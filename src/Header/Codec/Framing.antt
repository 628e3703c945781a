-- ===== src/Header/Codec/Framing.antt =====
-- How many bytes Decode takes, and what it checks of them, on any input.

use myflowhub_core.Common.{
  ℕ, zero, suc, ◌+◌, ◌-◌, ◌*◌, ◌^◌, ◌≤◌, ◌<◌, ◌≡◌, ◌≢◌, refl, sym, ap, ◌∙◌, List, [], ◌∷◌, ◌++◌,
  some, length, length-append, get_or, All, Option-cases, append_assoc, subst, inl, inr, ok, err,
  arith, Result-cases,
}
use myflowhub_core.Header.{HeaderTcp, header_tcp_magic_v2, header_tcp_version_v2}
use myflowhub_core.Header.Codec.{
  header_too_large, split_at?, read_full, parse_header, decode_payload, decode_body, decode,
}

pub split_at?-append :
    (front back : List ℕ) → split_at? (length front) (front ++ back) ≡ some (front, back)
unfolding split_at?
split_at?-append [] back = refl
split_at?-append (x ∷ front) back = ground (arith, split_at?-append front back)

pub read_full-append :
    (n : ℕ) (front back : List ℕ)
    → length front ≡ n
    → read_full n (front ++ back) ≡ ok (front, back)
unfolding read_full
read_full-append n front back e = ground (arith, subst_length (sym e) (split_at?-append front back))
  where
    subst_length :
        n ≡ length front
        → split_at? (length front) (front ++ back) ≡ some (front, back)
        → split_at? n (front ++ back) ≡ some (front, back)
    subst_length p q = rw p q

split_at?-eq-some :
    (n : ℕ) (s front back : List ℕ)
    → split_at? n s ≡ some (front, back)
    → (s ≡ front ++ back) × (length front ≡ n)
unfolding split_at?
split_at?-eq-some zero s front back h = ground arith
split_at?-eq-some (suc n) [] front back h = cc
split_at?-eq-some (suc n) (x ∷ s) front back h = elim (Option-cases (split_at? n s)) [
  | inl e ↦ ground arith
  | inr ((f, b), e) ↦ ground (arith, split_at?-eq-some n s f b)
]

-- A read that succeeds splits the input, and fills the buffer.
pub read_full-eq-ok :
    (n : ℕ) (s front back : List ℕ)
    → read_full n s ≡ ok (front, back)
    → (s ≡ front ++ back) × (length front ≡ n)
unfolding read_full
read_full-eq-ok n s front back h = ground (arith, split_at?-eq-some n s front back)

-- Decode's payload has the length that the header says.
decode_payload_takes :
    (h h' : HeaderTcp) (s payload rest : List ℕ)
    → decode_payload h s ≡ ok (h', payload, rest)
    → (h' ≡ h) × (s ≡ payload ++ rest) × (length payload ≡ h.payload_len)
unfolding decode_payload
decode_payload_takes h h' s payload rest e = elim (Result-cases (read_full h.payload_len s)) [
  | inl ((p, r), q) ↦ ground (arith, read_full-eq-ok h.payload_len s p r)
  | inr (x, q) ↦ ground arith
]

pub get_or-append :
    (front back : List ℕ) (i : ℕ) → i < length front → get_or (front ++ back) i 0 ≡ get_or front i 0
get_or-append [] back i h = elim h [ ]
get_or-append (x ∷ front) back zero h = refl
get_or-append (x ∷ front) back (suc i) h = get_or-append front back i (omega arith)

-- The body reads the rest of the header and the payload.
decode_body_takes :
    (prefix : List ℕ) (n : ℕ) (s : List ℕ) (h : HeaderTcp) (payload rest : List ℕ)
    → length prefix ≡ 4
    → decode_body prefix n s ≡ ok (h, payload, rest)
    → (tail : List ℕ) × (h ≡ parse_header (prefix ++ tail))
      × (length tail ≡ n - 4)
      × (s ≡ tail ++ (payload ++ rest))
      × (length payload ≡ h.payload_len)
unfolding decode_body
decode_body_takes prefix n s h payload rest e d = elim (Result-cases (read_full (n - 4) s)) [
  | inl ((tail, r), q) ↦
      let body =
        decode_payload_takes (parse_header (prefix ++ tail)) h r payload rest (rw q at d) in
      let read = read_full-eq-ok (n - 4) s tail r q in
      (tail, body.0, read.1, cc (read.0, body.1), cc (body.0, body.2))
  | inr (x, q) ↦ absurd (ground arith)
]

-- What Decode has checked when it goes on to the body.
decode_checked :
    (s : List ℕ) (h : HeaderTcp) (payload rest : List ℕ)
    → decode s ≡ ok (h, payload, rest)
    → (prefix : List ℕ) × (s' : List ℕ) × (read_full 4 s ≡ ok (prefix, s'))
      × (decode_body prefix (get_or prefix 3 0) s' ≡ ok (h, payload, rest))
      × (get_or prefix 0 0 * 2 ^ 8 + get_or prefix 1 0 ≡ header_tcp_magic_v2)
      × (get_or prefix 2 0 ≡ header_tcp_version_v2)
      × (32 ≤ get_or prefix 3 0)
      × (get_or prefix 3 0 ≤ 255)
unfolding decode
decode_checked s h payload rest d = elim (Result-cases (read_full 4 s)) [
  | inl ((prefix, s'), q) ↦
      (prefix, s', q, ground arith, ground arith, ground arith, ground arith, ground arith)
  | inr (x, q) ↦ absurd (ground arith)
]

-- The header that Decode returns repeats the checked prefix, and its hop limit is set.
parse_header_prefix :
    (prefix tail : List ℕ)
    → length prefix ≡ 4
    → let h = parse_header (prefix ++ tail) in
      (h.magic ≡ get_or prefix 0 0 * 2 ^ 8 + get_or prefix 1 0)
      × (h.ver ≡ get_or prefix 2 0)
      × (h.hdr_len ≡ get_or prefix 3 0)
      × (h.hop_limit ≢ 0)
unfolding parse_header
parse_header_prefix prefix tail e = ground (
  arith,
  get_or-append prefix tail 0,
  get_or-append prefix tail 1,
  get_or-append prefix tail 2,
  get_or-append prefix tail 3,
)

-- When Decode succeeds, it has taken exactly HdrLen bytes of header and PayloadLen bytes of payload
-- off the front of the stream and left the rest; magic and version are those of v2, HdrLen is
-- between 32 and 255, and the hop limit is not 0.
pub decode_takes :
    (s : List ℕ) (h : HeaderTcp) (payload rest : List ℕ)
    → decode s ≡ ok (h, payload, rest)
    → (front : List ℕ) × (s ≡ front ++ (payload ++ rest))
      × (length front ≡ h.hdr_len)
      × (length payload ≡ h.payload_len)
      × (h.magic ≡ header_tcp_magic_v2)
      × (h.ver ≡ header_tcp_version_v2)
      × (32 ≤ h.hdr_len)
      × (h.hdr_len ≤ 255)
      × (h.hop_limit ≢ 0)
decode_takes s h payload rest d =
    let (prefix, s', q, body, magic, ver, low, high) = decode_checked s h payload rest d in
    let read = read_full-eq-ok 4 s prefix s' q in
    let (tail, eh, lt, es, lp) = decode_body_takes prefix _ s' h payload rest read.1 body in
    let fields = parse_header_prefix prefix tail read.1 in
    let len : h.hdr_len ≡ get_or prefix 3 0 = ap (λ x. x.hdr_len) eh ∙ fields.2 in
    (
      prefix ++ tail,
      read.0 ∙ ap (◌++◌ prefix) es ∙ sym (append_assoc prefix tail (payload ++ rest)),
      omega (arith, length-append prefix tail),
      lp,
      ap (λ x. x.magic) eh ∙ fields.0 ∙ magic,
      ap (λ x. x.ver) eh ∙ fields.1 ∙ ver,
      omega arith,
      omega arith,
      subst (λ x. x.hop_limit ≢ 0) (sym eh) fields.3,
    )

-- A frame takes 32 bytes at least.
pub decode-shorter :
    (s : List ℕ) (h : HeaderTcp) (payload rest : List ℕ)
    → decode s ≡ ok (h, payload, rest)
    → length rest + 32 ≤ length s
decode-shorter s h payload rest d =
    let (front, e, lf, lp, _, _, low, _, _) = decode_takes s h payload rest d in
    omega (arith, ap length e, length-append front (payload ++ rest), length-append payload rest)

get_or-lt :
    (front back : List ℕ) (i : ℕ) → All (λ b. b < 256) (front ++ back) → get_or front i 0 < 256
get_or-lt [] back i a = omega arith
get_or-lt (x ∷ front) back zero a = a.0
get_or-lt (x ∷ front) back (suc i) a = get_or-lt front back i a.1

read_full-ne-too_large : (n : ℕ) (s : List ℕ) → read_full n s ≢ err header_too_large
unfolding read_full
read_full-ne-too_large n [] e = ground arith
read_full-ne-too_large n (x ∷ s) e = ground arith

decode_payload-ne-too_large :
    (h : HeaderTcp) (s : List ℕ) → decode_payload h s ≢ err header_too_large
unfolding decode_payload
decode_payload-ne-too_large h s e = ground (arith, read_full-ne-too_large h.payload_len s)

decode_body-ne-too_large :
    (prefix : List ℕ) (n : ℕ) (s : List ℕ) → decode_body prefix n s ≢ err header_too_large
unfolding decode_body
decode_body-ne-too_large prefix n s e = elim (Result-cases (read_full (n - 4) s)) [
  | inl ((tail, r), q) ↦ decode_payload-ne-too_large (parse_header (prefix ++ tail)) r (rw q at e)
  | inr (x, q) ↦ ground (arith, read_full-ne-too_large (n - 4) s)
]

-- HdrLen is one byte, so on a stream of bytes Decode never reports that the header is too large.
pub decode-ne-too_large : (s : List ℕ) → All (λ b. b < 256) s → decode s ≢ err header_too_large
unfolding decode
decode-ne-too_large s a e = elim (Result-cases (read_full 4 s)) [
  | inl ((prefix, s'), q) ↦
      let split = (read_full-eq-ok 4 s prefix s' q).0 in
      ground (
        arith,
        get_or-lt prefix s' 3 (subst (All (λ b. b < 256)) split a),
        decode_body-ne-too_large prefix (get_or prefix 3 0) s',
      )
  | inr (x, q) ↦ ground (arith, read_full-ne-too_large 4 s)
]
