-- ===== src/Header/Codec/RoundTrip.antt =====
-- What Encode writes is what Decode reads.
use myflowhub_core.Common.{
  ℕ, ◌+◌, ◌-◌, ◌*◌, ◌%◌, ◌^◌, ◌≤◌, ◌<◌, ◌≡◌, ◌≢◌, refl, List, [], ◌∷◌, ◌++◌, length, append_assoc,
  ok, arith, ◌==◌, if◌then◌else◌,
}
use myflowhub_core.Header.{
  HeaderTcp, IHeader, tcp, other, IsValid, header_tcp_magic_v2, header_tcp_version_v2,
  default_hop_limit,
}
use myflowhub_core.Header.Codec.{
  parse_header, decode_payload, decode_body, decode, encode, complete, restore, prefix_bytes,
  fixed_bytes,
}
use myflowhub_core.Header.{
  IsValidHeader, major, sub_proto, source_id, target_id, get_flags, get_hop_limit, get_route_flags,
  get_msg_id, get_trace_id, get_timestamp, tcp_major, tcp_sub_proto,
}
use myflowhub_core.Header.Codec.Restore.{restore-IsValid, restore-fields}
use myflowhub_core.Header.Codec.Framing.{read_full-append}

-- A frame whose header is followed by an extension: HdrLen counts it, and it is no part of the
-- payload. Without an extension this is what Encode writes.
abbrev pub extended : HeaderTcp → List ℕ → List ℕ → HeaderTcp
extended h ext payload = record (complete h payload) { hdr_len = 32 + length ext }

abbrev pub extended_frame : HeaderTcp → List ℕ → List ℕ → List ℕ
extended_frame h ext payload =
    let h' = extended h ext payload in prefix_bytes h' (fixed_bytes h' ++ (ext ++ payload))

complete-IsValid : (h : HeaderTcp) (payload : List ℕ) → IsValid h → IsValid (complete h payload)
unfolding complete
complete-IsValid h payload v = ground arith

-- Parsing the bytes of a header gives the header back.
parse_header-bytes :
    (h : HeaderTcp) (ext : List ℕ)
    → IsValid h
    → h.magic < 2 ^ 16
    → h.payload_len < 2 ^ 32
    → h.hop_limit ≢ 0
    → parse_header (prefix_bytes h (fixed_bytes h ++ ext)) ≡ h
unfolding parse_header
parse_header-bytes h ext v hm hp hh = ground arith

-- The four steps of Decode on a frame that is laid out by hand.
decode_payload-append :
    (h : HeaderTcp) (payload rest : List ℕ)
    → length payload ≡ h.payload_len
    → decode_payload h (payload ++ rest) ≡ ok (h, payload, rest)
unfolding decode_payload
decode_payload-append h [] rest e = ground arith
decode_payload-append h (x ∷ p) rest e = ground (arith, read_full-append h.payload_len (x ∷ p) rest)

decode_body-append :
    (prefix tail : List ℕ) (n : ℕ) (h : HeaderTcp) (payload rest : List ℕ)
    → length tail ≡ n - 4
    → parse_header (prefix ++ tail) ≡ h
    → length payload ≡ h.payload_len
    → decode_body prefix n (tail ++ (payload ++ rest)) ≡ ok (h, payload, rest)
unfolding decode_body
decode_body-append prefix tail n h payload rest lt ph lp =
    rw (read_full-append (n - 4) tail (payload ++ rest) lt, ph)
      (decode_payload-append h payload rest lp)

decode-append :
    (m1 m2 n : ℕ) (tail : List ℕ) (h : HeaderTcp) (payload rest : List ℕ)
    → m1 * 2 ^ 8 + m2 ≡ header_tcp_magic_v2
    → 32 ≤ n
    → n ≤ 255
    → length tail ≡ n - 4
    → parse_header (m1 ∷ m2 ∷ header_tcp_version_v2 ∷ n ∷ tail) ≡ h
    → length payload ≡ h.payload_len
    → decode (m1 ∷ m2 ∷ header_tcp_version_v2 ∷ n ∷ (tail ++ (payload ++ rest)))
      ≡ ok (h, payload, rest)
unfolding decode
decode-append m1 m2 n tail h payload rest hm lo hi lt ph lp =
    let prefix : List ℕ = m1 ∷ m2 ∷ header_tcp_version_v2 ∷ n ∷ [] in
    ground (
      arith,
      read_full-append 4 prefix (tail ++ (payload ++ rest)),
      decode_body-append prefix tail n h payload rest,
    )

length-fixed_bytes :
    (h : HeaderTcp) (ext : List ℕ) → length (fixed_bytes h ++ ext) ≡ 28 + length ext
length-fixed_bytes h ext = omega arith

-- Decode reads a frame with an extension of at most 223 bytes behind the header: it returns the
-- completed header with the longer HdrLen and the payload alone, skips the extension, and leaves
-- what follows the frame.
pub decode-extended_frame :
    (h : HeaderTcp) (ext payload rest : List ℕ)
    → IsValid h
    → length ext ≤ 223
    → length payload < 2 ^ 32
    → decode (extended_frame h ext payload ++ rest) ≡ ok (extended h ext payload, payload, rest)
unfolding complete
decode-extended_frame h ext payload rest v he hp =
    let h' = extended h ext payload in
    rw (append_assoc ext payload rest, ← append_assoc (fixed_bytes h') ext (payload ++ rest))
      (decode-append 0x4d 0x48 (32 + length ext) (fixed_bytes h' ++ ext) h' payload rest refl
        (omega arith) (omega arith) (omega (arith, length-fixed_bytes h' ext))
        (parse_header-bytes h' ext (ground arith) (omega arith) (ground arith) (ground arith))
        (ground arith))

-- Decode reads back the frame that Encode wrote: it returns the header that Encode completed and the
-- payload, and leaves what follows the frame.
pub decode-encode :
    (h : IHeader) (payload rest : List ℕ)
    → IsValidHeader h
    → length payload < 2 ^ 32
    → decode (encode h payload ++ rest) ≡ ok (complete (restore h) payload, payload, rest)
unfolding encode complete
decode-encode h payload rest v hp =
    decode-extended_frame (restore h) [] payload rest (restore-IsValid h v) (omega arith) hp

-- Every getter of the header that arrives answers as on the header that was sent, with three
-- exceptions: the major class and the subprotocol are cut to two and six bits, a hop limit of 0
-- becomes the default, and the payload length is that of the payload.
pub complete_getters :
    (h : IHeader) (payload : List ℕ)
    → IsValidHeader h
    → length payload < 2 ^ 32
    → let h' = complete (restore h) payload in
      (tcp_major h' ≡ major h % 4)
      × (tcp_sub_proto h' ≡ sub_proto h % 64)
      × (h'.hop_limit ≡ (if get_hop_limit h == 0 then default_hop_limit else get_hop_limit h))
      × (h'.payload_len ≡ length payload)
      × (h'.source ≡ source_id h)
      × (h'.target ≡ target_id h)
      × (h'.flags ≡ get_flags h)
      × (h'.route_flags ≡ get_route_flags h)
      × (h'.msg_id ≡ get_msg_id h)
      × (h'.trace_id ≡ get_trace_id h)
      × (h'.timestamp ≡ get_timestamp h)
unfolding complete tcp_major tcp_sub_proto restore
complete_getters (tcp h) payload v hp = ground (arith, restore-fields (tcp h) v)
complete_getters (other o) payload v hp = ground (arith, restore-fields (other o) v)
