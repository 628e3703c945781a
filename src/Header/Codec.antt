-- ===== src/Header/Codec.antt =====
-- header/header.go, HeaderTcpCodec. The reader is the list of the bytes that will still come, then
-- end of file.
pub mod Framing
pub mod Restore
pub mod RoundTrip
use Prim.Native.Nat.{bit_and, bit_or}
use myflowhub_core.Common.{ℕ, zero, suc, ◌+◌, ◌-◌, ◌*◌, ◌/◌, ◌%◌, ◌^◌, List, [], ◌∷◌, ◌++◌}
use myflowhub_core.Common.{Option, none, some, length, get_or, ltb, ◌==◌, if◌then◌else◌, not}
use myflowhub_core.Common.{Result, ok, err, ◌>>=◌}
use myflowhub_core.Header.{
  HeaderTcp, IHeader, tcp, other, header_tcp_magic_v2, header_tcp_version_v2, default_hop_limit,
  major, sub_proto, source_id, target_id, get_flags, get_hop_limit, get_route_flags, get_msg_id,
  get_trace_id, get_timestamp, payload_length,
}

abbrev pub header_tcp_size : ℕ
header_tcp_size = 32

pub data DecodeError : Type 0 where
  eof unexpected_eof : DecodeError
  header_magic_mismatch header_version_invalid header_len_invalid header_too_large : DecodeError

-- binary.BigEndian
abbrev pub put_uint16 : ℕ → List ℕ
put_uint16 v = v / 2 ^ 8 % 256 ∷ v % 256 ∷ []

abbrev pub put_uint32 : ℕ → List ℕ
put_uint32 v = v / 2 ^ 24 % 256 ∷ v / 2 ^ 16 % 256 ∷ v / 2 ^ 8 % 256 ∷ v % 256 ∷ []

-- The integer at an offset of a buffer.
abbrev pub uint16_at : List ℕ → ℕ → ℕ
uint16_at buf i = get_or buf i 0 * 2 ^ 8 + get_or buf (i + 1) 0

abbrev pub uint32_at : List ℕ → ℕ → ℕ
uint32_at buf i =
    get_or buf i 0 * 2 ^ 24
    + get_or buf (i + 1) 0 * 2 ^ 16
    + get_or buf (i + 2) 0 * 2 ^ 8
    + get_or buf (i + 3) 0

-- The header that Encode starts from.
unfoldable pub restore : IHeader → HeaderTcp
restore (tcp h) = h
restore (other o) = record {
  magic = 0;
  ver = 0;
  hdr_len = 0;
  type_fmt =
      bit_or (bit_and (major (other o)) 0x03) (bit_and (sub_proto (other o)) 0x3f * 2 ^ 2 % 256);
  flags = get_flags (other o);
  hop_limit = get_hop_limit (other o);
  route_flags = get_route_flags (other o);
  msg_id = get_msg_id (other o);
  source = source_id (other o);
  target = target_id (other o);
  trace_id = get_trace_id (other o);
  timestamp = get_timestamp (other o);
  payload_len = payload_length (other o);
}

-- The fields that Encode overwrites before it writes.
unfoldable pub complete : HeaderTcp → List ℕ → HeaderTcp
complete h payload = record h {
  magic = header_tcp_magic_v2;
  ver = header_tcp_version_v2;
  hdr_len = header_tcp_size;
  hop_limit = if h.hop_limit == 0 then default_hop_limit else h.hop_limit;
  payload_len =
      if not (length payload % 2 ^ 32 == h.payload_len)
      then length payload % 2 ^ 32
      else h.payload_len;
}

-- The first four bytes, and the other 28 of the fixed header.
abbrev pub prefix_bytes : HeaderTcp → List ℕ → List ℕ
prefix_bytes h rest = h.magic / 2 ^ 8 % 256 ∷ h.magic % 256 ∷ h.ver ∷ h.hdr_len ∷ rest

abbrev pub fixed_bytes : HeaderTcp → List ℕ
fixed_bytes h =
    h.type_fmt
    ∷ h.flags
    ∷ h.hop_limit
    ∷ h.route_flags
    ∷ (put_uint32 h.msg_id
        ++ (put_uint32 h.source
            ++ (put_uint32 h.target
                ++ (put_uint32 h.trace_id
                    ++ (put_uint32 h.timestamp ++ put_uint32 h.payload_len)))))

-- HeaderTcpCodec.Encode; the error is always nil.
unfoldable pub encode : IHeader → List ℕ → List ℕ
unfolding restore complete
encode header payload =
    let h = complete (restore header) payload in prefix_bytes h (fixed_bytes h ++ payload)

-- The first `n` bytes and what follows them, if there are so many.
unfoldable pub split_at? : ℕ → List ℕ → Option (List ℕ × List ℕ)
split_at? zero s = some ([], s)
split_at? (suc n) [] = none
split_at? (suc n) (x ∷ s) = elim (split_at? n s) [
  | none ↦ none
  | some (front, back) ↦ some (x ∷ front, back)
]

abbrev short_read : List ℕ → DecodeError
short_read [] = eof
short_read (x ∷ s) = unexpected_eof

-- io.ReadFull into a buffer of `n` bytes.
unfoldable pub read_full : ℕ → List ℕ → Result DecodeError (List ℕ × List ℕ)
unfolding split_at?
read_full n s = elim (split_at? n s) [ none ↦ err (short_read s) | some r ↦ ok r ]

-- The header literal of Decode, from the whole header in `hdr`, and its default hop limit.
unfoldable pub parse_header : List ℕ → HeaderTcp
parse_header hdr = record {
  magic = uint16_at hdr 0;
  ver = get_or hdr 2 0;
  hdr_len = get_or hdr 3 0;
  type_fmt = get_or hdr 4 0;
  flags = get_or hdr 5 0;
  hop_limit = if get_or hdr 6 0 == 0 then default_hop_limit else get_or hdr 6 0;
  route_flags = get_or hdr 7 0;
  msg_id = uint32_at hdr 8;
  source = uint32_at hdr 12;
  target = uint32_at hdr 16;
  trace_id = uint32_at hdr 20;
  timestamp = uint32_at hdr 24;
  payload_len = uint32_at hdr 28;
}

-- The end of Decode.
unfoldable pub decode_payload :
    HeaderTcp → List ℕ → Result DecodeError (HeaderTcp × List ℕ × List ℕ)
decode_payload h s =
    if h.payload_len == 0
    then ok (h, [], s)
    else (do (payload, rest) ← read_full h.payload_len s; ok (h, payload, rest))

-- Decode after the checks of the prefix.
unfoldable pub decode_body : List ℕ → ℕ → List ℕ → Result DecodeError (HeaderTcp × List ℕ × List ℕ)
decode_body prefix hdr_len s = do
  (tail, s') ← read_full (hdr_len - 4) s
  decode_payload (parse_header (prefix ++ tail)) s'

-- HeaderTcpCodec.Decode: the header, the payload (nil is []) and the bytes left in the reader.
unfoldable pub decode : List ℕ → Result DecodeError (HeaderTcp × List ℕ × List ℕ)
decode s = do
  (prefix, s') ← read_full 4 s
  let hdr_len = get_or prefix 3 0
  if not (uint16_at prefix 0 == header_tcp_magic_v2)
      then err header_magic_mismatch
      else if not (get_or prefix 2 0 == header_tcp_version_v2)
      then err header_version_invalid
      else if ltb hdr_len header_tcp_size
      then err header_len_invalid
      else if ltb 255 hdr_len
      then err header_too_large
      else decode_body prefix hdr_len s'
