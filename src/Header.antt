-- ===== src/Header.antt =====
-- header/header.go, the header itself and the helpers that copy it, and the interface IHeader of
-- iface.go. A byte, a uint16 and a uint32 are natural numbers in range (`IsValid`).
pub mod Bits
pub mod Fields
pub mod Codec
pub mod Forward
use Prim.Native.Nat.{bit_and, bit_or, bit_xor}
use myflowhub_core.Common.{ℕ, ◌-◌, ◌*◌, ◌/◌, ◌%◌, ◌^◌, ◌<◌, Option, none, some}
use myflowhub_core.Common.{ltb, leb, ◌==◌, if◌then◌else◌}

pub record HeaderTcp : Type 0 where
  pub magic : ℕ
  pub ver : ℕ
  pub hdr_len : ℕ
  pub type_fmt : ℕ
  pub flags : ℕ
  pub hop_limit : ℕ
  pub route_flags : ℕ
  pub msg_id : ℕ
  pub source : ℕ
  pub target : ℕ
  pub trace_id : ℕ
  pub timestamp : ℕ
  pub payload_len : ℕ

-- `HeaderTcp{}`
abbrev pub zero_header : HeaderTcp
zero_header = record {
  magic = 0;
  ver = 0;
  hdr_len = 0;
  type_fmt = 0;
  flags = 0;
  hop_limit = 0;
  route_flags = 0;
  msg_id = 0;
  source = 0;
  target = 0;
  trace_id = 0;
  timestamp = 0;
  payload_len = 0;
}

-- The fields fit their machine types.
pub record IsValid (h : HeaderTcp) : Type 0 where
  pub type_fmt_u8 : h.type_fmt < 256
  pub flags_u8 : h.flags < 256
  pub hop_limit_u8 : h.hop_limit < 256
  pub route_flags_u8 : h.route_flags < 256
  pub msg_id_u32 : h.msg_id < 2 ^ 32
  pub source_u32 : h.source < 2 ^ 32
  pub target_u32 : h.target < 2 ^ 32
  pub trace_id_u32 : h.trace_id < 2 ^ 32
  pub timestamp_u32 : h.timestamp < 2 ^ 32

abbrev pub major_ok_resp : ℕ
major_ok_resp = 0

abbrev pub major_err_resp : ℕ
major_err_resp = 1

abbrev pub major_msg : ℕ
major_msg = 2

abbrev pub major_cmd : ℕ
major_cmd = 3

abbrev pub header_tcp_magic_v2 : ℕ
header_tcp_magic_v2 = 0x4D48

abbrev pub header_tcp_version_v2 : ℕ
header_tcp_version_v2 = 2

abbrev pub default_hop_limit : ℕ
default_hop_limit = 16

-- Go's `x &^ m` on a byte, for a mask `m` below 256.
abbrev pub and_not : ℕ → ℕ → ℕ
and_not x m = bit_and x (bit_xor m 0xff)

unfoldable pub tcp_major : HeaderTcp → ℕ
tcp_major h = bit_and h.type_fmt 0x03

unfoldable pub tcp_sub_proto : HeaderTcp → ℕ
tcp_sub_proto h = bit_and (h.type_fmt / 2 ^ 2) 0x3f

unfoldable pub with_major : ℕ → HeaderTcp → HeaderTcp
with_major major h = record h { type_fmt = bit_or (and_not h.type_fmt 0x03) (bit_and major 0x03) }

unfoldable pub with_sub_proto : ℕ → HeaderTcp → HeaderTcp
with_sub_proto sub h = record h {
  type_fmt = bit_or (and_not h.type_fmt 0xfc) (bit_and sub 0x3f * 2 ^ 2 % 256);
}

-- An implementation of IHeader that is not *HeaderTcp, by the values of its getters.
pub record OtherHeader : Type 0 where
  pub o_major : ℕ
  pub o_sub_proto : ℕ
  pub o_source : ℕ
  pub o_target : ℕ
  pub o_flags : ℕ
  pub o_hop_limit : ℕ
  pub o_route_flags : ℕ
  pub o_msg_id : ℕ
  pub o_trace_id : ℕ
  pub o_timestamp : ℕ
  pub o_payload_len : ℕ

pub data IHeader : Type 0 where
  tcp : HeaderTcp → IHeader
  other : OtherHeader → IHeader

-- The getters of the interface.
abbrev pub major : IHeader → ℕ
major (tcp h) = tcp_major h
major (other o) = o.o_major

abbrev pub sub_proto : IHeader → ℕ
sub_proto (tcp h) = tcp_sub_proto h
sub_proto (other o) = o.o_sub_proto

abbrev pub source_id : IHeader → ℕ
source_id (tcp h) = h.source
source_id (other o) = o.o_source

abbrev pub target_id : IHeader → ℕ
target_id (tcp h) = h.target
target_id (other o) = o.o_target

abbrev pub get_flags : IHeader → ℕ
get_flags (tcp h) = h.flags
get_flags (other o) = o.o_flags

abbrev pub get_hop_limit : IHeader → ℕ
get_hop_limit (tcp h) = h.hop_limit
get_hop_limit (other o) = o.o_hop_limit

abbrev pub get_route_flags : IHeader → ℕ
get_route_flags (tcp h) = h.route_flags
get_route_flags (other o) = o.o_route_flags

abbrev pub get_msg_id : IHeader → ℕ
get_msg_id (tcp h) = h.msg_id
get_msg_id (other o) = o.o_msg_id

abbrev pub get_trace_id : IHeader → ℕ
get_trace_id (tcp h) = h.trace_id
get_trace_id (other o) = o.o_trace_id

abbrev pub get_timestamp : IHeader → ℕ
get_timestamp (tcp h) = h.timestamp
get_timestamp (other o) = o.o_timestamp

abbrev pub payload_length : IHeader → ℕ
payload_length (tcp h) = h.payload_len
payload_length (other o) = o.o_payload_len

-- The two mutators that the core calls through the interface.
abbrev pub with_hop_limit : ℕ → IHeader → IHeader
with_hop_limit v (tcp h) = tcp (record h { hop_limit = v })
with_hop_limit v (other o) = other (record o { o_hop_limit = v })

abbrev pub with_trace_id : ℕ → IHeader → IHeader
with_trace_id v (tcp h) = tcp (record h { trace_id = v })
with_trace_id v (other o) = other (record o { o_trace_id = v })

-- The chain of setters at the end of CloneToTCP.
copy_fields : IHeader → HeaderTcp
unfolding with_major with_sub_proto
copy_fields src =
    let h = with_sub_proto (sub_proto src) (with_major (major src) zero_header) in
    record h {
      source = source_id src;
      target = target_id src;
      flags = get_flags src;
      hop_limit = get_hop_limit src;
      route_flags = get_route_flags src;
      msg_id = get_msg_id src;
      trace_id = get_trace_id src;
      timestamp = get_timestamp src;
      payload_len = payload_length src;
    }

-- CloneToTCP, of an interface value that may be nil.
unfoldable pub clone_to_tcp : Option IHeader → HeaderTcp
unfolding copy_fields
clone_to_tcp none = zero_header
clone_to_tcp (some (tcp h)) = h
clone_to_tcp (some (other o)) = copy_fields (other o)

-- CloneToTCPForForward. `none` is the answer (nil, false).
unfoldable pub clone_to_tcp_for_forward : Option IHeader → Option HeaderTcp
unfolding clone_to_tcp
clone_to_tcp_for_forward none = none
clone_to_tcp_for_forward (some src) =
    let clone = clone_to_tcp (some src) in
    let hop = if clone.hop_limit == 0 then default_hop_limit else clone.hop_limit in
    if leb hop 1 then none else some (record clone { hop_limit = hop - 1 })

-- BuildTCPResponse. `now` is uint32(time.Now().Unix()); a nil request panics in the source and is
-- outside the type.
unfoldable pub build_tcp_response : ℕ → IHeader → ℕ → ℕ → HeaderTcp
unfolding clone_to_tcp with_major with_sub_proto
build_tcp_response now req payload_len sub =
    let resp = with_sub_proto sub (with_major major_ok_resp (clone_to_tcp (some req))) in
    record resp {
      source = target_id req;
      target = source_id req;
      msg_id = get_msg_id req;
      trace_id = get_trace_id req;
      hop_limit = default_hop_limit;
      timestamp = now;
      payload_len = payload_len;
    }

-- What the Go types give: every getter's result fits its type.
pub record IsValidOther (o : OtherHeader) : Type 0 where
  pub o_major_u8 : o.o_major < 256
  pub o_sub_proto_u8 : o.o_sub_proto < 256
  pub o_flags_u8 : o.o_flags < 256
  pub o_hop_limit_u8 : o.o_hop_limit < 256
  pub o_route_flags_u8 : o.o_route_flags < 256
  pub o_msg_id_u32 : o.o_msg_id < 2 ^ 32
  pub o_source_u32 : o.o_source < 2 ^ 32
  pub o_target_u32 : o.o_target < 2 ^ 32
  pub o_trace_id_u32 : o.o_trace_id < 2 ^ 32
  pub o_timestamp_u32 : o.o_timestamp < 2 ^ 32

abbrev pub IsValidHeader : IHeader → Type 0
IsValidHeader (tcp h) = IsValid h
IsValidHeader (other o) = IsValidOther o
