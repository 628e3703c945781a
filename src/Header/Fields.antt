-- ===== src/Header/Fields.antt =====
-- The two fields packed in TypeFmt.
use myflowhub_core.Common.{ℕ, ◌+◌, ◌*◌, ◌/◌, ◌%◌, ◌^◌, ◌<◌, ◌≡◌, arith}
use myflowhub_core.Header.{HeaderTcp, tcp_major, tcp_sub_proto, with_major, with_sub_proto}
use myflowhub_core.Header.Bits.{low_two, low_six, high_six, join_high_low, join_low_high}

-- The fields of a byte as numbers.
pub tcp_major-mod : (h : HeaderTcp) → h.type_fmt < 256 → tcp_major h ≡ h.type_fmt % 4
unfolding tcp_major
tcp_major-mod h b = low_two h.type_fmt b

pub tcp_sub_proto-div : (h : HeaderTcp) → h.type_fmt < 256 → tcp_sub_proto h ≡ h.type_fmt / 4
unfolding tcp_sub_proto
tcp_sub_proto-div h b = omega (arith, low_six (h.type_fmt / 4) (omega arith))

-- The byte that WithMajor writes.
pub with_major_type_fmt :
    (m : ℕ) (h : HeaderTcp)
    → h.type_fmt < 256
    → m < 256
    → (with_major m h).type_fmt ≡ h.type_fmt / 4 * 4 + m % 4
unfolding with_major
with_major_type_fmt m h b c =
    rw (high_six h.type_fmt b, low_two m c)
      (rw (parts.0, parts.1) at (join_high_low v (omega arith)))
  where
    v : ℕ
    v = h.type_fmt / 4 * 4 + m % 4

    parts : (v / 4 * 4 ≡ h.type_fmt / 4 * 4) × (v % 4 ≡ m % 4)
    parts = omega arith

-- The byte that WithSubProto writes.
pub with_sub_proto_type_fmt :
    (s : ℕ) (h : HeaderTcp)
    → h.type_fmt < 256
    → s < 256
    → (with_sub_proto s h).type_fmt ≡ h.type_fmt % 4 + s % 64 * 4
unfolding with_sub_proto
with_sub_proto_type_fmt s h b c =
    rw (low_two h.type_fmt b, low_six s c)
      (rw (parts.0, parts.1) at (join_low_high v (omega arith)))
  where
    v : ℕ
    v = h.type_fmt % 4 + s % 64 * 4

    parts : (v % 4 ≡ h.type_fmt % 4) × (v / 4 * 4 ≡ s % 64 * 2 ^ 2 % 256)
    parts = omega arith

-- WithMajor stores the low two bits of its argument and leaves the subprotocol alone; WithSubProto
-- stores the low six bits of its argument and leaves the major class alone. TypeFmt stays a byte.
pub with_fields :
    (m s : ℕ) (h : HeaderTcp)
    → h.type_fmt < 256
    → m < 256
    → s < 256
    → (tcp_major (with_major m h) ≡ m % 4)
      × (tcp_sub_proto (with_major m h) ≡ tcp_sub_proto h)
      × (tcp_sub_proto (with_sub_proto s h) ≡ s % 64)
      × (tcp_major (with_sub_proto s h) ≡ tcp_major h)
      × ((with_major m h).type_fmt < 256)
      × ((with_sub_proto s h).type_fmt < 256)
with_fields m s h b bm bs = omega (
  arith,
  with_major_type_fmt m h b bm,
  with_sub_proto_type_fmt s h b bs,
  tcp_major-mod h b,
  tcp_sub_proto-div h b,
  tcp_major-mod (with_major m h) (omega (arith, with_major_type_fmt m h b bm)),
  tcp_major-mod (with_sub_proto s h) (omega (arith, with_sub_proto_type_fmt s h b bs)),
  tcp_sub_proto-div (with_major m h) (omega (arith, with_major_type_fmt m h b bm)),
  tcp_sub_proto-div (with_sub_proto s h) (omega (arith, with_sub_proto_type_fmt s h b bs)),
)
