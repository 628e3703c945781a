-- ===== src/Header/Codec/Restore.antt =====
-- Encode and CloneToTCP rebuild a foreign header in two ways; both give the same header.
use Prim.Native.Nat.{bit_and, bit_or}
use myflowhub_core.Common.{ℕ, ◌+◌, ◌*◌, ◌/◌, ◌%◌, ◌^◌, ◌<◌, ◌≡◌, refl, some, arith}
use myflowhub_core.Header.{
  IHeader, tcp, other, IsValid, IsValidHeader, zero_header, major, sub_proto, tcp_major,
  tcp_sub_proto, with_major, with_sub_proto, clone_to_tcp,
}
use myflowhub_core.Header.Bits.{low_two, low_six, join_low_high}
use myflowhub_core.Header.Fields.{
  with_major_type_fmt, with_sub_proto_type_fmt, tcp_major-mod, tcp_sub_proto-div,
}
use myflowhub_core.Header.Codec.{restore}

-- The byte that Encode computes for TypeFmt.
type_fmt_bytes :
    (m s : ℕ)
    → m < 256
    → s < 256
    → bit_or (bit_and m 0x03) (bit_and s 0x3f * 2 ^ 2 % 256) ≡ m % 4 + s % 64 * 4
type_fmt_bytes m s bm bs =
    rw (low_two m bm, low_six s bs) (rw (parts.0, parts.1) at (join_low_high v (omega arith)))
  where
    v : ℕ
    v = m % 4 + s % 64 * 4

    parts : (v % 4 ≡ m % 4) × (v / 4 * 4 ≡ s % 64 * 2 ^ 2 % 256)
    parts = omega arith

copied_type_fmt :
    (m s : ℕ)
    → m < 256
    → s < 256
    → (with_sub_proto s (with_major m zero_header)).type_fmt ≡ m % 4 + s % 64 * 4
copied_type_fmt m s bm bs = omega (
  arith,
  with_major_type_fmt m zero_header (omega arith) bm,
  with_sub_proto_type_fmt s (with_major m zero_header)
      (omega (arith, with_major_type_fmt m zero_header (omega arith) bm)) bs,
)

-- On every header whose getters return values of their types, the header that Encode starts from is
-- the one that CloneToTCP makes.
pub restore-eq-clone_to_tcp : (h : IHeader) → IsValidHeader h → restore h ≡ clone_to_tcp (some h)
unfolding restore clone_to_tcp with_major with_sub_proto
restore-eq-clone_to_tcp (tcp h) v = refl
restore-eq-clone_to_tcp (other o) v =
    ground (arith, type_fmt_bytes o.o_major o.o_sub_proto, copied_type_fmt o.o_major o.o_sub_proto)

pub restore-IsValid : (h : IHeader) → IsValidHeader h → IsValid (restore h)
unfolding restore
restore-IsValid (tcp h) v = v
restore-IsValid (other o) v = ground (arith, type_fmt_bytes o.o_major o.o_sub_proto)

-- The fields of TypeFmt survive the rebuilding, cut to two and six bits.
pub restore-fields :
    (h : IHeader)
    → IsValidHeader h
    → (tcp_major (restore h) ≡ major h % 4) × (tcp_sub_proto (restore h) ≡ sub_proto h % 64)
unfolding restore
restore-fields (tcp h) v =
    omega (arith, tcp_major-mod h v.type_fmt_u8, tcp_sub_proto-div h v.type_fmt_u8, v.type_fmt_u8)
restore-fields (other o) v = omega (
  arith,
  type_fmt_bytes o.o_major o.o_sub_proto v.o_major_u8 v.o_sub_proto_u8,
  tcp_major-mod (restore (other o)) (restore-IsValid (other o) v).type_fmt_u8,
  tcp_sub_proto-div (restore (other o)) (restore-IsValid (other o) v).type_fmt_u8,
)
