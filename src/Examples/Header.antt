-- ===== src/Examples/Header.antt =====
-- header/header.go on a login command and a message.
use myflowhub_core.Common.{
  ℕ, ◌<◌, ◌≤◌, ◌≡◌, ◌≢◌, refl, List, [], ◌∷◌, ◌++◌, some, length, ok, err, arith,
}
use myflowhub_core.Header.{
  HeaderTcp, OtherHeader, tcp, other, IsValid, IsValidOther, zero_header, with_major,
  with_sub_proto, tcp_major, tcp_sub_proto, clone_to_tcp, build_tcp_response, default_hop_limit,
  header_tcp_magic_v2, header_tcp_version_v2,
}
use myflowhub_core.Header.Fields.{with_fields}
use myflowhub_core.Header.Forward.{forward_chain, forward_chain_lem, build_tcp_response_fields}
use myflowhub_core.Header.Codec.{
  decode, encode, read_full, decode_body, header_too_large, header_magic_mismatch, unexpected_eof,
  restore, complete,
}
use myflowhub_core.Header.Codec.Restore.{restore-eq-clone_to_tcp}
use myflowhub_core.Header.Codec.Framing.{decode_takes, decode-ne-too_large}
use myflowhub_core.Header.Codec.RoundTrip.{
  decode-encode, decode-extended_frame, extended, extended_frame, complete_getters,
}

-- A command (class 3) of subprotocol 2 from node 7 to node 300.
abbrev login : HeaderTcp
login = record zero_header { type_fmt = 11; msg_id = 0x01020304; source = 7; target = 300 }

login-IsValid : IsValid login
login-IsValid = omega arith

-- A foreign header with the same fields.
abbrev foreign : OtherHeader
foreign = record {
  o_major = 3;
  o_sub_proto = 2;
  o_source = 7;
  o_target = 300;
  o_flags = 1;
  o_hop_limit = 4;
  o_route_flags = 0;
  o_msg_id = 9;
  o_trace_id = 5;
  o_timestamp = 6;
  o_payload_len = 0;
}

foreign-IsValid : IsValidOther foreign
foreign-IsValid = omega arith

login_frame :
    encode (tcp login) (0x7b ∷ 0x7d ∷ [])
    ≡ 0x4d ∷ 0x48 ∷ 2 ∷ 32 ∷ 11 ∷ 0 ∷ 16 ∷ 0 ∷ 1 ∷ 2 ∷ 3 ∷ 4 ∷ 0 ∷ 0 ∷ 0 ∷ 7 ∷ 0 ∷ 0 ∷ 1 ∷ 44 ∷ 0
      ∷ 0 ∷ 0 ∷ 0 ∷ 0 ∷ 0 ∷ 0 ∷ 0 ∷ 0 ∷ 0 ∷ 0 ∷ 2 ∷ 0x7b ∷ 0x7d ∷ []
unfolding encode
login_frame = refl

wrong_magic : decode (0x4d ∷ 0x49 ∷ 2 ∷ 32 ∷ []) ≡ err header_magic_mismatch
unfolding decode read_full
wrong_magic = refl

cut_header : decode (0x4d ∷ 0x48 ∷ 2 ∷ 32 ∷ 1 ∷ []) ≡ err unexpected_eof
unfolding decode read_full decode_body
cut_header = refl

with_fields_example :
    (tcp_major (with_major 7 login) ≡ 3)
    × (tcp_sub_proto (with_major 7 login) ≡ tcp_sub_proto login)
    × (tcp_sub_proto (with_sub_proto 70 login) ≡ 6)
    × (tcp_major (with_sub_proto 70 login) ≡ tcp_major login)
    × ((with_major 7 login).type_fmt < 256)
    × ((with_sub_proto 70 login).type_fmt < 256)
with_fields_example = with_fields 7 70 login (omega arith) (omega arith) (omega arith)

restore-eq-clone_to_tcp_example : restore (other foreign) ≡ clone_to_tcp (some (other foreign))
restore-eq-clone_to_tcp_example = restore-eq-clone_to_tcp (other foreign) foreign-IsValid

decode-encode_example :
    decode (encode (tcp login) (0x7b ∷ 0x7d ∷ []) ++ (1 ∷ []))
    ≡ ok (complete (restore (tcp login)) (0x7b ∷ 0x7d ∷ []), 0x7b ∷ 0x7d ∷ [], 1 ∷ [])
decode-encode_example =
    decode-encode (tcp login) (0x7b ∷ 0x7d ∷ []) (1 ∷ []) login-IsValid (omega arith)

decode-extended_frame_example :
    decode (extended_frame login (9 ∷ 8 ∷ []) (0x7b ∷ []) ++ [])
    ≡ ok (extended login (9 ∷ 8 ∷ []) (0x7b ∷ []), 0x7b ∷ [], [])
decode-extended_frame_example =
    decode-extended_frame login (9 ∷ 8 ∷ []) (0x7b ∷ []) [] login-IsValid (omega arith)
      (omega arith)

complete_getters_example : tcp_major (complete (restore (other foreign)) (1 ∷ [])) ≡ 3
complete_getters_example =
    (complete_getters (other foreign) (1 ∷ []) foreign-IsValid (omega arith)).0

decode_takes_example :
    (front : List ℕ) × (encode (tcp login) (5 ∷ []) ++ [] ≡ front ++ ((5 ∷ []) ++ []))
    × (length front ≡ 32)
    × (length {A = ℕ} (5 ∷ []) ≡ 1)
    × (header_tcp_magic_v2 ≡ header_tcp_magic_v2)
    × (header_tcp_version_v2 ≡ header_tcp_version_v2)
    × (32 ≤ 32)
    × (32 ≤ 255)
    × (default_hop_limit ≢ 0)
unfolding complete restore
decode_takes_example =
    decode_takes (encode (tcp login) (5 ∷ []) ++ []) (complete (restore (tcp login)) (5 ∷ []))
      (5 ∷ []) [] (decode-encode (tcp login) (5 ∷ []) [] login-IsValid (omega arith))

decode-ne-too_large_example : decode (0x4d ∷ 0x48 ∷ 2 ∷ 255 ∷ []) ≢ err header_too_large
decode-ne-too_large_example = decode-ne-too_large (0x4d ∷ 0x48 ∷ 2 ∷ 255 ∷ []) (omega arith)

forward_chain_lem_example : forward_chain 15 login ≡ some (record login { hop_limit = 1 })
forward_chain_lem_example = forward_chain_lem 14 login

build_tcp_response_fields_example : (build_tcp_response 77 (tcp login) 3 2).source ≡ 300
build_tcp_response_fields_example =
    (build_tcp_response_fields 77 (tcp login) 3 2 login-IsValid (omega arith)).0
