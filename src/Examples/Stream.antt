-- ===== src/Examples/Stream.antt =====
-- The write and read loops on small runs.
use myflowhub_core.Common.{ℕ, ◌≡◌, ◌≢◌, refl, [], ◌∷◌, ◌++◌, none, some, false, ok, err, arith}
use myflowhub_core.Header.{tcp, IsValid, HeaderTcp, zero_header, clone_to_tcp}
use myflowhub_core.Header.Codec.{encode, decode, read_full, eof, complete, restore}
use myflowhub_core.Stream.{
  WriterFn, Outcome, tcp_codec, write_frame, write_all, write_loop, end_round, write_all_buffers,
  unless_failed, tcp_frame_header, read_loop, out_of_fuel, read_error, short_write,
}
use myflowhub_core.Stream.Write.{Finishes, write_all-Finishes, write_all_buffers-Finishes}
use myflowhub_core.Stream.Frames.{tcp_frame_header-encode, write_frame-encode, decode-write_frame}
use myflowhub_core.Stream.Read.{stream, received, read_loop-ends, read_loop-stream}

-- A writer that takes at most three bytes a call, and none once it has been called `n` times.
abbrev slow : WriterFn ℕ ℕ
slow n d = elim n [ ℕ.zero ↦ (0, none, 0) | ℕ.suc m ↦ (3, none, m) ]

abbrev message : HeaderTcp
message = record zero_header { type_fmt = 6; source = 1; target = 2; hop_limit = 5 }

message-IsValid : IsValid message
message-IsValid = omega arith

abbrev done : Outcome ℕ ℕ
done = record { error = none; accepted = 1 ∷ 2 ∷ 3 ∷ 4 ∷ []; writer = 3 }

short_writes : write_all slow 5 (1 ∷ 2 ∷ 3 ∷ 4 ∷ []) ≡ some done
unfolding write_all write_loop end_round
short_writes = refl

exhausted :
    write_all slow 1 (1 ∷ 2 ∷ 3 ∷ 4 ∷ [])
    ≡ some (record { error = some short_write; accepted = 1 ∷ 2 ∷ 3 ∷ []; writer = 0 })
unfolding write_all write_loop end_round
exhausted = refl

write_all-Finishes_example : Finishes (1 ∷ 2 ∷ 3 ∷ 4 ∷ []) (write_all slow 1 (1 ∷ 2 ∷ 3 ∷ 4 ∷ []))
write_all-Finishes_example = write_all-Finishes slow 1 (1 ∷ 2 ∷ 3 ∷ 4 ∷ [])

write_all_buffers-Finishes_example :
    Finishes (1 ∷ 2 ∷ []) (write_all_buffers slow 9 ((1 ∷ []) ∷ [] ∷ (2 ∷ []) ∷ []))
write_all_buffers-Finishes_example =
    write_all_buffers-Finishes slow 9 ((1 ∷ []) ∷ [] ∷ (2 ∷ []) ∷ [])

tcp_frame_header-encode_example :
    tcp_frame_header (tcp message) (9 ∷ []) ++ (9 ∷ []) ≡ encode (tcp message) (9 ∷ [])
tcp_frame_header-encode_example = tcp_frame_header-encode (tcp message) (9 ∷ []) message-IsValid

write_frame-encode_example :
    Finishes (encode (tcp message) (9 ∷ [])) (write_frame slow 20 tcp_codec (tcp message) (9 ∷ []))
write_frame-encode_example = write_frame-encode slow 20 (tcp message) (9 ∷ []) message-IsValid

abbrev sent : Outcome ℕ ℕ
sent = record { error = none; accepted = encode (tcp message) (9 ∷ []); writer = 8 }

frame_run : write_frame slow 20 tcp_codec (tcp message) (9 ∷ []) ≡ some sent
unfolding write_frame write_all_buffers write_all write_loop end_round unless_failed
    tcp_frame_header encode clone_to_tcp
frame_run = refl

decode-write_frame_example :
    decode (encode (tcp message) (9 ∷ []) ++ (4 ∷ []))
    ≡ ok (complete (restore (tcp message)) (9 ∷ []), 9 ∷ [], 4 ∷ [])
decode-write_frame_example =
    decode-write_frame slow 20 (tcp message) (9 ∷ []) (4 ∷ []) sent message-IsValid (omega arith)
      frame_run refl

read_loop-ends_example : (read_loop (λ i. false) 4 0 (1 ∷ 2 ∷ [])).1 ≢ out_of_fuel
read_loop-ends_example = read_loop-ends (λ i. false) 4 0 (1 ∷ 2 ∷ []) (omega arith)

at_eof : decode [] ≡ err eof
unfolding decode read_full
at_eof = refl

read_loop-stream_example :
    read_loop (λ _. false) 5 0 (stream ((tcp message, 9 ∷ []) ∷ (tcp message, []) ∷ []) ++ [])
    ≡ (received ((tcp message, 9 ∷ []) ∷ (tcp message, []) ∷ []), read_error eof)
read_loop-stream_example =
    read_loop-stream ((tcp message, 9 ∷ []) ∷ (tcp message, []) ∷ []) [] eof 5 0
      ((message-IsValid, omega arith), ((message-IsValid, omega arith), tt)) at_eof (omega arith)
