-- ===== src/Stream.antt =====
-- writeutil.go, process/frame_writer.go, reader/stream_frame_reader.go and reader/tcp_reader.go:
-- frames written to and read from a byte stream.
pub mod Write
pub mod Frames
pub mod Read
use myflowhub_core.Common.{
  ℕ, zero, suc, ◌+◌, ◌%◌, ◌^◌, List, [], ◌∷◌, ◌++◌, Option, none, some, Bool, true, false, length,
  take, drop, ◌==◌, if◌then◌else◌, not, Result, ok, err,
}
use myflowhub_core.Header.{
  HeaderTcp, IHeader, header_tcp_magic_v2, header_tcp_version_v2, default_hop_limit, clone_to_tcp,
}
use myflowhub_core.Header.Codec.{DecodeError, decode, encode, put_uint16, put_uint32}

-- An io.Writer is not part of the program: `write` answers with the count, the error that came
-- with it and the writer's next state. A count above the length of the data breaks the contract of
-- io.Writer, and counts here as the length.
abbrev pub WriterFn : Type 0 → Type 0 → Type 0
WriterFn W E = W → List ℕ → ℕ × Option E × W

pub data WriteError (E : Type 0) : Type 0 where
  nil_writer nil_codec short_write : WriteError E
  writer_error : E → WriteError E
  codec_error : E → WriteError E

-- How a call ended: the error, the bytes that the writer took, and the writer.
pub record Outcome (W E : Type 0) : Type 0 where
  pub error : Option (WriteError E)
  pub accepted : List ℕ
  pub writer : W

abbrev pub after_bytes : {W E : Type 0} → List ℕ → Option (Outcome W E) → Option (Outcome W E)
after_bytes front none = none
after_bytes front (some r) = some (record r { accepted = front ++ r.accepted })

-- The tests at the end of a round of WriteAll: `n` bytes, `front`, were taken and `left` are left;
-- `rest` is what the next round gives.
unfoldable pub end_round :
    {W E : Type 0}
    → ℕ
    → Option E
    → W
    → List ℕ
    → List ℕ
    → Option (Outcome W E)
    → Option (Outcome W E)
end_round n e w front [] rest = some (record { error = none; accepted = front; writer = w })
end_round n (some x) w front (y ∷ left) rest =
    some (record { error = some (writer_error x); accepted = front; writer = w })
end_round n none w front (y ∷ left) rest =
    if n == 0
    then some (record { error = some short_write; accepted = front; writer = w })
    else after_bytes front rest

-- `if err := …; err != nil { return err }`, and then the rest of the chunks.
abbrev pub unless_error :
    {W E : Type 0}
    → Option (WriteError E)
    → Outcome W E
    → Option (Outcome W E)
    → Option (Outcome W E)
unless_error (some e) r rest = some r
unless_error none r rest = after_bytes r.accepted rest

unfoldable pub unless_failed :
    {W E : Type 0} → Option (Outcome W E) → (W → Option (Outcome W E)) → Option (Outcome W E)
unless_failed none k = none
unless_failed (some r) k = unless_error r.error r (k r.writer)

module _ {W E : Type 0} (write : WriterFn W E) where
  -- The loop of WriteAll. `none` means that the fuel ran out.
  unfoldable pub write_loop : ℕ → W → List ℕ → Option (Outcome W E)
  write_loop fuel w [] = some (record { error = none; accepted = []; writer = w })
  write_loop zero w (x ∷ d) = none
  write_loop (suc fuel) w (x ∷ d) =
      let (n, e, w') = write w (x ∷ d) in
      let rest = write_loop fuel w' (drop n (x ∷ d)) in
      end_round n e w' (take n (x ∷ d)) (drop n (x ∷ d)) rest

  -- WriteAll on a writer that is not nil. Each round of the loop but the last takes a byte.
  unfoldable pub write_all : W → List ℕ → Option (Outcome W E)
  write_all w data' = write_loop (length data') w data'

  -- WriteAllBuffers.
  unfoldable pub write_all_buffers : W → List (List ℕ) → Option (Outcome W E)
  write_all_buffers w [] = some (record { error = none; accepted = []; writer = w })
  write_all_buffers w ([] ∷ chunks) = write_all_buffers w chunks
  write_all_buffers w ((x ∷ chunk) ∷ chunks) =
      unless_failed (write_all w (x ∷ chunk)) (λ w'. write_all_buffers w' chunks)

-- The 32 bytes that writeTCPFrame puts before the payload.
unfoldable pub tcp_frame_header : IHeader → List ℕ → List ℕ
tcp_frame_header header payload =
    let h = clone_to_tcp (some header) in
    let hop = if h.hop_limit == 0 then default_hop_limit else h.hop_limit in
    let len =
      if not (length payload % 2 ^ 32 == h.payload_len)
      then length payload % 2 ^ 32
      else h.payload_len in
    put_uint16 header_tcp_magic_v2
    ++ (header_tcp_version_v2
        ∷ 32
        ∷ h.type_fmt
        ∷ h.flags
        ∷ hop
        ∷ h.route_flags
        ∷ (put_uint32 h.msg_id
            ++ (put_uint32 h.source
                ++ (put_uint32 h.target
                    ++ (put_uint32 h.trace_id ++ (put_uint32 h.timestamp ++ put_uint32 len))))))

-- An IHeaderCodec: HeaderTcpCodec, by value or by pointer, or another with its Encode.
pub data Codec (E : Type 0) : Type 0 where
  tcp_codec : Codec E
  other_codec : (IHeader → List ℕ → Result E (List ℕ)) → Codec E

module _ {W E : Type 0} (write : WriterFn W E) where
  -- WriteFrame: the HeaderTcp path writes header and payload apart, any other codec encodes first.
  unfoldable pub write_frame : W → Codec E → IHeader → List ℕ → Option (Outcome W E)
  write_frame w tcp_codec header payload =
      write_all_buffers write w (tcp_frame_header header payload ∷ payload ∷ [])
  write_frame w (other_codec enc) header payload = elim (enc header payload) [
    | err e ↦ some (record { error = some (codec_error e); accepted = []; writer = w })
    | ok encoded ↦ write_all write w encoded
  ]

-- Why ReadLoop returned.
pub data Exit : Type 0 where
  ctx_done out_of_fuel : Exit
  read_error : DecodeError → Exit

-- ReadLoop on the bytes that the pipe will deliver: the frames dispatched, in order, and the exit.
-- `cancelled i` tells whether the context is found done at the check of round `i`. The goroutine
-- that closes the pipe on cancellation is seen as the end of the bytes.
unfoldable pub read_loop : (ℕ → Bool) → ℕ → ℕ → List ℕ → List (HeaderTcp × List ℕ) × Exit
read_loop cancelled zero i s = ([], out_of_fuel)
read_loop cancelled (suc fuel) i s = elim (cancelled i) [
  | true ↦ ([], ctx_done)
  | false ↦ elim (decode s) [
    | err e ↦ ([], read_error e)
    | ok (h, payload, rest) ↦
        let (frames, exit) = read_loop cancelled fuel (suc i) rest in ((h, payload) ∷ frames, exit)
  ]
]
