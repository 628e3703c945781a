-- ===== src/Rfcomm/Pipe.antt =====
-- listener/rfcomm_listener/native_windows.go: winSockPipe, a byte stream over a Winsock RFCOMM
-- socket that takes and gives messages of a limited length.
use myflowhub_core.Common.{
  ℕ, zero, suc, ◌+◌, ◌/◌, List, [], ◌∷◌, Option, none, some, Bool, true, false, ◌&&◌, length, take,
  drop, ltb, leb, ◌==◌, if◌then◌else◌, is_empty,
}
use myflowhub_core.Stream.{WriterFn, short_write, writer_error, Outcome, after_bytes}

-- winRFCOMMWriteChunkBytes
abbrev pub write_chunk_bytes : ℕ
write_chunk_bytes = 127

-- One round of the loop that sends smaller pieces: `retry` sends the same bytes again in smaller
-- pieces, and `rest` is what the next round gives.
unfoldable pub end_round :
    {W E : Type 0} → Bool → ℕ → Option E → W → List ℕ → Option (Outcome W E) → Option (Outcome W E)
end_round true n e w front rest = after_bytes front rest
end_round false n (some x) w front rest =
    some (record { error = some (writer_error x); accepted = front; writer = w })
end_round false n none w front rest =
    if n == 0
    then some (record { error = some short_write; accepted = front; writer = w })
    else after_bytes front rest

-- `chunk /= 2; if chunk < 1 { chunk = 1 }`
unfoldable pub halve : ℕ → ℕ
halve chunk = if ltb (chunk / 2) 1 then 1 else chunk / 2

-- The size of the first smaller piece when `remaining` bytes are left.
unfoldable pub first_chunk : ℕ → ℕ
first_chunk remaining =
    let half = if ltb write_chunk_bytes (remaining / 2) then write_chunk_bytes else remaining / 2 in
    if ltb half 1 then 1 else half

-- The end of a round of Write: an error ends it, and so does a chunk of which nothing was sent.
unfoldable pub end_write :
    {W E : Type 0}
    → Option (Outcome W E)
    → (Outcome W E → Option (Outcome W E))
    → Option (Outcome W E)
end_write none k = none
end_write (some r) k = elim r.error [
  | some e ↦ some r
  | none ↦
      if is_empty r.accepted
      then some (record r { error = some short_write })
      else after_bytes r.accepted (k r)
]

-- wsaSendFn is not part of the program: `send` answers with the count, the error and the socket's
-- next state. `msg_size x` tells whether errors.Is(x, WSAEMSGSIZE). A count above the length of the
-- message counts as the length.
module _ {W E : Type 0} (send : WriterFn W E) (msg_size : E → Bool) where
  -- Whether the same bytes are sent again in smaller pieces.
  unfoldable pub too_large : ℕ → ℕ → Option E → Bool
  too_large chunk n none = false
  too_large chunk n (some x) = msg_size x && ((n == 0) && ltb 1 chunk)

  -- The loop of writeWithMsgSizeFallback. `none` means that the fuel ran out.
  unfoldable pub fallback_loop : ℕ → ℕ → W → List ℕ → Option (Outcome W E)
  fallback_loop fuel chunk w [] = some (record { error = none; accepted = []; writer = w })
  fallback_loop zero chunk w (x ∷ d) = none
  fallback_loop (suc fuel) chunk w (x ∷ d) =
      let (n, e, w') = send w (take chunk (x ∷ d)) in
      let front = take n (take chunk (x ∷ d)) in
      let retry = too_large chunk n e in
      let rest =
        fallback_loop fuel (if retry then halve chunk else chunk) w'
          (drop (length front) (x ∷ d)) in
      end_round retry n e w' front rest

  -- writeWithMsgSizeFallback. A round takes a byte or makes the pieces smaller.
  unfoldable pub write_with_msg_size_fallback : W → List ℕ → ℕ → Option (Outcome W E)
  write_with_msg_size_fallback w b offset =
      let left = drop offset b in
      let chunk = first_chunk (length left) in
      after_bytes (take offset b) (fallback_loop (length left + chunk) chunk w left)

  -- writeChunkWithFallback, with the call of writeOnce.
  unfoldable pub write_chunk_with_fallback : W → List ℕ → Option (Outcome W E)
  write_chunk_with_fallback w b =
      let (n, e, w') = send w b in
      elim e [
        | none ↦ some (record { error = none; accepted = take n b; writer = w' })
        | some x ↦ elim (msg_size x) [
          | false ↦
              some (record { error = some (writer_error x); accepted = take n b; writer = w' })
          | true ↦
              if leb (length b) n
              then some (record { error = none; accepted = b; writer = w' })
              else write_with_msg_size_fallback w' b n
        ]
      ]

  -- The loop of Write.
  unfoldable pub pipe_write_loop : ℕ → W → List ℕ → Option (Outcome W E)
  pipe_write_loop fuel w [] = some (record { error = none; accepted = []; writer = w })
  pipe_write_loop zero w (x ∷ d) = none
  pipe_write_loop (suc fuel) w (x ∷ d) =
      end_write (write_chunk_with_fallback w (take write_chunk_bytes (x ∷ d)))
        (λ r. pipe_write_loop fuel r.writer (drop (length r.accepted) (x ∷ d)))

  -- Write.
  unfoldable pub pipe_write : W → List ℕ → Option (Outcome W E)
  pipe_write w b = pipe_write_loop (length b) w b

-- What wsaRecvFn puts into the scratch buffer of 2048 bytes, and the error that comes with it.
abbrev pub Received : Type 0 → Type 0
Received E = List ℕ × Option E

pub data ReadError (E : Type 0) : Type 0 where
  eof : ReadError E
  recv_error : E → ReadError E

-- The pipe's readCache and what the socket is going to receive. A socket that receives nothing more
-- is closed by the peer: a receive of 0 bytes.
pub record ReadSide (E : Type 0) : Type 0 where
  pub cache : List ℕ
  pub incoming : List (Received E)

-- fillReadCacheLocked on what one call of wsaRecvFn gives: the new cache.
unfoldable pub filled : {E : Type 0} → (E → Bool) → Received E → Option (ReadError E) × List ℕ
filled msg_size ([], none) = (some eof, [])
filled msg_size (x ∷ d, none) = (none, x ∷ d)
filled msg_size ([], some e) = (some (recv_error e), [])
filled msg_size (x ∷ d, some e) = if msg_size e then (none, x ∷ d) else (some (recv_error e), [])

-- fillReadCacheLocked
unfoldable pub fill_read_cache :
    {E : Type 0} → (E → Bool) → List (Received E) → Option (ReadError E) × ReadSide E
fill_read_cache msg_size [] = (some eof, record { cache = []; incoming = [] })
fill_read_cache msg_size (r ∷ more) =
    let (e, cache) = filled msg_size r in (e, record { cache = cache; incoming = more })

-- `n := copy(b, p.readCache)` for a `b` of `size` bytes.
unfoldable pub copy_out : {E : Type 0} → ℕ → ReadSide E → List ℕ × ReadSide E
copy_out size p = (take size p.cache, record p { cache = drop size p.cache })

-- The rest of Read after a fill for a `b` of `size` bytes.
unfoldable pub after_fill :
    {E : Type 0}
    → ℕ
    → Option (ReadError E) × ReadSide E
    → List ℕ × Option (ReadError E) × ReadSide E
after_fill size (some x, p) = ([], some x, p)
after_fill size (none, p) = let (out, p') = copy_out size p in (out, none, p')

-- Read with a `b` of `size` bytes: the bytes put into it, the error and the pipe.
unfoldable pub pipe_read :
    {E : Type 0} → (E → Bool) → ℕ → ReadSide E → List ℕ × Option (ReadError E) × ReadSide E
pipe_read msg_size zero p = ([], none, p)
pipe_read msg_size (suc size) p =
    after_fill (suc size)
      (if is_empty p.cache then fill_read_cache msg_size p.incoming else (none, p))
