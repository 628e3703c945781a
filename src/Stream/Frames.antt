-- ===== src/Stream/Frames.antt =====
-- What WriteFrame puts on the pipe is what Encode would have returned.
use myflowhub_core.Common.{
  ℕ, ◌<◌, ◌^◌, ◌≡◌, refl, ◌∙◌, subst, List, [], ◌∷◌, ◌++◌, none, some, length, append-nil, ok,
}
use myflowhub_core.Header.{IHeader, IsValidHeader}
use myflowhub_core.Header.Codec.{encode, complete, restore, decode}
use myflowhub_core.Header.Codec.Restore.{restore-eq-clone_to_tcp}
use myflowhub_core.Header.Codec.RoundTrip.{decode-encode}
use myflowhub_core.Stream.{WriterFn, Outcome, tcp_codec, tcp_frame_header, write_frame}
use myflowhub_core.Stream.Write.{Finishes, write_all_buffers-Finishes}

-- The header bytes of writeTCPFrame and the payload are the frame of Encode, for every header whose
-- getters return values of their types.
pub tcp_frame_header-encode :
    (h : IHeader) (payload : List ℕ)
    → IsValidHeader h
    → tcp_frame_header h payload ++ payload ≡ encode h payload
unfolding tcp_frame_header encode complete
tcp_frame_header-encode h payload v = rw (restore-eq-clone_to_tcp h v) refl

-- With HeaderTcpCodec, WriteFrame ends on every writer; what the pipe took is a front part of the
-- frame that Encode returns, and it is the whole frame exactly if WriteFrame returns no error.
pub write_frame-encode :
    {W E : Type 0} (write : WriterFn W E) (w : W) (h : IHeader) (payload : List ℕ)
    → IsValidHeader h
    → Finishes (encode h payload) (write_frame write w tcp_codec h payload)
unfolding write_frame
write_frame-encode write w h payload v =
    subst (λ bytes. Finishes bytes (write_frame write w tcp_codec h payload))
      (rw (append-nil payload) (tcp_frame_header-encode h payload v))
      (write_all_buffers-Finishes write w (tcp_frame_header h payload ∷ payload ∷ []))

-- So a frame that WriteFrame wrote without an error is read back by Decode at the other end.
pub decode-write_frame :
    {W E : Type 0} (write : WriterFn W E) (w : W) (h : IHeader) (payload rest : List ℕ)
    (r : Outcome W E)
    → IsValidHeader h
    → length payload < 2 ^ 32
    → write_frame write w tcp_codec h payload ≡ some r
    → r.error ≡ none
    → decode (r.accepted ++ rest) ≡ ok (complete (restore h) payload, payload, rest)
decode-write_frame write w h payload rest r v hp run fine =
    let (r', e, written) = write_frame-encode write w h payload v in
    let same : r' ≡ r = cc (e, run) in
    let all : encode h payload ≡ r.accepted =
      subst (λ q. (q.error ≡ none) → encode h payload ≡ q.accepted) same
        (λ q. written.split ∙ rw (written.complete q) (append-nil r'.accepted)) fine in
    rw (← all) (decode-encode h payload rest v hp)
