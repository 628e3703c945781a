-- ===== src/Sender/Wire.antt =====
-- What the writer of a connection puts on its pipe, and what the other end makes of it.
use myflowhub_core.Common.{
  ℕ, ◌<◌, ◌≡◌, refl, ap, ◌∙◌, List, [], ◌∷◌, ◌++◌, append-nil, map, Option, none, some, Bool, true,
  false, length, All, Bool-cases, inl, inr, err,
}
use myflowhub_core.Header.{IHeader}
use myflowhub_core.Header.Codec.{DecodeError, decode, encode}
use myflowhub_core.Stream.{WriterFn, WriteError, Outcome, tcp_codec, read_loop, read_error}
use myflowhub_core.Stream.Write.{Written}
use myflowhub_core.Stream.Frames.{write_frame-encode}
use myflowhub_core.Stream.Read.{stream, received, IsSendable, read_loop-stream}
use myflowhub_core.Sender.{SendError, Task, SendOptions, new_sender}
use myflowhub_core.Sender.Steps.{write_task, write_error}

-- The option EncodeInWriter has no effect: it is on in every dispatcher.
pub encode_always : (E : Type 0) (o : SendOptions) → (new_sender {E = E} o).encode_in_writer ≡ true
unfolding new_sender
encode_always E o = elim (Bool-cases o.encode_option) [ inl e ↦ rw e refl | inr e ↦ rw e refl ]

-- The errors that the callbacks of some tasks got, the bytes that the pipe took, and the pipe.
pub record Wrote (W E : Type 0) : Type 0 where
  pub errors : List (Option (SendError E))
  pub bytes : List ℕ
  pub pipe : Option W

module _ {W E : Type 0} where
  abbrev bytes_of : Option (Outcome W E) → List ℕ
  bytes_of none = []
  bytes_of (some r) = r.accepted

  abbrev pipe_after : Option W → Option (Outcome W E) → Option W
  pipe_after pipe none = pipe
  pipe_after pipe (some r) = some r.writer

  abbrev and_then :
      Option (SendError E) → Option (Outcome W E) → Option (Wrote W E) → Option (Wrote W E)
  and_then e o none = none
  and_then e o (some r) = some (record r { errors = e ∷ r.errors; bytes = bytes_of o ++ r.bytes })

module _ {W E : Type 0} (write : WriterFn W E) where
  -- The loop of connWriter.start over some tasks.
  unfoldable pub write_tasks : Bool → Option W → List (Task E) → Option (Wrote W E)
  unfolding write_task
  write_tasks encode_in_writer pipe [] = some (record { errors = []; bytes = []; pipe = pipe })
  write_tasks encode_in_writer pipe (t ∷ ts) = elim (write_task write encode_in_writer pipe t) [
    | none ↦ none
    | some (e, o) ↦ and_then e o (write_tasks encode_in_writer (pipe_after pipe o) ts)
  ]

  abbrev pub frames : List (Task E) → List (IHeader × List ℕ)
  frames ts = map (λ t. (t.hdr, t.payload)) ts

  -- A task of the server: HeaderTcpCodec and a frame that fits.
  abbrev pub IsServerTask : Task E → Type 0
  IsServerTask t = (t.codec ≡ some tcp_codec) × IsSendable (t.hdr, t.payload)

  abbrev pub AllNil : List (Option (SendError E)) → Type 0
  AllNil es = All (λ e. e ≡ none) es

  write_task_writes :
      (p : W) (t : Task E)
      → IsServerTask t
      → (r : Outcome W E) × (write_task write true (some p) t ≡ some (write_error r.error, some r))
        × Written (encode t.hdr t.payload) r
  unfolding write_task
  write_task_writes p t (c, (v, fits)) =
      let (r, e, written) = write_frame-encode write p t.hdr t.payload v in
      (r, rw (write_task, c, e) refl, written)

  no_error : (e : Option (WriteError E)) → write_error e ≡ none → e ≡ none
  no_error none h = refl
  no_error (some x) h = cc

  -- The loop ends, and without errors it has written the frames one after the other.
  write_tasks-stream :
      (p : W) (ts : List (Task E))
      → All IsServerTask ts
      → (r : Wrote W E) × (write_tasks true (some p) ts ≡ some r)
        × (AllNil r.errors → r.bytes ≡ stream (frames ts))
  unfolding write_tasks
  write_tasks-stream p [] v = (record { errors = []; bytes = []; pipe = some p }, refl, λ n. refl)
  write_tasks-stream p (t ∷ ts) (v, vs) =
      let (r, e, written) = write_task_writes p t v in
      let (r', e', all) = write_tasks-stream r.writer ts vs in
      (
        record r' { errors = write_error r.error ∷ r'.errors; bytes = r.accepted ++ r'.bytes },
        rw (e, write_tasks, e') refl,
        λ (n, ns).
            let whole : encode t.hdr t.payload ≡ r.accepted =
              written.split
              ∙ ap (λ x. r.accepted ++ x) (written.complete (no_error r.error n))
              ∙ append-nil r.accepted in
            rw (← whole, all ns) refl,
      )

  frames-IsSendable : (ts : List (Task E)) → All IsServerTask ts → All IsSendable (frames ts)
  frames-IsSendable [] v = tt
  frames-IsSendable (t ∷ ts) (v, vs) = (v.1, frames-IsSendable ts vs)

  -- From the writer of a connection to the read loop at the other end of its pipe, with the encoding
  -- that every dispatcher is made with: the writer ends on any tasks of a server, whatever the pipe
  -- does, and if all callbacks get nil the other end dispatches exactly the frames of these tasks, in
  -- order, and then returns Decode's error on what follows them.
  pub connection_delivers :
      (o : SendOptions) (p : W) (ts : List (Task E)) (tail : List ℕ) (x : DecodeError) (fuel : ℕ)
      → All IsServerTask ts
      → decode tail ≡ err x
      → length (frames ts) < fuel
      → (r : Wrote W E) × (write_tasks (new_sender {E = E} o).encode_in_writer (some p) ts ≡ some r)
        × (AllNil r.errors
            → read_loop (λ _. false) fuel 0 (r.bytes ++ tail)
              ≡ (received (frames ts), read_error x))
  connection_delivers o p ts tail x fuel v e h =
      let (r, run, all) = write_tasks-stream p ts v in
      (
        r,
        ap (λ b. write_tasks b (some p) ts) (encode_always E o) ∙ run,
        λ n.
            ap (λ bytes. read_loop (λ _. false) fuel 0 (bytes ++ tail)) (all n)
            ∙ read_loop-stream (frames ts) tail x fuel 0 (frames-IsSendable ts v) e h,
      )
