-- ===== src/Sender/Steps.antt =====
-- process/senddispatcher.go: what its methods and goroutines do, step by step.
use myflowhub_core.Common.{
  ℕ, [], ◌∷◌, ◌++◌, map, Option, none, some, Bool, true, false, ltb, Text, length, text_instance,
  lookup, insert, erase, ◌==◌, if◌then◌else◌, set_queue, has_room,
}
use myflowhub_core.Conn.{Ref}
use myflowhub_core.ConnMgr.{World}
use myflowhub_core.Stream.{WriterFn, WriteError, Outcome, write_frame, write_all}
use myflowhub_core.Sender.{
  SendError, nil_conn, nil_codec, nil_pipe, writer_closed, enqueue_timeout, dispatcher_closed,
  ctx_error, write_failed, Task, ConnWriter, Sender, select_shard,
}

-- The case that the select of `enqueue` takes.
pub data EnqueuePick : Type 0 where
  sends times_out : EnqueuePick

-- The case that the select of `Dispatch` takes, or `nil_ctx`: the caller's context is nil, and the
-- select panics when it evaluates `ctx.Done()`. The choice is the environment's; `takes_ctx_done` is
-- for a context that is done.
pub data DispatchPick : Type 0 where
  takes_send takes_timer takes_dispatcher_done takes_ctx_done nil_ctx : DispatchPick

-- How `Dispatch` ended: with an error, with the task in a shard, or with the panic of a send on a
-- closed channel or of a nil context.
pub data Dispatched (E : Type 0) : Type 0 where
  refused : SendError E → Dispatched E
  accepted : ℕ → Dispatched E
  panicked : Dispatched E

-- What a callback got: nothing while the task is under way, and else its error or nil.
abbrev pub Answer : Type 0 → Type 0
Answer E = Task E × Option (SendError E)

-- connWriter.enqueue with a capacity and a timeout. On a stopped writer the send panics, and the
-- recovered panic gives the same error as the check before it.
unfoldable pub enqueue :
    {E : Type 0}
    → EnqueuePick
    → ℕ
    → ℕ
    → Task E
    → ConnWriter E
    → Option (ConnWriter E × Option (SendError E))
enqueue pick capacity timeout t w = if w.stopped then some (w, some writer_closed) else elim pick [
  | sends ↦
      if ltb (length w.ch) capacity then some (record w { ch = w.ch ++ t ∷ [] }, none) else none
  | times_out ↦ if timeout == 0 then none else some (w, some enqueue_timeout)
]

-- connWriter.stop, up to the wait for the channel to become empty.
unfoldable pub stop : {E : Type 0} → ConnWriter E → ConnWriter E
stop w = record w { stopped = true }

-- The loop of connWriter.start takes the next task; `none` while there is none.
unfoldable pub next_task : {E : Type 0} → ConnWriter E → Option (Task E × ConnWriter E)
next_task w = elim w.ch [ [] ↦ none | t ∷ ch ↦ some (t, record w { ch = ch }) ]

-- The error of connWriter.write for that of WriteFrame and WriteAll.
abbrev pub write_error : {E : Type 0} → Option (WriteError E) → Option (SendError E)
write_error none = none
write_error (some e) = some (write_failed e)

module _ (w : World) {E : Type 0} where
  -- getOrCreateWriter.
  unfoldable pub get_or_create_writer : Ref → Sender E → ConnWriter E × Sender E
  get_or_create_writer c s = elim (lookup (w.conn c).id s.writers) [
    | some wr ↦ (wr, s)
    | none ↦
        let wr : ConnWriter E = record { owner = c; ch = []; stopped = false } in
        (wr, record s { writers = insert (w.conn c).id wr s.writers })
  ]

  -- Dispatch, for a task with a connection.
  unfoldable pub dispatch_to :
      DispatchPick → Bool → Task E → ℕ → Sender E → Option (Sender E × Dispatched E)
  dispatch_to takes_send waiting t i s =
      if s.shards_closed
      then some (s, panicked)
      else if has_room waiting s.shard_buffer (s.shards i)
      then some (record s { shards = set_queue i (s.shards i ++ t ∷ []) s.shards }, accepted i)
      else none
  dispatch_to takes_timer waiting t i s =
      if s.timeout == 0 then none else some (s, refused enqueue_timeout)
  dispatch_to takes_dispatcher_done waiting t i s =
      if s.cancelled then some (s, refused dispatcher_closed) else none
  dispatch_to takes_ctx_done waiting t i s = some (s, refused ctx_error)
  dispatch_to nil_ctx waiting t i s = some (s, panicked)

  -- Dispatch.
  unfoldable pub dispatch :
      DispatchPick → Bool → Task E → Sender E → Option (Sender E × Dispatched E)
  unfolding dispatch_to
  dispatch pick waiting t s = elim t.conn [
    | none ↦ some (s, refused nil_conn)
    | some c ↦
        dispatch_to pick waiting t (select_shard (some (w.conn c).id) (some t.hdr) s.shard_count) s
  ]

  -- The worker of a shard with a task and the writer of its connection.
  unfoldable pub hand_to :
      EnqueuePick
      → Text
      → Task E
      → ConnWriter E × Sender E
      → Option (Sender E × Option (SendError E))
  unfolding enqueue
  hand_to pick id t (wr, s) = elim (enqueue pick s.writer_buffer s.timeout t wr) [
    | none ↦ none
    | some r ↦ some (record s { writers = insert id r.0 s.writers }, r.1)
  ]

  -- What the worker of a shard makes of a task that it has taken: the error that its callback gets,
  -- if any.
  unfoldable pub hand_over :
      EnqueuePick → Task E → Sender E → Option (Sender E × Option (SendError E))
  unfolding hand_to
  hand_over pick t s = elim t.conn [
    | none ↦ some (s, none)
    | some c ↦ hand_to pick (w.conn c).id t (get_or_create_writer c s)
  ]

  abbrev pub answered :
      Task E → Option (Sender E × Option (SendError E)) → Option (Sender E × Answer E)
  answered t none = none
  answered t (some (s, e)) = some (s, (t, e))

  -- A turn of the worker of shard `i`.
  unfoldable pub shard_step : EnqueuePick → ℕ → Sender E → Option (Sender E × Answer E)
  unfolding hand_over
  shard_step pick i s = elim (s.shards i) [
    | [] ↦ none
    | t ∷ q ↦ answered t (hand_over pick t (record s { shards = set_queue i q s.shards }))
  ]

-- A turn of the writer of an ID: the task that it goes on to write.
unfoldable pub writer_step : {E : Type 0} → Text → Sender E → Option (Sender E × Task E)
unfolding next_task
writer_step id s = elim (lookup id s.writers) [
  | none ↦ none
  | some wr ↦ elim (next_task wr) [
    | none ↦ none
    | some (t, wr') ↦ some (record s { writers = insert id wr' s.writers }, t)
  ]
]

-- CloseConn.
unfoldable pub close_conn : {E : Type 0} → Text → Sender E → Sender E
unfolding stop
close_conn id s = elim (lookup id s.writers) [
  | none ↦ s
  | some wr ↦ record s { writers = erase id s.writers; leaving = s.leaving ++ stop wr ∷ [] }
]

-- The cancel call of Shutdown.
unfoldable pub shutdown : {E : Type 0} → Sender E → Sender E
shutdown s = record s { cancelled = true }

-- What the goroutine of ensureStarted does once the context is done.
unfoldable pub clean_up : {E : Type 0} → Sender E → Sender E
unfolding stop
clean_up s = record s {
  shards_closed = true;
  writers = [];
  leaving = s.leaving ++ map (λ e. stop e.1) s.writers;
}

module _ {W E : Type 0} (write : WriterFn W E) where
  -- connWriter.write on the pipe of the connection; `none` is a loop that does not end.
  unfoldable pub write_task :
      Bool → Option W → Task E → Option (Option (SendError E) × Option (Outcome W E))
  write_task encode_in_writer pipe t = elim t.codec [
    | none ↦ some (some nil_codec, none)
    | some c ↦ elim pipe [
      | none ↦ some (some nil_pipe, none)
      | some p ↦
          elim (if encode_in_writer
            then write_frame write p c t.hdr t.payload
            else write_all write p t.payload) [
              | none ↦ none
              | some r ↦ some (write_error r.error, some r)
            ]
    ]
  ]
