-- ===== src/Sender/Drain.antt =====
-- A stopped writer empties its queue: connWriter.stop waits for that.
use myflowhub_core.Common.{
  ℕ, suc, ◌≤◌, ◌≡◌, refl, ap, List, [], ◌∷◌, ◌++◌, Option, none, some, true, length, arith,
}
use myflowhub_core.Sender.{SendError, writer_closed, Task, ConnWriter}
use myflowhub_core.Sender.Steps.{EnqueuePick, enqueue, next_task, stop}

-- What can happen to a writer after stop: some goroutine tries to enqueue, or the loop runs.
pub data Turn (E : Type 0) : Type 0 where
  tries : EnqueuePick → Task E → Turn E
  loops : Turn E

-- The writer at the end, what the callers of enqueue got, and the tasks taken for writing, in order.
pub record Run (E : Type 0) : Type 0 where
  pub writer : ConnWriter E
  pub errors : List (Option (Option (SendError E)))
  pub tasks : List (Task E)

module _ {E : Type 0} where
  abbrev after_try :
      ConnWriter E
      → Option (ConnWriter E × Option (SendError E))
      → ConnWriter E × Option (Option (SendError E))
  after_try w none = (w, none)
  after_try w (some r) = (r.0, some r.1)

  abbrev after_loop : ConnWriter E → Option (Task E × ConnWriter E) → ConnWriter E × List (Task E)
  after_loop w none = (w, [])
  after_loop w (some (t, w')) = (w', t ∷ [])

  pub run_turns : ℕ → ℕ → List (Turn E) → ConnWriter E → Run E
  unfolding enqueue next_task
  run_turns capacity timeout [] w = record { writer = w; errors = []; tasks = [] }
  run_turns capacity timeout (tries pick t ∷ turns) w =
      let (w', e) = after_try w (enqueue pick capacity timeout t w) in
      let r = run_turns capacity timeout turns w' in record r { errors = e ∷ r.errors }
  run_turns capacity timeout (loops ∷ turns) w =
      let (w', ts) = after_loop w (next_task w) in
      let r = run_turns capacity timeout turns w' in record r { tasks = ts ++ r.tasks }

  -- How often the loop runs.
  abbrev pub loop_count : List (Turn E) → ℕ
  loop_count [] = 0
  loop_count (tries pick t ∷ turns) = loop_count turns
  loop_count (loops ∷ turns) = suc (loop_count turns)

  abbrev pub AllClosed : List (Option (Option (SendError E))) → Type 0
  AllClosed [] = Unit {0}
  AllClosed (e ∷ es) = (e ≡ some (some writer_closed)) × AllClosed es

  drains :
      (capacity timeout : ℕ) (turns : List (Turn E)) (owner : ℕ) (ch : List (Task E))
      → length ch ≤ loop_count turns
      → let r =
          run_turns capacity timeout turns (record { owner = owner; ch = ch; stopped = true }) in
        (r.tasks ≡ ch) × (r.writer.ch ≡ []) × AllClosed r.errors
  unfolding run_turns
  drains capacity timeout [] owner [] h = (refl, refl, tt)
  drains capacity timeout [] owner (t ∷ ch) h = absurd (omega (arith, h))
  drains capacity timeout (tries pick t ∷ turns) owner ch h =
      let (a, b, c) = drains capacity timeout turns owner ch h in (a, b, (refl, c))
  drains capacity timeout (loops ∷ turns) owner [] h =
      drains capacity timeout turns owner [] (omega arith)
  drains capacity timeout (loops ∷ turns) owner (t ∷ ch) h =
      let (a, b, c) = drains capacity timeout turns owner ch (omega (arith, h)) in
      (ap (◌∷◌ t) a, b, c)

  -- Once stop has closed a writer, its queue becomes empty as soon as its loop has run as often as
  -- the queue is long, however many calls of enqueue come between: exactly the tasks of the queue
  -- are taken for writing, in their order, and each of those calls gets errWriterClosed.
  pub stop_drains :
      (capacity timeout : ℕ) (turns : List (Turn E)) (w : ConnWriter E)
      → length w.ch ≤ loop_count turns
      → let r = run_turns capacity timeout turns (stop w) in
        (r.tasks ≡ w.ch) × (r.writer.ch ≡ []) × AllClosed r.errors
  unfolding stop
  stop_drains capacity timeout turns w h = drains capacity timeout turns w.owner w.ch h
