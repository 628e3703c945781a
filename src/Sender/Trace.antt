-- ===== src/Sender/Trace.antt =====
-- What a run of the dispatcher did: the tasks that went through its shards and its writers.
use myflowhub_core.Common.{
  ℕ, ◌≡◌, List, [], ◌∷◌, ◌++◌, Option, none, some, Bool, true, false, ◌&&◌, Text, text_instance,
  text_eq, lookup, if◌then◌else◌, of_queue,
}
use myflowhub_core.ConnMgr.{World}
use myflowhub_core.Sender.{Task, Sender, SendOptions, new_sender}
use myflowhub_core.Sender.Steps.{
  EnqueuePick, DispatchPick, Dispatched, refused, accepted, panicked, Answer, dispatch, shard_step,
  writer_step,
}

-- The queue of the writer of an ID.
abbrev pub channel : {E : Type 0} → Text → Sender E → List (Task E)
channel id s = elim (lookup id s.writers) [ none ↦ [] | some wr ↦ wr.ch ]

abbrev pub log_dispatched :
    {E : Type 0} → Dispatched E → Task E → List (ℕ × Task E) → List (ℕ × Task E)
log_dispatched (accepted i) t es = es ++ (i, t) ∷ []
log_dispatched (refused e) t es = es
log_dispatched panicked t es = es

-- The tasks of a log of answers, and those of one ID that were handed over without an error.
abbrev pub tasks_of : {E : Type 0} → List (ℕ × Answer E) → List (ℕ × Task E)
tasks_of [] = []
tasks_of ((i, (t, e)) ∷ es) = (i, t) ∷ tasks_of es

abbrev pub is_nil : {A : Type 0} → Option A → Bool
is_nil none = true
is_nil (some a) = false

module _ (w : World) {E : Type 0} where
  abbrev pub is_for : Text → Task E → Bool
  is_for id t = elim t.conn [ none ↦ false | some c ↦ text_eq (w.conn c).id id ]

  abbrev pub passed : Text → List (ℕ × Answer E) → List (Task E)
  passed id [] = []
  passed id ((i, (t, e)) ∷ es) =
      let rest = passed id es in if is_for id t && is_nil e then t ∷ rest else rest

  abbrev pub add_task : Text → Task E → (Text → List (Task E)) → Text → List (Task E)
  add_task id t f j = if text_eq id j then f j ++ t ∷ [] else f j

  -- What calls of Dispatch, workers of shards and writers make of a new dispatcher, in any order:
  -- the tasks that got into a shard, those that workers took with the error that their callbacks
  -- got, and those that each writer took.
  pub data Reach (o : SendOptions)
      : Sender E → List (ℕ × Task E) → List (ℕ × Answer E) → (Text → List (Task E)) → Type 0 where
    start : Reach o (new_sender o) [] [] (λ id. [])
    dispatches :
        {s s' : Sender E} {d : Dispatched E} {acc : List (ℕ × Task E)} {han : List (ℕ × Answer E)}
        {wri : Text → List (Task E)} (pick : DispatchPick) (waiting : Bool) (t : Task E)
        → Reach o s acc han wri
        → dispatch w pick waiting t s ≡ some (s', d)
        → Reach o s' (log_dispatched d t acc) han wri
    hands :
        {s s' : Sender E} {a : Answer E} {acc : List (ℕ × Task E)} {han : List (ℕ × Answer E)}
        {wri : Text → List (Task E)} (pick : EnqueuePick) (i : ℕ)
        → Reach o s acc han wri
        → shard_step w pick i s ≡ some (s', a)
        → Reach o s' acc (han ++ (i, a) ∷ []) wri
    writes :
        {s s' : Sender E} {t : Task E} {acc : List (ℕ × Task E)} {han : List (ℕ × Answer E)}
        {wri : Text → List (Task E)} (id : Text)
        → Reach o s acc han wri
        → writer_step id s ≡ some (s', t)
        → Reach o s' acc han (add_task id t wri)

  -- The invariant: nothing is lost or overtaken in a shard or in the queue of a writer.
  pub record IsOrdered (s : Sender E) (acc : List (ℕ × Task E)) (han : List (ℕ × Answer E))
      (wri : Text → List (Task E)) : Type 0 where
    pub in_shards : (i : ℕ) → of_queue i (tasks_of han) ++ s.shards i ≡ of_queue i acc
    pub in_writers : (id : Text) → wri id ++ channel id s ≡ passed id han
