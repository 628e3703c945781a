-- ===== src/Sender/Effects.antt =====
-- What single calls do to the shards and to the queues of the writers.
use myflowhub_core.Common.{
  ℕ, ◌≡◌, ◌⊎◌, inl, inr, refl, sym, ap, ◌∙◌, subst, List, [], ◌∷◌, ◌++◌, append-nil, Option, none,
  some, Bool, true, false, ◌&&◌, Text, text_instance, text_eq, text_eq_iff, lookup, insert,
  lookup-insert, if◌then◌else◌, Option-cases, Bool-cases, set_queue, arith,
}
use myflowhub_core.Conn.{Ref}
use myflowhub_core.ConnMgr.{World}
use myflowhub_core.Sender.{SendError, Task, ConnWriter, Sender}
use myflowhub_core.Sender.Steps.{
  EnqueuePick, sends, times_out, DispatchPick, takes_send, takes_timer, takes_dispatcher_done,
  takes_ctx_done, nil_ctx, Dispatched, accepted, Answer, enqueue, dispatch_to, get_or_create_writer,
  hand_to, hand_over,
}
use myflowhub_core.Sender.Lifetime.{hand_over_eq, get_or_create_fresh, get_or_create_found}
use myflowhub_core.Sender.Trace.{channel, log_dispatched, tasks_of, is_nil, is_for, passed}

module _ (w : World) {E : Type 0} where
  -- What one call of Dispatch does to the shards.
  pub dispatch_to_effect :
      (pick : DispatchPick) (waiting : Bool) (t : Task E) (i : ℕ) (s s' : Sender E)
      (d : Dispatched E)
      → dispatch_to w pick waiting t i s ≡ some (s', d)
      → ((s' ≡ s) × ((acc : List (ℕ × Task E)) → log_dispatched d t acc ≡ acc))
        ⊎ ((s' ≡ record s { shards = set_queue i (s.shards i ++ t ∷ []) s.shards })
            × (d ≡ accepted i))
  unfolding dispatch_to
  dispatch_to_effect takes_send waiting t i s s' d e = elim (Bool-cases s.shards_closed) [
    | inl closed ↦ inl (ground arith, λ acc. ground arith)
    | inr open_ ↦ inr (ground arith, ground arith)
  ]
  dispatch_to_effect takes_timer waiting t i s s' d e = inl (ground arith, λ acc. ground arith)
  dispatch_to_effect takes_dispatcher_done waiting t i s s' d e =
      inl (ground arith, λ acc. ground arith)
  dispatch_to_effect takes_ctx_done waiting t i s s' d e = inl (ground arith, λ acc. ground arith)
  dispatch_to_effect nil_ctx waiting t i s s' d e = inl (ground arith, λ acc. ground arith)

pub channel-insert :
    {E : Type 0} (id j : Text) (wr : ConnWriter E) (s : Sender E)
    → channel j (record s { writers = insert id wr s.writers })
      ≡ (if text_eq id j then wr.ch else channel j s)
channel-insert id j wr s = ground (arith, lookup-insert id j wr s.writers)

pub tasks_of-append :
    {E : Type 0} (i : ℕ) (a : Answer E) (han : List (ℕ × Answer E))
    → tasks_of (han ++ (i, a) ∷ []) ≡ tasks_of han ++ (i, a.0) ∷ []
tasks_of-append i a [] = refl
tasks_of-append i a ((j, b) ∷ han) = ap (λ es. (j, b.0) ∷ es) (tasks_of-append i a han)

module _ (w : World) {E : Type 0} where
  pub passed-append :
      (id : Text) (i : ℕ) (t : Task E) (e : Option (SendError E)) (han : List (ℕ × Answer E))
      → passed w id (han ++ (i, (t, e)) ∷ [])
        ≡ passed w id han ++ (if is_for w id t && is_nil e then t ∷ [] else [])
  passed-append id i t e [] = ground arith
  passed-append id i t e ((j, (t', e')) ∷ han) = ground (arith, passed-append id i t e han)

  -- getOrCreateWriter changes no queue.
  pub get_or_create_effect :
      (c : Ref) (s : Sender E)
      → let (wr, s') = get_or_create_writer w c s in
        (s'.shards ≡ s.shards)
        × (wr.ch ≡ channel (w.conn c).id s)
        × ((j : Text) → channel j s' ≡ channel j s)
  get_or_create_effect c s = elim (Option-cases (lookup (w.conn c).id s.writers)) [
    | inr (wr, e) ↦
        subst
          (λ r.
            (r.1.shards ≡ s.shards)
            × (r.0.ch ≡ channel (w.conn c).id s)
            × ((j : Text) → channel j r.1 ≡ channel j s))
          (sym (get_or_create_found w c wr s e)) (refl, rw (e, channel) refl, λ j. refl)
    | inl e ↦
        let fresh : ConnWriter E = record { owner = c; ch = []; stopped = false } in
        subst
          (λ r.
            (r.1.shards ≡ s.shards)
            × (r.0.ch ≡ channel (w.conn c).id s)
            × ((j : Text) → channel j r.1 ≡ channel j s))
          (sym (get_or_create_fresh w c s e))
          (
            refl,
            rw (e, channel) refl,
            λ j.
                channel-insert (w.conn c).id j fresh s
                ∙ ground (arith, text_eq_iff (w.conn c).id j),
          )
  ]

  -- What the worker of a shard adds to a queue of a writer.
  pub enqueue_effect :
      (pick : EnqueuePick) (cap timeout : ℕ) (t : Task E) (wr wr' : ConnWriter E)
      (e : Option (SendError E))
      → enqueue pick cap timeout t wr ≡ some (wr', e)
      → wr'.ch ≡ wr.ch ++ (if is_nil e then t ∷ [] else [])
  unfolding enqueue
  enqueue_effect sends cap timeout t wr wr' e r = elim (Bool-cases wr.stopped) [
    | inl closed ↦ ground (arith, append-nil wr.ch)
    | inr open_ ↦ ground arith
  ]
  enqueue_effect times_out cap timeout t wr wr' e r = ground (arith, append-nil wr.ch)

  pub channel_grows :
      (id j : Text) (t : Task E) (wr' : ConnWriter E) (s : Sender E) (b : Bool)
      → wr'.ch ≡ channel id s ++ (if b then t ∷ [] else [])
      → channel j (record s { writers = insert id wr' s.writers })
        ≡ channel j s ++ (if text_eq id j && b then t ∷ [] else [])
  channel_grows id j t wr' s b h = elim (Bool-cases (text_eq id j)) [
    | inl same ↦
        let j_is : id ≡ j = (text_eq_iff id j).0 same in
        channel-insert id j wr' s
        ∙ rw same (h ∙ ap (λ k. channel k s ++ (if b then t ∷ [] else [])) j_is)
    | inr differs ↦ channel-insert id j wr' s ∙ rw differs (sym (append-nil (channel j s)))
  ]

  -- The shards stay, and the queues grow as the answer tells.
  abbrev pub Grows : (Text → Bool) → Task E → Sender E → Sender E × Option (SendError E) → Type 0
  Grows to t s r =
      (r.0.shards ≡ s.shards)
      × ((j : Text) → channel j r.0 ≡ channel j s ++ (if to j && is_nil r.1 then t ∷ [] else []))

  pub hand_to_effect :
      (pick : EnqueuePick) (id : Text) (t : Task E) (wr : ConnWriter E) (s : Sender E)
      (r : Sender E × Option (SendError E))
      → wr.ch ≡ channel id s
      → hand_to w pick id t (wr, s) ≡ some r
      → Grows (text_eq id) t s r
  unfolding hand_to
  hand_to_effect pick id t wr s r h e =
      elim (Option-cases (enqueue pick s.writer_buffer s.timeout t wr)) [
        | inl blocked ↦ absurd (ground arith)
        | inr ((wr', x), got) ↦
            let result : (record s { writers = insert id wr' s.writers }, x) ≡ r = ground arith in
            subst (Grows (text_eq id) t s) result (
              refl,
              λ j. channel_grows id j t wr' s (is_nil x) (
                  enqueue_effect pick s.writer_buffer s.timeout t wr wr' x got
                  ∙ ap (λ q. q ++ (if is_nil x then t ∷ [] else [])) h),
            )
      ]

  pub is_for_known :
      (j : Text) (t : Task E) (c : Ref) → t.conn ≡ some c → is_for w j t ≡ text_eq (w.conn c).id j
  is_for_known j t c n = rw (n, is_for) refl

  pub is_for-none : (j : Text) (t : Task E) → t.conn ≡ none → is_for w j t ≡ false
  is_for-none j t n = rw (n, is_for) refl

  pub hand_over_effect :
      (pick : EnqueuePick) (t : Task E) (s : Sender E) (r : Sender E × Option (SendError E))
      → hand_over w pick t s ≡ some r
      → Grows (λ j. is_for w j t) t s r
  unfolding hand_over
  hand_over_effect pick t s r e = elim (Option-cases t.conn) [
    | inl n ↦
        let result : (s, none) ≡ r = ground arith in
        subst (Grows (λ j. is_for w j t) t s) result (
          refl,
          λ j.
              sym (append-nil (channel j s))
              ∙ ap (λ b. channel j s ++ (if b && true then t ∷ [] else []))
                  (sym (is_for-none j t n)),
        )
    | inr (c, n) ↦
        let (shards, own, others) = get_or_create_effect c s in
        let (wr, s') = get_or_create_writer w c s in
        let (kept, grown) =
          hand_to_effect pick (w.conn c).id t wr s' r (own ∙ sym (others (w.conn c).id))
            (sym (hand_over_eq w pick s c t n) ∙ e) in
        (
          kept ∙ shards,
          λ j.
              grown j
              ∙ (ap (λ q. q ++ (if text_eq (w.conn c).id j && is_nil r.1 then t ∷ [] else []))
                    (others j)
                  ∙ ap (λ b. channel j s ++ (if b && is_nil r.1 then t ∷ [] else []))
                      (sym (is_for_known j t c n))),
        )
  ]
