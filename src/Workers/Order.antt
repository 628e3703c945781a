-- ===== src/Workers/Order.antt =====
-- No event is lost between a queue and its workers, and none overtakes another of its queue.
use myflowhub_core.Common.{
  ℕ, ◌<◌, ◌^◌, ◌≡◌, refl, sym, ap, ◌∙◌, List, [], ◌∷◌, ◌++◌, Option, none, some, Bool, true, ◌==◌,
  ltb, List-cases, Bool-cases, inl, inr, arith, subst,
}
use myflowhub_core.Common.{
  set_queue, has_room, of_queue, only_if, of_queue-append, set_queue_adds, set_queue_takes,
}
use myflowhub_core.Queues.{select_queue}
use myflowhub_core.Queues.Bounds.{select_queue-lt}
use myflowhub_core.Workers.{
  Event, Options, Pool, new_pool, Outcome, queued, dropped, cancelled, offer, on_receive,
  take_event,
}

offer_keeps :
    (done waiting : Bool) (e : Event) (idx : ℕ) (p : Pool)
    → let p' = (offer done waiting e idx p).0 in
      (p'.chan_count ≡ p.chan_count) × (p'.buffer ≡ p.buffer) × (p'.strategy ≡ p.strategy)
unfolding offer
offer_keeps done waiting e idx p = (ground arith, ground arith, ground arith)

-- With at least one queue and less than 2^32, OnReceive does not panic: it does what the select does
-- on the queue that the strategy has chosen.
pub on_receive_eq :
    (done waiting : Bool) (e : Event) (p : Pool)
    → 0 < p.chan_count
    → p.chan_count < 2 ^ 32
    → let (idx, s) = select_queue p.strategy e.conn_id e.hdr p.chan_count in
      on_receive done waiting e p ≡ some (offer done waiting e idx (record p { strategy = s }))
unfolding on_receive
on_receive_eq done waiting e p h b =
    let lt = select_queue-lt p.strategy e.conn_id e.hdr p.chan_count h b in
    let small : ltb (select_queue p.strategy e.conn_id e.hdr p.chan_count).0 p.chan_count ≡ true =
      ground (arith, lt) in
    rw small refl

-- The log of the events that got into a queue.
abbrev pub logged : Outcome → Event → List (ℕ × Event) → List (ℕ × Event)
logged (queued i) e es = es ++ (i, e) ∷ []
logged (dropped i) e es = es
logged cancelled e es = es

abbrev pub logged_taken : ℕ → Option Event → List (ℕ × Event) → List (ℕ × Event)
logged_taken i none es = es
logged_taken i (some e) es = es ++ (i, e) ∷ []

-- What calls of OnReceive and turns of workers make of a new dispatcher, in any order, with the
-- events that got into a queue and those that a worker took.
pub data Reach (o : Options) : Pool → List (ℕ × Event) → List (ℕ × Event) → Type 0 where
  start : Reach o (new_pool o) [] []
  receives :
      {p p' : Pool} {out : Outcome} {entered left : List (ℕ × Event)} (done waiting : Bool)
      (e : Event)
      → Reach o p entered left
      → on_receive done waiting e p ≡ some (p', out)
      → Reach o p' (logged out e entered) left
  takes :
      {p : Pool} {entered left : List (ℕ × Event)} (i : ℕ)
      → Reach o p entered left
      → Reach o (take_event i p).0 entered (logged_taken i (take_event i p).1 left)

module _ (done waiting : Bool) (e : Event) (entered : List (ℕ × Event)) (i : ℕ) where
  -- What one call of OnReceive adds to a queue.
  offer_adds :
      (p : Pool) (idx : ℕ) (gone : List Event)
      → gone ++ p.queue i ≡ of_queue i entered
      → let r = offer done waiting e idx p in
        gone ++ r.0.queue i ≡ of_queue i (logged r.1 e entered)
  unfolding offer
  offer_adds p idx gone h = elim (Bool-cases done) [
    | inl d ↦ rw d h
    | inr d ↦ elim (Bool-cases (has_room waiting p.buffer (p.queue idx))) [
      | inl room ↦
          rw (d, room)
            (set_queue_adds p.queue idx i e gone
              ∙ (ap (λ q. q ++ only_if (idx == i) e) h ∙ sym (of_queue-append i idx e entered)))
      | inr full ↦ rw (d, full) h
    ]
  ]

  on_receive_adds :
      (p p' : Pool) (out : Outcome) (gone : List Event)
      → on_receive done waiting e p ≡ some (p', out)
      → gone ++ p.queue i ≡ of_queue i entered
      → gone ++ p'.queue i ≡ of_queue i (logged out e entered)
  unfolding on_receive
  on_receive_adds p p' out gone r h =
      let (idx, s) = select_queue p.strategy e.conn_id e.hdr p.chan_count in
      let offered : offer done waiting e idx (record p { strategy = s }) ≡ (p', out) =
        ground (arith, r) in
      subst (λ x. gone ++ x.0.queue i ≡ of_queue i (logged x.1 e entered)) offered
        (offer_adds (record p { strategy = s }) idx gone h)

take_event_takes :
    (p : Pool) (i j : ℕ) (left : List (ℕ × Event))
    → of_queue i (logged_taken j (take_event j p).1 left) ++ (take_event j p).0.queue i
      ≡ of_queue i left ++ p.queue i
unfolding take_event
take_event_takes p i j left = elim (List-cases (p.queue j)) [
  | inl e ↦ rw (e, take_event) refl
  | inr (d, q, e) ↦
      rw (e, take_event)
        (ap (λ x. x ++ set_queue j q p.queue i) (of_queue-append i j d left)
          ∙ set_queue_takes p.queue j i d q (of_queue i left) e)
]

-- No event is lost, doubled or overtaken: of each queue, the events taken so far followed by those
-- that still wait are those that got into it, in the order in which they came.
pub queue_order :
    {o : Options} {p : Pool} {entered left : List (ℕ × Event)}
    → Reach o p entered left
    → (i : ℕ) → of_queue i left ++ p.queue i ≡ of_queue i entered
unfolding new_pool
queue_order start i = refl
queue_order (receives {p} {p'} {out} {entered} {left} done waiting e r step) i =
    on_receive_adds done waiting e entered i p p' out (of_queue i left) step (queue_order r i)
queue_order (takes {p} {entered} {left} j r) i = take_event_takes p i j left ∙ queue_order r i
