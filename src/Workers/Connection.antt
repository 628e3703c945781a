-- ===== src/Workers/Connection.antt =====
-- The frames of one connection keep their order under ConnHashStrategy.
use myflowhub_core.Common.{
  ℕ, ◌≡◌, refl, ap, ◌∙◌, List, [], ◌∷◌, ◌++◌, map, Option, none, some, Bool, false, Text, filter,
  text_eq, text_eq_iff, All, ==_iff, Bool-cases, List-cases, Option-cases, inl, inr, arith, subst,
}
use myflowhub_core.Header.{IHeader}
use myflowhub_core.Common.{of_queue, has_room}
use myflowhub_core.Queues.{conn_hash, conn_hash_queue, select_queue}
use myflowhub_core.Workers.{Event, Options, Pool, new_pool, Outcome, offer, on_receive, take_event}
use myflowhub_core.Workers.Order.{logged, Reach, start, receives, takes, queue_order}

abbrev is_from : Text → Option Text → Bool
is_from id none = false
is_from id (some t) = text_eq t id

-- The events of one connection.
abbrev pub from_conn : Text → List Event → List Event
from_conn id es = filter (λ e. is_from id e.conn_id) es

abbrev pub events : List (ℕ × Event) → List Event
events es = map (λ x. x.1) es

-- The queue of a connection among `n`.
abbrev pub home : ℕ → Text → ℕ
home n id = conn_hash_queue (some id) none n

-- An event with a connection is in the queue of that connection.
abbrev IsHome : ℕ → ℕ × Event → Type 0
IsHome n x = (id : Text) → x.1.conn_id ≡ some id → x.0 ≡ home n id

from_conn-of_queue :
    (n : ℕ) (id : Text) (es : List (ℕ × Event))
    → All (IsHome n) es
    → from_conn id (of_queue (home n id) es) ≡ from_conn id (events es)
from_conn-of_queue n id [] h = refl
from_conn-of_queue n id ((j, e) ∷ es) (h, hs) = elim (Option-cases e.conn_id) [
  | inl nobody ↦ ground (arith, from_conn-of_queue n id es hs)
  | inr (t, known) ↦ elim (Bool-cases (text_eq t id)) [
    | inl same ↦
        let here : j ≡ home n id = h id (known ∙ ap (λ x. some x) ((text_eq_iff t id).0 same)) in
        ground (arith, from_conn-of_queue n id es hs, here, ==_iff j (home n id))
    | inr other ↦ ground (arith, from_conn-of_queue n id es hs)
  ]
]

All-append :
    {A : Type 0} (P : A → Type 0) (xs : List A) (x : A) → All P xs → P x → All P (xs ++ x ∷ [])
All-append P [] x h hx = (hx, tt)
All-append P (y ∷ ys) x (h, hs) hx = (h, All-append P ys x hs hx)

-- A dispatcher that queues by connection, with its log.
record IsByConn (n : ℕ) (p : Pool) (entered : List (ℕ × Event)) : Type 0 where
  by_conn : p.strategy ≡ conn_hash
  same_count : p.chan_count ≡ n
  homes : All (IsHome n) entered

conn_hash_home :
    (cid : Option Text) (hdr : Option IHeader) (n : ℕ) (id : Text)
    → cid ≡ some id
    → (select_queue conn_hash cid hdr n).0 ≡ home n id
unfolding select_queue conn_hash_queue
conn_hash_home cid hdr n id e = rw e refl

offer-IsByConn :
    (done waiting : Bool) (e : Event) (p : Pool) (idx n : ℕ) (entered : List (ℕ × Event))
    → IsByConn n p entered
    → IsHome n (idx, e)
    → let r = offer done waiting e idx p in IsByConn n r.0 (logged r.1 e entered)
unfolding offer
offer-IsByConn done waiting e p idx n entered h home_ = elim (Bool-cases done) [
  | inl d ↦ rw d h
  | inr d ↦ elim (Bool-cases (has_room waiting p.buffer (p.queue idx))) [
    | inl room ↦
        rw (d, room)
          (record {
            by_conn = h.by_conn;
            same_count = h.same_count;
            homes = All-append (IsHome n) entered (idx, e) h.homes home_;
          })
    | inr full ↦ rw (d, full) h
  ]
]

on_receive-IsByConn :
    (done waiting : Bool) (e : Event) (p p' : Pool) (out : Outcome) (n : ℕ)
    (entered : List (ℕ × Event))
    → IsByConn n p entered
    → on_receive done waiting e p ≡ some (p', out)
    → IsByConn n p' (logged out e entered)
unfolding on_receive select_queue
on_receive-IsByConn done waiting e p p' out n entered h r =
    let (idx, s) = select_queue p.strategy e.conn_id e.hdr p.chan_count in
    let offered : offer done waiting e idx (record p { strategy = s }) ≡ (p', out) =
      ground (arith, r) in
    let kept : s ≡ conn_hash = rw h.by_conn refl in
    subst (λ x. IsByConn n x.0 (logged x.1 e entered)) offered
      (offer-IsByConn done waiting e (record p { strategy = s }) idx n entered
        (record { by_conn = kept; same_count = h.same_count; homes = h.homes })
        (λ id known. rw (h.by_conn, h.same_count) (conn_hash_home e.conn_id e.hdr n id known)))

take_event-IsByConn :
    (i : ℕ) (p : Pool) (n : ℕ) (entered : List (ℕ × Event))
    → IsByConn n p entered
    → IsByConn n (take_event i p).0 entered
unfolding take_event
take_event-IsByConn i p n entered h = elim (List-cases (p.queue i)) [
  | inl e ↦ rw (e, take_event) h
  | inr (d, q, e) ↦
      rw (e, take_event)
        (record { by_conn = h.by_conn; same_count = h.same_count; homes = h.homes })
]

Reach-IsByConn :
    {o : Options} {p : Pool} {entered left : List (ℕ × Event)}
    → (new_pool o).strategy ≡ conn_hash
    → Reach o p entered left
    → IsByConn (new_pool o).chan_count p entered
Reach-IsByConn s start = record { by_conn = s; same_count = refl; homes = tt }
Reach-IsByConn {o} s (receives {p} {p'} {out} {entered} done waiting e r step) =
    on_receive-IsByConn done waiting e p p' out (new_pool o).chan_count entered (Reach-IsByConn s r)
      step
Reach-IsByConn {o} s (takes {p} {entered} i r) =
    take_event-IsByConn i p (new_pool o).chan_count entered (Reach-IsByConn s r)

-- A dispatcher that queues by connection keeps the order of each connection: its events that workers
-- have taken from its queue, followed by those that still wait there, are all its events that got
-- into any queue, in the order in which they came.
pub connection_order :
    {o : Options} {p : Pool} {entered left : List (ℕ × Event)}
    → (new_pool o).strategy ≡ conn_hash
    → Reach o p entered left
    → (id : Text)
    → let i = home (new_pool o).chan_count id in
      from_conn id (of_queue i left ++ p.queue i) ≡ from_conn id (events entered)
connection_order {o} {p} {entered} {left} s r id =
    ap (from_conn id) (queue_order r (home (new_pool o).chan_count id))
    ∙ from_conn-of_queue (new_pool o).chan_count id entered (Reach-IsByConn s r).homes
