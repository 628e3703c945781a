-- ===== src/Server/LostWakeup.antt =====
-- server/server.go: what is lost when the parent connection leaves the manager before runParentLink
-- has called setConn for it.
use myflowhub_core.Common.{
  ℕ, ◌≡◌, ◌≢◌, refl, sym, ap, ◌∙◌, subst, List, [], ◌∷◌, none, some, Bool, true, false, ◌&&◌, not,
  Text, text_instance, text_eq, text_eq_iff, lookup, lookup-erase, Option-cases, inl, inr, arith,
}
use myflowhub_core.Conn.{Ref}
use myflowhub_core.ConnMgr.{World, Manager, add, remove, get, purge}
use myflowhub_core.ConnMgr.Laws.{add_fresh}
use myflowhub_core.ConnMgr.Invariant.{IsConsistent}
use myflowhub_core.ConnMgr.Invariant.Reach.{add-IsConsistent, remove-IsConsistent}
use myflowhub_core.Server.{ParentState, set_conn, notify_down}
use myflowhub_core.Server.Link.{
  adding, added, waiting, LinkState, LinkMove, dials, adds, records, wakes, wakes_up, sees_cancel,
  cancels, leaves, joins, contains, link_step, link_run, in_phase, at,
}
use myflowhub_core.Server.Wakeups.{
  conns-remove_self, leaves_eq, leaves_missing, link_run_step, records_eq,
}

-- The moves of others that bring no connection with the ID of `c`, and no cancel.
abbrev pub quiet : World → Ref → LinkMove → Bool
quiet w c cancels = false
quiet w c (joins c') = not (text_eq (w.conn c').id (w.conn c).id)
quiet w c (dials answer) = true
quiet w c adds = true
quiet w c records = true
quiet w c wakes = true
quiet w c wakes_up = true
quiet w c sees_cancel = true
quiet w c (leaves id) = true

abbrev pub all_quiet : World → Ref → List LinkMove → Bool
all_quiet w c [] = true
all_quiet w c (m ∷ ms) = quiet w c m && all_quiet w c ms

-- The goroutine waits for a channel that is open, for a connection that is not in the manager.
record IsStuck (w : World) (m : Manager) (p : ParentState) (c : Ref) (ch : ℕ) : Type 0 where
  own : p.conn_id ≡ (w.conn c).id
  open_channel : contains ch p.closed ≡ false
  gone : lookup (w.conn c).id m.conns ≡ none
  consistent : IsConsistent w m

pub notify_other :
    (id : Text) (p : ParentState) → text_eq id p.conn_id ≡ false → notify_down id p ≡ p
unfolding notify_down
notify_other id p e = ground (arith, e)

pub remove_keeps_none :
    (w : World) (id j : Text) (m : Manager)
    → lookup j m.conns ≡ none
    → lookup j (remove w id m).0.conns ≡ none
unfolding remove purge
remove_keeps_none w id j m gone = elim (Option-cases (lookup id m.conns)) [
  | inl e ↦ rw (e, remove) gone
  | inr (c, e) ↦ rw (e, remove, purge) (ground (arith, lookup-erase id j m.conns))
]

text_eq-differs : (s t : Text) → text_eq s t ≡ false → t ≢ s
text_eq-differs s t e h = ground (arith, text_eq_iff s t)

pub add_other_keeps_none :
    (w : World) (c : Ref) (j : Text) (m : Manager)
    → text_eq (w.conn c).id j ≡ false
    → lookup j m.conns ≡ none
    → lookup j (add w (some c) m).0.conns ≡ none
unfolding add get
add_other_keeps_none w c j m other gone = elim (Option-cases (lookup (w.conn c).id m.conns)) [
  | inl e ↦ (add_fresh w c m e).1 j (text_eq-differs (w.conn c).id j other) ∙ gone
  | inr (d, e) ↦ rw (e, add) gone
]

-- What a move leaves of the state of `IsStuck`.
StillStuck : World → ParentState → Ref → ℕ → LinkState → Type 0
StillStuck w p c ch s = (m : Manager) × (s ≡ at w m p (waiting c ch)) × IsStuck w m p c ch

stuck_stays :
    (w : World) (m m' : Manager) (p : ParentState) (c : Ref) (ch : ℕ) (s' : LinkState)
    → IsStuck w m p c ch
    → IsConsistent w m'
    → lookup (w.conn c).id m'.conns ≡ none
    → some (at w m' p (waiting c ch)) ≡ some s'
    → StillStuck w p c ch s'
unfolding StillStuck
stuck_stays w m m' p c ch s' stuck ok gone e = (
  m',
  ground (arith, e),
  record { own = stuck.own; open_channel = stuck.open_channel; gone = gone; consistent = ok },
)

pub keys_differ :
    (i j : Text) (d : Ref) (m : Manager)
    → lookup i m.conns ≡ some d
    → lookup j m.conns ≡ none
    → text_eq i j ≡ false
keys_differ i j d m found gone =
    ground (arith, text_eq_iff i j, ap (λ k. lookup k m.conns), found, gone)

stuck_leaves :
    (w : World) (m : Manager) (p : ParentState) (c : Ref) (ch : ℕ) (id : Text) (s' : LinkState)
    → IsStuck w m p c ch
    → link_step (leaves id) (at w m p (waiting c ch)) ≡ some s'
    → StillStuck w p c ch s'
stuck_leaves w m p c ch id s' stuck e = elim (Option-cases (lookup id m.conns)) [
  | inl missing ↦
      stuck_stays w m m p c ch s' stuck stuck.consistent stuck.gone
        (sym (leaves_missing w m p (waiting c ch) id missing) ∙ e)
  | inr (d, found) ↦
      let named = stuck.consistent.own_id id d found in
      let other : text_eq (w.conn d).id p.conn_id ≡ false =
        keys_differ (w.conn d).id p.conn_id d m
          (subst (λ j. lookup j m.conns ≡ some d) (sym named) found)
          (subst (λ j. lookup j m.conns ≡ none) (sym stuck.own) stuck.gone) in
      stuck_stays w m (remove w id m).0 p c ch s' stuck
        (remove-IsConsistent w id m stuck.consistent)
        (remove_keeps_none w id (w.conn c).id m stuck.gone)
        (ap (λ q. some (at w (remove w id m).0 q (waiting c ch)))
            (sym (notify_other (w.conn d).id p other))
          ∙ sym (leaves_eq w m p (waiting c ch) id d found)
          ∙ e)
]

stuck_step :
    (w : World) (m : Manager) (p : ParentState) (c : Ref) (ch : ℕ) (move : LinkMove)
    (s' : LinkState)
    → IsStuck w m p c ch
    → quiet w c move ≡ true
    → link_step move (at w m p (waiting c ch)) ≡ some s'
    → StillStuck w p c ch s'
unfolding link_step in_phase
stuck_step w m p c ch (leaves id) s' stuck q e = stuck_leaves w m p c ch id s' stuck e
stuck_step w m p c ch (joins c') s' stuck q e =
    let other : text_eq (w.conn c').id (w.conn c).id ≡ false = ground (arith, q) in
    stuck_stays w m (add w (some c') m).0 p c ch s' stuck
      (add-IsConsistent w (some c') m stuck.consistent)
      (add_other_keeps_none w c' (w.conn c).id m other stuck.gone) e
stuck_step w m p c ch cancels s' stuck q e = ground arith
stuck_step w m p c ch (dials answer) s' stuck q e = ground arith
stuck_step w m p c ch adds s' stuck q e = ground arith
stuck_step w m p c ch records s' stuck q e = ground arith
stuck_step w m p c ch wakes s' stuck q e = let shut = stuck.open_channel in ground (arith, shut, e)
stuck_step w m p c ch wakes_up s' stuck q e = ground arith
stuck_step w m p c ch sees_cancel s' stuck q e = ground arith

all_quiet-head :
    (w : World) (c : Ref) (m : LinkMove) (ms : List LinkMove)
    → all_quiet w c (m ∷ ms) ≡ true
    → quiet w c m ≡ true
all_quiet-head w c m ms q = ground (arith, q)

all_quiet-tail :
    (w : World) (c : Ref) (m : LinkMove) (ms : List LinkMove)
    → all_quiet w c (m ∷ ms) ≡ true
    → all_quiet w c ms ≡ true
all_quiet-tail w c m ms q = ground (arith, q)

stuck_run :
    (w : World) (p : ParentState) (c : Ref) (ch : ℕ) (ms : List LinkMove) (s s' : LinkState)
    → StillStuck w p c ch s
    → all_quiet w c ms ≡ true
    → link_run ms s ≡ some s'
    → StillStuck w p c ch s'
unfolding link_run StillStuck
stuck_run w p c ch [] s s' stuck q e = subst (StillStuck w p c ch) (ground (arith, e)) stuck
stuck_run w p c ch (move ∷ ms) s s' (m, eq, stuck) q e = elim (Option-cases (link_step move s)) [
  | inl stops ↦ ground arith
  | inr (s1, steps) ↦
      let one =
        stuck_step w m p c ch move s1 stuck (all_quiet-head w c move ms q)
          (subst (λ z. link_step move z ≡ some s1) eq steps) in
      stuck_run w p c ch ms s1 s' one (all_quiet-tail w c move ms q)
        (sym (link_run_step move ms s s1 steps) ∙ e)
]

adds_eq :
    (w : World) (m : Manager) (p : ParentState) (c : Ref)
    → (add w (some c) m).1 ≡ none
    → link_step adds (at w m p (adding c)) ≡ some (at w (add w (some c) m).0 p (added c))
unfolding link_step in_phase
adds_eq w m p c e = rw (link_step, in_phase, e) refl

-- The state after Add, the removal and setConn.
gets-IsStuck :
    (w : World) (m : Manager) (p : ParentState) (c : Ref)
    → IsConsistent w m
    → get (w.conn c).id m ≡ none
    → text_eq (w.conn c).id p.conn_id ≡ false
    → contains p.made p.closed ≡ false
    → let id = (w.conn c).id in
      (m2 : Manager) × ((ms : List LinkMove)
        → link_run (adds ∷ leaves id ∷ records ∷ ms) (at w m p (adding c))
          ≡ link_run ms (at w m2 (set_conn id p).1 (waiting c p.made)))
      × IsStuck w m2 (set_conn id p).1 c p.made
unfolding get set_conn
gets-IsStuck w m p c ok fresh other unused =
    let id = (w.conn c).id in
    let (found, _, _, _, _, done, _) = add_fresh w c m fresh in
    let m1 = (add w (some c) m).0 in
    let m2 = (remove w id m1).0 in
    let leave =
      leaves_eq w m1 p (added c) id c found
      ∙ ap (λ q. some (at w m2 q (added c))) (notify_other id p other) in
    (
      m2,
      λ ms.
          link_run_step adds (leaves id ∷ records ∷ ms) (at w m p (adding c)) (at w m1 p (added c))
            (adds_eq w m p c done)
          ∙ link_run_step (leaves id) (records ∷ ms) (at w m1 p (added c)) (at w m2 p (added c))
              leave
          ∙ link_run_step records ms (at w m2 p (added c))
              (at w m2 (set_conn id p).1 (waiting c p.made)) (records_eq w m2 p c),
      record {
        own = refl;
        open_channel = unused;
        gone = conns-remove_self w c c m1 found;
        consistent = remove-IsConsistent w id m1 (add-IsConsistent w (some c) m ok);
      },
    )

still :
    (w : World) (m : Manager) (p : ParentState) (c : Ref) (ch : ℕ)
    → IsStuck w m p c ch
    → StillStuck w p c ch (at w m p (waiting c ch))
unfolding StillStuck
still w m p c ch stuck = (m, refl, stuck)

sleeps_on :
    (w : World) (p : ParentState) (c : Ref) (ch : ℕ) (s : LinkState)
    → StillStuck w p c ch s
    → (s.phase ≡ waiting c ch) × (get (w.conn c).id s.manager ≡ none) × (link_step wakes s ≡ none)
unfolding StillStuck link_step in_phase get
sleeps_on w p c ch s (m, e, stuck) =
    let shut = stuck.open_channel in
    subst
      (λ z.
        (z.phase ≡ waiting c ch)
        × (get (w.conn c).id z.manager ≡ none)
        × (link_step wakes z ≡ none))
      (sym e) (refl, stuck.gone, rw (link_step, in_phase, shut) refl)

-- Between the Add of a new parent connection and the call of setConn for it, the connection can
-- leave the manager: then the goroutine waits for a channel that nobody closes. Whatever follows,
-- as long as the context is not cancelled and no connection with the same ID joins, it goes on
-- waiting for the connection that is gone. The Add succeeds, the ID is not that of the connection
-- before it, and the number of the next channel is not that of a closed one.
pub lost_wakeup :
    (w : World) (m : Manager) (p : ParentState) (c : Ref) (ms : List LinkMove) (s' : LinkState)
    → IsConsistent w m
    → get (w.conn c).id m ≡ none
    → text_eq (w.conn c).id p.conn_id ≡ false
    → contains p.made p.closed ≡ false
    → all_quiet w c ms ≡ true
    → link_run (adds ∷ leaves (w.conn c).id ∷ records ∷ ms) (at w m p (adding c)) ≡ some s'
    → (s'.phase ≡ waiting c p.made)
      × (get (w.conn c).id s'.manager ≡ none)
      × (link_step wakes s' ≡ none)
lost_wakeup w m p c ms s' ok fresh other unused q e =
    let (m2, runs, stuck) = gets-IsStuck w m p c ok fresh other unused in
    let p2 = (set_conn (w.conn c).id p).1 in
    let start = at w m2 p2 (waiting c p.made) in
    sleeps_on w p2 c p.made s'
      (stuck_run w p2 c p.made ms start s' (still w m2 p2 c p.made stuck) q (sym (runs ms) ∙ e))
