-- ===== src/Server/Recovery.antt =====
-- server/server.go: runParentLink dials again when its connection has left the manager.
use myflowhub_core.Common.{
  ℕ, ◌≡◌, refl, ◌∙◌, List, [], ◌∷◌, ◌++◌, none, some, true, false, All, text_instance, lookup,
  is_empty,
}
use myflowhub_core.Conn.{Ref}
use myflowhub_core.ConnMgr.{World, Manager, remove, get}
use myflowhub_core.ConnMgr.Invariant.{IsConsistent}
use myflowhub_core.Server.{ParentState, set_conn, notify_down}
use myflowhub_core.Server.Link.{
  dialing, sleeping, added, waiting, LinkState, LinkMove, records, wakes, wakes_up, leaves,
  contains, link_step, link_run, in_phase, at,
}
use myflowhub_core.Server.Wakeups.{
  conns-remove_self, leaves_eq, link_run_step, records_eq, wakes_eq, notify-set_conn,
}
use myflowhub_core.Server.Meanwhile.{IsBeside, IsAfter, beside_run, After-run}

wakes_last :
    (w : World) (m : Manager) (p : ParentState) (c : Ref) (ch : ℕ)
    → contains ch p.closed ≡ true
    → link_run (wakes ∷ wakes_up ∷ []) (at w m p (waiting c ch)) ≡ some (at w m p dialing)
unfolding link_run link_step in_phase
wakes_last w m p c ch has =
    link_run_step wakes (wakes_up ∷ []) (at w m p (waiting c ch)) (at w m p sleeping)
      (wakes_eq w m p c ch has)
    ∙ refl

records_first :
    (w : World) (m : Manager) (p : ParentState) (c : Ref) (ms : List LinkMove)
    → link_run (records ∷ ms) (at w m p (added c))
      ≡ link_run ms (at w m (set_conn (w.conn c).id p).1 (waiting c p.made))
records_first w m p c ms =
    link_run_step records ms (at w m p (added c))
      (at w m (set_conn (w.conn c).id p).1 (waiting c p.made)) (records_eq w m p c)

-- Once setConn has been called for a parent connection that a consistent manager holds under an ID
-- that is not empty, its leaving the manager wakes the goroutine, which sleeps and dials again,
-- and the connection is gone from the manager. Between setConn and the leaving any connections may
-- join the manager and any with other IDs may leave it; between the leaving and the wakeup any may
-- leave and any with other IDs may join.
pub parent_link_recovers :
    (w : World) (m : Manager) (p : ParentState) (c : Ref) (before after : List LinkMove)
    → IsConsistent w m
    → lookup (w.conn c).id m.conns ≡ some c
    → is_empty (w.conn c).id ≡ false
    → All (IsBeside (w.conn c).id) before
    → All (IsAfter w (w.conn c).id) after
    → (s' : LinkState) × (link_run
          (records ∷ (before ++ (leaves (w.conn c).id ∷ (after ++ (wakes ∷ wakes_up ∷ [])))))
          (at w m p (added c))
        ≡ some s')
      × (s'.phase ≡ dialing)
      × (get (w.conn c).id s'.manager ≡ none)
unfolding get set_conn
parent_link_recovers w m p c before after ok found named befores afters =
    let id = (w.conn c).id in
    let ch = p.made in
    let p1 = (set_conn id p).1 in
    let tail = wakes ∷ wakes_up ∷ [] in
    let (m1, run1, k) =
      beside_run w id c before (leaves id ∷ (after ++ tail)) m p1 (waiting c ch) befores refl
        (record { consistent = ok; here = found }) in
    let m2 = (remove w id m1).0 in
    let p2 = notify_down id p1 in
    let (m3, p3, run3, has, gone) =
      After-run w id c after tail m2 p2 (waiting c ch) ch afters (notify-set_conn id p named)
        (conns-remove_self w c c m1 k.here) in
    (
      at w m3 p3 dialing,
      records_first w m p c (before ++ (leaves id ∷ (after ++ tail)))
          ∙ run1
          ∙ link_run_step (leaves id) (after ++ tail) (at w m1 p1 (waiting c ch))
              (at w m2 p2 (waiting c ch)) (leaves_eq w m1 p1 (waiting c ch) id c k.here)
          ∙ run3
          ∙ wakes_last w m3 p3 c ch has,
      refl,
      gone,
    )
