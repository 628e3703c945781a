-- ===== src/Server/Wakeups.antt =====
-- server/server.go: what wakes runParentLink when its connection leaves the manager.
use myflowhub_core.Common.{
  ℕ, ◌≡◌, refl, List, ◌∷◌, none, some, true, false, Text, text_instance, text_eq_refl, lookup,
  lookup-erase, is_empty, arith,
}
use myflowhub_core.Conn.{Ref}
use myflowhub_core.ConnMgr.{World, Manager, remove, purge}
use myflowhub_core.Server.{ParentState, set_conn, notify_down}
use myflowhub_core.Server.Link.{
  Phase, sleeping, added, waiting, LinkState, LinkMove, records, wakes, leaves, contains, link_step,
  link_run, in_phase, at,
}

-- A removal of the connection `c` from the manager.
pub conns-remove_self :
    (w : World) (c r : Ref) (m : Manager)
    → lookup (w.conn c).id m.conns ≡ some r
    → lookup (w.conn c).id (remove w (w.conn c).id m).0.conns ≡ none
unfolding remove purge
conns-remove_self w c r m e =
    rw (e, remove, purge)
      (ground (arith, lookup-erase (w.conn c).id (w.conn c).id m.conns, text_eq_refl (w.conn c).id))

pub leaves_eq :
    (w : World) (m : Manager) (p : ParentState) (ph : Phase) (id : Text) (c : Ref)
    → lookup id m.conns ≡ some c
    → link_step (leaves id) (at w m p ph)
      ≡ some (at w (remove w id m).0 (notify_down (w.conn c).id p) ph)
unfolding link_step
leaves_eq w m p ph id c e = rw (e, link_step) refl

pub leaves_missing :
    (w : World) (m : Manager) (p : ParentState) (ph : Phase) (id : Text)
    → lookup id m.conns ≡ none
    → link_step (leaves id) (at w m p ph) ≡ some (at w m p ph)
unfolding link_step
leaves_missing w m p ph id e = rw (e, link_step) refl

-- setConn, then notifyDown for the same connection: its channel is closed.
pub notify-set_conn :
    (id : Text) (p : ParentState)
    → is_empty id ≡ false
    → contains p.made (notify_down id (set_conn id p).1).closed ≡ true
unfolding notify_down set_conn
notify-set_conn id p e = ground (arith, text_eq_refl id)

pub link_run_step :
    (move : LinkMove) (ms : List LinkMove) (s s1 : LinkState)
    → link_step move s ≡ some s1
    → link_run (move ∷ ms) s ≡ link_run ms s1
unfolding link_run
link_run_step move ms s s1 e = rw (e, link_run) refl

pub wakes_eq :
    (w : World) (m : Manager) (p : ParentState) (c : Ref) (ch : ℕ)
    → contains ch p.closed ≡ true
    → link_step wakes (at w m p (waiting c ch)) ≡ some (at w m p sleeping)
unfolding link_step in_phase
wakes_eq w m p c ch e = rw (link_step, in_phase, e) refl

pub records_eq :
    (w : World) (m : Manager) (p : ParentState) (c : Ref)
    → link_step records (at w m p (added c))
      ≡ some (at w m (set_conn (w.conn c).id p).1 (waiting c p.made))
unfolding link_step in_phase set_conn
records_eq w m p c = refl
