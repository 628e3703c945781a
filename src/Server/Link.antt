-- ===== src/Server/Link.antt =====
-- server/server.go: runParentLink, between the moves of the rest of the node.
use myflowhub_core.Common.{
  ℕ, List, [], ◌∷◌, ◌++◌, Option, none, some, Bool, true, false, ◌||◌, Text, text_instance, lookup,
  insert, ◌==◌, if◌then◌else◌,
}
use myflowhub_core.Conn.{Ref, string_value, meta_role_key, role_parent}
use myflowhub_core.ConnMgr.{World, Manager, ManagerError, add, remove}
use myflowhub_core.Server.{ParentState, set_conn, notify_down}

-- Where the goroutine of runParentLink stands.
pub data Phase : Type 0 where
  dialing sleeping stopped : Phase
  adding added : Ref → Phase
  waiting : Ref → ℕ → Phase

-- `shut` are the connections that the goroutine itself has closed.
pub record LinkState : Type 0 where
  pub world : World
  pub manager : Manager
  pub parent : ParentState
  pub phase : Phase
  pub cancelled : Bool
  pub shut : List Ref

-- The moves of the goroutine: the answer of the dial (an error and nil alike are `none`), Add,
-- setConn, the case of the select that waits for the channel, the end of the sleep and the test for
-- the context; then those of the others: a connection that leaves the manager (with the OnRemove
-- hook), one that joins it, and the cancel of the context.
pub data LinkMove : Type 0 where
  dials : Option Ref → LinkMove
  adds records wakes wakes_up sees_cancel cancels : LinkMove
  leaves : Text → LinkMove
  joins : Ref → LinkMove

abbrev pub contains : ℕ → List ℕ → Bool
contains n [] = false
contains n (m ∷ ms) = (n == m) || contains n ms

-- SetMeta of the role on the connection of the dial.
unfoldable pub as_parent : Ref → World → World
as_parent c w = record w {
  conn = λ r.
      if r == c
      then record (w.conn r) {
        meta = insert meta_role_key (string_value role_parent) (w.conn r).meta;
      }
      else w.conn r;
}

abbrev pub after_dial : Option Ref → LinkState → LinkState
after_dial none s = record s { phase = sleeping }
after_dial (some c) s = record s { world = as_parent c s.world; phase = adding c }

abbrev pub after_add : Ref → Manager × Option ManagerError → LinkState → LinkState
after_add c (m, none) s = record s { manager = m; phase = added c }
after_add c (m, some e) s = record s { phase = sleeping; shut = s.shut ++ c ∷ [] }

-- In each phase of the goroutine, the move that it can make.
unfoldable pub in_phase : Phase → LinkMove → LinkState → Option LinkState
unfolding add as_parent set_conn
in_phase dialing (dials answer) s = some (after_dial answer s)
in_phase dialing sees_cancel s = if s.cancelled then some (record s { phase = stopped }) else none
in_phase (adding c) adds s =
    let r = add s.world (some c) s.manager in some (after_add c (r.0, r.1) s)
in_phase (added c) records s =
    let r = set_conn (s.world.conn c).id s.parent in
    some (record s { parent = r.1; phase = waiting c r.0 })
in_phase (waiting c ch) wakes s =
    if contains ch s.parent.closed then some (record s { phase = sleeping }) else none
in_phase (waiting c ch) sees_cancel s =
    if s.cancelled then some (record s { phase = stopped; shut = s.shut ++ c ∷ [] }) else none
in_phase sleeping wakes_up s = some (record s { phase = dialing })
in_phase _ _ s = none

-- One move; `none` when it cannot be made.
unfoldable pub link_step : LinkMove → LinkState → Option LinkState
unfolding in_phase add remove notify_down
link_step (leaves id) s = some (elim (lookup id s.manager.conns) [
  | none ↦ s
  | some c ↦ record s {
    manager = (remove s.world id s.manager).0;
    parent = notify_down (s.world.conn c).id s.parent;
  }
])
link_step (joins c) s = some (record s { manager = (add s.world (some c) s.manager).0 })
link_step cancels s = some (record s { cancelled = true })
link_step move s = in_phase s.phase move s

unfoldable pub link_run : List LinkMove → LinkState → Option LinkState
unfolding link_step
link_run [] s = some s
link_run (m ∷ ms) s = elim (link_step m s) [ none ↦ none | some s' ↦ link_run ms s' ]

-- The state in a phase, before a cancel.
abbrev pub at : World → Manager → ParentState → Phase → LinkState
at w m p ph = record {
  world = w;
  manager = m;
  parent = p;
  phase = ph;
  cancelled = false;
  shut = [];
}
