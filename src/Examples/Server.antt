-- ===== src/Examples/Server.antt =====
-- The server of the hub: its parent link, frames that it sends, and a connection that ends.
use myflowhub_core.Common.{
  ℕ, Result, ok, ◌≡◌, ◌≢◌, refl, List, [], ◌∷◌, ◌++◌, Option, none, some, Bool, true, false, codes,
  lookup, insert, erase, text_instance, nat_instance, set_queue,
}
use myflowhub_core.Header.{
  IHeader, tcp, zero_header, default_hop_limit, get_hop_limit, get_trace_id, with_trace_id,
}
use myflowhub_core.Conn.{Ref, extract_conn_node_id}
use myflowhub_core.ConnMgr.{Manager, get, add, remove}
use myflowhub_core.ConnMgr.Invariant.{IsConsistent}
use myflowhub_core.Stream.{tcp_codec}
use myflowhub_core.Sender.{Sender, Task, new_sender, select_shard}
use myflowhub_core.Sender.Steps.{
  close_conn, DispatchPick, Dispatched, takes_send, accepted, dispatch, dispatch_to,
}
use myflowhub_core.Server.{
  ParentState, Server, ConnClosed, notify_down, removed, run_hooks, next_trace_id, fill_header,
  task_of, send_filled, send, dispatched, serve_end,
}
use myflowhub_core.Server.Link.{
  LinkState, LinkMove, dialing, adding, added, waiting, adds, records, leaves, joins, wakes,
  wakes_up, link_run, link_step, in_phase, at, contains,
}
use myflowhub_core.Server.Recovery.{parent_link_recovers}
use myflowhub_core.Server.LostWakeup.{lost_wakeup}
use myflowhub_core.Server.Sending.{send_queues, SameRoute}
use myflowhub_core.Server.Removal.{serve_end_lem}
use myflowhub_core.Server.Broadcast.{
  server_broadcast, broadcast_to, first_error, tasks_for, broadcast_reaches,
}
use myflowhub_core.Examples.ConnMgr.{hub, two_children, two_children-IsConsistent}
use myflowhub_core.Examples.Sender.{options}

abbrev parent : ParentState
parent = record {
  config = record { enable = true; addr = codes "10.0.0.1:9000"; reconnect = 3 };
  conn_id = [];
  down = none;
  made = 4;
  closed = 2 ∷ [];
}

parent_link_recovers_example :
    (s' : LinkState) × (link_run
        (records
          ∷ leaves (codes "old")
          ∷ joins 0
          ∷ leaves (codes "up")
          ∷ joins 1
          ∷ wakes
          ∷ wakes_up
          ∷ [])
        (at hub two_children parent (added 3))
      ≡ some s')
    × (s'.phase ≡ dialing)
    × (get (codes "up") s'.manager ≡ none)
unfolding lookup
parent_link_recovers_example =
    parent_link_recovers hub two_children parent 3 (leaves (codes "old") ∷ joins 0 ∷ [])
      (joins 1 ∷ []) two_children-IsConsistent refl refl ((λ e. cc e), (tt, tt)) ((λ e. cc e), tt)

abbrev moves : List LinkMove
moves = leaves (codes "old") ∷ joins 1 ∷ []

abbrev or_start : Option LinkState → LinkState
or_start none = at hub two_children parent (adding 0)
or_start (some s) = s

-- Connection 0, "zero", leaves between Add and setConn.
abbrev stuck : LinkState
stuck = or_start (
    link_run (adds ∷ leaves (codes "zero") ∷ records ∷ moves)
      (at hub two_children parent (adding 0)))

stuck_run :
    link_run
      (adds ∷ leaves (codes "zero") ∷ records ∷ moves)
      (at hub two_children parent (adding 0))
    ≡ some stuck
unfolding link_run link_step in_phase add remove lookup insert erase
stuck_run = refl

lost_wakeup_example :
    (stuck.phase ≡ waiting 0 4)
    × (get (codes "zero") stuck.manager ≡ none)
    × (link_step wakes stuck ≡ none)
unfolding get lookup
lost_wakeup_example =
    lost_wakeup hub two_children parent 0 moves stuck two_children-IsConsistent refl refl refl refl
      stuck_run

abbrev hooked : Manager
hooked = record two_children { hooks = record { on_add = true; on_remove = true } }

abbrev node : Server ℕ
node = record {
  cm = hooked;
  sender = new_sender options;
  parent = record parent { conn_id = codes "up"; down = some 3 };
  node_id = 1;
  trace_seq = 8;
  proc_closed = [];
  events = [];
}

hooked-IsConsistent : IsConsistent hub hooked
hooked-IsConsistent =
    let v = two_children-IsConsistent in
    record {
      conns_unique = v.conns_unique;
      nodes_unique = v.nodes_unique;
      devs_unique = v.devs_unique;
      own_id = v.own_id;
      nodes_managed = v.nodes_managed;
      devs_managed = v.devs_managed;
    }

-- A bus that takes no event: it is closed, or the context is done.
abbrev deaf : ConnClosed → Bool
deaf e = false

unheard : (serve_end hub deaf (codes "old") node).events ≡ []
unfolding serve_end remove run_hooks removed close_conn notify_down extract_conn_node_id lookup
unheard = refl

abbrev hears : ConnClosed → Bool
hears e = true

serve_end_lem_example :
    let s' = serve_end hub hears (codes "up") node in
    (get (codes "up") s'.cm ≡ none)
    × (lookup (codes "up") s'.sender.writers ≡ none)
    × (s'.proc_closed ≡ 3 ∷ [])
    × (s'.events
        ≡ record { closed_id = codes "up"; closed_node = extract_conn_node_id (some (hub.conn 3)) }
          ∷ [])
    × ((ch : ℕ)
        → node.parent.conn_id ≡ codes "up"
        → node.parent.down ≡ some ch
        → (contains ch s'.parent.closed ≡ true) × (s'.parent.down ≡ none))
    × (node.parent.conn_id ≢ codes "up" → s'.parent ≡ node.parent)
unfolding get lookup
serve_end_lem_example =
    serve_end_lem hub hears (codes "up") 3 node hooked-IsConsistent refl refl refl

-- A process that marks each header that it sends.
marks : Ref → IHeader → List ℕ → Result ℕ (IHeader × List ℕ)
marks c h payload = ok (with_trace_id 77 h, 6 ∷ payload)

abbrev sent_task : Task ℕ
sent_task =
    task_of hub marks tcp_codec 1
      (tcp (record zero_header { target = 5; hop_limit = 16; trace_id = 77 })) (6 ∷ 7 ∷ [])

abbrev after_send : Server ℕ
after_send = record node {
  trace_seq = 9;
  sender = record node.sender { shards = set_queue 0 (sent_task ∷ []) node.sender.shards };
}

sends_once :
    send hub marks tcp_codec takes_send false
      (codes "old")
      (some (tcp (record zero_header { target = 5 })))
      (7 ∷ [])
      node
    ≡ some (after_send, dispatched (accepted 0))
unfolding send get lookup fill_header next_trace_id send_filled marks dispatch dispatch_to
    select_shard new_sender
sends_once = refl

send_queues_example :
    (c : Ref) × (filled : IHeader) × (h' : IHeader) × (payload' : List ℕ) × (get
        (codes "old")
        node.cm
      ≡ some c)
    × (marks c filled (7 ∷ []) ≡ ok (h', payload'))
    × (after_send.sender.shards 0
        ≡ node.sender.shards 0 ++ task_of hub marks tcp_codec c h' payload' ∷ [])
    × (get_hop_limit filled ≡ default_hop_limit)
    × (get_trace_id filled ≡ next_trace_id 8)
    × (get_trace_id filled ≢ 0)
    × SameRoute (tcp (record zero_header { target = 5 })) filled
send_queues_example =
    send_queues hub marks tcp_codec takes_send false (codes "old")
      (tcp (record zero_header { target = 5 })) (7 ∷ []) node after_send 0 sends_once

-- The node with its two children alone.
abbrev two_conns : Server ℕ
two_conns = record node {
  cm = record two_children { conns = (codes "old", 1) ∷ (codes "new", 2) ∷ [] };
}

abbrev at_once : Ref → DispatchPick × Bool
at_once c = (takes_send, false)

abbrev hello : IHeader
hello = tcp (record zero_header { hop_limit = 3 })

abbrev or_old : Option (Sender ℕ × List (Dispatched ℕ)) → Sender ℕ
or_old none = two_conns.sender
or_old (some (s, ds)) = s

abbrev spread : Sender ℕ
spread = or_old (server_broadcast hub tcp_codec at_once hello (7 ∷ []) two_conns)

spread_run :
    server_broadcast hub tcp_codec at_once hello (7 ∷ []) two_conns
    ≡ some (spread, accepted 0 ∷ accepted 0 ∷ [])
unfolding server_broadcast broadcast_to dispatch dispatch_to select_shard new_sender
spread_run = refl

broadcast_reaches_example :
    spread.shards 0
    ≡ node.sender.shards 0
      ++ tasks_for hub tcp_codec at_once node.sender.shard_count 0 hello (7 ∷ []) (1 ∷ 2 ∷ [])
unfolding first_error
broadcast_reaches_example =
    broadcast_reaches hub tcp_codec at_once hello (7 ∷ []) two_conns spread
      (accepted 0 ∷ accepted 0 ∷ []) 0 spread_run refl refl
