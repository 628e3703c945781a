-- ===== src/Server.antt =====
-- server/server.go: the node that ties the manager, the process, the send dispatcher and the event
-- bus together. The process is an argument, and so is whether the event bus takes an event; the dispatcher that New always makes, the logger and the
-- listener are not nil.
pub mod Link
pub mod Wakeups
pub mod LostWakeup
pub mod Meanwhile
pub mod Recovery
pub mod Sending
pub mod Removal
pub mod Broadcast
use myflowhub_core.Common.{
  ℕ, ◌+◌, ◌%◌, ◌^◌, List, [], ◌∷◌, ◌++◌, Option, none, some, Bool, true, false, ◌&&◌, not, Text,
  Result, ok, err, codes, text_eq, text_instance, lookup, insert, is_empty, ltb, ◌==◌,
  if◌then◌else◌,
}
use myflowhub_core.Header.{
  IHeader, default_hop_limit, get_hop_limit, get_trace_id, with_hop_limit, with_trace_id,
}
use myflowhub_core.Conn.{
  Ref, Conn, ℤ, pos, negsuc, string_value, get_meta, meta_role_key, role_child,
  extract_conn_node_id,
}
use myflowhub_core.ConnMgr.{
  World, Manager, Event, on_add, on_remove, ManagerError, get, remove, snapshot,
}
use myflowhub_core.Stream.{Codec}
use myflowhub_core.Sender.{SendError, Task, Sender}
use myflowhub_core.Sender.Steps.{
  DispatchPick, Dispatched, refused, accepted, panicked, dispatch, close_conn,
}
use myflowhub_core.Config.{parse_bool}
use myflowhub_core.Config.Keys.{key_parent_enable, key_parent_addr, key_parent_reconnect_sec}

-- parentConfig, its delay in seconds.
pub record ParentConfig : Type 0 where
  pub enable : Bool
  pub addr : Text
  pub reconnect : ℕ

-- parentState. A channel is a number: `made` counts those that setConn has made, and `closed` are
-- the closed ones.
pub record ParentState : Type 0 where
  pub config : ParentConfig
  pub conn_id : Text
  pub down : Option ℕ
  pub made : ℕ
  pub closed : List ℕ

-- hasParent.
unfoldable pub has_parent : Option ParentState → Bool
has_parent none = false
has_parent (some p) = p.config.enable && not (is_empty p.config.addr)

-- setConn, with the channel that it answers.
unfoldable pub set_conn : Text → ParentState → ℕ × ParentState
set_conn id p = (p.made, record p { conn_id = id; down = some p.made; made = 1 + p.made })

-- The close in notifyDown.
abbrev pub close_down : Option ℕ → ParentState → ParentState
close_down none p = p
close_down (some ch) p = record p { closed = ch ∷ p.closed; down = none; conn_id = [] }

-- notifyDown.
unfoldable pub notify_down : Text → ParentState → ParentState
notify_down id p = if not (is_empty id) && text_eq id p.conn_id then close_down p.down p else p

-- The three parts of buildParentState. strconv.Atoi is an argument, and so large a value that the
-- product of int64 would overflow is not considered.
abbrev enable_of : Option Text → Bool
enable_of none = false
enable_of (some raw) = parse_bool raw false

abbrev addr_of : Option Text → Text
addr_of none = []
addr_of (some raw) = raw

abbrev positive_seconds : Option ℤ → ℕ
positive_seconds (some (pos v)) = if v == 0 then 3 else v
positive_seconds (some (negsuc v)) = 3
positive_seconds none = 3

abbrev reconnect_of : (Text → Option ℤ) → Option Text → ℕ
reconnect_of atoi none = 3
reconnect_of atoi (some raw) = positive_seconds (atoi raw)

-- buildParentState.
unfoldable pub build_parent_state : (Text → Option ℤ) → Option (Text → Option Text) → ParentState
unfolding parse_bool
build_parent_state atoi cfg =
    let read : Text → Option Text = elim cfg [ none ↦ λ key. none | some cfg_get ↦ cfg_get ] in
    record {
      config = record {
        enable = enable_of (read key_parent_enable);
        addr = addr_of (read key_parent_addr);
        reconnect = reconnect_of atoi (read key_parent_reconnect_sec);
      };
      conn_id = [];
      down = none;
      made = 0;
      closed = [];
    }

-- nextTraceID on the counter, once it has its random start: the ID and the new counter.
unfoldable pub next_trace_id : ℕ → ℕ
next_trace_id seq = let v = (1 + seq) % 2 ^ 32 in if v == 0 then (1 + v) % 2 ^ 32 else v

-- An event of the bus: the connection and the node ID in `conn.closed`.
pub record ConnClosed : Type 0 where
  pub closed_id : Text
  pub closed_node : ℕ

-- Server, with the counter of the trace IDs, the calls that it has made of the process, and the
-- events that the event bus has taken.
pub record Server (E : Type 0) : Type 0 where
  pub cm : Manager
  pub sender : Sender E
  pub parent : ParentState
  pub node_id : ℕ
  pub trace_seq : ℕ
  pub proc_closed : List Ref
  pub events : List ConnClosed

-- UpdateNodeID.
unfoldable pub update_node_id : {E : Type 0} → ℕ → Server E → Server E
update_node_id id s = if id == 0 then s else record s { node_id = id }

-- The role that the OnAdd hook of Start gives to a connection that has none.
unfoldable pub with_default_role : Conn → Conn
with_default_role c = elim (get_meta meta_role_key c) [
  | none ↦ record c { meta = insert meta_role_key (string_value role_child) c.meta }
  | some v ↦ c
]

-- The errors of Send; P are those of the process.
pub data ServerError (P E : Type 0) : Type 0 where
  header_required conn_not_found : ServerError P E
  on_send_failed : P → ServerError P E

-- What Send answers: its own error, or what the Dispatch of the sender answers.
pub data Sent (P E : Type 0) : Type 0 where
  failed : ServerError P E → Sent P E
  dispatched : Dispatched E → Sent P E

-- The safe defaults that Send puts in a header, with the counter after them.
unfoldable pub fill_header : IHeader → ℕ → IHeader × ℕ
unfolding next_trace_id
fill_header h seq =
    let h' = if get_hop_limit h == 0 then with_hop_limit default_hop_limit h else h in
    if get_trace_id h' == 0
    then (with_trace_id (next_trace_id seq) h', next_trace_id seq)
    else (h', seq)

-- OnSend of the process is an argument. It may change the frame, which it gets by reference: it gives
-- an error, or the header and the payload as it leaves them.
module _ (w : World) {P E : Type 0} (on_send : Ref → IHeader → List ℕ → Result P (IHeader × List ℕ))
    (codec : Codec E) where
  abbrev pub task_of : Ref → IHeader → List ℕ → Task E
  task_of c h payload = record { conn = some c; hdr = h; payload = payload; codec = some codec }

  abbrev pub with_sender :
      Server E → Option (Sender E × Dispatched E) → Option (Server E × Sent P E)
  with_sender s none = none
  with_sender s (some (sd, d)) = some (record s { sender = sd }, dispatched d)

  -- Send from OnSend on, with the header filled in.
  unfoldable pub send_filled :
      DispatchPick → Bool → Ref → List ℕ → IHeader × ℕ → Server E → Option (Server E × Sent P E)
  unfolding dispatch
  send_filled pick waiting c payload (h, seq) s =
      let s' : Server E = record s { trace_seq = seq } in
      elim (on_send c h payload) [
        | err e ↦ some (s', failed (on_send_failed e))
        | ok (h', payload') ↦
            with_sender s' (dispatch w pick waiting (task_of c h' payload') s.sender)
      ]

  -- Send; `none` while the Dispatch waits.
  unfoldable pub send :
      DispatchPick → Bool → Text → Option IHeader → List ℕ → Server E → Option (Server E × Sent P E)
  unfolding send_filled fill_header get
  send pick waiting id none payload s = some (s, failed header_required)
  send pick waiting id (some h) payload s = elim (get id s.cm) [
    | none ↦ some (s, failed conn_not_found)
    | some c ↦ send_filled pick waiting c payload (fill_header h s.trace_seq) s
  ]

abbrev pub closed_event : World → Ref → ConnClosed
closed_event w c = record {
  closed_id = (w.conn c).id;
  closed_node = extract_conn_node_id (some (w.conn c));
}

abbrev pub taken : (ConnClosed → Bool) → ConnClosed → List ConnClosed
taken publishes e = if publishes e then e ∷ [] else []

-- `publishes` tells whether Publish of the event bus takes an event; its error is not looked at.
module _ (w : World) (publishes : ConnClosed → Bool) {E : Type 0} where
  -- The OnRemove hook of Start.
  unfoldable pub removed : Ref → Server E → Server E
  unfolding close_conn notify_down extract_conn_node_id
  removed c s = record s {
    sender = close_conn (w.conn c).id s.sender;
    proc_closed = s.proc_closed ++ c ∷ [];
    parent = notify_down (w.conn c).id s.parent;
    events = s.events ++ taken publishes (closed_event w c);
  }

  -- The hooks that the manager calls, in the order of its events.
  unfoldable pub run_hooks : List Event → Server E → Server E
  unfolding removed
  run_hooks [] s = s
  run_hooks (on_remove c ∷ es) s = run_hooks es (removed c s)
  run_hooks (_ ∷ es) s = run_hooks es s

  -- The end of serveConn.
  unfoldable pub serve_end : Text → Server E → Server E
  unfolding remove run_hooks
  serve_end id s = let r = remove w id s.cm in run_hooks r.2 (record s { cm = r.0 })
