-- ===== src/Dispatcher.antt =====
-- process/dispatcher.go: the handlers of the subprotocols, and the way of a frame through a worker.
-- A panic of a handler is recovered and only logged. What the handlers and the base process are
-- asked to do is recorded, in order.
pub mod Handlers
pub mod Route
use myflowhub_core.Common.{
  ℕ, List, [], ◌∷◌, ◌++◌, map, Option, none, some, Bool, true, false, not, ltb, text_eq, Assoc,
  nat_instance, lookup, insert, ◌==◌, if◌then◌else◌,
}
use myflowhub_core.Header.{IHeader, major, sub_proto, source_id, major_cmd}
use myflowhub_core.Conn.{Ref, extract_node_id, is_parent_conn}
use myflowhub_core.ConnMgr.{World, Manager, get_by_node}
use myflowhub_core.Routing.{Sent}

-- A handler, by what its methods answer.
pub record SubProcess : Type 0 where
  pub number : ℕ
  pub init : Bool
  pub accept_cmd : Bool
  pub allow_source_mismatch : Bool

-- The base process: none, one with a PreRoute method, or one with OnReceive alone.
pub data Base : Type 0 where
  nil_base plain_base : Base
  pre_router : (Ref → Option IHeader → List ℕ → Bool × List Sent) → Base

-- A call that `route` makes: Send by the base process, OnReceive of the base process, OnReceive of
-- a handler with the connection, the header and the payload.
pub data Call : Type 0 where
  send : Sent → Call
  base_receive : Ref → Option IHeader → List ℕ → Call
  receive : SubProcess → Ref → Option IHeader → List ℕ → Call

pub record Dispatcher : Type 0 where
  pub base : Base
  pub handlers : Assoc ℕ SubProcess
  pub fallback : Option SubProcess

-- The errors of RegisterHandler.
pub data RegisterError : Type 0 where
  sub_process_nil : RegisterError
  out_of_range init_failed already_registered : ℕ → RegisterError

-- NewDispatcher, without its queues.
unfoldable pub new_dispatcher : Base → Dispatcher
new_dispatcher b = record { base = b; handlers = []; fallback = none }

-- The end of RegisterHandler.
abbrev pub add_handler :
    Option SubProcess → SubProcess → Dispatcher → Dispatcher × Option RegisterError
add_handler (some old) h p = (p, some (already_registered h.number))
add_handler none h p = (record p { handlers = insert h.number h p.handlers }, none)

-- RegisterHandler.
unfoldable pub register_handler : Option SubProcess → Dispatcher → Dispatcher × Option RegisterError
register_handler none p = (p, some sub_process_nil)
register_handler (some h) p =
    if ltb 63 h.number
    then (p, some (out_of_range h.number))
    else if not h.init
    then (p, some (init_failed h.number))
    else add_handler (lookup h.number p.handlers) h p

-- RegisterDefaultHandler.
unfoldable pub register_default_handler : Option SubProcess → Dispatcher → Dispatcher
register_default_handler none p = p
register_default_handler (some h) p = record p { fallback = some h }

-- selectHandler, with extractSubProto, getHandler and getFallback.
unfoldable pub select_handler : Option IHeader → Dispatcher → Option SubProcess × ℕ
select_handler none p = (p.fallback, 0)
select_handler (some h) p = elim (lookup (sub_proto h) p.handlers) [
  | none ↦ (p.fallback, sub_proto h)
  | some handler ↦ (some handler, sub_proto h)
]

-- shouldInterceptCmd.
unfoldable pub should_intercept_cmd : Option SubProcess → Option IHeader → Bool
should_intercept_cmd none hdr = false
should_intercept_cmd (some h) none = false
should_intercept_cmd (some h) (some hdr) = if major hdr == major_cmd then h.accept_cmd else false

-- The server of the context with its connection manager, `none` if either is nil.
module _ (w : World) (srv : Option Manager) where
  -- Whether the index maps the source to a connection with another ID, or to none.
  unfoldable pub elsewhere : Option Ref → Ref → Bool
  elsewhere none c = true
  elsewhere (some mapped) c = not (text_eq (w.conn mapped).id (w.conn c).id)

  unfoldable pub not_below : ℕ → Ref → Bool
  unfolding elsewhere
  not_below src c = elim srv [ none ↦ true | some m ↦ elsewhere (get_by_node src m) c ]

  -- sourceMismatch.
  unfoldable pub source_mismatch : Option SubProcess → Option Ref → Option IHeader → Bool
  unfolding not_below
  source_mismatch (some h) (some c) (some hdr) =
      let node = extract_node_id (some (w.conn c)) in
      if h.allow_source_mismatch
      then false
      else if node == 0
      then true
      else if source_id hdr == node
      then false
      else if is_parent_conn (some (w.conn c))
      then false
      else not_below (source_id hdr) c
  source_mismatch (some h) (some c) none = false
  source_mismatch (some h) none hdr = false
  source_mismatch none c hdr = false

  -- preRoute: whether to go on, and the calls made.
  unfoldable pub base_pre_route : Base → Ref → Option IHeader → List ℕ → Bool × List Call
  base_pre_route nil_base c hdr payload = (true, [])
  base_pre_route plain_base c hdr payload = (true, base_receive c hdr payload ∷ [])
  base_pre_route (pre_router f) c hdr payload =
      let r = f c hdr payload in (r.0, map (λ s. send s) r.1)

  -- The rest of `route` with a handler that may see the frame.
  unfoldable pub dispatch : SubProcess → Base → Ref → Option IHeader → List ℕ → List Call
  unfolding base_pre_route
  dispatch h b c hdr payload =
      let r = base_pre_route b c hdr payload in
      if r.0
      then r.1 ++ receive h c hdr payload ∷ []
      else if should_intercept_cmd (some h) hdr
      then r.1 ++ receive h c hdr payload ∷ []
      else r.1

  -- route.
  unfoldable pub route : Dispatcher → Ref → Option IHeader → List ℕ → List Call
  unfolding dispatch source_mismatch
  route p c hdr payload = elim (select_handler hdr p).0 [
    | none ↦ []
    | some h ↦ if source_mismatch (some h) (some c) hdr then [] else dispatch h p.base c hdr payload
  ]
