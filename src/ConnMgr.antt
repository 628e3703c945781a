-- ===== src/ConnMgr.antt =====
-- connmgr/manager.go. Calls made outside the manager (hooks, Close, Send) are recorded as events, in
-- order; each operation runs under the manager's lock and is one step.
pub mod Laws
pub mod Invariant
use myflowhub_core.Common.{
  ℕ, List, [], ◌∷◌, ◌++◌, map, Option, none, some, Bool, true, false, ◌&&◌, not, Text, Assoc,
  nat_instance, text_instance, lookup, insert, erase, erase_values, length, is_empty, ◌==◌,
  if◌then◌else◌,
}
use myflowhub_core.Conn.{
  Ref, Conn, MetaValue, uint32_value, string_value, get_meta, as_uint32, exact_uint32, or_zero,
  node_id_key, device_id_key,
}

pub data ManagerError : Type 0 where
  conn_nil conn_exists conn_not_found compat_link_requires_connection : ManagerError
  close_failed : ManagerError

-- The connection objects: what they hold now, and what their Close answers.
pub record World : Type 0 where
  pub conn : Ref → Conn
  pub close : Ref → Option ManagerError

-- Which hooks are set.
pub record Hooks : Type 0 where
  pub on_add : Bool
  pub on_remove : Bool

pub data Event : Type 0 where
  on_add link_on_add on_remove link_on_remove closed : Ref → Event
  sent : Ref → List ℕ → Event

pub record Manager : Type 0 where
  pub conns : Assoc Text Ref
  pub hooks : Hooks
  pub link_hooks : Hooks
  pub node_index : Assoc ℕ Ref
  pub dev_index : Assoc Text Ref

abbrev pub no_hooks : Hooks
no_hooks = record { on_add = false; on_remove = false }

-- New.
abbrev pub new : Manager
new = record {
  conns = [];
  hooks = no_hooks;
  link_hooks = no_hooks;
  node_index = [];
  dev_index = [];
}

abbrev pub set_hooks : Hooks → Manager → Manager
set_hooks h m = record m { hooks = h }

abbrev pub set_link_hooks : Hooks → Manager → Manager
set_link_hooks h m = record m { link_hooks = h }

-- An ILink argument: nil, a connection, or a link of another kind.
pub data Link : Type 0 where
  nil_link foreign_link : Link
  conn_link : Ref → Link

abbrev when : Bool → Event → List Event
when true e = e ∷ []
when false e = []

abbrev pub add_events : Manager → Ref → List Event
add_events m c = when m.hooks.on_add (Event.on_add c) ++ when m.link_hooks.on_add (link_on_add c)

abbrev pub remove_events : Manager → Ref → List Event
remove_events m c =
    when m.hooks.on_remove (Event.on_remove c) ++ when m.link_hooks.on_remove (link_on_remove c)

abbrev exact_string : MetaValue → Text
exact_string (string_value s) = s
exact_string _ = []

module _ (w : World) where
  -- The node ID that addNodeIndexLocked finds, 0 for none.
  abbrev pub indexed_node : Ref → ℕ
  indexed_node c = elim (get_meta node_id_key (w.conn c)) [
    | none ↦ 0
    | some v ↦ or_zero (exact_uint32 v)
  ]

  abbrev pub indexed_device : Ref → Text
  indexed_device c = elim (get_meta device_id_key (w.conn c)) [
    | none ↦ []
    | some v ↦ exact_string v
  ]

  add_node_index : Ref → Manager → Manager
  add_node_index c m =
      if indexed_node c == 0
      then m
      else record m { node_index = insert (indexed_node c) c m.node_index }

  add_device_index : Ref → Manager → Manager
  add_device_index c m =
      if is_empty (indexed_device c)
      then m
      else record m { dev_index = insert (indexed_device c) c m.dev_index }

  -- Add.
  unfoldable pub add : Option Ref → Manager → Manager × Option ManagerError × List Event
  unfolding add_node_index add_device_index
  add none m = (m, some conn_nil, [])
  add (some c) m = elim (lookup (w.conn c).id m.conns) [
    | some old ↦ (m, some conn_exists, [])
    | none ↦
        let m' = record m { conns = insert (w.conn c).id c m.conns } in
        (add_device_index c (add_node_index c m'), none, add_events m c)
  ]

  -- AddLink.
  unfoldable pub add_link : Link → Manager → Manager × Option ManagerError × List Event
  unfolding add
  add_link (conn_link c) m = add (some c) m
  add_link nil_link m = (m, some compat_link_requires_connection, [])
  add_link foreign_link m = (m, some compat_link_requires_connection, [])

  -- The manager without a connection and all index entries that point to it.
  unfoldable pub purge : Text → Ref → Manager → Manager
  purge id c m = record m {
    conns = erase id m.conns;
    node_index = erase_values (λ r. r == c) m.node_index;
    dev_index = erase_values (λ r. r == c) m.dev_index;
  }

  -- Remove, and RemoveLink. Without an error of its own it answers what Close answers.
  unfoldable pub remove : Text → Manager → Manager × Option ManagerError × List Event
  unfolding purge
  remove id m = elim (lookup id m.conns) [
    | none ↦ (m, some conn_not_found, [])
    | some c ↦ (purge id c m, w.close c, remove_events m c ++ closed c ∷ [])
  ]

  -- isDirectBind of UpdateNodeIndex: the connection itself logged in as this node.
  unfoldable pub is_direct_bind : ℕ → Ref → Bool
  is_direct_bind node_id c = elim (get_meta node_id_key (w.conn c)) [
    | none ↦ false
    | some v ↦ elim (as_uint32 v) [ none ↦ false | some nid ↦ not (nid == 0) && (nid == node_id) ]
  ]

  -- The ID of the connection that a new binding pushes out, empty for none.
  unfoldable pub displaced : ℕ → Ref → Option Ref → Text
  unfolding is_direct_bind
  displaced node_id c none = []
  displaced node_id c (some old) =
      if not (old == c) && (is_direct_bind node_id c && is_direct_bind node_id old)
      then (w.conn old).id
      else []

  -- UpdateNodeIndex, AddNodeIndex, and with nil RemoveNodeIndex.
  unfoldable pub update_node_index : ℕ → Option Ref → Manager → Manager × List Event
  unfolding remove displaced
  update_node_index node_id none m =
      if node_id == 0 then (m, []) else (record m { node_index = erase node_id m.node_index }, [])
  update_node_index node_id (some c) m =
      let m' = record m { node_index = insert node_id c m.node_index } in
      let old_id = displaced node_id c (lookup node_id m.node_index) in
      let r = remove old_id m' in
      if node_id == 0 then (m, []) else if is_empty old_id then (m', []) else (r.0, r.2)

  -- UpdateNodeLink and AddNodeLink.
  unfoldable pub update_node_link : ℕ → Link → Manager → Manager × Option ManagerError × List Event
  unfolding update_node_index
  update_node_link node_id nil_link m = let r = update_node_index node_id none m in (r.0, none, r.1)
  update_node_link node_id (conn_link c) m =
      let r = update_node_index node_id (some c) m in (r.0, none, r.1)
  update_node_link node_id foreign_link m = (m, some compat_link_requires_connection, [])

-- UpdateDeviceIndex. An index holds no nil, so its test for one before `delete` has no effect.
unfoldable pub update_device_index : Text → Option Ref → Manager → Manager
update_device_index dev_id none m =
    if is_empty dev_id then m else record m { dev_index = erase dev_id m.dev_index }
update_device_index dev_id (some c) m =
    if is_empty dev_id then m else record m { dev_index = insert dev_id c m.dev_index }

-- UpdateDeviceLink.
unfoldable pub update_device_link : Text → Link → Manager → Manager × Option ManagerError
unfolding update_device_index
update_device_link dev_id nil_link m = (update_device_index dev_id none m, none)
update_device_link dev_id (conn_link c) m = (update_device_index dev_id (some c) m, none)
update_device_link dev_id foreign_link m = (m, some compat_link_requires_connection)

-- Get, GetByNode, GetByDevice; the link getters answer alike.
unfoldable pub get : Text → Manager → Option Ref
get id m = lookup id m.conns

unfoldable pub get_by_node : ℕ → Manager → Option Ref
get_by_node node_id m = lookup node_id m.node_index

unfoldable pub get_by_device : Text → Manager → Option Ref
get_by_device dev_id m = lookup dev_id m.dev_index

-- The snapshot that Range walks.
abbrev pub snapshot : Manager → List Ref
snapshot m = map (λ e. e.1) m.conns

-- The connections that Range visits when `fn` answers false to stop.
unfoldable pub range : (Ref → Bool) → List Ref → List Ref
range fn [] = []
range fn (c ∷ cs) = c ∷ (let rest = range fn cs in if fn c then rest else [])

unfoldable pub count : Manager → ℕ
count m = length m.conns

-- Broadcast: the errors of the single sends are dropped.
unfoldable pub broadcast : List ℕ → Manager → List Event
unfolding range
broadcast payload m = map (λ c. sent c payload) (range (λ _. true) (snapshot m))

abbrev pub close_events : Manager → List Ref → List Event
close_events m [] = []
close_events m (c ∷ cs) = (remove_events m c ++ closed c ∷ []) ++ close_events m cs

-- CloseAll.
unfoldable pub close_all : Manager → Manager × List Event
close_all m =
    (record m { conns = []; node_index = []; dev_index = [] }, close_events m (snapshot m))
