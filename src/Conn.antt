-- ===== src/Conn.antt =====
-- Connections as the rest of the core sees them (IConnection of iface.go, roles.go): an object with
-- an ID that never changes and metadata that handlers change, and the readers of that metadata in
-- connmgr/manager.go, process/prerouting.go, server/server.go and kit/permission/permission.go.
use myflowhub_core.Common.{
  ℕ, ◌%◌, ◌^◌, Option, none, some, Bool, false, Text, codes, text_eq, Assoc, text_instance, lookup,
  ◌==◌, if◌then◌else◌,
}
use myflowhub_core.Header.{IHeader, source_id}

-- Go's signed integers; `negsuc n` is -(n + 1).
pub data ℤ : Type 0 where
  pos : ℕ → ℤ
  negsuc : ℕ → ℤ

-- A value of type `any`, by the types that the core looks for.
pub data MetaValue : Type 0 where
  uint32_value uint64_value : ℕ → MetaValue
  int_value int64_value : ℤ → MetaValue
  string_value : Text → MetaValue
  other_value : MetaValue

-- The address of a connection object: Go compares connections by it.
abbrev pub Ref : Type 0
Ref = ℕ

pub record Conn : Type 0 where
  pub id : Text
  pub meta : Assoc Text MetaValue

abbrev pub node_id_key : Text
node_id_key = codes "nodeID"

abbrev pub device_id_key : Text
device_id_key = codes "deviceID"

abbrev pub meta_role_key : Text
meta_role_key = codes "role"

abbrev pub role_parent : Text
role_parent = codes "parent"

abbrev pub role_child : Text
role_child = codes "child"

abbrev pub get_meta : Text → Conn → Option MetaValue
get_meta key c = lookup key c.meta

-- asUint32 of the manager.
abbrev pub as_uint32 : MetaValue → Option ℕ
as_uint32 (uint32_value v) = some v
as_uint32 (uint64_value v) = some (v % 2 ^ 32)
as_uint32 (int_value (pos v)) = some (v % 2 ^ 32)
as_uint32 (int_value (negsuc v)) = none
as_uint32 (int64_value (pos v)) = some (v % 2 ^ 32)
as_uint32 (int64_value (negsuc v)) = none
as_uint32 (string_value s) = none
as_uint32 other_value = none

-- The value as a uint32, by a type assertion alone.
abbrev pub exact_uint32 : MetaValue → Option ℕ
exact_uint32 (uint32_value v) = some v
exact_uint32 _ = none

abbrev pub or_zero : Option ℕ → ℕ
or_zero none = 0
or_zero (some v) = v

-- extractNodeID of the router: 0 unless the metadata holds a uint32.
unfoldable pub extract_node_id : Option Conn → ℕ
extract_node_id none = 0
extract_node_id (some c) = elim (get_meta node_id_key c) [
  | none ↦ 0
  | some v ↦ or_zero (exact_uint32 v)
]

-- extractConnNodeID of the server: 0 unless the metadata holds an integer that is not negative.
unfoldable pub extract_conn_node_id : Option Conn → ℕ
extract_conn_node_id none = 0
extract_conn_node_id (some c) = elim (get_meta node_id_key c) [
  | none ↦ 0
  | some v ↦ or_zero (as_uint32 v)
]

abbrev is_role_parent : MetaValue → Bool
is_role_parent (string_value s) = text_eq s role_parent
is_role_parent _ = false

-- isParentConn.
unfoldable pub is_parent_conn : Option Conn → Bool
is_parent_conn none = false
is_parent_conn (some c) = elim (get_meta meta_role_key c) [
  | none ↦ false
  | some v ↦ is_role_parent v
]

-- SourceNodeID of the permission kit.
unfoldable pub source_node_id : Option IHeader → Option Conn → ℕ
unfolding extract_conn_node_id
source_node_id none conn = extract_conn_node_id conn
source_node_id (some h) conn = if source_id h == 0 then extract_conn_node_id conn else source_id h
