-- ===== src/Permission.antt =====
-- kit/permission/permission.go: which role a node has, and what the role may do. A nil slice or map
-- and an empty one differ only in a `Snapshot`, where `none` is nil. Receivers are not nil.
pub mod Roles
pub mod Sync
pub mod Parse
use myflowhub_core.Common.{
  ℕ, ◌^◌, ◌%◌, List, [], ◌∷◌, map, Option, none, some, Bool, true, false, ◌&&◌, ◌||◌, not, Text,
  codes, text_eq, is_empty, Assoc, nat_instance, text_instance, lookup, insert, erase, ◌==◌, filter,
  if◌then◌else◌,
}
use myflowhub_core.Strings.{trim_space, split, split_pair, parse_uint32}

abbrev pub wildcard : Text
wildcard = codes "*"

pub record Config : Type 0 where
  pub default_role : Text
  pub default_perms : List Text
  pub node_roles : Assoc ℕ Text
  pub role_perms : Assoc Text (List Text)

pub record Snapshot : Type 0 where
  pub snap_default_role : Text
  pub snap_default_perms : Option (List Text)
  pub snap_node_roles : Option (Assoc ℕ Text)
  pub snap_role_perms : Option (Assoc Text (List Text))

-- parseList.
unfoldable pub parse_list : Text → List Text
parse_list raw = filter (λ p. not (is_empty p)) (map trim_space (split b',' raw))

-- One pair of parseNodeRoles: `id:role`.
unfoldable pub add_node_role : Assoc ℕ Text → Text → Assoc ℕ Text
add_node_role m p = elim (split_pair b':' (trim_space p)) [
  | none ↦ m
  | some (id, role) ↦ elim (parse_uint32 (trim_space id)) [
    | none ↦ m
    | some n ↦ if is_empty (trim_space role) then m else insert n (trim_space role) m
  ]
]

node_role_pairs : Assoc ℕ Text → List Text → Assoc ℕ Text
node_role_pairs m [] = m
node_role_pairs m (p ∷ ps) = node_role_pairs (add_node_role m p) ps

-- parseNodeRoles.
unfoldable pub parse_node_roles : Text → Assoc ℕ Text
unfolding node_role_pairs add_node_role
parse_node_roles raw = node_role_pairs [] (split b';' raw)

-- One pair of parseRolePerms: `role:p1,p2`.
unfoldable pub add_role_perms : Assoc Text (List Text) → Text → Assoc Text (List Text)
unfolding parse_list
add_role_perms m p = elim (split_pair b':' (trim_space p)) [
  | none ↦ m
  | some (role, perms) ↦
      if is_empty (trim_space role) then m else insert (trim_space role) (parse_list perms) m
]

role_perm_pairs : Assoc Text (List Text) → List Text → Assoc Text (List Text)
role_perm_pairs m [] = m
role_perm_pairs m (p ∷ ps) = role_perm_pairs (add_role_perms m p) ps

-- parseRolePerms.
unfoldable pub parse_role_perms : Text → Assoc Text (List Text)
unfolding role_perm_pairs add_role_perms
parse_role_perms raw = role_perm_pairs [] (split b';' raw)

abbrev pub default_config : Config
default_config = record {
  default_role = codes "node";
  default_perms = wildcard ∷ [];
  node_roles = [];
  role_perms = [];
}

abbrev pub key_auth_default_role : Text
key_auth_default_role = codes "auth.default_role"

abbrev pub key_auth_default_perms : Text
key_auth_default_perms = codes "auth.default_perms"

abbrev pub key_auth_node_roles : Text
key_auth_node_roles = codes "auth.node_roles"

abbrev pub key_auth_role_perms : Text
key_auth_role_perms = codes "auth.role_perms"

loaded_role : Option Text → Text → Text
loaded_role (some raw) old =
    if is_empty (trim_space raw) then if is_empty old then codes "node" else old else trim_space raw
loaded_role none old = if is_empty old then codes "node" else old

loaded {ℓ} : {A : Type ℓ} → (Text → A) → Option Text → A → A
loaded parse none old = old
loaded parse (some raw) old = parse raw

-- Load, from the Get method of a configuration that is not nil.
unfoldable pub load : (Text → Option Text) → Config → Config
unfolding loaded_role loaded parse_list parse_node_roles parse_role_perms
load cfg_get c = record {
  default_role = loaded_role (cfg_get key_auth_default_role) c.default_role;
  default_perms = loaded parse_list (cfg_get key_auth_default_perms) c.default_perms;
  node_roles = loaded parse_node_roles (cfg_get key_auth_node_roles) c.node_roles;
  role_perms = loaded parse_role_perms (cfg_get key_auth_role_perms) c.role_perms;
}

-- NewConfig; without a configuration it keeps the defaults.
unfoldable pub new_config : Option (Text → Option Text) → Config
unfolding load
new_config none = default_config
new_config (some cfg_get) = load cfg_get default_config

-- cloneStrings, cloneNodeRoles, cloneRolePerms: nil for what is empty.
abbrev pub clone_nonempty {ℓ} : {A : Type ℓ} → List A → Option (List A)
clone_nonempty [] = none
clone_nonempty (x ∷ xs) = some (x ∷ xs)

-- Config.Snapshot.
unfoldable pub take_snapshot : Config → Snapshot
take_snapshot c = record {
  snap_default_role = c.default_role;
  snap_default_perms = clone_nonempty c.default_perms;
  snap_node_roles = clone_nonempty c.node_roles;
  snap_role_perms = clone_nonempty c.role_perms;
}

-- NodeRoles.
unfoldable pub all_node_roles : Config → Option (Assoc ℕ Text)
all_node_roles c = clone_nonempty c.node_roles

abbrev pub or_old {ℓ} : {A : Type ℓ} → Option A → A → A
or_old none old = old
or_old (some a) old = a

-- ApplySnapshot.
unfoldable pub apply_snapshot : Snapshot → Config → Config
apply_snapshot s c = record {
  default_role =
      if is_empty (trim_space s.snap_default_role)
      then c.default_role
      else trim_space s.snap_default_role;
  default_perms = or_old s.snap_default_perms c.default_perms;
  node_roles = or_old s.snap_node_roles c.node_roles;
  role_perms = or_old s.snap_role_perms c.role_perms;
}

-- UpsertNode.
unfoldable pub upsert_node : ℕ → Text → List Text → Config → Config
upsert_node node_id role perms c =
    let r = trim_space role in
    if node_id == 0
    then c
    else if is_empty r
    then record c { node_roles = erase node_id c.node_roles }
    else record c {
      node_roles = insert node_id r c.node_roles;
      role_perms = if is_empty perms then c.role_perms else insert r perms c.role_perms;
    }

erase_all : List ℕ → Assoc ℕ Text → Assoc ℕ Text
erase_all [] m = m
erase_all (n ∷ ns) m = erase_all ns (erase n m)

-- InvalidateNodes.
unfoldable pub invalidate_nodes : List ℕ → Config → Config
unfolding erase_all
invalidate_nodes [] c = record c { node_roles = [] }
invalidate_nodes (n ∷ ns) c = record c { node_roles = erase_all (n ∷ ns) c.node_roles }

abbrev role_or : Option Text → Text → Text
role_or none d = d
role_or (some r) d = if is_empty (trim_space r) then d else trim_space r

-- ResolveRole.
unfoldable pub resolve_role : ℕ → Config → Text
resolve_role node_id c =
    if node_id == 0 then c.default_role else role_or (lookup node_id c.node_roles) c.default_role

-- ResolvePerms.
unfoldable pub resolve_perms : ℕ → Config → List Text
unfolding resolve_role
resolve_perms node_id c = or_old (lookup (resolve_role node_id c) c.role_perms) c.default_perms

-- ResolvePermsForRole.
unfoldable pub resolve_perms_for_role : Text → Config → List Text
resolve_perms_for_role role c =
    let r = trim_space role in
    if is_empty r then [] else elim (lookup r c.role_perms) [
      | some perms ↦ perms
      | none ↦ if text_eq r c.default_role then c.default_perms else []
    ]

abbrev is_present {ℓ} : {A : Type ℓ} → Option A → Bool
is_present none = false
is_present (some a) = true

-- HasRole.
unfoldable pub has_role : Text → Config → Bool
has_role role c =
    let r = trim_space role in
    if is_empty r
    then false
    else if text_eq r c.default_role
    then true
    else is_present (lookup r c.role_perms)

-- The loop of Has.
unfoldable pub grants : Text → List Text → Bool
grants perm [] = false
grants perm (entry ∷ perms) =
    let rest = grants perm perms in
    if text_eq entry wildcard || text_eq entry perm then true else rest

-- Has.
unfoldable pub has : ℕ → Text → Config → Bool
unfolding grants resolve_perms
has node_id perm c =
    if is_empty perm || node_id == 0 then true else grants perm (resolve_perms node_id c)
