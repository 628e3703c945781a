-- ===== src/Examples/Permission.antt =====
-- Runs of kit/permission/permission.go on concrete inputs.
use myflowhub_core.Common.{
  Text, ℕ, ◌≡◌, ◌≢◌, ◌↔◌, ◌⊎◌, refl, [], ◌∷◌, true, false, codes, is_empty, nat_instance,
  text_instance, lookup, insert, arith, if◌then◌else◌,
}
use myflowhub_core.Strings.{trim_space, trim_left, trim_right, split, split_pair, parse_uint32}
use myflowhub_core.Permission.{
  Config, wildcard, has, resolve_perms, resolve_role, upsert_node, invalidate_nodes, take_snapshot,
  apply_snapshot, parse_list, parse_node_roles, default_config,
}
use myflowhub_core.Permission.Roles.{
  HasRole, Permits, has_iff, upsert_node_lem, invalidate_nodes_lem, invalidated,
}
use myflowhub_core.Permission.Sync.{apply_snapshot-take_snapshot, snapshot_loses_denial}
use myflowhub_core.Permission.Parse.{parse_list-written}

abbrev office : Config
office = record {
  default_role = codes "node";
  default_perms = codes "var.subscribe" ∷ [];
  node_roles = (7, codes "admin") ∷ (9, codes "guest") ∷ [];
  role_perms = (codes "admin", wildcard ∷ []) ∷ (codes "guest", []) ∷ [];
}

abbrev closed : Config
closed = record office { default_perms = [] }

node_roles_run :
    parse_node_roles (codes " 7: admin ;x:y;9:guest; 10:;4294967296:root")
    ≡ (9, codes "guest") ∷ (7, codes "admin") ∷ []
unfolding parse_node_roles split split_pair parse_uint32 trim_space trim_left trim_right insert
node_roles_run = refl

admin_run : has 7 (codes "auth.revoke") office ≡ true
unfolding has lookup trim_space trim_left trim_right
admin_run = refl

guest_run : has 9 (codes "var.subscribe") office ≡ false
unfolding has lookup trim_space trim_left trim_right
guest_run = refl

has_iff_example : (has 8 (codes "var.subscribe") office ≡ true) ↔ (
    (◌≡◌ {A = ℕ} 8 0)
    ⊎ (codes "var.subscribe" ≡ [])
    ⊎ ((role : Text) × HasRole 8 office role
        × (Permits office role wildcard ⊎ Permits office role (codes "var.subscribe"))))
has_iff_example = has_iff 8 (codes "var.subscribe") office

upsert_node_lem_example :
    let c' = upsert_node 8 (codes " audit ") (codes "var.revoke" ∷ []) office in
    (resolve_role 8 c' ≡ trim_space (codes " audit "))
    × (is_empty (codes "var.revoke" ∷ []) ≡ false → resolve_perms 8 c' ≡ codes "var.revoke" ∷ [])
    × ((k : ℕ) → k ≢ 8 → resolve_role k c' ≡ resolve_role k office)
    × (c'.default_role ≡ office.default_role)
    × (c'.default_perms ≡ office.default_perms)
upsert_node_lem_example =
    upsert_node_lem 8 (codes " audit ") (codes "var.revoke" ∷ []) office (omega arith)
      (unfold trim_space trim_left trim_right in refl)

invalidate_nodes_lem_example :
    let c' = invalidate_nodes (9 ∷ []) office in
    (resolve_role 7 c'
      ≡ (if invalidated 7 (9 ∷ []) then office.default_role else resolve_role 7 office))
    × (c'.role_perms ≡ office.role_perms)
    × (c'.default_perms ≡ office.default_perms)
invalidate_nodes_lem_example = invalidate_nodes_lem (9 ∷ []) 7 office

apply_snapshot-take_snapshot_example : apply_snapshot (take_snapshot office) default_config ≡ office
apply_snapshot-take_snapshot_example =
    apply_snapshot-take_snapshot office default_config
      (unfold trim_space trim_left trim_right in refl) refl (λ e. cc) (λ e. cc) (λ e. cc)

snapshot_loses_denial_example :
    (has 8 (codes "var.revoke") closed ≡ false)
    × (has 8 (codes "var.revoke") (apply_snapshot (take_snapshot closed) default_config) ≡ true)
snapshot_loses_denial_example =
    snapshot_loses_denial closed default_config 8 (codes "var.revoke") []
      (unfold trim_space trim_left trim_right in refl) refl (λ e. cc) (λ e. cc) refl refl
      (omega arith) refl (unfold resolve_role lookup in refl)

parse_list-written_example :
    parse_list (codes "auth.revoke,var.revoke") ≡ codes "auth.revoke" ∷ codes "var.revoke" ∷ []
parse_list-written_example = parse_list-written (codes "auth.revoke" ∷ codes "var.revoke" ∷ []) (
    unfold trim_space trim_left trim_right in
    ((refl, refl, ground arith), ((refl, refl, ground arith), tt)))
