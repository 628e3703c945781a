-- ===== src/Permission/Sync.antt =====
-- Snapshot on one node, ApplySnapshot on another.
use myflowhub_core.Common.{
  ℕ, ◌≡◌, ◌≢◌, refl, List, [], ◌∷◌, none, true, false, Text, text_eq_refl, is_empty, nat_instance,
  text_instance, lookup, arith,
}
use myflowhub_core.Strings.Laws.{IsTrimmed}
use myflowhub_core.Permission.{
  Config, wildcard, take_snapshot, apply_snapshot, clone_nonempty, or_old, resolve_role, has,
}

or_old-clone {ℓ} : {A : Type ℓ} (xs old : List A) → xs ≢ [] → or_old (clone_nonempty xs) old ≡ xs
or_old-clone [] old h = absurd (h refl)
or_old-clone (x ∷ xs) old h = refl

-- Applying a snapshot makes any configuration equal to the one that it was taken of, if that has a
-- trimmed default role, default permissions, node roles and role permissions, none of them empty.
pub apply_snapshot-take_snapshot :
    (c c' : Config)
    → IsTrimmed c.default_role
    → is_empty c.default_role ≡ false
    → c.default_perms ≢ []
    → c.node_roles ≢ []
    → c.role_perms ≢ []
    → apply_snapshot (take_snapshot c) c' ≡ c
unfolding apply_snapshot take_snapshot
apply_snapshot-take_snapshot c c' trimmed full perms nodes roles = ground (
  arith,
  or_old-clone c.default_perms c'.default_perms perms,
  or_old-clone c.node_roles c'.node_roles nodes,
  or_old-clone c.role_perms c'.role_perms roles,
)

-- Empty default permissions do not travel: a node without permissions of its own in the original,
-- where it is refused everything, is granted everything after the snapshot has been applied to a
-- configuration whose default permissions begin with the wildcard.
pub snapshot_loses_denial :
    (c c' : Config) (n : ℕ) (perm : Text) (rest : List Text)
    → IsTrimmed c.default_role
    → is_empty c.default_role ≡ false
    → c.node_roles ≢ []
    → c.role_perms ≢ []
    → c.default_perms ≡ []
    → c'.default_perms ≡ wildcard ∷ rest
    → n ≢ 0
    → is_empty perm ≡ false
    → lookup (resolve_role n c) c.role_perms ≡ none
    → (has n perm c ≡ false) × (has n perm (apply_snapshot (take_snapshot c) c') ≡ true)
unfolding has apply_snapshot take_snapshot resolve_role
snapshot_loses_denial c c' n perm rest trimmed full nodes roles denied open_ ne named unbound = (
  ground arith,
  ground (
    arith,
    or_old-clone c.node_roles c'.node_roles nodes,
    or_old-clone c.role_perms c'.role_perms roles,
    text_eq_refl wildcard,
  ),
)
