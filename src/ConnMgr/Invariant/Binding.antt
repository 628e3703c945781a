-- ===== src/ConnMgr/Invariant/Binding.antt =====
-- UpdateNodeIndex: the newest binding of a node wins, and pushes out an older direct login.
use myflowhub_core.Common.{
  ℕ, ◌≡◌, ◌≢◌, refl, [], ◌∷◌, ◌++◌, none, some, true, false, Text, nat_instance, text_instance,
  lookup, insert, lookup-erase, lookup-insert_self, lookup-erase_values_eq, text_eq_iff, ◌==◌,
  is_empty, Option-cases, Bool-cases, inl, inr, arith,
}
use myflowhub_core.Conn.{Ref}
use myflowhub_core.ConnMgr.{
  World, Manager, closed, purge, update_node_index, displaced, is_direct_bind, remove_events, get,
  get_by_node,
}
use myflowhub_core.ConnMgr.Laws.{remove_found_eq}
use myflowhub_core.ConnMgr.Invariant.{IsConsistent, insert_node-IsConsistent}
use myflowhub_core.ConnMgr.Invariant.Reach.{IsManaged}

module _ (w : World) where
  -- Whether a new binding of `n` to `c` has to push out the present holder.
  abbrev pub Conflicts : ℕ → Ref → Ref → Type 0
  Conflicts n c old =
      (old ≢ c)
      × (is_direct_bind w n c ≡ true)
      × (is_direct_bind w n old ≡ true)
      × (is_empty (w.conn old).id ≡ false)

  displaced_conflict :
      (n : ℕ) (c old : Ref) → Conflicts n c old → displaced w n c (some old) ≡ (w.conn old).id
  unfolding displaced
  displaced_conflict n c old h = ground arith

  -- What is pushed out, if anything is, is the connection that held the node.
  displaced_found :
      (n : ℕ) (c : Ref) (m : Manager)
      → IsConsistent w m
      → (is_empty (displaced w n c (lookup n m.node_index)) ≡ false)
      → (old : Ref) × (old ≢ c)
        × (displaced w n c (lookup n m.node_index) ≡ (w.conn old).id)
        × (lookup (w.conn old).id m.conns ≡ some old)
  unfolding displaced
  displaced_found n c m v h = elim (Option-cases (lookup n m.node_index)) [
    | inl e ↦ absurd (ground arith)
    | inr (old, e) ↦ (old, ground arith, ground arith, v.nodes_managed n old e)
  ]

  bound_after_purge :
      (n : ℕ) (c old : Ref) (m : Manager)
      → IsConsistent w m
      → IsManaged w m c
      → old ≢ c
      → let r = purge w (w.conn old).id old (record m { node_index = insert n c m.node_index }) in
        (lookup (w.conn old).id m.conns ≡ some old) → (get_by_node n r ≡ some c) × IsManaged w r c
  unfolding purge get get_by_node
  bound_after_purge n c old m v managed ne here =
      let v' = insert_node-IsConsistent w n c m managed v in
      (
        ground (
          arith,
          lookup-erase_values_eq (λ r. r == old) n (insert n c m.node_index) v'.nodes_unique,
          lookup-insert_self n c m.node_index,
        ),
        ground (
          arith,
          lookup-erase (w.conn old).id (w.conn c).id m.conns,
          text_eq_iff (w.conn old).id (w.conn c).id,
        ),
      )

  -- In a consistent manager, binding a node other than 0 to a managed connection makes lookups of
  -- the node answer that connection, and the connection stays managed.
  pub update_node_index_binds :
      (n : ℕ) (c : Ref) (m : Manager)
      → n ≢ 0
      → IsConsistent w m
      → IsManaged w m c
      → let r = update_node_index w n (some c) m in (get_by_node n r.0 ≡ some c) × IsManaged w r.0 c
  unfolding update_node_index
  update_node_index_binds n c m ne v managed =
      let m' : Manager = record m { node_index = insert n c m.node_index } in
      let old_id : Text = displaced w n c (lookup n m.node_index) in
      let e : (n == 0) ≡ false = ground arith in
      elim (Bool-cases (is_empty old_id)) [
        | inl f ↦
            rw (e, f) (unfold get get_by_node in (lookup-insert_self n c m.node_index, managed))
        | inr f ↦
            let (old, other, same, here) = displaced_found n c m v f in
            rw (e, f, same, remove_found_eq w (w.conn old).id old m' (unfold get in here))
              (bound_after_purge n c old m v managed other here)
      ]

  -- When both the new and the present holder of a node have logged in as that node themselves, the
  -- present holder is removed: its ID answers nothing afterwards, its remove hooks run and it is
  -- closed.
  pub update_node_index_displaces :
      (n : ℕ) (c old : Ref) (m : Manager)
      → n ≢ 0
      → IsConsistent w m
      → get_by_node n m ≡ some old
      → Conflicts n c old
      → let r = update_node_index w n (some c) m in
        (get (w.conn old).id r.0 ≡ none) × (r.1 ≡ remove_events m old ++ closed old ∷ [])
  unfolding update_node_index get_by_node
  update_node_index_displaces n c old m ne v held conflict =
      let m' : Manager = record m { node_index = insert n c m.node_index } in
      let e : (n == 0) ≡ false = ground arith in
      rw
        (
          e,
          held,
          displaced_conflict n c old conflict,
          conflict.3,
          remove_found_eq w (w.conn old).id old m' (unfold get in v.nodes_managed n old held),
        )
        (unfold purge get in
          (
            ground (
              arith,
              lookup-erase (w.conn old).id (w.conn old).id m.conns,
              text_eq_iff (w.conn old).id (w.conn old).id,
            ),
            refl,
          ))

-- Binding a node to a connection that the manager does not hold, as when a login is handled after
-- the connection was removed, leaves the index leading to a connection that no ID answers: lookups
-- of the node find it, although Get does not.
pub unmanaged_binding :
    (w : World) (n : ℕ) (c : Ref) (m : Manager)
    → n ≢ 0
    → get (w.conn c).id m ≡ none
    → get_by_node n m ≡ none
    → let r = update_node_index w n (some c) m in
      (get_by_node n r.0 ≡ some c) × (get (w.conn c).id r.0 ≡ none) × (r.1 ≡ [])
unfolding update_node_index displaced get get_by_node
unmanaged_binding w n c m ne gone unbound =
    let e : (n == 0) ≡ false = ground arith in
    rw (e, unbound, displaced) (lookup-insert_self n c m.node_index, gone, refl)
