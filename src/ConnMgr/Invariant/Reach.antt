-- ===== src/ConnMgr/Invariant/Reach.antt =====
-- Every operation of the manager keeps the tables consistent, in any order of calls.
use myflowhub_core.Common.{
  ℕ, ◌≡◌, refl, ap, ◌∙◌, Option, none, some, Text, nat_instance, text_instance, lookup, insert,
  lookup-insert_self, ◌==◌, is_empty, Option-cases, Bool-cases, inl, inr,
}
use myflowhub_core.Conn.{Ref}
use myflowhub_core.ConnMgr.{
  World, Manager, Hooks, new, add, remove, update_node_index, update_device_index, close_all,
  add_node_index, add_device_index, indexed_node, indexed_device, displaced, set_hooks,
  set_link_hooks, get,
}
use myflowhub_core.ConnMgr.Invariant.{
  IsConsistent, insert_node-IsConsistent, insert_dev-IsConsistent, erase_node-IsConsistent,
  erase_dev-IsConsistent, insert_conn-IsConsistent, purge-IsConsistent,
}

module _ (w : World) where
  abbrev pub IsManaged : Manager → Ref → Type 0
  IsManaged m c = get (w.conn c).id m ≡ some c

  add_node_index-IsConsistent :
      (c : Ref) (m : Manager)
      → lookup (w.conn c).id m.conns ≡ some c
      → IsConsistent w m
      → IsConsistent w (add_node_index w c m) × ((add_node_index w c m).conns ≡ m.conns)
  unfolding add_node_index
  add_node_index-IsConsistent c m h v = elim (Bool-cases (indexed_node w c == 0)) [
    | inl e ↦ rw e (v, refl)
    | inr e ↦ rw e (insert_node-IsConsistent w (indexed_node w c) c m h v, refl)
  ]

  add_device_index-IsConsistent :
      (c : Ref) (m : Manager)
      → lookup (w.conn c).id m.conns ≡ some c
      → IsConsistent w m
      → IsConsistent w (add_device_index w c m)
  unfolding add_device_index
  add_device_index-IsConsistent c m h v = elim (Bool-cases (is_empty (indexed_device w c))) [
    | inl e ↦ rw e v
    | inr e ↦ rw e (insert_dev-IsConsistent w (indexed_device w c) c m h v)
  ]

  pub add-IsConsistent :
      (c : Option Ref) (m : Manager) → IsConsistent w m → IsConsistent w (add w c m).0
  unfolding add
  add-IsConsistent none m v = v
  add-IsConsistent (some c) m v = elim (Option-cases (lookup (w.conn c).id m.conns)) [
    | inl e ↦
        let m' : Manager = record m { conns = insert (w.conn c).id c m.conns } in
        let here = lookup-insert_self (w.conn c).id c m.conns in
        let node = add_node_index-IsConsistent c m' here (insert_conn-IsConsistent w c m e v) in
        rw (e, add)
          (add_device_index-IsConsistent c (add_node_index w c m')
            (ap (lookup (w.conn c).id) node.1 ∙ here) node.0)
    | inr (old, e) ↦ rw (e, add) v
  ]

  pub remove-IsConsistent :
      (id : Text) (m : Manager) → IsConsistent w m → IsConsistent w (remove w id m).0
  unfolding remove
  remove-IsConsistent id m v = elim (Option-cases (lookup id m.conns)) [
    | inl e ↦ rw (e, remove) v
    | inr (c, e) ↦ rw (e, remove) (purge-IsConsistent w id c m e v)
  ]

  pub update_node_index-IsConsistent :
      (n : ℕ) (c : Option Ref) (m : Manager)
      → ((r : Ref) → c ≡ some r → IsManaged m r)
      → IsConsistent w m
      → IsConsistent w (update_node_index w n c m).0
  unfolding update_node_index get
  update_node_index-IsConsistent n none m managed v = elim (Bool-cases (n == 0)) [
    | inl e ↦ rw e v
    | inr e ↦ rw e (erase_node-IsConsistent w n m v)
  ]
  update_node_index-IsConsistent n (some c) m managed v =
      let bound = insert_node-IsConsistent w n c m (managed c refl) v in
      let old_id : Text = displaced w n c (lookup n m.node_index) in
      elim (Bool-cases (n == 0)) [
        | inl e ↦ rw e v
        | inr e ↦ elim (Bool-cases (is_empty old_id)) [
          | inl f ↦ rw (e, f) bound
          | inr f ↦ rw (e, f) (remove-IsConsistent old_id _ bound)
        ]
      ]

  pub update_device_index-IsConsistent :
      (d : Text) (c : Option Ref) (m : Manager)
      → ((r : Ref) → c ≡ some r → IsManaged m r)
      → IsConsistent w m
      → IsConsistent w (update_device_index d c m)
  unfolding update_device_index get
  update_device_index-IsConsistent d none m managed v = elim (Bool-cases (is_empty d)) [
    | inl e ↦ rw e v
    | inr e ↦ rw e (erase_dev-IsConsistent w d m v)
  ]
  update_device_index-IsConsistent d (some c) m managed v = elim (Bool-cases (is_empty d)) [
    | inl e ↦ rw e v
    | inr e ↦ rw e (insert_dev-IsConsistent w d c m (managed c refl) v)
  ]

  pub close_all-IsConsistent : (m : Manager) → IsConsistent w (close_all m).0
  unfolding close_all lookup
  close_all-IsConsistent m = record {
    conns_unique = tt;
    nodes_unique = tt;
    devs_unique = tt;
    own_id = λ id c h. cc;
    nodes_managed = λ n c h. cc;
    devs_managed = λ d c h. cc;
  }

-- One call of the manager, or a change of metadata by its users. A connection is bound to a node or
-- a device only while it is managed; its ID never changes.
pub data Step : World × Manager → World × Manager → Type 0 where
  adds : (w : World) (m : Manager) (c : Option Ref) → Step (w, m) (w, (add w c m).0)
  removes : (w : World) (m : Manager) (id : Text) → Step (w, m) (w, (remove w id m).0)
  updates_node :
      (w : World) (m : Manager) (n : ℕ) (c : Option Ref)
      → ((r : Ref) → c ≡ some r → IsManaged w m r)
      → Step (w, m) (w, (update_node_index w n c m).0)
  updates_device :
      (w : World) (m : Manager) (d : Text) (c : Option Ref)
      → ((r : Ref) → c ≡ some r → IsManaged w m r)
      → Step (w, m) (w, update_device_index d c m)
  closes_all : (w : World) (m : Manager) → Step (w, m) (w, (close_all m).0)
  sets_hooks :
      (w : World) (m : Manager) (h k : Hooks) → Step (w, m) (w, set_link_hooks k (set_hooks h m))
  changes_meta :
      (w w' : World) (m : Manager)
      → ((c : Ref) → (w'.conn c).id ≡ (w.conn c).id)
      → Step (w, m) (w', m)

pub data Reach (s : World × Manager) : World × Manager → Type 0 where
  here : Reach s s
  next : {t u : World × Manager} → Reach s t → Step t u → Reach s u

changed-IsConsistent :
    (w w' : World) (m : Manager)
    → ((c : Ref) → (w'.conn c).id ≡ (w.conn c).id)
    → IsConsistent w m
    → IsConsistent w' m
changed-IsConsistent w w' m same v = record {
  conns_unique = v.conns_unique;
  nodes_unique = v.nodes_unique;
  devs_unique = v.devs_unique;
  own_id = λ id c h. same c ∙ v.own_id id c h;
  nodes_managed = λ n c h. rw (same c) (v.nodes_managed n c h);
  devs_managed = λ d c h. rw (same c) (v.devs_managed d c h);
}

pub Step-IsConsistent :
    {s t : World × Manager} → Step s t → IsConsistent s.0 s.1 → IsConsistent t.0 t.1
Step-IsConsistent (adds w m c) v = add-IsConsistent w c m v
Step-IsConsistent (removes w m id) v = remove-IsConsistent w id m v
Step-IsConsistent (updates_node w m n c h) v = update_node_index-IsConsistent w n c m h v
Step-IsConsistent (updates_device w m d c h) v = update_device_index-IsConsistent w d c m h v
Step-IsConsistent (closes_all w m) v = close_all-IsConsistent w m
Step-IsConsistent (sets_hooks w m h k) v = record {
  conns_unique = v.conns_unique;
  nodes_unique = v.nodes_unique;
  devs_unique = v.devs_unique;
  own_id = v.own_id;
  nodes_managed = v.nodes_managed;
  devs_managed = v.devs_managed;
}
Step-IsConsistent (changes_meta w w' m same) v = changed-IsConsistent w w' m same v

-- After any calls of a new manager that bind only managed connections, mixed with any changes of
-- metadata, the tables are consistent: keys are unique, each connection stands under its own ID,
-- and both indexes lead only to connections that are still managed.
pub Reach-IsConsistent : {w : World} {t : World × Manager} → Reach (w, new) t → IsConsistent t.0 t.1
unfolding lookup
Reach-IsConsistent here = record {
  conns_unique = tt;
  nodes_unique = tt;
  devs_unique = tt;
  own_id = λ id c h. cc;
  nodes_managed = λ n c h. cc;
  devs_managed = λ d c h. cc;
}
Reach-IsConsistent (next r s) = Step-IsConsistent s (Reach-IsConsistent r)
