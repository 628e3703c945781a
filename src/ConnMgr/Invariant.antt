-- ===== src/ConnMgr/Invariant.antt =====
-- The three tables of the manager agree, and stay so.
pub mod Reach
pub mod Binding
use myflowhub_core.Common.{
  ℕ, ◌+◌, ◌≡◌, ◌≢◌, refl, sym, ap, ◌∙◌, List, [], ◌∷◌, ◌++◌, Option, none, some, Bool, true, false,
  Text, nat_instance, text_instance, text_eq, text_eq_iff, text_eq_refl, lookup, insert, erase,
  erase_values, lookup-insert, lookup-erase, lookup-erase_values_eq, keep_unless, UniqueKeys,
  erase-UniqueKeys, insert-UniqueKeys, erase_values-UniqueKeys, ◌==◌, ==_iff, ==_refl,
  if◌then◌else◌, is_empty, Option-cases, Bool-cases, inl, inr, arith,
}
use myflowhub_core.Conn.{Ref}
use myflowhub_core.ConnMgr.{
  World, Manager, new, add, remove, purge, update_node_index, update_device_index, close_all,
  add_node_index, add_device_index, indexed_node, indexed_device, displaced,
}
use myflowhub_core.ConnMgr.Laws.{remove_found_eq}

-- Every key has one entry, a connection stands under its own ID, and the two indexes lead only to
-- connections that the manager holds.
pub record IsConsistent (w : World) (m : Manager) : Type 0 where
  pub conns_unique : UniqueKeys m.conns
  pub nodes_unique : UniqueKeys m.node_index
  pub devs_unique : UniqueKeys m.dev_index
  pub own_id : (id : Text) (c : Ref) → lookup id m.conns ≡ some c → (w.conn c).id ≡ id
  pub nodes_managed :
      (n : ℕ) (c : Ref) → lookup n m.node_index ≡ some c → lookup (w.conn c).id m.conns ≡ some c
  pub devs_managed :
      (d : Text) (c : Ref) → lookup d m.dev_index ≡ some c → lookup (w.conn c).id m.conns ≡ some c

module _ (w : World) where
  pub insert_node-IsConsistent :
      (n : ℕ) (c : Ref) (m : Manager)
      → lookup (w.conn c).id m.conns ≡ some c
      → IsConsistent w m
      → IsConsistent w (record m { node_index = insert n c m.node_index })
  insert_node-IsConsistent n c m managed v = record {
    conns_unique = v.conns_unique;
    nodes_unique = insert-UniqueKeys n c m.node_index v.nodes_unique;
    devs_unique = v.devs_unique;
    own_id = v.own_id;
    nodes_managed = λ k d h. ground (arith, lookup-insert n k c m.node_index, v.nodes_managed k d);
    devs_managed = v.devs_managed;
  }

  pub insert_dev-IsConsistent :
      (n : Text) (c : Ref) (m : Manager)
      → lookup (w.conn c).id m.conns ≡ some c
      → IsConsistent w m
      → IsConsistent w (record m { dev_index = insert n c m.dev_index })
  insert_dev-IsConsistent n c m managed v = record {
    conns_unique = v.conns_unique;
    nodes_unique = v.nodes_unique;
    devs_unique = insert-UniqueKeys n c m.dev_index v.devs_unique;
    own_id = v.own_id;
    nodes_managed = v.nodes_managed;
    devs_managed = λ k d h. ground (arith, lookup-insert n k c m.dev_index, v.devs_managed k d);
  }

  pub erase_node-IsConsistent :
      (n : ℕ) (m : Manager)
      → IsConsistent w m
      → IsConsistent w (record m { node_index = erase n m.node_index })
  erase_node-IsConsistent n m v = record {
    conns_unique = v.conns_unique;
    nodes_unique = erase-UniqueKeys n m.node_index v.nodes_unique;
    devs_unique = v.devs_unique;
    own_id = v.own_id;
    nodes_managed = λ k d h. ground (arith, lookup-erase n k m.node_index, v.nodes_managed k d);
    devs_managed = v.devs_managed;
  }

  pub erase_dev-IsConsistent :
      (n : Text) (m : Manager)
      → IsConsistent w m
      → IsConsistent w (record m { dev_index = erase n m.dev_index })
  erase_dev-IsConsistent n m v = record {
    conns_unique = v.conns_unique;
    nodes_unique = v.nodes_unique;
    devs_unique = erase-UniqueKeys n m.dev_index v.devs_unique;
    own_id = v.own_id;
    nodes_managed = v.nodes_managed;
    devs_managed = λ k d h. ground (arith, lookup-erase n k m.dev_index, v.devs_managed k d);
  }

  pub insert_conn-IsConsistent :
      (c : Ref) (m : Manager)
      → lookup (w.conn c).id m.conns ≡ none
      → IsConsistent w m
      → IsConsistent w (record m { conns = insert (w.conn c).id c m.conns })
  insert_conn-IsConsistent c m fresh v = record {
    conns_unique = insert-UniqueKeys (w.conn c).id c m.conns v.conns_unique;
    nodes_unique = v.nodes_unique;
    devs_unique = v.devs_unique;
    own_id = λ id d h. ground (
      arith,
      lookup-insert (w.conn c).id id c m.conns,
      text_eq_iff (w.conn c).id id,
      v.own_id id d,
    );
    nodes_managed = λ k d h. still d (v.nodes_managed k d h);
    devs_managed = λ k d h. still d (v.devs_managed k d h);
  }
    where
      still :
          (d : Ref)
          → lookup (w.conn d).id m.conns ≡ some d
          → lookup (w.conn d).id (insert (w.conn c).id c m.conns) ≡ some d
      still d h = ground (
        arith,
        lookup-insert (w.conn c).id (w.conn d).id c m.conns,
        text_eq_iff (w.conn c).id (w.conn d).id,
      )

  pub purge-IsConsistent :
      (id : Text) (c : Ref) (m : Manager)
      → lookup id m.conns ≡ some c
      → IsConsistent w m
      → IsConsistent w (purge w id c m)
  unfolding purge
  purge-IsConsistent id c m found v = record {
    conns_unique = erase-UniqueKeys id m.conns v.conns_unique;
    nodes_unique = erase_values-UniqueKeys _ m.node_index v.nodes_unique;
    devs_unique = erase_values-UniqueKeys _ m.dev_index v.devs_unique;
    own_id = λ j d h. ground (arith, lookup-erase id j m.conns, v.own_id j d);
    nodes_managed = λ n d h.
        still d
          (ground (
            arith,
            lookup-erase_values_eq (λ r. r == c) n m.node_index v.nodes_unique,
            v.nodes_managed n d,
          ))
          (ground (arith, lookup-erase_values_eq (λ r. r == c) n m.node_index v.nodes_unique));
    devs_managed = λ n d h.
        still d
          (ground (
            arith,
            lookup-erase_values_eq (λ r. r == c) n m.dev_index v.devs_unique,
            v.devs_managed n d,
          ))
          (ground (arith, lookup-erase_values_eq (λ r. r == c) n m.dev_index v.devs_unique));
  }
    where
      still :
          (d : Ref)
          → lookup (w.conn d).id m.conns ≡ some d
          → d ≢ c
          → lookup (w.conn d).id (erase id m.conns) ≡ some d
      still d h ne = ground (
        arith,
        lookup-erase id (w.conn d).id m.conns,
        text_eq_iff id (w.conn d).id,
        v.own_id (w.conn d).id d,
      )
