-- ===== src/ConnMgr/Laws.antt =====
-- What each operation of the manager does to the three tables, on any state.
use myflowhub_core.Common.{
  ℕ, ◌+◌, ◌≡◌, ◌≢◌, refl, ap, ◌∙◌, List, [], ◌∷◌, ◌++◌, none, some, false, Text, nat_instance,
  text_instance, text_eq_iff, lookup, lookup-insert, lookup-erase, lookup-insert_self,
  lookup-erase_values, length, length-insert_missing, insert, is_empty, ◌==◌, ==_refl, arith,
}
use myflowhub_core.Conn.{Ref}
use myflowhub_core.ConnMgr.{
  World, Manager, Event, closed, add, remove, purge, get, get_by_node, get_by_device, add_events,
  add_node_index, add_device_index, indexed_node, indexed_device, count, snapshot, close_events,
  remove_events, close_all,
}

module _ (w : World) where
  pub remove_found_eq :
      (id : Text) (c : Ref) (m : Manager)
      → get id m ≡ some c
      → remove w id m ≡ (purge w id c m, w.close c, remove_events m c ++ closed c ∷ [])
  unfolding remove get
  remove_found_eq id c m h = rw (h, remove)

  -- Removing a connection takes away every trace of it, whatever the tables held: its ID is free
  -- again, no node and no device leads to it, other IDs answer as before, the remove hooks that are
  -- set run, and the connection is closed last; Remove answers what Close answered.
  pub remove_found :
      (id : Text) (c : Ref) (m : Manager)
      → get id m ≡ some c
      → let r = remove w id m in
        (get id r.0 ≡ none)
        × ((j : Text) → j ≢ id → get j r.0 ≡ get j m)
        × ((n : ℕ) → get_by_node n r.0 ≢ some c)
        × ((d : Text) → get_by_device d r.0 ≢ some c)
        × (r.1 ≡ w.close c)
        × (r.2 ≡ remove_events m c ++ closed c ∷ [])
  unfolding purge get get_by_node get_by_device
  remove_found id c m h = rw (remove_found_eq id c m h) (
    ground (arith, lookup-erase id id m.conns, text_eq_iff id id),
    λ j ne. ground (arith, lookup-erase id j m.conns, text_eq_iff id j),
    λ n e. ground (arith, lookup-erase_values (λ r. r == c) n c m.node_index, ==_refl c),
    λ d e. ground (arith, lookup-erase_values (λ r. r == c) d c m.dev_index, ==_refl c),
    refl,
    refl,
  )

  -- What the two index updates of Add leave alone, and what they write.
  indexed_conns :
      (c : Ref) (m : Manager) → (add_device_index w c (add_node_index w c m)).conns ≡ m.conns
  unfolding add_device_index add_node_index
  indexed_conns c m = ground arith

  indexed_node_found :
      (c : Ref) (m : Manager)
      → indexed_node w c ≢ 0
      → get_by_node (indexed_node w c) (add_device_index w c (add_node_index w c m)) ≡ some c
  unfolding add_device_index add_node_index get_by_node
  indexed_node_found c m h = ground (arith, lookup-insert_self (indexed_node w c) c m.node_index)

  indexed_device_found :
      (c : Ref) (m : Manager)
      → is_empty (indexed_device w c) ≡ false
      → get_by_device (indexed_device w c) (add_device_index w c (add_node_index w c m)) ≡ some c
  unfolding add_device_index add_node_index get_by_device
  indexed_device_found c m h = ground (arith, lookup-insert_self (indexed_device w c) c m.dev_index)

  -- Adding a connection whose ID is free: the ID answers the connection and other IDs answer as
  -- before, one more connection is counted, a node ID and a device ID in its metadata lead to it,
  -- no error is returned and the add hooks that are set run.
  pub add_fresh :
      (c : Ref) (m : Manager)
      → get (w.conn c).id m ≡ none
      → let r = add w (some c) m in
        (get (w.conn c).id r.0 ≡ some c)
        × ((j : Text) → j ≢ (w.conn c).id → get j r.0 ≡ get j m)
        × (count r.0 ≡ count m + 1)
        × (indexed_node w c ≢ 0 → get_by_node (indexed_node w c) r.0 ≡ some c)
        × (is_empty (indexed_device w c) ≡ false → get_by_device (indexed_device w c) r.0 ≡ some c)
        × (r.1 ≡ none)
        × (r.2 ≡ add_events m c)
  unfolding add get count
  add_fresh c m fresh =
      let id : Text = (w.conn c).id in
      let m' : Manager = record m { conns = insert id c m.conns } in
      let same = indexed_conns c m' in
      rw (fresh, add)
        (
          ap (lookup id) same ∙ lookup-insert_self id c m.conns,
          λ j ne.
              ap (lookup j) same ∙ ground (arith, lookup-insert id j c m.conns, text_eq_iff id j),
          ap length same ∙ length-insert_missing id c m.conns fresh,
          λ h. indexed_node_found c m' h,
          λ h. indexed_device_found c m' h,
          refl,
          refl,
        )

-- The connections that a list of events closes, in order.
abbrev pub closes : List Event → List Ref
closes [] = []
closes (Event.closed c ∷ es) = c ∷ closes es
closes (e ∷ es) = closes es

closes-close_events : (m : Manager) (cs : List Ref) → closes (close_events m cs) ≡ cs
closes-close_events m [] = refl
closes-close_events m (c ∷ cs) = ground (arith, closes-close_events m cs)

-- CloseAll closes every managed connection once and leaves nothing behind: no ID, node or device
-- answers a connection, and none is counted.
pub close_all_lem :
    (m : Manager)
    → let r = close_all m in
      (closes r.1 ≡ snapshot m)
      × (count r.0 ≡ 0)
      × ((id : Text) → get id r.0 ≡ none)
      × ((n : ℕ) → get_by_node n r.0 ≡ none)
      × ((d : Text) → get_by_device d r.0 ≡ none)
unfolding close_all count get get_by_node get_by_device lookup
close_all_lem m = (closes-close_events m (snapshot m), refl, λ id. refl, λ n. refl, λ d. refl)
