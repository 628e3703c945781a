-- ===== src/Examples/ConnMgr.antt =====
-- connmgr/manager.go on a hub with two children, one of which logs in again over a new connection.
use myflowhub_core.Common.{
  ℕ, ◌+◌, ◌≡◌, refl, [], ◌∷◌, none, some, Text, codes, lookup, insert, erase, text_instance,
  nat_instance, arith,
}
use myflowhub_core.Conn.{
  Ref, Conn, uint32_value, node_id_key, meta_role_key, string_value, role_parent,
}
use myflowhub_core.ConnMgr.{
  World, Manager, closed, new, add, remove, get, get_by_node, count, update_node_index, close_all,
  is_direct_bind,
}
use myflowhub_core.ConnMgr.Laws.{remove_found, add_fresh, close_all_lem, closes}
use myflowhub_core.ConnMgr.Invariant.{IsConsistent}
use myflowhub_core.ConnMgr.Invariant.Reach.{Reach, here, next, adds, Reach-IsConsistent}
use myflowhub_core.ConnMgr.Invariant.Binding.{
  update_node_index_binds, update_node_index_displaces, Conflicts, unmanaged_binding,
}

-- Connections 1 and 2 have logged in as node 5; connection 3 is the parent.
abbrev pub logged_in : Text → Conn
logged_in id = record { id = id; meta = (node_id_key, uint32_value 5) ∷ [] }

abbrev pub parent_conn : Conn
parent_conn = record { id = codes "up"; meta = (meta_role_key, string_value role_parent) ∷ [] }

abbrev pub conn_of : Ref → Conn
conn_of c = elim c [
  | ℕ.zero ↦ record { id = codes "zero"; meta = [] }
  | ℕ.suc a ↦ elim a [
    | ℕ.zero ↦ logged_in (codes "old")
    | ℕ.suc b ↦ elim b [ ℕ.zero ↦ logged_in (codes "new") | ℕ.suc d ↦ parent_conn ]
  ]
]

abbrev pub hub : World
hub = record { conn = conn_of; close = λ c. none }

abbrev pub one_child : Manager
one_child = record new { conns = (codes "old", 1) ∷ []; node_index = (5, 1) ∷ [] }

abbrev pub two_children : Manager
two_children = record one_child {
  conns = (codes "old", 1) ∷ (codes "new", 2) ∷ (codes "up", 3) ∷ [];
}

added : (add hub (some 1) new).0 ≡ one_child
unfolding add lookup insert erase
added = refl

one_child-Reach : Reach (hub, new) (hub, one_child)
unfolding add lookup insert erase
one_child-Reach = next here (adds hub new (some 1))

Reach-IsConsistent_example : IsConsistent hub one_child
Reach-IsConsistent_example = Reach-IsConsistent one_child-Reach

pub two_children-IsConsistent : IsConsistent hub two_children
unfolding add lookup insert erase
two_children-IsConsistent =
    Reach-IsConsistent
      (next (next (next here (adds hub new (some 3))) (adds hub _ (some 2))) (adds hub _ (some 1)))

remove_found_example : get (codes "old") (remove hub (codes "old") one_child).0 ≡ none
unfolding get lookup
remove_found_example = (remove_found hub (codes "old") 1 one_child refl).0

add_fresh_example : count (add hub (some 2) one_child).0 ≡ count one_child + 1
unfolding get lookup
add_fresh_example = (add_fresh hub 2 one_child refl).2

close_all_lem_example : closes (close_all two_children).1 ≡ 1 ∷ 2 ∷ 3 ∷ []
close_all_lem_example = (close_all_lem two_children).0

in_conflict : Conflicts hub 5 2 1
unfolding is_direct_bind lookup
in_conflict = (omega arith, refl, refl, refl)

update_node_index_binds_example :
    get_by_node 5 (update_node_index hub 5 (some 2) two_children).0 ≡ some 2
unfolding get lookup
update_node_index_binds_example =
    (update_node_index_binds hub 5 2 two_children (omega arith) two_children-IsConsistent refl).0

update_node_index_displaces_example :
    (update_node_index hub 5 (some 2) two_children).1 ≡ closed 1 ∷ []
unfolding get_by_node lookup
update_node_index_displaces_example =
    (update_node_index_displaces hub 5 2 1 two_children (omega arith) two_children-IsConsistent refl
      in_conflict).1

unmanaged_binding_example : get_by_node 7 (update_node_index hub 7 (some 2) one_child).0 ≡ some 2
unfolding get get_by_node lookup
unmanaged_binding_example = (unmanaged_binding hub 7 2 one_child (omega arith) refl refl).0
