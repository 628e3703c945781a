-- ===== src/Examples/Routing.antt =====
-- process/prerouting.go on the hub of the manager's examples; it is node 1.
use myflowhub_core.Common.{
  Option, ℕ, ◌≡◌, inl, refl, [], ◌∷◌, some, true, false, codes, lookup, arith,
}
use myflowhub_core.Header.{IHeader, tcp, zero_header, with_hop_limit, tcp_major, tcp_sub_proto}
use myflowhub_core.Conn.{Ref, extract_node_id, is_parent_conn}
use myflowhub_core.ConnMgr.{get_by_node, get}
use myflowhub_core.Routing.{
  hop_dispatch, broadcast_children, fast_forward, decide, pre_route, clone_for_forward, local_child,
  find_by_meta, find_parent, act, fast_forward_sends, deliver, forward_to_parent, forward_or_drop,
}
use myflowhub_core.Routing.Decision.{decide_iff}
use myflowhub_core.Routing.Sends.{IsSafe, pre_route-IsSafe}
use myflowhub_core.Routing.Local.{pre_route_broadcast, pre_route_no_bounce, copies}
use myflowhub_core.Routing.NextHop.{pre_route_unicast, IsHop, one_copy}
use myflowhub_core.Examples.ConnMgr.{hub, two_children, two_children-IsConsistent}

-- A message of subprotocol 1 from node 5.
abbrev message : ℕ → IHeader
message target = tcp (record zero_header { type_fmt = 6; source = 5; target = target })

to_all : (decide 1 (some (message 0))).0 ≡ broadcast_children
unfolding decide tcp_major tcp_sub_proto
to_all = refl

to_other : (target : ℕ) → target ≡ 9 → (decide 1 (some (message target))).0 ≡ fast_forward
unfolding decide tcp_major tcp_sub_proto
to_other target e = rw (e, decide)

decide_iff_example : (decide 1 (some (tcp (record zero_header { type_fmt = 8 })))).0 ≡ hop_dispatch
unfolding tcp_major tcp_sub_proto
decide_iff_example = (decide_iff 1 (tcp (record zero_header { type_fmt = 8 }))).1.1 (inl refl)

pre_route-IsSafe_example :
    IsSafe hub two_children true
      (message 9)
      (1 ∷ [])
      (pre_route hub two_children true (some 1) 2 (some (message 9)) (1 ∷ []))
pre_route-IsSafe_example = pre_route-IsSafe hub two_children true (some 1) 2 (message 9) (1 ∷ [])

pre_route_broadcast_example :
    copies (codes "new") (pre_route hub two_children true (some 1) 1 (some (message 0)) []).1 ≡ 1
unfolding get lookup is_parent_conn
pre_route_broadcast_example =
    pre_route_broadcast hub two_children 1 1 (message 0) [] (codes "new") two_children-IsConsistent
      to_all (omega arith)

-- Node 9 is not known here, so a child's frame goes up, with one hop less.
goes_up :
    pre_route hub two_children true (some 1) 2 (some (message 9)) []
    ≡ (false, one_copy hub two_children (some 3) (with_hop_limit 15 (message 9)) [])
unfolding pre_route act decide local_child get_by_node lookup find_by_meta find_parent
    extract_node_id is_parent_conn clone_for_forward fast_forward_sends deliver forward_to_parent
    forward_or_drop tcp_sub_proto tcp_major
goes_up = refl

pre_route_unicast_example :
    (hop : Option Ref) × IsHop hub two_children 2 9 hop
    × (pre_route hub two_children true (some 1) 2 (some (message 9)) []
        ≡ (false, one_copy hub two_children hop (with_hop_limit 15 (message 9)) []))
unfolding tcp_major tcp_sub_proto
pre_route_unicast_example =
    pre_route_unicast hub two_children 1 2 (message 9) [] two_children-IsConsistent
      ((λ e. omega (arith, e)), (λ e. omega (arith, e)), (λ e. omega (arith, e)))
      (λ e. omega (arith, e)) (λ e. omega (arith, e)) (omega arith)

pre_route_no_bounce_example :
    pre_route hub two_children true (some 1) 3 (some (message 9)) [] ≡ (false, [])
unfolding local_child get_by_node lookup find_by_meta extract_node_id is_parent_conn
pre_route_no_bounce_example =
    pre_route_no_bounce hub two_children true 1 3 (message 9) [] refl (to_other 9 refl) refl
