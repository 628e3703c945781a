-- ===== src/Examples/Dispatcher.antt =====
-- Runs of process/dispatcher.go and process/queuestrategy.go on the hub of the manager's examples.
use myflowhub_core.Common.{
  ℕ, ◌<◌, ◌≡◌, ◌≢◌, ◌⊎◌, refl, [], ◌∷◌, none, some, true, false, codes, lookup, arith,
}
use myflowhub_core.Header.{IHeader, tcp, zero_header, tcp_sub_proto, tcp_major}
use myflowhub_core.Conn.{extract_node_id, is_parent_conn}
use myflowhub_core.ConnMgr.{get_by_node}
use myflowhub_core.Routing.{decide, drop, pre_route}
use myflowhub_core.Strings.{to_lower, trim_space, trim_left, trim_right}
use myflowhub_core.Queues.{
  conn_hash, round_robin, select_queue, fnv32a, strategy_from_config, source_target,
}
use myflowhub_core.Queues.Bounds.{select_queue-lt, round_robin_distinct, nth_queue}
use myflowhub_core.Dispatcher.{
  SubProcess, Dispatcher, pre_router, receive, register_handler, select_handler, source_mismatch,
  route,
}
use myflowhub_core.Dispatcher.Handlers.{HandlersOwn, register_handler_lem}
use myflowhub_core.Dispatcher.Route.{
  MaySpeakFor, route_trusted, route_exclusive, route_dropped_cmd, received, sends,
}
use myflowhub_core.Examples.ConnMgr.{hub, two_children}

-- The FNV-1a of the published test vector "foobar".
fnv_run : fnv32a (codes "foobar") ≡ 3214735720
unfolding fnv32a
fnv_run = refl

strategy_run : strategy_from_config (codes " Source_Target ") ≡ source_target
unfolding strategy_from_config to_lower trim_space trim_left trim_right
strategy_run = refl

select_queue-lt_example : (select_queue conn_hash (some (codes "new")) none 4).0 < 4
select_queue-lt_example =
    select_queue-lt conn_hash (some (codes "new")) none 4 (omega arith) (omega arith)

round_robin_distinct_example :
    nth_queue 0 (round_robin 5) none none 3 ≢ nth_queue 2 (round_robin 5) none none 3
round_robin_distinct_example =
    round_robin_distinct 5 0 2 3 none none (omega arith) (omega arith) (omega arith) (omega arith)

abbrev echo : SubProcess
echo = record { number = 3; init = true; accept_cmd = true; allow_source_mismatch = true }

abbrev strict : SubProcess
strict = record { number = 1; init = true; accept_cmd = false; allow_source_mismatch = false }

abbrev dispatcher : Dispatcher
dispatcher = record {
  base = pre_router (pre_route hub two_children true (some 1));
  handlers = (3, echo) ∷ (1, strict) ∷ [];
  fallback = none;
}

-- A command of subprotocol 3 without a source.
abbrev anonymous : IHeader
anonymous = tcp (record zero_header { type_fmt = 15; target = 9 })

-- A message of subprotocol 1.
abbrev note_from : ℕ → IHeader
note_from n = tcp (record zero_header { type_fmt = 6; source = n; target = 1 })

dispatcher-HandlersOwn : HandlersOwn dispatcher
unfolding lookup
dispatcher-HandlersOwn n h e = ground arith

register_handler_lem_example : (register_handler (some echo) dispatcher).0 ≡ dispatcher
unfolding register_handler lookup
register_handler_lem_example = (register_handler_lem echo dispatcher).2 (λ e. cc)

picks_strict : (n : ℕ) → (select_handler (some (note_from n)) dispatcher).0 ≡ some strict
unfolding select_handler lookup tcp_sub_proto
picks_strict n = refl

-- Connection 1 has logged in as node 5 and may not speak for node 6, which nobody knows.
foreign_source : route hub (some two_children) dispatcher 1 (some (note_from 6)) [] ≡ []
unfolding route select_handler lookup tcp_sub_proto extract_node_id is_parent_conn get_by_node
foreign_source = refl

own_source :
    route hub (some two_children) dispatcher 1 (some (note_from 5)) []
    ≡ receive strict 1 (some (note_from 5)) [] ∷ []
unfolding route select_handler lookup tcp_sub_proto tcp_major extract_node_id pre_route decide
own_source = refl

route_trusted_example :
    (h : SubProcess) × ((select_handler (some (note_from 5)) dispatcher).0 ≡ some h)
    × ((h.allow_source_mismatch ≡ true) ⊎ MaySpeakFor hub (some two_children) 1 5)
route_trusted_example =
    route_trusted hub (some two_children) dispatcher 1 (note_from 5) [] (λ e. cc own_source)

route_exclusive_example :
    let calls = route hub (some two_children) dispatcher 1 (some (note_from 5)) [] in
    (received calls ≡ []) ⊎ ((h : SubProcess) × (received calls ≡ h ∷ []) × (sends calls ≡ []))
route_exclusive_example =
    route_exclusive hub (some two_children) two_children true (some 1) dispatcher 1 (note_from 5) []
      refl

picks_echo : (select_handler (some anonymous) dispatcher).0 ≡ some echo
unfolding select_handler lookup tcp_sub_proto
picks_echo = refl

route_dropped_cmd_example :
    ((decide 1 (some anonymous)).0 ≡ drop)
    × (route hub (some two_children) dispatcher 1 (some anonymous) []
        ≡ receive echo 1 (some anonymous) [] ∷ [])
unfolding tcp_major tcp_sub_proto source_mismatch
route_dropped_cmd_example =
    route_dropped_cmd hub (some two_children) two_children true 1 dispatcher 1 anonymous [] echo
      refl refl refl (omega arith) picks_echo refl refl
