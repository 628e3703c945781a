-- ===== src/Routing.antt =====
-- process/header_router.go and process/prerouting.go: what a node does with a frame before its
-- handlers see it. A call of Server.Send is recorded, in order; its error is only logged.
pub mod Decision
pub mod Sends
pub mod Local
pub mod NextHop
use myflowhub_core.Common.{
  ℕ, ◌-◌, List, [], ◌∷◌, map, Option, none, some, Bool, true, false, ◌&&◌, ◌||◌, not, Text,
  text_instance, text_eq, ◌==◌, leb, if◌then◌else◌, filter, Assoc, lookup, codes,
}
use myflowhub_core.Header.{
  IHeader, major, sub_proto, source_id, target_id, get_hop_limit, with_hop_limit, major_cmd,
  default_hop_limit,
}
use myflowhub_core.Conn.{Ref, Conn, is_parent_conn, extract_node_id}
use myflowhub_core.ConnMgr.{World, Manager, snapshot, get_by_node}

pub data RouteDecisionKind : Type 0 where
  drop hop_dispatch local_dispatch fast_forward broadcast_children : RouteDecisionKind

pub data Reason : Type 0 where
  nil_header source_zero_non_auth auth_subproto is_major_cmd is_broadcast remote_target
        local_target :
      Reason

abbrev pub auth_sub_proto : ℕ
auth_sub_proto = 2

-- HeaderRouter.Decide; the ingress link is not looked at.
unfoldable pub decide : ℕ → Option IHeader → RouteDecisionKind × Reason
decide local none = (drop, nil_header)
decide local (some h) =
    if source_id h == 0 && not (sub_proto h == auth_sub_proto)
    then (drop, source_zero_non_auth)
    else if sub_proto h == auth_sub_proto
    then (hop_dispatch, auth_subproto)
    else if major h == major_cmd
    then (hop_dispatch, is_major_cmd)
    else if target_id h == 0
    then (broadcast_children, is_broadcast)
    else if not (target_id h == local)
    then (fast_forward, remote_target)
    else (local_dispatch, local_target)

-- One call of Server.Send.
pub record Sent : Type 0 where
  pub to : Text
  pub header : IHeader
  pub payload : List ℕ

-- cloneForForward; `none` is the answer (nil, false).
unfoldable pub clone_for_forward : Option IHeader → Option IHeader
clone_for_forward none = none
clone_for_forward (some h) =
    let hop = if get_hop_limit h == 0 then default_hop_limit else get_hop_limit h in
    if leb hop 1 then none else some (with_hop_limit (hop - 1) h)

module _ (w : World) where
  -- The first connection that has logged in as the target.
  unfoldable pub find_by_meta : ℕ → List Ref → Option Ref
  find_by_meta target [] = none
  find_by_meta target (c ∷ cs) =
      if extract_node_id (some (w.conn c)) == target then some c else find_by_meta target cs

  -- findParentConn.
  unfoldable pub find_parent : List Ref → Option Ref
  find_parent [] = none
  find_parent (c ∷ cs) = if is_parent_conn (some (w.conn c)) then some c else find_parent cs

module _ (w : World) (m : Manager) where
  -- The connection that forwardToLocalChild chooses.
  unfoldable pub local_child : ℕ → Option Ref
  unfolding find_by_meta
  local_child target = elim (get_by_node target m) [
    | some c ↦ some c
    | none ↦ find_by_meta w target (snapshot m)
  ]

module _ (w : World) (m : Manager) (forward_mode : Bool) where
  -- forwardOrDrop around a send.
  unfoldable pub forward_or_drop : Ref → IHeader → List ℕ → List Sent
  forward_or_drop c h payload =
      if forward_mode then record { to = (w.conn c).id; header = h; payload = payload } ∷ [] else []

  -- The connections that handleBroadcast copies a frame to.
  unfoldable pub broadcast_targets : Ref → List Ref
  broadcast_targets src =
      filter
        (λ c.
          not (text_eq (w.conn c).id (w.conn src).id)
          && (not (is_parent_conn (some (w.conn c))) && forward_mode))
        (snapshot m)

  -- handleBroadcast.
  unfoldable pub handle_broadcast : Ref → IHeader → List ℕ → List Sent
  unfolding broadcast_targets
  handle_broadcast src h payload =
      map (λ c. record { to = (w.conn c).id; header = h; payload = payload })
        (broadcast_targets src)

  -- forwardToParent.
  unfoldable pub forward_to_parent : IHeader → List ℕ → Bool → List Sent
  unfolding forward_or_drop find_parent
  forward_to_parent h payload src_is_parent =
      if src_is_parent
      then []
      else if not forward_mode
      then []
      else elim (find_parent w (snapshot m)) [
        | none ↦ []
        | some parent ↦ forward_or_drop parent h payload
      ]

  -- The fast-forward case of PreRoute: forwardToLocalChild, then forwardToParent.
  unfoldable pub deliver : Option Ref → Ref → IHeader → List ℕ → List Sent
  unfolding forward_or_drop forward_to_parent
  deliver (some c) src h payload = forward_or_drop c h payload
  deliver none src h payload = forward_to_parent h payload (is_parent_conn (some (w.conn src)))

  unfoldable pub fast_forward_sends : Ref → IHeader → List ℕ → ℕ → List Sent
  unfolding local_child deliver
  fast_forward_sends src h payload target = deliver (local_child w m target) src h payload

  -- The switch of PreRoute: whether the frame goes on to the dispatcher, and what was sent.
  unfoldable pub act : RouteDecisionKind → Ref → IHeader → List ℕ → Bool × List Sent
  unfolding handle_broadcast fast_forward_sends clone_for_forward
  act drop src h payload = (false, [])
  act hop_dispatch src h payload = (true, [])
  act local_dispatch src h payload = (true, [])
  act broadcast_children src h payload = elim (clone_for_forward (some h)) [
    | none ↦ (false, [])
    | some h' ↦ (false, handle_broadcast src h' payload)
  ]
  act fast_forward src h payload =
      if not forward_mode then (false, []) else elim (clone_for_forward (some h)) [
        | none ↦ (false, [])
        | some h' ↦ (false, fast_forward_sends src h' payload (target_id h))
      ]

  -- PreRoute; `server` is the node ID of the server in the context, if there is one.
  unfoldable pub pre_route : Option ℕ → Ref → Option IHeader → List ℕ → Bool × List Sent
  unfolding act decide
  pre_route none src h payload = (true, [])
  pre_route (some local) src none payload = (true, [])
  pre_route (some local) src (some h) payload = act (decide local (some h)).0 src h payload
