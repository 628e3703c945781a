-- ===== src/Routing/Local.antt =====
-- Where the frames of PreRoute go.
use myflowhub_core.Common.{
  ℕ, ◌+◌, ◌-◌, ◌≤◌, ◌≡◌, refl, List, [], ◌∷◌, map, Option, none, some, Bool, true, false, not, ◌&&◌,
  if◌then◌else◌, filter, arith, Text, text_instance, text_eq, text_eq_iff, text_eq_refl, Assoc,
  lookup, UniqueKeys,
}
use myflowhub_core.Header.{IHeader, target_id, with_hop_limit}
use myflowhub_core.Conn.{Ref, is_parent_conn}
use myflowhub_core.ConnMgr.{World, Manager, get}
use myflowhub_core.ConnMgr.Invariant.{IsConsistent}
use myflowhub_core.Routing.{
  fast_forward, broadcast_children, Sent, decide, clone_for_forward, handle_broadcast,
  broadcast_targets, fast_forward_sends, deliver, forward_to_parent, local_child, act, pre_route,
}
use myflowhub_core.Routing.Sends.{hops_left}

-- How many of the sends go to a connection ID.
abbrev pub copies : Text → List Sent → ℕ
copies id [] = 0
copies id (s ∷ ss) = (if text_eq s.to id then 1 else 0) + copies id ss

pub clone_for_forward-some :
    (h : IHeader)
    → 2 ≤ hops_left h
    → (clone_for_forward (some h) ≡ some (with_hop_limit (hops_left h - 1) h))
unfolding clone_for_forward
clone_for_forward-some h two = ground arith

module _ (w : World) where
  -- Every entry of a connection table stands under the ID of its connection.
  abbrev OwnIds : Assoc Text Ref → Type 0
  OwnIds [] = Unit {0}
  OwnIds ((id, c) ∷ es) = ((w.conn c).id ≡ id) × OwnIds es

  own_ids :
      (es : Assoc Text Ref)
      → UniqueKeys es
      → ((id : Text) (c : Ref) → lookup id es ≡ some c → (w.conn c).id ≡ id)
      → OwnIds es
  unfolding lookup
  own_ids [] u h = tt
  own_ids ((id, c) ∷ es) u h = (
    h id c (ground (arith, text_eq_refl id)),
    own_ids es u.1 (λ j d e. h j d (ground (arith, text_eq_iff id j))),
  )

  -- The copies of a broadcast that one connection should get.
  abbrev pub expected_copies : Ref → Option Ref → ℕ
  expected_copies src none = 0
  expected_copies src (some c) =
      if text_eq (w.conn c).id (w.conn src).id
      then 0
      else if is_parent_conn (some (w.conn c))
      then 0
      else 1

  abbrev spread : IHeader → List ℕ → List Ref → List Sent
  spread h payload = map (λ c. record { to = (w.conn c).id; header = h; payload = payload })

  abbrev is_target : Ref → Ref → Bool
  is_target src c =
      not (text_eq (w.conn c).id (w.conn src).id)
      && (not (is_parent_conn (some (w.conn c))) && true)

  copies-spread :
      (src : Ref) (h : IHeader) (payload : List ℕ) (id : Text) (es : Assoc Text Ref)
      → UniqueKeys es
      → OwnIds es
      → copies id (spread h payload (filter (is_target src) (map (λ e. e.1) es)))
        ≡ expected_copies src (lookup id es)
  unfolding lookup
  copies-spread src h payload id [] u o = refl
  copies-spread src h payload id ((j, c) ∷ es) u o = ground (
    arith,
    text_eq_iff j id,
    text_eq_iff (w.conn c).id id,
    copies-spread src h payload id es u.1 o.1,
  )

module _ (w : World) (m : Manager) where
  -- With forwarding on and two hops left, a broadcast frame goes in exactly one copy to every managed
  -- connection other than the one it came from and the parent, and to no other ID.
  pub pre_route_broadcast :
      (local : ℕ) (src : Ref) (h : IHeader) (payload : List ℕ) (id : Text)
      → IsConsistent w m
      → (decide local (some h)).0 ≡ broadcast_children
      → 2 ≤ hops_left h
      → copies id (pre_route w m true (some local) src (some h) payload).1
        ≡ expected_copies w src (get id m)
  unfolding pre_route act handle_broadcast broadcast_targets get
  pre_route_broadcast local src h payload id v kind two =
      let h' = with_hop_limit (hops_left h - 1) h in
      let e = clone_for_forward-some h two in
      rw (kind, e, act)
        (copies-spread w src h' payload id m.conns v.conns_unique
          (own_ids w m.conns v.conns_unique v.own_id))

  -- A frame that came from the parent and whose target is not known below this node is not sent
  -- anywhere, and so never bounces between a node and its parent.
  pub pre_route_no_bounce :
      (forward_mode : Bool) (local : ℕ) (src : Ref) (h : IHeader) (payload : List ℕ)
      → is_parent_conn (some (w.conn src)) ≡ true
      → (decide local (some h)).0 ≡ fast_forward
      → local_child w m (target_id h) ≡ none
      → pre_route w m forward_mode (some local) src (some h) payload ≡ (false, [])
  unfolding pre_route act fast_forward_sends deliver forward_to_parent
  pre_route_no_bounce forward_mode local src h payload parent kind missing =
      rw (kind, act) (ground arith)
