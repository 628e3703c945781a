-- ===== src/Routing/Sends.antt =====
-- What PreRoute sends: how often, and with which hop limit.
use myflowhub_core.Common.{
  ℕ, ◌-◌, ◌≤◌, ◌≡◌, ◌≢◌, refl, List, [], ◌∷◌, map, Option, none, some, Bool, true, false, ◌==◌,
  if◌then◌else◌, All, length, filter_nothing, Option-cases, Bool-cases, inl, inr, arith, subst, ap,
}
use myflowhub_core.Header.{IHeader, get_hop_limit, with_hop_limit, target_id, default_hop_limit}
use myflowhub_core.Conn.{Ref, is_parent_conn}
use myflowhub_core.ConnMgr.{World, Manager, snapshot}
use myflowhub_core.Routing.{
  RouteDecisionKind, drop, hop_dispatch, local_dispatch, fast_forward, broadcast_children, Sent,
  decide, clone_for_forward, forward_or_drop, handle_broadcast, broadcast_targets,
  fast_forward_sends, deliver, forward_to_parent, local_child, find_parent, act, pre_route,
}

-- The hops that a frame has left: a hop limit of 0 counts as the default.
abbrev pub hops_left : IHeader → ℕ
hops_left h = if get_hop_limit h == 0 then default_hop_limit else get_hop_limit h

-- The frame as the next node gets it.
abbrev pub IsNextHop : IHeader → List ℕ → Sent → Type 0
IsNextHop h payload s = (s.header ≡ with_hop_limit (hops_left h - 1) h) × (s.payload ≡ payload)

clone_for_forward_cases :
    (h h' : IHeader)
    → clone_for_forward (some h) ≡ some h'
    → (h' ≡ with_hop_limit (hops_left h - 1) h) × (2 ≤ hops_left h)
unfolding clone_for_forward
clone_for_forward_cases h h' e = (ground arith, ground arith)

module _ (w : World) (m : Manager) (forward_mode : Bool) where
  forward_or_drop-IsNextHop :
      (c : Ref) (h h' : IHeader) (payload : List ℕ)
      → h' ≡ with_hop_limit (hops_left h - 1) h
      → All (IsNextHop h payload) (forward_or_drop w m forward_mode c h' payload)
        × (length (forward_or_drop w m forward_mode c h' payload) ≤ 1)
  unfolding forward_or_drop
  forward_or_drop-IsNextHop c h h' payload e = elim (Bool-cases forward_mode) [
    | inl f ↦ rw f (((e, refl), tt), omega arith)
    | inr f ↦ rw f (tt, omega arith)
  ]

  copies-IsNextHop :
      (h h' : IHeader) (payload : List ℕ) (cs : List Ref)
      → h' ≡ with_hop_limit (hops_left h - 1) h
      → All
          (IsNextHop h payload)
          (map (λ c. record { to = (w.conn c).id; header = h'; payload = payload }) cs)
  copies-IsNextHop h h' payload [] e = tt
  copies-IsNextHop h h' payload (c ∷ cs) e = ((e, refl), copies-IsNextHop h h' payload cs e)

  forward_to_parent-IsNextHop :
      (h h' : IHeader) (payload : List ℕ) (from_parent : Bool)
      → h' ≡ with_hop_limit (hops_left h - 1) h
      → All (IsNextHop h payload) (forward_to_parent w m forward_mode h' payload from_parent)
        × (length (forward_to_parent w m forward_mode h' payload from_parent) ≤ 1)
  unfolding forward_to_parent
  forward_to_parent-IsNextHop h h' payload from_parent e =
      elim (Option-cases (find_parent w (snapshot m))) [
        | inl n ↦ rw n (ground arith, ground arith)
        | inr (p, q) ↦ ground (arith, forward_or_drop-IsNextHop p h h' payload e)
      ]

  deliver-IsNextHop :
      (next : Option Ref) (src : Ref) (h h' : IHeader) (payload : List ℕ)
      → h' ≡ with_hop_limit (hops_left h - 1) h
      → All (IsNextHop h payload) (deliver w m forward_mode next src h' payload)
        × (length (deliver w m forward_mode next src h' payload) ≤ 1)
  unfolding deliver
  deliver-IsNextHop (some c) src h h' payload e = forward_or_drop-IsNextHop c h h' payload e
  deliver-IsNextHop none src h h' payload e =
      forward_to_parent-IsNextHop h h' payload (is_parent_conn (some (w.conn src))) e

  -- What PreRoute may do with a frame: hand it on and send nothing, or keep it from the dispatcher.
  -- It sends only frames with hops left, only if forwarding is on, and each with one hop less.
  pub record IsSafe (h : IHeader) (payload : List ℕ) (r : Bool × List Sent) : Type 0 where
    pub next_hop : All (IsNextHop h payload) r.1
    pub exclusive : r.0 ≡ true → r.1 ≡ []
    pub hops_needed : r.1 ≢ [] → 2 ≤ hops_left h
    pub mode_needed : r.1 ≢ [] → forward_mode ≡ true

  quiet-IsSafe : (h : IHeader) (payload : List ℕ) (go : Bool) → IsSafe h payload (go, [])
  quiet-IsSafe h payload go = record {
    next_hop = tt;
    exclusive = λ e. refl;
    hops_needed = λ n. absurd (n refl);
    mode_needed = λ n. absurd (n refl);
  }

  no_targets : (src : Ref) → forward_mode ≡ false → broadcast_targets w m forward_mode src ≡ []
  unfolding broadcast_targets
  no_targets src off = filter_nothing _ (snapshot m) (λ c. ground arith)

  broadcast-IsSafe :
      (src : Ref) (h h' : IHeader) (payload : List ℕ)
      → clone_for_forward (some h) ≡ some h'
      → IsSafe h payload (false, handle_broadcast w m forward_mode src h' payload)
  unfolding handle_broadcast
  broadcast-IsSafe src h h' payload e = record {
    next_hop =
        copies-IsNextHop h h' payload (broadcast_targets w m forward_mode src)
          (clone_for_forward_cases h h' e).0;
    exclusive = λ x. cc;
    hops_needed = λ n. (clone_for_forward_cases h h' e).1;
    mode_needed = λ n. elim (Bool-cases forward_mode) [
      | inl on ↦ on
      | inr off ↦ absurd (n (ap (map _) (no_targets src off)))
    ];
  }

  fast_forward-IsSafe :
      (src : Ref) (h h' : IHeader) (payload : List ℕ) (target : ℕ)
      → clone_for_forward (some h) ≡ some h'
      → forward_mode ≡ true
      → IsSafe h payload (false, fast_forward_sends w m forward_mode src h' payload target)
  unfolding fast_forward_sends
  fast_forward-IsSafe src h h' payload target e on = record {
    next_hop =
        (deliver-IsNextHop (local_child w m target) src h h' payload
          (clone_for_forward_cases h h' e).0).0;
    exclusive = λ x. cc;
    hops_needed = λ n. (clone_for_forward_cases h h' e).1;
    mode_needed = λ n. on;
  }

  act-IsSafe :
      (kind : RouteDecisionKind) (src : Ref) (h : IHeader) (payload : List ℕ)
      → IsSafe h payload (act w m forward_mode kind src h payload)
  unfolding act
  act-IsSafe drop src h payload = quiet-IsSafe h payload false
  act-IsSafe hop_dispatch src h payload = quiet-IsSafe h payload true
  act-IsSafe local_dispatch src h payload = quiet-IsSafe h payload true
  act-IsSafe broadcast_children src h payload = elim (Option-cases (clone_for_forward (some h))) [
    | inl e ↦ rw (e, act) (quiet-IsSafe h payload false)
    | inr (h', e) ↦ rw (e, act) (broadcast-IsSafe src h h' payload e)
  ]
  act-IsSafe fast_forward src h payload = elim (Bool-cases forward_mode) [
    | inl on ↦ elim (Option-cases (clone_for_forward (some h))) [
      | inl e ↦ subst (IsSafe h payload) (ground arith) (quiet-IsSafe h payload false)
      | inr (h', e) ↦
          subst (IsSafe h payload) (ground arith)
            (fast_forward-IsSafe src h h' payload (target_id h) e on)
    ]
    | inr off ↦ subst (IsSafe h payload) (ground arith) (quiet-IsSafe h payload false)
  ]

  -- PreRoute never both sends a frame and hands it to the dispatcher. Every frame that it sends is
  -- the received one with one hop less and the same payload, and it sends only if the frame has two
  -- hops left at least and forwarding is on.
  pub pre_route-IsSafe :
      (server : Option ℕ) (src : Ref) (h : IHeader) (payload : List ℕ)
      → IsSafe h payload (pre_route w m forward_mode server src (some h) payload)
  unfolding pre_route
  pre_route-IsSafe none src h payload = quiet-IsSafe h payload true
  pre_route-IsSafe (some local) src h payload = act-IsSafe (decide local (some h)).0 src h payload
