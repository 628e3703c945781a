-- ===== src/Dispatcher/Route.antt =====
-- The way of a frame: which connections may speak for which source, and what is done with the frame
-- when the base process is a PreRoutingProcess.
use myflowhub_core.Common.{
  ℕ, ◌≡◌, ◌≢◌, ◌⊎◌, ◌↔◌, refl, ap, List, [], ◌∷◌, map, Option, none, some, Bool, true, false,
  text_eq_iff, Option-cases, Bool-cases, inl, inr, arith,
}
use myflowhub_core.Header.{IHeader, major, sub_proto, source_id, major_cmd}
use myflowhub_core.Conn.{Ref, extract_node_id, is_parent_conn}
use myflowhub_core.ConnMgr.{World, Manager, get_by_node}
use myflowhub_core.Routing.{Sent, decide, drop, act, pre_route, auth_sub_proto}
use myflowhub_core.Routing.Sends.{IsSafe, pre_route-IsSafe}
use myflowhub_core.Dispatcher.{
  SubProcess, Dispatcher, pre_router, Call, send, receive, base_receive, select_handler,
  should_intercept_cmd, elsewhere, not_below, source_mismatch, base_pre_route, dispatch, route,
}

-- The calls of handlers, and the frames sent.
abbrev pub received : List Call → List SubProcess
received [] = []
received (send s ∷ cs) = received cs
received (base_receive c hdr payload ∷ cs) = received cs
received (receive h c hdr payload ∷ cs) = h ∷ received cs

abbrev pub sends : List Call → List Sent
sends [] = []
sends (send s ∷ cs) = s ∷ sends cs
sends (base_receive c hdr payload ∷ cs) = sends cs
sends (receive h c hdr payload ∷ cs) = sends cs

module _ (w : World) (srv : Option Manager) where
  -- The index leads from the source to a connection with the ID of this one.
  abbrev pub IsBelow : ℕ → Ref → Type 0
  IsBelow src c =
      (m : Manager) × (mapped : Ref) × (srv ≡ some m)
      × (get_by_node src m ≡ some mapped)
      × ((w.conn mapped).id ≡ (w.conn c).id)

  -- A connection may speak for a source: it has logged in, and as this source, or as the parent, or
  -- the index has the source below it.
  abbrev pub MaySpeakFor : Ref → ℕ → Type 0
  MaySpeakFor c src =
      (extract_node_id (some (w.conn c)) ≢ 0)
      × ((src ≡ extract_node_id (some (w.conn c)))
          ⊎ (is_parent_conn (some (w.conn c)) ≡ true)
          ⊎ IsBelow src c)

  not_below_iff : (src : ℕ) (c : Ref) → (not_below w srv src c ≡ false) ↔ IsBelow src c
  unfolding not_below elsewhere
  not_below_iff src c = elim (Option-cases srv) [
    | inl e ↦ (λ f. ground arith, λ (m, mapped, s, g, i). ground arith)
    | inr (m, e) ↦ elim (Option-cases (get_by_node src m)) [
      | inl g ↦ (λ f. ground arith, λ (m', mapped, s, g', i). ground arith)
      | inr (mapped, g) ↦ (
        λ f. (m, mapped, e, g, ground (arith, text_eq_iff (w.conn mapped).id (w.conn c).id)),
        λ (m', mapped', s, g', i). ground (arith, text_eq_iff (w.conn mapped).id (w.conn c).id),
      )
    ]
  ]

  -- The source check lets a frame pass exactly if the handler waives it or the connection may speak
  -- for the source in the header.
  pub source_mismatch_iff :
      (h : SubProcess) (c : Ref) (hdr : IHeader)
      → (source_mismatch w srv (some h) (some c) (some hdr) ≡ false)
        ↔ ((h.allow_source_mismatch ≡ true) ⊎ MaySpeakFor c (source_id hdr))
  unfolding source_mismatch
  source_mismatch_iff h c hdr = (
    λ e. ground (arith, (not_below_iff (source_id hdr) c).0),
    λ e. ground (arith, (not_below_iff (source_id hdr) c).1),
  )

  -- The three ways of a frame.
  route_cases :
      (p : Dispatcher) (c : Ref) (hdr : Option IHeader) (payload : List ℕ)
      → (route w srv p c hdr payload ≡ [])
        ⊎ ((h : SubProcess) × ((select_handler hdr p).0 ≡ some h)
            × (source_mismatch w srv (some h) (some c) hdr ≡ false)
            × (route w srv p c hdr payload ≡ dispatch w srv h p.base c hdr payload))
  unfolding route
  route_cases p c hdr payload = elim (Option-cases (select_handler hdr p).0) [
    | inl e ↦ inl (rw (e, route) refl)
    | inr (h, e) ↦ elim (Bool-cases (source_mismatch w srv (some h) (some c) hdr)) [
      | inl bad ↦ inl (rw (e, bad, route) refl)
      | inr good ↦ inr (h, e, good, rw (e, good, route) refl)
    ]
  ]

  -- A frame on which any call is made has a handler, and its connection may speak for its source
  -- unless that handler waives the check: no handler sees the frame and nothing is sent on otherwise.
  pub route_trusted :
      (p : Dispatcher) (c : Ref) (hdr : IHeader) (payload : List ℕ)
      → route w srv p c (some hdr) payload ≢ []
      → (h : SubProcess) × ((select_handler (some hdr) p).0 ≡ some h)
        × ((h.allow_source_mismatch ≡ true) ⊎ MaySpeakFor c (source_id hdr))
  route_trusted p c hdr payload some_call = elim (route_cases p c (some hdr) payload) [
    | inl e ↦ absurd (some_call e)
    | inr (h, e, good, _) ↦ (h, e, (source_mismatch_iff h c hdr).0 good)
  ]

  sends_only :
      (ss : List Sent)
      → (received (map (λ s. send s) ss) ≡ []) × (sends (map (λ s. send s) ss) ≡ ss)
  sends_only [] = (refl, refl)
  sends_only (s ∷ ss) = ((sends_only ss).0, ap (◌∷◌ s) (sends_only ss).1)

  -- What `dispatch` does over a PreRoute method that either hands on or sends.
  dispatch_exclusive :
      (h : SubProcess) (f : Ref → Option IHeader → List ℕ → Bool × List Sent) (c : Ref)
      (hdr : Option IHeader) (payload : List ℕ)
      → ((f c hdr payload).0 ≡ true → (f c hdr payload).1 ≡ [])
      → (should_intercept_cmd (some h) hdr ≡ true → (f c hdr payload).1 ≡ [])
      → let calls = dispatch w srv h (pre_router f) c hdr payload in
        (received calls ≡ []) ⊎ ((received calls ≡ h ∷ []) × (sends calls ≡ []))
  unfolding dispatch base_pre_route
  dispatch_exclusive h f c hdr payload on cmd = elim (Bool-cases (f c hdr payload).0) [
    | inl go ↦ inr (rw (go, on go) (refl, refl))
    | inr stop ↦ elim (Bool-cases (should_intercept_cmd (some h) hdr)) [
      | inl i ↦ inr (rw (stop, i, cmd i) (refl, refl))
      | inr i ↦ inl (rw (stop, i) (sends_only (f c hdr payload).1).0)
    ]
  ]

  -- A command is never sent on by PreRoute.
  pre_route_cmd :
      (m : Manager) (forward_mode : Bool) (server : Option ℕ) (c : Ref) (hdr : IHeader)
      (payload : List ℕ)
      → major hdr ≡ major_cmd
      → (pre_route w m forward_mode server c (some hdr) payload).1 ≡ []
  unfolding pre_route decide act
  pre_route_cmd m forward_mode none c hdr payload e = refl
  pre_route_cmd m forward_mode (some local) c hdr payload e = ground arith

  -- Over a PreRoutingProcess a frame is handled at most once, and a frame that is handled is not
  -- sent on.
  pub route_exclusive :
      (m : Manager) (forward_mode : Bool) (server : Option ℕ) (p : Dispatcher) (c : Ref)
      (hdr : IHeader) (payload : List ℕ)
      → p.base ≡ pre_router (pre_route w m forward_mode server)
      → let calls = route w srv p c (some hdr) payload in
        (received calls ≡ []) ⊎ ((h : SubProcess) × (received calls ≡ h ∷ []) × (sends calls ≡ []))
  unfolding should_intercept_cmd
  route_exclusive m forward_mode server p c hdr payload b =
      elim (route_cases p c (some hdr) payload) [
        | inl e ↦ inl (rw e refl)
        | inr (h, e, good, r) ↦
            elim (dispatch_exclusive h (pre_route w m forward_mode server) c (some hdr) payload
              (IsSafe.exclusive (pre_route-IsSafe w m forward_mode server c hdr payload))
              (λ i. pre_route_cmd m forward_mode server c hdr payload (ground arith))) [
                | inl nobody ↦ inl (rw (r, b) nobody)
                | inr once ↦ inr (h, rw (r, b) once.0, rw (r, b) once.1)
              ]
      ]

  -- A command without a source, outside authentication, is dropped by the router, and yet handled if
  -- it passes the source check and the handler of its subprotocol accepts commands.
  pub route_dropped_cmd :
      (m : Manager) (forward_mode : Bool) (local : ℕ) (p : Dispatcher) (c : Ref) (hdr : IHeader)
      (payload : List ℕ) (h : SubProcess)
      → p.base ≡ pre_router (pre_route w m forward_mode (some local))
      → major hdr ≡ major_cmd
      → source_id hdr ≡ 0
      → sub_proto hdr ≢ auth_sub_proto
      → (select_handler (some hdr) p).0 ≡ some h
      → h.accept_cmd ≡ true
      → source_mismatch w srv (some h) (some c) (some hdr) ≡ false
      → ((decide local (some hdr)).0 ≡ drop)
        × (route w srv p c (some hdr) payload ≡ receive h c (some hdr) payload ∷ [])
  unfolding route dispatch base_pre_route should_intercept_cmd pre_route decide act
  route_dropped_cmd m forward_mode local p c hdr payload h b cmd src sub sel acc good =
      (ground arith, rw (route, sel, good, b) (ground arith))
