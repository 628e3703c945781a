-- ===== src/Header/Forward.antt =====
-- header/header.go, CloneToTCPForForward and BuildTCPResponse.
use myflowhub_core.Common.{
  ℕ, zero, suc, ◌-◌, ◌%◌, ◌<◌, ◌≡◌, refl, ◌∙◌, Option, none, some, arith, ltb, ◌==◌, if◌then◌else◌,
}
use myflowhub_core.Header.{
  HeaderTcp, IHeader, tcp, other, IsValidHeader, default_hop_limit, clone_to_tcp,
  clone_to_tcp_for_forward, build_tcp_response, with_major, with_sub_proto, tcp_major,
  tcp_sub_proto, major_ok_resp, target_id, source_id, get_msg_id, get_trace_id, get_flags,
  get_route_flags,
}
use myflowhub_core.Header.Fields.{with_fields}
use myflowhub_core.Header.Codec.Restore.{restore-eq-clone_to_tcp, restore-IsValid}

-- The hops that a frame has left: a hop limit of 0 counts as the default.
abbrev pub hops : HeaderTcp → ℕ
hops h = if h.hop_limit == 0 then default_hop_limit else h.hop_limit

-- A frame passed on by `n` nodes, one after the other.
pub forward_chain : ℕ → HeaderTcp → Option HeaderTcp
forward_chain zero h = some h
forward_chain (suc n) h = elim (clone_to_tcp_for_forward (some (tcp h))) [
  | none ↦ none
  | some h' ↦ forward_chain n h'
]

-- A chain of `n + 1` forwards goes through exactly if the frame has more than `n + 1` hops; then
-- only the hop limit has changed, by one for each forward. So no frame is forwarded more than 254
-- times, and one with the default limit at most 15 times.
pub forward_chain_lem :
    (n : ℕ) (h : HeaderTcp)
    → forward_chain (suc n) h
      ≡ (if ltb (suc n) (hops h) then some (record h { hop_limit = hops h - suc n }) else none)
unfolding forward_chain clone_to_tcp_for_forward clone_to_tcp
forward_chain_lem zero h = ground arith
forward_chain_lem (suc n) h =
    ground (arith, forward_chain_lem n (record h { hop_limit = hops h - 1 }))

response_type :
    (s : ℕ) (h : HeaderTcp)
    → h.type_fmt < 256
    → s < 256
    → let r = with_sub_proto s (with_major major_ok_resp h) in
      (tcp_major r ≡ major_ok_resp) × (tcp_sub_proto r ≡ s % 64)
response_type s h b bs =
    let (first, _, _, _, byte, _) = with_fields major_ok_resp s h b (omega arith) bs in
    let (_, _, sub, keeps, _, _) =
      with_fields major_ok_resp s (with_major major_ok_resp h) byte (omega arith) bs in
    (keeps ∙ first, sub)

clone_type_fmt : (h : IHeader) → IsValidHeader h → (clone_to_tcp (some h)).type_fmt < 256
clone_type_fmt h v = rw (← restore-eq-clone_to_tcp h v) ((restore-IsValid h v).type_fmt_u8)

clone_flags :
    (h : IHeader)
    → ((clone_to_tcp (some h)).flags ≡ get_flags h)
      × ((clone_to_tcp (some h)).route_flags ≡ get_route_flags h)
unfolding clone_to_tcp
clone_flags (tcp h) = (refl, refl)
clone_flags (other o) = (refl, refl)

-- The response to a request goes back from the request's target to its source, is an OK response of
-- the given subprotocol, keeps message ID, trace ID, flags and route flags, and has the default hop
-- limit and the given time and payload length.
pub build_tcp_response_fields :
    (now : ℕ) (req : IHeader) (payload_len sub : ℕ)
    → IsValidHeader req
    → sub < 256
    → let resp = build_tcp_response now req payload_len sub in
      (resp.source ≡ target_id req)
      × (resp.target ≡ source_id req)
      × (resp.msg_id ≡ get_msg_id req)
      × (resp.trace_id ≡ get_trace_id req)
      × (resp.flags ≡ get_flags req)
      × (resp.route_flags ≡ get_route_flags req)
      × (tcp_major resp ≡ major_ok_resp)
      × (tcp_sub_proto resp ≡ sub % 64)
      × (resp.hop_limit ≡ default_hop_limit)
      × (resp.timestamp ≡ now)
      × (resp.payload_len ≡ payload_len)
unfolding build_tcp_response tcp_major tcp_sub_proto
build_tcp_response_fields now req payload_len sub v bs =
    let (m, s) = response_type sub (clone_to_tcp (some req)) (clone_type_fmt req v) bs in
    let (f, r) = clone_flags req in (refl, refl, refl, refl, f, r, m, s, refl, refl, refl)
