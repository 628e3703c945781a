-- ===== src/Routing/Decision.antt =====
-- Which frames a node drops, handles itself, passes on and spreads.
use myflowhub_core.Common.{ℕ, ◌≡◌, ◌≢◌, ◌↔◌, ◌⊎◌, some, arith}
use myflowhub_core.Header.{IHeader, major, sub_proto, source_id, target_id, major_cmd}
use myflowhub_core.Routing.{
  drop, hop_dispatch, local_dispatch, fast_forward, broadcast_children, decide, auth_sub_proto,
}

-- A frame that has neither the authentication subprotocol nor class Cmd, and so is routed by target.
abbrev pub IsRouted : IHeader → Type 0
IsRouted h = (source_id h ≢ 0) × (sub_proto h ≢ auth_sub_proto) × (major h ≢ major_cmd)

-- The decision on a frame with a header, case by case: dropped exactly if it names no source and is
-- not for authentication; handled on every hop exactly if it is for authentication, or is a command
-- with a source; of the other frames those with target 0 go to the children, those for this node
-- to its dispatcher, and those for another node are forwarded.
pub decide_iff :
    (local : ℕ) (h : IHeader)
    → let kind = (decide local (some h)).0 in
      ((kind ≡ drop) ↔ ((source_id h ≡ 0) × (sub_proto h ≢ auth_sub_proto)))
      × ((kind ≡ hop_dispatch)
          ↔ ((sub_proto h ≡ auth_sub_proto) ⊎ ((source_id h ≢ 0) × (major h ≡ major_cmd))))
      × ((kind ≡ broadcast_children) ↔ (IsRouted h × (target_id h ≡ 0)))
      × ((kind ≡ local_dispatch) ↔ (IsRouted h × (target_id h ≢ 0) × (target_id h ≡ local)))
      × ((kind ≡ fast_forward) ↔ (IsRouted h × (target_id h ≢ 0) × (target_id h ≢ local)))
unfolding decide
decide_iff local h = (
  (λ e. ground arith, λ e. ground arith),
  (λ e. ground arith, λ e. ground arith),
  (λ e. ground arith, λ e. ground arith),
  (λ e. ground arith, λ e. ground arith),
  (λ e. ground arith, λ e. ground arith),
)
