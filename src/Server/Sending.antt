-- ===== src/Server/Sending.antt =====
-- server/server.go: what Send puts in the queues.
use myflowhub_core.Common.{
  ℕ, ◌^◌, ◌<◌, ◌≡◌, ◌≢◌, refl, sym, ap, ◌∙◌, subst, List, [], ◌∷◌, ◌++◌, Result, ok, Result-cases,
  some, Bool, true, false, Text, ◌==◌, ==_iff, ==_refl, if◌then◌else◌, Option-cases, inl, inr,
  arith, set_queue,
}
use myflowhub_core.Header.{
  IHeader, tcp, other, major, sub_proto, source_id, target_id, get_flags, get_route_flags,
  get_msg_id, get_timestamp, default_hop_limit, get_hop_limit, get_trace_id, with_hop_limit,
  with_trace_id, tcp_sub_proto, tcp_major,
}
use myflowhub_core.Conn.{Ref}
use myflowhub_core.ConnMgr.{World, get}
use myflowhub_core.Stream.{Codec}
use myflowhub_core.Sender.{Task, Sender, select_shard}
use myflowhub_core.Sender.Steps.{
  DispatchPick, takes_send, takes_timer, takes_dispatcher_done, takes_ctx_done, nil_ctx, accepted,
  dispatch, dispatch_to,
}
use myflowhub_core.Server.{
  next_trace_id, Server, dispatched, fill_header, task_of, send_filled, send,
}

-- A trace ID is never 0 and fits 32 bits.
pub next_trace_id_ne_zero : (seq : ℕ) → (next_trace_id seq ≢ 0) × (next_trace_id seq < 2 ^ 32)
unfolding next_trace_id
next_trace_id_ne_zero seq = (ground arith, ground arith)

-- The fields of a header that Send leaves alone.
abbrev pub SameRoute : IHeader → IHeader → Type 0
SameRoute h h' =
    (major h' ≡ major h)
    × (sub_proto h' ≡ sub_proto h)
    × (source_id h' ≡ source_id h)
    × (target_id h' ≡ target_id h)
    × (get_flags h' ≡ get_flags h)
    × (get_route_flags h' ≡ get_route_flags h)
    × (get_msg_id h' ≡ get_msg_id h)
    × (get_timestamp h' ≡ get_timestamp h)

hop_filled :
    (b : Bool) (h : IHeader)
    → let h' = if b then with_hop_limit default_hop_limit h else h in
      (get_hop_limit h' ≡ (if b then default_hop_limit else get_hop_limit h))
      × (get_trace_id h' ≡ get_trace_id h)
      × SameRoute h h'
unfolding tcp_major tcp_sub_proto
hop_filled true (tcp h) = (refl, refl, (refl, refl, refl, refl, refl, refl, refl, refl))
hop_filled true (other o) = (refl, refl, (refl, refl, refl, refl, refl, refl, refl, refl))
hop_filled false h = (refl, refl, (refl, refl, refl, refl, refl, refl, refl, refl))

trace_filled :
    (b : Bool) (h : IHeader) (v seq : ℕ)
    → let h' = (if◌then◌else◌ {A = IHeader × ℕ} b (with_trace_id v h, v) (h, seq)).0 in
      (get_trace_id h' ≡ (if b then v else get_trace_id h))
      × (get_hop_limit h' ≡ get_hop_limit h)
      × SameRoute h h'
unfolding tcp_major tcp_sub_proto
trace_filled true (tcp h) v seq = (refl, refl, (refl, refl, refl, refl, refl, refl, refl, refl))
trace_filled true (other o) v seq = (refl, refl, (refl, refl, refl, refl, refl, refl, refl, refl))
trace_filled false h v seq = (refl, refl, (refl, refl, refl, refl, refl, refl, refl, refl))

SameRoute-trans : (a b c : IHeader) → SameRoute a b → SameRoute b c → SameRoute a c
SameRoute-trans a b c p q =
    (q.0 ∙ p.0, q.1 ∙ p.1, q.2 ∙ p.2, q.3 ∙ p.3, q.4 ∙ p.4, q.5 ∙ p.5, q.6 ∙ p.6, q.7 ∙ p.7)

fill_header_lem :
    (h : IHeader) (seq : ℕ)
    → let h' = (fill_header h seq).0 in
      (get_hop_limit h' ≡ (if get_hop_limit h == 0 then default_hop_limit else get_hop_limit h))
      × (get_trace_id h' ≡ (if get_trace_id h == 0 then next_trace_id seq else get_trace_id h))
      × SameRoute h h'
unfolding fill_header
fill_header_lem h seq =
    let b = get_hop_limit h == 0 in
    let h1 = if b then with_hop_limit default_hop_limit h else h in
    let (hop, trace, same) = hop_filled b h in
    let (trace', hop', same') = trace_filled (get_trace_id h1 == 0) h1 (next_trace_id seq) seq in
    (
      hop' ∙ hop,
      trace' ∙ ap (λ t. if t == 0 then next_trace_id seq else t) trace,
      SameRoute-trans h h1 (fill_header h seq).0 same same',
    )

module _ (w : World) {P E : Type 0} (on_send : Ref → IHeader → List ℕ → Result P (IHeader × List ℕ))
    (codec : Codec E) where
  dispatch_to_accepts :
      (pick : DispatchPick) (waiting : Bool) (t : Task E) (i j : ℕ) (s s' : Sender E)
      → dispatch_to w pick waiting t i s ≡ some (s', accepted j)
      → (j ≡ i) × (s'.shards i ≡ s.shards i ++ t ∷ [])
  unfolding dispatch_to
  dispatch_to_accepts takes_send waiting t i j s s' e =
      let queued : Sender E = record s { shards = set_queue i (s.shards i ++ t ∷ []) s.shards } in
      let (made, at) : (s' ≡ queued) × (j ≡ i) = (ground (arith, e), ground (arith, e)) in
      (at, ap (λ z. z.shards i) made ∙ rw (==_refl i) refl)
  dispatch_to_accepts takes_timer waiting t i j s s' e = ground (arith, e)
  dispatch_to_accepts takes_dispatcher_done waiting t i j s s' e = ground (arith, e)
  dispatch_to_accepts takes_ctx_done waiting t i j s s' e = ground (arith, e)
  dispatch_to_accepts nil_ctx waiting t i j s s' e = ground (arith, e)

  send_filled_accepts :
      (pick : DispatchPick) (waiting : Bool) (c : Ref) (payload : List ℕ) (h : IHeader) (seq : ℕ)
      (s s' : Server E) (i : ℕ)
      → send_filled w on_send codec pick waiting c payload (h, seq) s
        ≡ some (s', dispatched (accepted i))
      → (h' : IHeader) × (payload' : List ℕ) × (on_send c h payload ≡ ok (h', payload'))
        × (s'.sender.shards i ≡ s.sender.shards i ++ task_of w on_send codec c h' payload' ∷ [])
        × (s'.trace_seq ≡ seq)
  unfolding send_filled dispatch
  send_filled_accepts pick waiting c payload h seq s s' i e =
      elim (Result-cases (on_send c h payload)) [
        | inl ((h', payload'), good) ↦
            let t = task_of w on_send codec c h' payload' in
            let shard = select_shard (some (w.conn c).id) (some h') s.sender.shard_count in
            elim (Option-cases (dispatch_to w pick waiting t shard s.sender)) [
              | inl stops ↦ ground (arith, e)
              | inr ((sd, d), goes) ↦
                  let (is_accepted, sender_is, seq_is) : (d ≡ accepted i)
                      × (s'.sender ≡ sd)
                      × (s'.trace_seq ≡ seq) =
                    (ground (arith, e), ground (arith, e), ground (arith, e)) in
                  let (at, queued) =
                    dispatch_to_accepts pick waiting t shard i s.sender sd
                      (goes ∙ ap (λ x. some (sd, x)) is_accepted) in
                  (
                    h',
                    payload',
                    good,
                    ap (λ z. z.shards i) sender_is
                        ∙ subst (λ k. sd.shards k ≡ s.sender.shards k ++ t ∷ []) (sym at) queued,
                    seq_is,
                  )
            ]
        | inr (x, bad) ↦ ground (arith, e)
      ]

  -- A frame for which Send puts a task in a shard has a header, and its connection is in the manager.
  -- OnSend was called for that connection with the payload and the header with two fields filled in,
  -- and gave no error: a hop limit of 0 has become the default, a trace ID of 0 the next one, which is
  -- not 0, and everything else that a router reads of the header is as the caller of Send set it. The
  -- task, the last one of its shard, is for this connection and has the header and the payload as
  -- OnSend has left them.
  pub send_queues :
      (pick : DispatchPick) (waiting : Bool) (id : Text) (h : IHeader) (payload : List ℕ)
      (s s' : Server E) (i : ℕ)
      → send w on_send codec pick waiting id (some h) payload s ≡ some (s', dispatched (accepted i))
      → (c : Ref) × (filled : IHeader) × (h' : IHeader) × (payload' : List ℕ) × (get id s.cm
          ≡ some c)
        × (on_send c filled payload ≡ ok (h', payload'))
        × (s'.sender.shards i ≡ s.sender.shards i ++ task_of w on_send codec c h' payload' ∷ [])
        × (get_hop_limit filled
            ≡ (if get_hop_limit h == 0 then default_hop_limit else get_hop_limit h))
        × (get_trace_id filled
            ≡ (if get_trace_id h == 0 then next_trace_id s.trace_seq else get_trace_id h))
        × (get_trace_id filled ≢ 0)
        × SameRoute h filled
  unfolding send
  send_queues pick waiting id h payload s s' i e = elim (Option-cases (get id s.cm)) [
    | inl missing ↦ ground (arith, e, missing)
    | inr (c, found) ↦
        let f = fill_header h s.trace_seq in
        let e' : send_filled w on_send codec pick waiting c payload f s
            ≡ some (s', dispatched (accepted i)) =
          ground (arith, e, found) in
        let (h', payload', good, queued, _) =
          send_filled_accepts pick waiting c payload f.0 f.1 s s' i e' in
        let (hop, trace, same) = fill_header_lem h s.trace_seq in
        let (nonzero, _) = next_trace_id_ne_zero s.trace_seq in
        (
          c,
          f.0,
          h',
          payload',
          found,
          good,
          queued,
          hop,
          trace,
          ground (arith, trace, nonzero, ==_iff (get_trace_id h) 0),
          same,
        )
  ]
