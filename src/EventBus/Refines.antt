-- ===== src/EventBus/Refines.antt =====
-- The bus refines the abstract one.
use myflowhub_core.Common.{
  ℕ, ◌≡◌, inl, inr, refl, sym, ap, ◌∙◌, subst, List, [], ◌∷◌, ◌++◌, has_room, none, some, Bool,
  true, false, Text, text_instance, Assoc, lookup, UniqueKeys, is_empty, Option-cases, Bool-cases,
  List-cases, if◌then◌else◌, arith,
}
use myflowhub_core.EventBus.{
  Bus, Bucket, Options, new_bus, normalize, get_or_create_bucket, put_bucket, bucket_of,
  unsubscribe, calls_of, publish_sync, Published, closed_error, ctx_error, ignored, queued, blocked,
  send_event, publish, loop_step, close,
}
use myflowhub_core.EventBus.Spec.{
  Op, subscribes, unsubscribes, publishes, publishes_sync, loops, closes, bus_of, or_same, run_op,
  run, Spec, replay_op, replay, new_spec, handlers_at, Matches, touch-Matches, get_or_create_effect,
}
use myflowhub_core.EventBus.Subscriptions.{
  lookup-nil, buckets_of, subscribe_refines, unsubscribe_refines,
}

send_event_refines :
    (done waiting : Bool) (key : Text) (d : ℕ) (bkt : Bucket) (b : Bus) (s : Spec)
    (entries : Assoc Text Bucket)
    → Matches b s
    → b.buckets ≡ some entries
    → bkt.handlers ≡ handlers_at key b
    → (r : Bus × Published) × (send_event done waiting key d (some (bkt, b)) ≡ some r)
      × Matches r.0 s
send_event_refines true waiting key d bkt b s entries m has same = ((b, ctx_error), refl, m)
send_event_refines false waiting key d bkt b s entries m has same =
    elim (Bool-cases (has_room waiting b.buffer bkt.ch)) [
      | inl room ↦
          let bkt' = record bkt { ch = bkt.ch ++ record { name = key; data_of = d } ∷ [] } in
          (
            (put_bucket key bkt' b, queued),
            rw room refl,
            touch-Matches key bkt' b s entries m has same,
          )
      | inr full ↦ ((b, blocked), rw full refl, m)
    ]

publish_refines :
    (done waiting : Bool) (name : Text) (d : ℕ) (b : Bus) (s : Spec)
    → Matches b s
    → (r : Bus × Published) × (publish done waiting name d b ≡ some r) × Matches r.0 s
unfolding publish
publish_refines done waiting name d b s m = elim (Bool-cases b.closed) [
  | inl c ↦ ((b, closed_error), ground arith, m)
  | inr o ↦ elim (Bool-cases (is_empty (normalize name))) [
    | inl e ↦ ((b, ignored), ground arith, m)
    | inr e ↦
        let key = normalize name in
        let (bkt, b', got, m', o', same) = get_or_create_effect key b s m o in
        let (entries, has) = m'.open_has o' in
        let (r, sent, kept) = send_event_refines done waiting key d bkt b' s entries m' has same in
        let opened : publish done waiting name d b
            ≡ send_event done waiting key d (get_or_create_bucket key b) =
          ground arith in
        (r, opened ∙ ap (send_event done waiting key d) got ∙ sent, kept)
  ]
]

pub publish_sync_refines :
    (name : Text) (b : Bus) (s : Spec)
    → Matches b s
    → (r : Bus × Assoc Text ℕ) × (publish_sync name b ≡ some r)
      × Matches r.0 s
      × UniqueKeys r.1
      × ((t : Text)
          → lookup t r.1 ≡ (
              if s.done
              then none
              else if is_empty (normalize name)
              then none
              else s.subs (normalize name) t))
unfolding publish_sync lookup
publish_sync_refines name b s m = elim (Bool-cases b.closed) [
  | inl c ↦
      let done : s.done ≡ true = sym m.same_done ∙ c in
      ((b, []), ground arith, m, tt, λ t. ground arith)
  | inr o ↦
      let done : s.done ≡ false = sym m.same_done ∙ o in
      elim (Bool-cases (is_empty (normalize name))) [
        | inl e ↦ ((b, []), ground arith, m, tt, λ t. ground arith)
        | inr e ↦
            let key = normalize name in
            let (bkt, b', got, m', o', same) = get_or_create_effect key b s m o in
            let opened : publish_sync name b ≡ calls_of (get_or_create_bucket key b) =
              ground arith in
            (
              (b', bkt.handlers),
              opened ∙ ap calls_of got,
              m',
              subst UniqueKeys (sym same) (m'.unique key),
              λ t.
                  let here : lookup t bkt.handlers ≡ s.subs key t =
                    ap (lookup t) same ∙ m'.same_subs key t in
                  ground (arith, here),
            )
      ]
]

loop_step_refines :
    (key : Text) (b : Bus) (s : Spec) → Matches b s → Matches (or_same b (loop_step key b)) s
unfolding loop_step
loop_step_refines key b s m = elim (Option-cases (bucket_of key b)) [
  | inl n ↦ rw (n, loop_step) m
  | inr (bkt, q) ↦
      let (entries, has) = buckets_of key b bkt q in
      elim (List-cases bkt.ch) [
        | inl empty ↦ rw (q, loop_step, empty) m
        | inr (e, rest, more) ↦
            rw (q, loop_step, more)
              (touch-Matches key (record bkt { ch = rest }) b s entries m has
                (rw (handlers_at, q) refl))
      ]
]

close_refines : (b : Bus) (s : Spec) → Matches b s → Matches (close b) (replay_op closes s)
unfolding close
close_refines b s m = elim (Bool-cases b.closed) [
  | inl c ↦
      let done : s.done ≡ true = sym m.same_done ∙ c in
      let kept : s ≡ replay_op closes s = ground arith in
      let kept' : b ≡ close b = ground arith in
      subst (Matches _) kept (subst (λ x. Matches x s) kept' m)
  | inr o ↦
      let done : s.done ≡ false = sym m.same_done ∙ o in
      let shut : record { done = true; count = s.count; subs = λ k t. none } ≡ replay_op closes s =
        ground arith in
      let shut' : record b { closed = true; buckets = none } ≡ close b = ground arith in
      subst (Matches _) shut (
        subst (λ x. Matches x (record { done = true; count = s.count; subs = λ k t. none })) shut'
          (record {
            same_done = refl;
            same_count = m.same_count;
            same_subs = λ k t. lookup-nil t;
            unique = λ k. tt;
            open_has = λ x. absurd (ground arith);
            closed_has = λ x. refl;
          }))
]

run_op_refines :
    (op : Op) (b : Bus) (s : Spec)
    → Matches b s
    → (b' : Bus) × (run_op op b ≡ some b') × Matches b' (replay_op op s)
unfolding run_op
run_op_refines (subscribes name h) b s m =
    let (r, e, m') = subscribe_refines name h b s m in (r.0, ap bus_of e, m')
run_op_refines (unsubscribes name token) b s m =
    (unsubscribe name token b, refl, unsubscribe_refines name token b s m)
run_op_refines (publishes done waiting name d) b s m =
    let (r, e, m') = publish_refines done waiting name d b s m in (r.0, ap bus_of e, m')
run_op_refines (publishes_sync name) b s m =
    let (r, e, m', _, _) = publish_sync_refines name b s m in (r.0, ap bus_of e, m')
run_op_refines (loops key) b s m = (or_same b (loop_step key b), refl, loop_step_refines key b s m)
run_op_refines closes b s m = (close b, refl, close_refines b s m)

pub run_refines :
    (ops : List Op) (b : Bus) (s : Spec)
    → Matches b s
    → (b' : Bus) × (run ops b ≡ some b') × Matches b' (replay ops s)
unfolding run
run_refines [] b s m = (b, refl, m)
run_refines (op ∷ ops) b s m =
    let (b', e, m') = run_op_refines op b s m in
    let (b'', e', m'') = run_refines ops b' (replay_op op s) m' in (b'', rw (e, run, e') refl, m'')

pub new_bus-Matches : (o : Options) → Matches (new_bus o) new_spec
unfolding new_bus lookup
new_bus-Matches o = record {
  same_done = refl;
  same_count = refl;
  same_subs = λ k t. refl;
  unique = λ k. tt;
  open_has = λ e. ([], refl);
  closed_has = λ e. absurd (ground arith);
}
