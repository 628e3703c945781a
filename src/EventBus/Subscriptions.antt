-- ===== src/EventBus/Subscriptions.antt =====
-- Subscribe and Unsubscribe on the abstract bus.
use myflowhub_core.Common.{
  ℕ, ◌+◌, ◌%◌, ◌^◌, ◌≡◌, inl, inr, refl, sym, ap, ◌∙◌, subst, [], Option, none, some, true, false,
  Text, text_instance, text_eq, text_eq_iff, Assoc, lookup, insert, erase, UniqueKeys,
  insert-UniqueKeys, erase-UniqueKeys, is_empty, Option-cases, Bool-cases, arith,
}
use myflowhub_core.EventBus.{
  Bus, Bucket, normalize, get_or_create_bucket, put_bucket, bucket_of, token_of, add_handler,
  subscribe, unsubscribe,
}
use myflowhub_core.EventBus.Spec.{
  subscribes, unsubscribes, Spec, update, replay_op, handlers_of, handlers_at, Matches, put-Matches,
  get_or_create_effect, lookup-update,
}

pub lookup-nil : (t : Text) → lookup t (handlers_of none) ≡ none
unfolding lookup
lookup-nil t = refl

pub buckets_of :
    (key : Text) (b : Bus) (bkt : Bucket)
    → bucket_of key b ≡ some bkt
    → (m : Assoc Text Bucket) × (b.buckets ≡ some m)
buckets_of key b bkt q = elim (Option-cases b.buckets) [
  | inl n ↦ absurd (ground arith)
  | inr found ↦ found
]

subscribe_open :
    (name : Text) (h : ℕ) (b : Bus)
    → b.closed ≡ false
    → is_empty (normalize name) ≡ false
    → subscribe name (some h) b
      ≡ add_handler (normalize name) h (get_or_create_bucket (normalize name) b)
unfolding subscribe
subscribe_open name h b o e = ground arith

pub subscribe_refines :
    (name : Text) (h : Option ℕ) (b : Bus) (s : Spec)
    → Matches b s
    → (r : Bus × Text) × (subscribe name h b ≡ some r)
      × Matches r.0 (replay_op (subscribes name h) s)
unfolding subscribe
subscribe_refines name none b s m = ((b, []), refl, m)
subscribe_refines name (some h) b s m = elim (Bool-cases b.closed) [
  | inl c ↦
      let done : s.done ≡ true = sym m.same_done ∙ c in
      let kept : s ≡ replay_op (subscribes name (some h)) s = ground arith in
      ((b, []), ground arith, subst (Matches b) kept m)
  | inr o ↦
      let done : s.done ≡ false = sym m.same_done ∙ o in
      elim (Bool-cases (is_empty (normalize name))) [
        | inl e ↦
            let kept : s ≡ replay_op (subscribes name (some h)) s = ground arith in
            ((b, []), ground arith, subst (Matches b) kept m)
        | inr e ↦
            let key = normalize name in
            let (bkt, b', got, m', o', same) = get_or_create_effect key b s m o in
            let (entries, has) = m'.open_has o' in
            let n = (b'.counter + 1) % 2 ^ 64 in
            let counted : n ≡ (s.count + 1) % 2 ^ 64 = ap (λ x. (x + 1) % 2 ^ 64) m'.same_count in
            let token = token_of key n in
            let s' : Spec = record s { count = n; subs = update key token (some h) s.subs } in
            let spec : s' ≡ replay_op (subscribes name (some h)) s = ground (arith, counted) in
            (
              (
                put_bucket key (record bkt { handlers = insert token h bkt.handlers })
                    (record b' { counter = n }),
                token,
              ),
              subscribe_open name h b o e ∙ ap (add_handler key h) got,
              subst (Matches _) spec (
                  put-Matches key (record bkt { handlers = insert token h bkt.handlers })
                    (record b' { counter = n }) (record s { count = n }) s' entries
                    (record {
                      same_done = m'.same_done;
                      same_count = refl;
                      same_subs = m'.same_subs;
                      unique = m'.unique;
                      open_has = m'.open_has;
                      closed_has = m'.closed_has;
                    })
                    has m'.same_done refl
                    (insert-UniqueKeys token h bkt.handlers
                      (subst UniqueKeys (sym same) (m'.unique key)))
                    (λ k t.
                      (lookup-update key token k t bkt.handlers h s.subs b' m'.same_subs same).0)),
            )
      ]
]

-- Another abstract function with the same values.
same-Matches :
    (b : Bus) (s : Spec) (f : Text → Text → Option ℕ)
    → Matches b s
    → ((k t : Text) → s.subs k t ≡ f k t)
    → Matches b (record s { subs = f })
same-Matches b s f m h = record {
  same_done = m.same_done;
  same_count = m.same_count;
  same_subs = λ k t. m.same_subs k t ∙ h k t;
  unique = m.unique;
  open_has = m.open_has;
  closed_has = m.closed_has;
}

pub unsubscribe_refines :
    (name token : Text) (b : Bus) (s : Spec)
    → Matches b s
    → Matches (unsubscribe name token b) (replay_op (unsubscribes name token) s)
unfolding unsubscribe
unsubscribe_refines name token b s m =
    let key = normalize name in
    elim (Bool-cases (is_empty key)) [
      | inl e ↦ rw (e, unsubscribe) m
      | inr e ↦ elim (Bool-cases (is_empty token)) [
        | inl e' ↦ rw (e, e', unsubscribe) m
        | inr e' ↦ elim (Option-cases (bucket_of key b)) [
          | inl n ↦
              rw (e, e', n, unsubscribe)
                (same-Matches b s (update key token none s.subs) m (λ k t.
                  elim (Bool-cases (text_eq key k)) [
                    | inl y ↦
                        let nothing : s.subs k t ≡ none =
                          sym (m.same_subs k t)
                          ∙ ap (λ j. lookup t (handlers_at j b)) (sym ((text_eq_iff key k).0 y))
                          ∙ ap (λ x. lookup t (handlers_of x)) n
                          ∙ lookup-nil t in
                        rw (y, nothing)
                          (elim (Bool-cases (text_eq token t)) [
                            | inl z ↦ rw z refl
                            | inr z ↦ rw z refl
                          ])
                    | inr z ↦ rw z refl
                  ]))
          | inr (bkt, q) ↦
              let (entries, has) = buckets_of key b bkt q in
              let same : bkt.handlers ≡ handlers_at key b = rw (handlers_at, q) refl in
              rw (e, e', q, unsubscribe)
                (put-Matches key (record bkt { handlers = erase token bkt.handlers }) b s _ entries
                  m has m.same_done m.same_count
                  (erase-UniqueKeys token bkt.handlers (subst UniqueKeys (sym same) (m.unique key)))
                  (λ k t. (lookup-update key token k t bkt.handlers 0 s.subs b m.same_subs same).1))
        ]
      ]
    ]
