-- ===== src/EventBus/Answers.antt =====
-- What Subscribe and Publish answer on a bus that stands for an abstract one.
use myflowhub_core.Common.{
  ℕ, ◌+◌, ◌%◌, ◌^◌, ◌≡◌, inl, inr, refl, sym, ap, ◌∙◌, subst, List, [], ◌∷◌, ◌++◌, has_room, some,
  Bool, true, false, ◌&&◌, Text, text_instance, text_eq, text_eq_iff, insert, is_empty, Bool-cases,
  if◌then◌else◌, arith,
}
use myflowhub_core.EventBus.{
  Bus, Bucket, Event, normalize, get_or_create_bucket, put_bucket, token_of, subscribe, add_handler,
  Published, closed_error, ctx_error, ignored, queued, blocked, send_event, publish,
}
use myflowhub_core.EventBus.Spec.{Spec, Matches}
use myflowhub_core.EventBus.Channels.{events_at, events_at-put, Opened, get_or_create-Opened}

-- What Subscribe with a handler answers.
abbrev pub token_answer : Spec → Text → Text
token_answer s name =
    if s.done
    then []
    else if is_empty (normalize name)
    then []
    else token_of (normalize name) ((s.count + 1) % 2 ^ 64)

pub subscribe_answers :
    (name : Text) (h : ℕ) (b : Bus) (s : Spec)
    → Matches b s
    → (r : Bus × Text) × (subscribe name (some h) b ≡ some r) × (r.1 ≡ token_answer s name)
unfolding subscribe
subscribe_answers name h b s m = elim (Bool-cases b.closed) [
  | inl c ↦ let done : s.done ≡ true = sym m.same_done ∙ c in ((b, []), ground arith, ground arith)
  | inr o ↦
      let open_ : s.done ≡ false = sym m.same_done ∙ o in
      elim (Bool-cases (is_empty (normalize name))) [
        | inl e ↦ ((b, []), ground arith, ground arith)
        | inr e ↦
            let key = normalize name in
            let (entries, has) = m.open_has o in
            let (bkt, b', at) = get_or_create-Opened key b entries has in
            let n = (b'.counter + 1) % 2 ^ 64 in
            let count : b'.counter ≡ s.count = at.same_counter ∙ m.same_count in
            let opened : subscribe name (some h) b
                ≡ add_handler key h (get_or_create_bucket key b) =
              ground arith in
            (
              (
                put_bucket key (record bkt { handlers = insert (token_of key n) h bkt.handlers })
                    (record b' { counter = n }),
                token_of key n,
              ),
              opened ∙ ap (add_handler key h) at.got,
              ap (λ i. token_of key ((i + 1) % 2 ^ 64)) count ∙ ground arith,
            )
      ]
]

-- What Publish answers; `done` tells whether its select takes the case of the context.
abbrev pub publish_answer : Spec → Bool → Bool → Text → Bus → Published
publish_answer s done waiting name b =
    if s.done
    then closed_error
    else if is_empty (normalize name)
    then ignored
    else if done
    then ctx_error
    else if has_room waiting b.buffer (events_at (normalize name) b)
    then queued
    else blocked

abbrev pub is_queued : Published → Bool
is_queued queued = true
is_queued closed_error = false
is_queued ctx_error = false
is_queued ignored = false
is_queued blocked = false

-- The events under the key `k` after a Publish of the data `d` with this answer.
abbrev pub events_after : Published → Text → ℕ → Text → Bus → List Event
events_after p name d k b =
    if is_queued p && text_eq (normalize name) k
    then events_at k b ++ record { name = normalize name; data_of = d } ∷ []
    else events_at k b

-- A call of Publish with this answer.
abbrev pub Publishes : Bool → Bool → Text → ℕ → Bus → Published → Type 0
Publishes done waiting name d b p =
    (b' : Bus) × (publish done waiting name d b ≡ some (b', p))
    × ((k : Text) → events_at k b' ≡ events_after p name d k b)

send_event_answers :
    (done waiting : Bool) (key : Text) (d : ℕ) (bkt : Bucket) (b b' : Bus)
    → Opened key b bkt b'
    → let p : Published =
        if done
        then ctx_error
        else if has_room waiting b.buffer (events_at key b)
        then queued
        else blocked in
      (b'' : Bus) × (send_event done waiting key d (some (bkt, b')) ≡ some (b'', p))
      × ((k : Text)
          → events_at k b'' ≡ (
              if is_queued p && text_eq key k
              then events_at k b ++ record { name = key; data_of = d } ∷ []
              else events_at k b))
send_event_answers true waiting key d bkt b b' at = (b', refl, at.same_events)
send_event_answers false waiting key d bkt b b' at =
    let same : has_room waiting b'.buffer bkt.ch ≡ has_room waiting b.buffer (events_at key b) =
      ap (λ n. has_room waiting n bkt.ch) at.same_buffer
      ∙ ap (has_room waiting b.buffer) at.same_ch in
    elim (Bool-cases (has_room waiting b.buffer (events_at key b))) [
      | inl room ↦
          let e : Event = record { name = key; data_of = d } in
          let bkt' : Bucket = record bkt { ch = bkt.ch ++ e ∷ [] } in
          let here : has_room waiting b'.buffer bkt.ch ≡ true = same ∙ room in
          let (entries, has) = at.entries in
          rw room (
            put_bucket key bkt' b',
            rw here refl,
            λ k. events_at-put key k bkt' b' entries has ∙ (elim (Bool-cases (text_eq key k)) [
              | inl y ↦ rw y (
                  ap (λ es. es ++ e ∷ [])
                    (at.same_ch ∙ ap (λ j. events_at j b) ((text_eq_iff key k).0 y)))
              | inr n ↦ rw n (at.same_events k)
            ]),
          )
      | inr full ↦
          let here : has_room waiting b'.buffer bkt.ch ≡ false = same ∙ full in
          rw full (b', rw here refl, at.same_events)
    ]

pub publish_answers :
    (done waiting : Bool) (name : Text) (d : ℕ) (b : Bus) (s : Spec)
    → Matches b s
    → Publishes done waiting name d b (publish_answer s done waiting name b)
unfolding publish
publish_answers done waiting name d b s m = elim (Bool-cases b.closed) [
  | inl c ↦ let over : s.done ≡ true = sym m.same_done ∙ c in rw over (b, ground arith, λ k. refl)
  | inr o ↦
      let open_ : s.done ≡ false = sym m.same_done ∙ o in
      elim (Bool-cases (is_empty (normalize name))) [
        | inl e ↦ rw (open_, e) (b, ground arith, λ k. refl)
        | inr e ↦
            let key = normalize name in
            let (entries, has) = m.open_has o in
            let (bkt, b', at) = get_or_create-Opened key b entries has in
            let (b'', sent, events) = send_event_answers done waiting key d bkt b b' at in
            let opened : publish done waiting name d b
                ≡ send_event done waiting key d (get_or_create_bucket key b) =
              ground arith in
            let p : Published =
              if done
              then ctx_error
              else if has_room waiting b.buffer (events_at key b)
              then queued
              else blocked in
            let answer : publish_answer s done waiting name b ≡ p = rw (open_, e) refl in
            subst (Publishes done waiting name d b) (sym answer)
              (b'', opened ∙ ap (send_event done waiting key d) at.got ∙ sent, events)
      ]
]
