-- ===== src/EventBus/Spec.antt =====
-- The bus as a client sees it: which handler is subscribed under which token.
use myflowhub_core.Common.{
  ℕ, ◌+◌, ◌%◌, ◌^◌, ◌≡◌, inl, inr, refl, sym, ap, ◌∙◌, subst, List, [], ◌∷◌, Option, none, some,
  Bool, true, false, Text, text_instance, text_eq, text_eq_iff, Assoc, lookup, insert, erase,
  lookup-insert, lookup-erase, UniqueKeys, is_empty, Option-cases, Bool-cases, if◌then◌else◌, arith,
}
use myflowhub_core.EventBus.{
  Bus, Bucket, normalize, new_bucket, get_or_create_bucket, put_bucket, bucket_of, token_of,
  subscribe, unsubscribe, publish_sync, publish, loop_step, close,
}

-- A call of a client, or a round of a worker.
pub data Op : Type 0 where
  subscribes : Text → Option ℕ → Op
  unsubscribes : Text → Text → Op
  publishes : Bool → Bool → Text → ℕ → Op
  publishes_sync : Text → Op
  loops : Text → Op
  closes : Op

abbrev pub bus_of : {A : Type 0} → Option (Bus × A) → Option Bus
bus_of none = none
bus_of (some r) = some r.0

abbrev pub or_same : {A : Type 0} → Bus → Option (Bus × A) → Bus
or_same b none = b
or_same b (some r) = r.0

-- `none` is a panic.
unfoldable pub run_op : Op → Bus → Option Bus
run_op (subscribes name h) b = bus_of (subscribe name h b)
run_op (unsubscribes name token) b = some (unsubscribe name token b)
run_op (publishes done waiting name d) b = bus_of (publish done waiting name d b)
run_op (publishes_sync name) b = bus_of (publish_sync name b)
run_op (loops key) b = some (or_same b (loop_step key b))
run_op closes b = some (close b)

unfoldable pub run : List Op → Bus → Option Bus
run [] b = some b
run (op ∷ ops) b = elim (run_op op b) [ none ↦ none | some b' ↦ run ops b' ]

-- The abstract bus: whether it is closed, how many subscriptions it has made, and a function from
-- the normalised name and the token to the handler.
pub record Spec : Type 0 where
  pub done : Bool
  pub count : ℕ
  pub subs : Text → Text → Option ℕ

abbrev pub update : Text → Text → Option ℕ → (Text → Text → Option ℕ) → Text → Text → Option ℕ
update key token v f k t = if text_eq key k then (if text_eq token t then v else f k t) else f k t

abbrev pub replay_op : Op → Spec → Spec
replay_op (subscribes name none) s = s
replay_op (subscribes name (some h)) s =
    let n = (s.count + 1) % 2 ^ 64 in
    if s.done then s else if is_empty (normalize name) then s else record s {
      count = n;
      subs = update (normalize name) (token_of (normalize name) n) (some h) s.subs;
    }
replay_op (unsubscribes name token) s =
    if is_empty (normalize name)
    then s
    else if is_empty token
    then s
    else record s { subs = update (normalize name) token none s.subs }
replay_op (publishes done waiting name d) s = s
replay_op (publishes_sync name) s = s
replay_op (loops key) s = s
replay_op closes s =
    if s.done then s else record { done = true; count = s.count; subs = λ k t. none }

abbrev pub replay : List Op → Spec → Spec
replay [] s = s
replay (op ∷ ops) s = replay ops (replay_op op s)

abbrev pub new_spec : Spec
new_spec = record { done = false; count = 0; subs = λ k t. none }

abbrev pub handlers_of : Option Bucket → Assoc Text ℕ
handlers_of none = []
handlers_of (some bkt) = bkt.handlers

-- The handlers under a key, in the map of buckets.
abbrev pub handlers_at : Text → Bus → Assoc Text ℕ
handlers_at key b = handlers_of (bucket_of key b)

-- The bus stands for the abstract one: an open bus has its map, a closed one none.
pub record Matches (b : Bus) (s : Spec) : Type 0 where
  pub same_done : b.closed ≡ s.done
  pub same_count : b.counter ≡ s.count
  pub same_subs : (k t : Text) → lookup t (handlers_at k b) ≡ s.subs k t
  pub unique : (k : Text) → UniqueKeys (handlers_at k b)
  pub open_has : b.closed ≡ false → (m : Assoc Text Bucket) × (b.buckets ≡ some m)
  pub closed_has : b.closed ≡ true → b.buckets ≡ none

-- A bucket put into the map changes the handlers under its key alone.
pub handlers_at-put :
    (key k : Text) (bkt : Bucket) (b : Bus) (m : Assoc Text Bucket)
    → b.buckets ≡ some m
    → handlers_at k (put_bucket key bkt b)
      ≡ (if text_eq key k then bkt.handlers else handlers_at k b)
handlers_at-put key k bkt b m e = ground (arith, e, lookup-insert key k bkt m)

pub put-Matches :
    (key : Text) (bkt : Bucket) (b : Bus) (s s' : Spec) (m : Assoc Text Bucket)
    → Matches b s
    → b.buckets ≡ some m
    → b.closed ≡ s'.done
    → b.counter ≡ s'.count
    → UniqueKeys bkt.handlers
    → ((k t : Text)
        → lookup t (if text_eq key k then bkt.handlers else handlers_at k b) ≡ s'.subs k t)
    → Matches (put_bucket key bkt b) s'
put-Matches key bkt b s s' m h e done count u subs = record {
  same_done = ground (arith, e);
  same_count = ground (arith, e);
  same_subs = λ k t. ap (lookup t) (handlers_at-put key k bkt b m e) ∙ subs k t;
  unique = λ k.
      subst UniqueKeys (sym (handlers_at-put key k bkt b m e))
        (elim (Bool-cases (text_eq key k)) [ inl y ↦ rw y u | inr n ↦ rw n (h.unique k) ]);
  open_has = λ o. (insert key bkt m, rw (e, put_bucket) refl);
  closed_has = λ c. absurd (ground (arith, e, h.closed_has));
}

-- The bucket under a key, with or without changes to what is no handler.
pub touch-Matches :
    (key : Text) (bkt : Bucket) (b : Bus) (s : Spec) (m : Assoc Text Bucket)
    → Matches b s
    → b.buckets ≡ some m
    → bkt.handlers ≡ handlers_at key b
    → Matches (put_bucket key bkt b) s
touch-Matches key bkt b s m h e same =
    put-Matches key bkt b s s m h e h.same_done h.same_count
      (subst UniqueKeys (sym same) (h.unique key))
      (λ k t. elim (Bool-cases (text_eq key k)) [
        | inl y ↦ rw y (
            ap (lookup t) (same ∙ ap (λ j. handlers_at j b) ((text_eq_iff key k).0 y))
            ∙ h.same_subs k t)
        | inr n ↦ rw n (h.same_subs k t)
      ])

pub get_or_create_effect :
    (key : Text) (b : Bus) (s : Spec)
    → Matches b s
    → b.closed ≡ false
    → (bkt : Bucket) × (b' : Bus) × (get_or_create_bucket key b ≡ some (bkt, b'))
      × Matches b' s
      × (b'.closed ≡ false)
      × (bkt.handlers ≡ handlers_at key b')
unfolding get_or_create_bucket
get_or_create_effect key b s h o =
    let (m, e) = h.open_has o in
    elim (Option-cases (lookup key m)) [
      | inr (bkt, q) ↦ (bkt, b, ground (arith, e), h, o, ground (arith, e))
      | inl q ↦ (
        new_bucket,
        put_bucket key new_bucket b,
        ground (arith, e),
        touch-Matches key new_bucket b s m h e (ground (arith, e)),
        ground (arith, e),
        ground (arith, e, lookup-insert key key new_bucket m, text_eq_iff key key),
      )
    ]

pub lookup-update :
    (key token k t : Text) (hs : Assoc Text ℕ) (v : ℕ) (f : Text → Text → Option ℕ) (b : Bus)
    → ((j u : Text) → lookup u (handlers_at j b) ≡ f j u)
    → hs ≡ handlers_at key b
    → (lookup t (if text_eq key k then insert token v hs else handlers_at k b)
        ≡ update key token (some v) f k t)
      × (lookup t (if text_eq key k then erase token hs else handlers_at k b)
          ≡ update key token none f k t)
lookup-update key token k t hs v f b same e = elim (Bool-cases (text_eq key k)) [
  | inl y ↦
      let here : lookup t hs ≡ f k t =
        ap (lookup t) (e ∙ ap (λ j. handlers_at j b) ((text_eq_iff key k).0 y)) ∙ same k t in
      (
        rw y (lookup-insert token t v hs ∙ rw here refl),
        rw y (lookup-erase token t hs ∙ rw here refl),
      )
  | inr n ↦ (rw n (same k t), rw n (same k t))
]
