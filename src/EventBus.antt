-- ===== src/EventBus.antt =====
-- eventbus/bus.go and eventbus/bucket.go. A handler is a number, and so is the data of an event; a
-- panic of a handler is recovered and has no effect. Calls are recorded as pairs of the token and
-- the handler, in the order of the map. What a select takes is an argument.
pub mod Tokens
pub mod Spec
pub mod Subscriptions
pub mod Refines
pub mod Channels
pub mod Answers
pub mod Behaviour
use myflowhub_core.Common.{
  ℕ, zero, suc, ◌+◌, ◌/◌, ◌%◌, ◌^◌, List, [], ◌∷◌, ◌++◌, Option, none, some, Bool, true, false, not,
  Text, text_instance, Assoc, lookup, insert, erase, length, is_empty, ltb, ◌==◌, if◌then◌else◌,
  has_room,
}
use myflowhub_core.Conn.{ℤ, pos, negsuc}
use myflowhub_core.Strings.{trim_space, to_lower}

pub record Event : Type 0 where
  pub name : Text
  pub data_of : ℕ

pub record Options : Type 0 where
  pub default_buffer : ℤ
  pub default_workers : ℤ

-- A bucket: its channel, and its handlers by token.
pub record Bucket : Type 0 where
  pub ch : List Event
  pub handlers : Assoc Text ℕ

-- The bus; after Close its map of buckets is nil.
pub record Bus : Type 0 where
  pub buckets : Option (Assoc Text Bucket)
  pub buffer : ℕ
  pub workers : ℕ
  pub closed : Bool
  pub counter : ℕ

abbrev at_least : ℕ → ℤ → ℕ
at_least d (pos n) = if n == 0 then d else n
at_least d (negsuc n) = d

-- New.
unfoldable pub new_bus : Options → Bus
new_bus o = record {
  buckets = some [];
  buffer = at_least 64 o.default_buffer;
  workers = at_least 1 o.default_workers;
  closed = false;
  counter = 0;
}

-- normalize.
unfoldable pub normalize : Text → Text
normalize name = to_lower (trim_space name)

-- newBucket; its workers are in `loop_step`.
abbrev pub new_bucket : Bucket
new_bucket = record { ch = []; handlers = [] }

-- getOrCreateBucket; `none` is the panic of a write to the nil map.
unfoldable pub get_or_create_bucket : Text → Bus → Option (Bucket × Bus)
get_or_create_bucket key b = elim b.buckets [
  | none ↦ none
  | some m ↦ elim (lookup key m) [
    | some bkt ↦ some (bkt, b)
    | none ↦ some (new_bucket, record b { buckets = some (insert key new_bucket m) })
  ]
]

-- The bucket of a key has changed, in the map where it is.
abbrev pub put_bucket : Text → Bucket → Bus → Bus
put_bucket key bkt b = elim b.buckets [
  | none ↦ b
  | some m ↦ record b { buckets = some (insert key bkt m) }
]

-- dispatch of a bucket.
unfoldable pub dispatch : Bucket → Assoc Text ℕ
dispatch bkt = bkt.handlers

-- %d of a number that is not negative.
unfoldable pub show_digits : ℕ → ℕ → Text
show_digits zero n = []
show_digits (suc fuel) n =
    let front = show_digits fuel (n / 10) in
    if ltb n 10 then (48 + n) ∷ [] else front ++ (48 + n % 10) ∷ []

unfoldable pub show_nat : ℕ → Text
unfolding show_digits
show_nat n = show_digits (suc n) n

unfoldable pub token_of : Text → ℕ → Text
unfolding show_nat
token_of key n = key ++ (b'#' ∷ show_nat n)

-- The end of Subscribe, with the bucket.
abbrev pub add_handler : Text → ℕ → Option (Bucket × Bus) → Option (Bus × Text)
add_handler key h none = none
add_handler key h (some (bkt, b)) =
    let n = (b.counter + 1) % 2 ^ 64 in
    let token = token_of key n in
    some (
      put_bucket key (record bkt { handlers = insert token h bkt.handlers })
          (record b { counter = n }),
      token,
    )

-- Subscribe: the token, empty if there is no subscription.
unfoldable pub subscribe : Text → Option ℕ → Bus → Option (Bus × Text)
unfolding get_or_create_bucket normalize
subscribe name none b = some (b, [])
subscribe name (some h) b =
    let key = normalize name in
    if b.closed
    then some (b, [])
    else if is_empty key
    then some (b, [])
    else add_handler key h (get_or_create_bucket key b)

abbrev pub bucket_of : Text → Bus → Option Bucket
bucket_of key b = elim b.buckets [ none ↦ none | some m ↦ lookup key m ]

-- Unsubscribe.
unfoldable pub unsubscribe : Text → Text → Bus → Bus
unfolding normalize
unsubscribe name token b =
    let key = normalize name in
    if is_empty key then b else if is_empty token then b else elim (bucket_of key b) [
      | none ↦ b
      | some bkt ↦ put_bucket key (record bkt { handlers = erase token bkt.handlers }) b
    ]

abbrev pub calls_of : Option (Bucket × Bus) → Option (Bus × Assoc Text ℕ)
calls_of none = none
calls_of (some (bkt, b)) = some (b, bkt.handlers)

-- PublishSync: the handlers called, by token.
unfoldable pub publish_sync : Text → Bus → Option (Bus × Assoc Text ℕ)
unfolding get_or_create_bucket normalize
publish_sync name b =
    let key = normalize name in
    if b.closed
    then some (b, [])
    else if is_empty key
    then some (b, [])
    else calls_of (get_or_create_bucket key b)

-- How Publish ended.
pub data Published : Type 0 where
  closed_error ctx_error ignored queued blocked : Published

-- The select of Publish: `done` tells whether it takes the case of the context.
abbrev pub send_event : Bool → Bool → Text → ℕ → Option (Bucket × Bus) → Option (Bus × Published)
send_event done waiting key d none = none
send_event done waiting key d (some (bkt, b)) =
    if done
    then some (b, ctx_error)
    else if has_room waiting b.buffer bkt.ch
    then some (
      put_bucket key (record bkt { ch = bkt.ch ++ (record { name = key; data_of = d } ∷ []) }) b,
      queued,
    )
    else some (b, blocked)

-- Publish.
unfoldable pub publish : Bool → Bool → Text → ℕ → Bus → Option (Bus × Published)
unfolding get_or_create_bucket normalize
publish done waiting name d b =
    let key = normalize name in
    if b.closed
    then some (b, closed_error)
    else if is_empty key
    then some (b, ignored)
    else send_event done waiting key d (get_or_create_bucket key b)

-- One round of a worker of a bucket: the event, and the handlers called with it.
unfoldable pub loop_step : Text → Bus → Option (Bus × (Event × Assoc Text ℕ))
unfolding dispatch
loop_step key b = elim (bucket_of key b) [
  | none ↦ none
  | some bkt ↦ elim bkt.ch [
    | [] ↦ none
    | e ∷ rest ↦ some (put_bucket key (record bkt { ch = rest }) b, (e, dispatch bkt))
  ]
]

-- Close. The workers of the buckets end, and events that still wait are not delivered.
unfoldable pub close : Bus → Bus
close b = if b.closed then b else record b { closed = true; buckets = none }
