-- ===== src/EventBus/Channels.antt =====
-- The events that wait in the channels of the bus, and what getOrCreateBucket leaves of them.
use myflowhub_core.Common.{
  ◌≡◌, inl, inr, refl, sym, ap, ◌∙◌, List, [], Option, none, some, Text, text_instance, text_eq,
  text_eq_iff, Assoc, lookup, lookup-insert, insert, Option-cases, Bool-cases, if◌then◌else◌, arith,
}
use myflowhub_core.EventBus.{
  Bus, Bucket, Event, new_bucket, get_or_create_bucket, put_bucket, bucket_of,
}

abbrev pub events_of : Option Bucket → List Event
events_of none = []
events_of (some bkt) = bkt.ch

-- The events that wait under a key.
abbrev pub events_at : Text → Bus → List Event
events_at key b = events_of (bucket_of key b)

pub events_at-put :
    (key k : Text) (bkt : Bucket) (b : Bus) (m : Assoc Text Bucket)
    → b.buckets ≡ some m
    → events_at k (put_bucket key bkt b) ≡ (if text_eq key k then bkt.ch else events_at k b)
events_at-put key k bkt b m e = ground (arith, e, lookup-insert key k bkt m)

-- The bucket that getOrCreateBucket answers has the events of its key, and nothing else changes.
pub record Opened (key : Text) (b : Bus) (bkt : Bucket) (b' : Bus) : Type 0 where
  pub got : get_or_create_bucket key b ≡ some (bkt, b')
  pub entries : (m : Assoc Text Bucket) × (b'.buckets ≡ some m)
  pub same_ch : bkt.ch ≡ events_at key b
  pub same_events : (k : Text) → events_at k b' ≡ events_at k b
  pub same_buffer : b'.buffer ≡ b.buffer
  pub same_counter : b'.counter ≡ b.counter

pub get_or_create-Opened :
    (key : Text) (b : Bus) (m : Assoc Text Bucket)
    → b.buckets ≡ some m
    → (bkt : Bucket) × (b' : Bus) × Opened key b bkt b'
unfolding get_or_create_bucket
get_or_create-Opened key b m e = elim (Option-cases (lookup key m)) [
  | inr (bkt, q) ↦ (
    bkt,
    b,
    record {
      got = ground (arith, e);
      entries = (m, e);
      same_ch = ground (arith, e);
      same_events = λ k. refl;
      same_buffer = refl;
      same_counter = refl;
    },
  )
  | inl q ↦
      let missing : events_at key b ≡ [] = ground (arith, e) in
      (
        new_bucket,
        put_bucket key new_bucket b,
        record {
          got = ground (arith, e);
          entries = (insert key new_bucket m, ground (arith, e));
          same_ch = sym missing;
          same_events = λ k.
              events_at-put key k new_bucket b m e ∙ (elim (Bool-cases (text_eq key k)) [
                | inl y ↦
                    let same : key ≡ k = (text_eq_iff key k).0 y in
                    rw y (sym (ap (λ j. events_at j b) (sym same) ∙ missing))
                | inr n ↦ rw n refl
              ]);
          same_buffer = ground (arith, e);
          same_counter = ground (arith, e);
        },
      )
]
