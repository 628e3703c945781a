-- ===== src/EventBus/Behaviour.antt =====
-- What each call and each round of a worker does on a bus that any calls have led to.
use myflowhub_core.Common.{
  ℕ, ◌≡◌, inl, inr, refl, sym, ap, ◌∙◌, subst, List, [], ◌∷◌, none, some, Text, text_instance,
  text_eq, Assoc, lookup, UniqueKeys, Option-cases, if◌then◌else◌,
}
use myflowhub_core.EventBus.{Bus, Event, put_bucket, bucket_of, loop_step, dispatch}
use myflowhub_core.EventBus.Spec.{Spec, handlers_at, Matches}
use myflowhub_core.EventBus.Subscriptions.{buckets_of}
use myflowhub_core.EventBus.Channels.{events_of, events_at, events_at-put}

-- A round of a worker of the bucket of a key takes the event that has waited longest, and calls each
-- handler that is subscribed to the key once; it has nothing to do if no event waits.
pub record Works (key : Text) (b : Bus) (s : Spec) : Type 0 where
  pub idle : events_at key b ≡ [] → loop_step key b ≡ none
  pub takes :
      (e : Event) (rest : List Event)
      → events_at key b ≡ e ∷ rest
      → (b' : Bus) × (calls : Assoc Text ℕ) × (loop_step key b ≡ some (b', (e, calls)))
        × UniqueKeys calls
        × ((t : Text) → lookup t calls ≡ s.subs key t)
        × ((k : Text) → events_at k b' ≡ (if text_eq key k then rest else events_at k b))

pub loop_step-Works : (key : Text) (b : Bus) (s : Spec) → Matches b s → Works key b s
unfolding loop_step dispatch
loop_step-Works key b s m = elim (Option-cases (bucket_of key b)) [
  | inl missing ↦ record {
    idle = λ empty. rw (missing, loop_step) refl;
    takes = λ e rest has. absurd (cc (ap events_of missing, has));
  }
  | inr (bkt, found) ↦
      let (entries, there) = buckets_of key b bkt found in
      let ch : bkt.ch ≡ events_at key b = sym (ap events_of found) in
      let handlers : bkt.handlers ≡ handlers_at key b = rw (handlers_at, found) refl in
      record {
        idle = λ empty.
            (let none_left : bkt.ch ≡ [] = ch ∙ empty in rw (found, loop_step, none_left) refl);
        takes = λ e rest has.
            (let some_left : bkt.ch ≡ e ∷ rest = ch ∙ has in
              (
                put_bucket key (record bkt { ch = rest }) b,
                bkt.handlers,
                rw (found, loop_step, some_left) refl,
                subst UniqueKeys (sym handlers) (m.unique key),
                λ t. ap (lookup t) handlers ∙ m.same_subs key t,
                λ k. events_at-put key k (record bkt { ch = rest }) b entries there,
              ));
      }
]
