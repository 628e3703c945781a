-- ===== src/Server/Broadcast.antt =====
-- server/server.go: Broadcast, with the dispatcher that New always makes. The errors that callbacks
-- report while it runs are left out.
use myflowhub_core.Common.{
  ℕ, ◌≡◌, refl, sym, ap, ◌∙◌, List, [], ◌∷◌, ◌++◌, append-nil, append_assoc, Option, none, some,
  Bool, true, false, ◌==◌, only_if, set_queue_adds, Option-cases, inl, inr, arith,
}
use myflowhub_core.Header.{IHeader}
use myflowhub_core.Conn.{Ref}
use myflowhub_core.ConnMgr.{World, snapshot}
use myflowhub_core.Stream.{Codec}
use myflowhub_core.Sender.{SendError, Task, Sender, select_shard}
use myflowhub_core.Sender.Steps.{DispatchPick, Dispatched, refused, accepted, panicked, dispatch}
use myflowhub_core.Sender.Effects.{dispatch_to_effect}
use myflowhub_core.Server.{Server}

-- What one Dispatch adds to the answers of the rest; a panic ends the loop.
abbrev pub and_rest :
    {E : Type 0}
    → Sender E
    → Dispatched E
    → Option (Sender E × List (Dispatched E))
    → Option (Sender E × List (Dispatched E))
and_rest s panicked rest = some (s, panicked ∷ [])
and_rest s (refused e) none = none
and_rest s (refused e) (some (s', ds)) = some (s', refused e ∷ ds)
and_rest s (accepted i) none = none
and_rest s (accepted i) (some (s', ds)) = some (s', accepted i ∷ ds)

-- The error that Broadcast returns.
unfoldable pub first_error : {E : Type 0} → List (Dispatched E) → Option (SendError E)
first_error [] = none
first_error (refused e ∷ ds) = some e
first_error (d ∷ ds) = first_error ds

module _ (w : World) {E : Type 0} (codec : Codec E) (picks : Ref → DispatchPick × Bool) where
  abbrev pub frame_task : IHeader → List ℕ → Ref → Task E
  frame_task h payload c = record { conn = some c; hdr = h; payload = payload; codec = some codec }

  -- The calls of Dispatch in Broadcast, over the connections of Range.
  unfoldable pub broadcast_to :
      IHeader → List ℕ → List Ref → Sender E → Option (Sender E × List (Dispatched E))
  unfolding dispatch
  broadcast_to h payload [] s = some (s, [])
  broadcast_to h payload (c ∷ cs) s =
      elim (dispatch w (picks c).0 (picks c).1 (frame_task h payload c) s) [
        | none ↦ none
        | some (s', d) ↦ and_rest s' d (broadcast_to h payload cs s')
      ]

  -- Broadcast: the new sender, and what the calls of Dispatch answered; `first_error` is its answer.
  unfoldable pub server_broadcast :
      IHeader → List ℕ → Server E → Option (Sender E × List (Dispatched E))
  unfolding broadcast_to
  server_broadcast h payload s = broadcast_to h payload (snapshot s.cm) s.sender

  abbrev pub shard_of : IHeader → ℕ → Ref → ℕ
  shard_of h n c = select_shard (some (w.conn c).id) (some h) n

  -- The tasks for some connections that belong to shard `i` of `n`.
  abbrev pub tasks_for : ℕ → ℕ → IHeader → List ℕ → List Ref → List (Task E)
  tasks_for n i h payload [] = []
  tasks_for n i h payload (c ∷ cs) =
      only_if (shard_of h n c == i) (frame_task h payload c) ++ tasks_for n i h payload cs

  -- No call has panicked.
  abbrev pub no_panic : List (Dispatched E) → Bool
  no_panic [] = true
  no_panic (panicked ∷ ds) = false
  no_panic (refused e ∷ ds) = no_panic ds
  no_panic (accepted i ∷ ds) = no_panic ds

  dispatch_adds :
      (h : IHeader) (payload : List ℕ) (c : Ref) (s s' : Sender E) (j : ℕ)
      → dispatch w (picks c).0 (picks c).1 (frame_task h payload c) s ≡ some (s', accepted j)
      → (s'.shard_count ≡ s.shard_count)
        × ((i : ℕ)
            → s'.shards i
              ≡ s.shards i ++ only_if (shard_of h s.shard_count c == i) (frame_task h payload c))
  unfolding dispatch
  dispatch_adds h payload c s s' j e =
      let t = frame_task h payload c in
      let k = shard_of h s.shard_count c in
      elim (dispatch_to_effect w (picks c).0 (picks c).1 t k s s' (accepted j) e) [
        | inl (same, quiet) ↦ absurd (cc (quiet []))
        | inr (grown, at) ↦ (
          ap (λ z. z.shard_count) grown,
          λ i. ap (λ z. z.shards i) grown ∙ set_queue_adds s.shards k i t [],
        )
      ]

  Adds : IHeader → List ℕ → List Ref → Sender E → Sender E → Type 0
  Adds h payload cs s s' =
      (i : ℕ) → s'.shards i ≡ s.shards i ++ tasks_for s.shard_count i h payload cs

  one_more :
      (h : IHeader) (payload : List ℕ) (c : Ref) (cs : List Ref) (s s1 s' : Sender E) (j : ℕ)
      → dispatch w (picks c).0 (picks c).1 (frame_task h payload c) s ≡ some (s1, accepted j)
      → Adds h payload cs s1 s'
      → Adds h payload (c ∷ cs) s s'
  unfolding Adds
  one_more h payload c cs s s1 s' j e rest i =
      let (count, adds) = dispatch_adds h payload c s s1 j e in
      let t = only_if (shard_of h s.shard_count c == i) (frame_task h payload c) in
      rest i
      ∙ ap (λ q. q ++ tasks_for s1.shard_count i h payload cs) (adds i)
      ∙ ap (λ n. (s.shards i ++ t) ++ tasks_for n i h payload cs) count
      ∙ append_assoc (s.shards i) t (tasks_for s.shard_count i h payload cs)

  no_panic_first :
      (s1 s' : Sender E) (d : Dispatched E) (ds : List (Dispatched E))
      (rest : Option (Sender E × List (Dispatched E)))
      → and_rest s1 d rest ≡ some (s', ds)
      → no_panic ds ≡ true
      → first_error ds ≡ none
      → (j : ℕ) × (ds' : List (Dispatched E)) × (d ≡ accepted j)
        × (rest ≡ some (s', ds'))
        × (no_panic ds' ≡ true)
        × (first_error ds' ≡ none)
  unfolding first_error
  no_panic_first s1 s' panicked ds rest e n f = absurd (ground (arith, e, n))
  no_panic_first s1 s' (refused x) ds none e n f = absurd (ground (arith, e))
  no_panic_first s1 s' (refused x) ds (some (s2, ds2)) e n f = absurd (ground (arith, e, f))
  no_panic_first s1 s' (accepted j) ds none e n f = absurd (ground (arith, e))
  no_panic_first s1 s' (accepted j) ds (some (s2, ds2)) e n f =
      (j, ds2, refl, ground (arith, e), ground (arith, e, n), ground (arith, e, f))

  broadcast_to-Adds :
      (h : IHeader) (payload : List ℕ) (cs : List Ref) (s s' : Sender E) (ds : List (Dispatched E))
      → broadcast_to h payload cs s ≡ some (s', ds)
      → no_panic ds ≡ true
      → first_error ds ≡ none
      → Adds h payload cs s s'
  unfolding broadcast_to Adds
  broadcast_to-Adds h payload [] s s' ds e n f i =
      let same : s ≡ s' = ground (arith, e) in
      ap (λ z. z.shards i) (sym same) ∙ sym (append-nil (s.shards i))
  broadcast_to-Adds h payload (c ∷ cs) s s' ds e n f i =
      elim (Option-cases (dispatch w (picks c).0 (picks c).1 (frame_task h payload c) s)) [
        | inl stops ↦ absurd (ground (arith, e, stops))
        | inr ((s1, d), goes) ↦
            let e1 : and_rest s1 d (broadcast_to h payload cs s1) ≡ some (s', ds) =
              ground (arith, e, goes) in
            let (j, ds', is_accepted, e2, n2, f2) =
              no_panic_first s1 s' d ds (broadcast_to h payload cs s1) e1 n f in
            one_more h payload c cs s s1 s' j (goes ∙ ap (λ x. some (s1, x)) is_accepted)
              (broadcast_to-Adds h payload cs s1 s' ds' e2 n2 f2) i
      ]

  -- When Broadcast returns nil and has not panicked, each shard has got, behind the tasks that it
  -- had, one task with the frame for each connection of the manager that belongs to this shard, in
  -- the order of Range.
  pub broadcast_reaches :
      (h : IHeader) (payload : List ℕ) (s : Server E) (s' : Sender E) (ds : List (Dispatched E))
      (i : ℕ)
      → server_broadcast h payload s ≡ some (s', ds)
      → no_panic ds ≡ true
      → first_error ds ≡ none
      → s'.shards i
        ≡ s.sender.shards i ++ tasks_for s.sender.shard_count i h payload (snapshot s.cm)
  unfolding server_broadcast Adds
  broadcast_reaches h payload s s' ds i e n f =
      broadcast_to-Adds h payload (snapshot s.cm) s.sender s' ds e n f i
