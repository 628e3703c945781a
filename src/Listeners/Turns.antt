-- ===== src/Listeners/Turns.antt =====
-- What an admission, a removal and a connection from elsewhere do to the manager of a listener.
use myflowhub_core.Common.{
  ℕ, ◌+◌, ◌%◌, ◌^◌, ◌<◌, ◌≡◌, ◌≢◌, refl, sym, ap, ◌∙◌, subst, List, [], ◌∷◌, none, some, Bool,
  if◌then◌else◌, Text, text_instance, text_eq_iff, lookup, lookup-erase, Option-cases, inl, inr,
  ==_refl, arith,
}
use myflowhub_core.Conn.{Ref}
use myflowhub_core.ConnMgr.{World, Manager, add, remove, purge, get}
use myflowhub_core.ConnMgr.Laws.{add_fresh}
use myflowhub_core.EventBus.{token_of}
use myflowhub_core.EventBus.Tokens.{token_injective}
use myflowhub_core.Listeners.{
  Hub, new_conn, drop_unless_added, admit, admit_numbered, Turn, accepts, removes, takes_number,
  joins, removed_meanwhile, joined_meanwhile,
}

-- No connection of this kind has a number above the last.
abbrev pub NumbersFree : Text → Hub → Type 0
NumbersFree kind h = (n : ℕ) → h.seq < n → get (token_of kind n) h.manager ≡ none

new_conn_id : (id : Text) (c : Ref) (w : World) → ((new_conn id c w).conn c).id ≡ id
new_conn_id id c w = rw (==_refl c) refl

-- What becomes of the hub when a connection with a free ID is admitted.
record Admitted (id : Text) (c : Ref) (h h' : Hub) : Type 0 where
  found : get id h'.manager ≡ some c
  others : (j : Text) → j ≢ id → get j h'.manager ≡ get j h.manager
  same_seq : h'.seq ≡ h.seq
  same_dropped : h'.dropped ≡ h.dropped

admit-Admitted :
    (id : Text) (c : Ref) (h : Hub) → get id h.manager ≡ none → Admitted id c h (admit id c h)
unfolding admit
admit-Admitted id c h free =
    let w' = new_conn id c h.world in
    let is : (w'.conn c).id ≡ id = new_conn_id id c h.world in
    let (found, others, counted, node, device, fine, events) =
      add_fresh w' c h.manager (ap (λ t. get t h.manager) is ∙ free) in
    let m' = (add w' (some c) h.manager).0 in
    subst (λ e. Admitted id c h (drop_unless_added e c (record h { world = w'; manager = m' })))
      (sym fine)
      (record {
        found = ap (λ t. get t m') (sym is) ∙ found;
        others = λ j ne. others j (λ e. ne (e ∙ is));
        same_seq = refl;
        same_dropped = refl;
      })

-- One connection more: it is found under the next number, which is used up.
pub admit_numbered-Admitted :
    (kind : Text) (c : Ref) (h : Hub)
    → NumbersFree kind h
    → h.seq + 1 < 2 ^ 64
    → let h' = admit_numbered kind c h in
      ((get (token_of kind (h.seq + 1)) h'.manager ≡ some c)
        × ((j : Text) → j ≢ token_of kind (h.seq + 1) → get j h'.manager ≡ get j h.manager)
        × (h'.seq ≡ h.seq + 1)
        × (h'.dropped ≡ h.dropped)
        × NumbersFree kind h')
unfolding admit_numbered
admit_numbered-Admitted kind c h free small =
    let n = (h.seq + 1) % 2 ^ 64 in
    let next : n ≡ h.seq + 1 = omega (arith, small) in
    let a =
      admit-Admitted (token_of kind n) c (record h { seq = n }) (free n (omega (arith, next))) in
    (
      subst (λ k. get (token_of kind k) (admit_numbered kind c h).manager ≡ some c) next a.found,
      (λ j ne. a.others j (λ e. ne (e ∙ ap (token_of kind) next))),
      a.same_seq ∙ next,
      a.same_dropped,
      (λ k more.
          a.others (token_of kind k)
            (λ e. omega (arith, token_injective kind k n e, more, a.same_seq))
          ∙ free k (omega (arith, more, a.same_seq, next))),
    )

abbrev pub Found : Text → Manager → ℕ × Ref → Type 0
Found kind m (n, c) = get (token_of kind n) m ≡ some c

-- The IDs that others remove.
abbrev pub removed_ids : {O : Type 0} → List (Turn O) → List Text
removed_ids [] = []
removed_ids (accepts o ∷ more) = removed_ids more
removed_ids (removes id ∷ more) = id ∷ removed_ids more
removed_ids (takes_number ∷ more) = removed_ids more
removed_ids (joins id c ∷ more) = removed_ids more

abbrev pub NotIn : Text → List Text → Type 0
NotIn j [] = Unit {0}
NotIn j (id ∷ ids) = (j ≢ id) × NotIn j ids

-- A connection that joins from elsewhere has no number above those that have been taken by then,
-- from `n` on; `counts` tells which accepted ones take one.
abbrev pub JoinsTaken : {O : Type 0} → Text → (O → Bool) → ℕ → List (Turn O) → Type 0
JoinsTaken kind counts n [] = Unit {0}
JoinsTaken kind counts n (accepts o ∷ more) =
    JoinsTaken kind counts (if counts o then n + 1 else n) more
JoinsTaken kind counts n (removes id ∷ more) = JoinsTaken kind counts n more
JoinsTaken kind counts n (takes_number ∷ more) = JoinsTaken kind counts (n + 1) more
JoinsTaken kind counts n (joins id c ∷ more) =
    ((k : ℕ) → n < k → id ≢ token_of kind k) × JoinsTaken kind counts n more

pub removed-keeps :
    (id j : Text) (c : Ref) (h : Hub)
    → j ≢ id
    → get j h.manager ≡ some c
    → get j (removed_meanwhile id h).manager ≡ some c
unfolding removed_meanwhile remove purge get
removed-keeps id j c h other here = elim (Option-cases (lookup id h.manager.conns)) [
  | inl e ↦ rw (removed_meanwhile, e, remove) here
  | inr (d, e) ↦
      rw (removed_meanwhile, e, remove, purge)
        (ground (arith, here, lookup-erase id j h.manager.conns, text_eq_iff id j))
]

pub removed-none :
    (id j : Text) (h : Hub) → get j h.manager ≡ none → get j (removed_meanwhile id h).manager ≡ none
unfolding removed_meanwhile remove purge get
removed-none id j h gone = elim (Option-cases (lookup id h.manager.conns)) [
  | inl e ↦ rw (removed_meanwhile, e, remove) gone
  | inr (d, e) ↦
      rw (removed_meanwhile, e, remove, purge)
        (ground (arith, gone, lookup-erase id j h.manager.conns))
]

-- A connection that joins under an ID leaves the entries of the others, and a taken entry, as they are.
pub joined-keeps :
    (id j : Text) (d : Ref) (h : Hub)
    → ((c : Ref) → get j h.manager ≡ some c → get j (joined_meanwhile id d h).manager ≡ some c)
      × (j ≢ id → get j h.manager ≡ none → get j (joined_meanwhile id d h).manager ≡ none)
unfolding joined_meanwhile add get
joined-keeps id j d h =
    let w' = new_conn id d h.world in
    let is : (w'.conn d).id ≡ id = new_conn_id id d h.world in
    elim (Option-cases (get (w'.conn d).id h.manager)) [
      | inl free ↦
          let others = (add_fresh w' d h.manager free).1 in
          (
            λ c here. others j (λ e. cc (here, free, ap (λ i. get i h.manager) e)) ∙ here,
            λ ne gone. others j (λ e. ne (e ∙ is)) ∙ gone,
          )
      | inr (old, taken) ↦ (λ c here. rw (taken, add) here, λ ne gone. rw (taken, add) gone)
    ]
