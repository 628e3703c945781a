-- ===== src/Listeners/Managed.antt =====
-- Which connections the RFCOMM and the QUIC listener close, and which the manager has.
use myflowhub_core.Common.{
  ℕ, ◌+◌, ◌^◌, ◌<◌, ◌≡◌, refl, ap, ◌∙◌, subst, List, [], ◌∷◌, true, false, Bool, if◌then◌else◌,
  Text, text_instance, codes, All, map, length, arith,
}
use myflowhub_core.Conn.{Ref}
use myflowhub_core.Listeners.{
  Hub, Verdict, Turn, accepts, removes, takes_number, joins, map_turn, RfcommOutcome, rfcomm_pipe,
  rfcomm_nil_pipe, rfcomm_failed, rfcomm_round, rfcomm_listen, QuicOutcome, quic_stream,
  quic_no_stream, quic_failed, quic_round, quic_listen,
}
use myflowhub_core.Listeners.Turns.{NumbersFree, removed_ids, JoinsTaken}
use myflowhub_core.Listeners.Loop.{
  is_wrap, numbered, refused, FoundUnless, IsNumbering, accept_loop-Managed,
}

rfcomm_round-IsNumbering : (t : Turn RfcommOutcome) → IsNumbering (map_turn rfcomm_round t)
unfolding rfcomm_round
rfcomm_round-IsNumbering (accepts (rfcomm_pipe c)) id d e = cc e
rfcomm_round-IsNumbering (accepts rfcomm_nil_pipe) id d e = cc e
rfcomm_round-IsNumbering (accepts (rfcomm_failed true t x)) id d e = cc e
rfcomm_round-IsNumbering (accepts (rfcomm_failed false true x)) id d e = cc e
rfcomm_round-IsNumbering (accepts (rfcomm_failed false false x)) id d e = cc e
rfcomm_round-IsNumbering (removes i) id d e = cc e
rfcomm_round-IsNumbering takes_number id d e = cc e
rfcomm_round-IsNumbering (joins i c) id d e = cc e

quic_round-IsNumbering : (t : Turn QuicOutcome) → IsNumbering (map_turn quic_round t)
unfolding quic_round
quic_round-IsNumbering (accepts (quic_stream c)) id d e = cc e
quic_round-IsNumbering (accepts (quic_no_stream c)) id d e = cc e
quic_round-IsNumbering (accepts (quic_failed true x)) id d e = cc e
quic_round-IsNumbering (accepts (quic_failed false x)) id d e = cc e
quic_round-IsNumbering (removes i) id d e = cc e
quic_round-IsNumbering takes_number id d e = cc e
quic_round-IsNumbering (joins i c) id d e = cc e

All-map :
    {A B : Type 0} (P : B → Type 0) (f : A → B)
    → ((a : A) → P (f a))
    → (xs : List A) → All P (map f xs)
All-map P f p [] = tt
All-map P f p (x ∷ xs) = (p x, All-map P f p xs)

length-map : {A B : Type 0} (f : A → B) (xs : List A) → length (map f xs) ≡ length xs
length-map f [] = refl
length-map f (x ∷ xs) = omega (arith, length-map f xs)

removed_ids-map :
    {O : Type 0} (f : O → Verdict) (turns : List (Turn O))
    → removed_ids (map (map_turn f) turns) ≡ removed_ids turns
removed_ids-map f [] = refl
removed_ids-map f (accepts o ∷ more) = removed_ids-map f more
removed_ids-map f (removes id ∷ more) = ap (◌∷◌ id) (removed_ids-map f more)
removed_ids-map f (takes_number ∷ more) = removed_ids-map f more
removed_ids-map f (joins id c ∷ more) = removed_ids-map f more

JoinsTaken-map :
    {O : Type 0} (kind : Text) (counts : O → Bool) (f : O → Verdict)
    → ((o : O) → counts o ≡ is_wrap (f o))
    → (n : ℕ) (turns : List (Turn O)) → JoinsTaken kind counts n turns
    → JoinsTaken kind is_wrap n (map (map_turn f) turns)
JoinsTaken-map kind counts f same n [] h = tt
JoinsTaken-map kind counts f same n (accepts o ∷ more) h =
    subst (λ b. JoinsTaken kind is_wrap (if b then n + 1 else n) (map (map_turn f) more)) (same o)
      (JoinsTaken-map kind counts f same (if counts o then n + 1 else n) more h)
JoinsTaken-map kind counts f same n (removes id ∷ more) h =
    JoinsTaken-map kind counts f same n more h
JoinsTaken-map kind counts f same n (takes_number ∷ more) h =
    JoinsTaken-map kind counts f same (n + 1) more h
JoinsTaken-map kind counts f same n (joins id c ∷ more) (fair, h) =
    (fair, JoinsTaken-map kind counts f same n more h)

-- The connections that RFCOMM delivers before Listen ends, numbered from `n`.
unfoldable pub delivered : ℕ → List (Turn RfcommOutcome) → List (ℕ × Ref)
delivered n [] = []
delivered n (accepts (rfcomm_pipe c) ∷ more) = (n + 1, c) ∷ delivered (n + 1) more
delivered n (accepts rfcomm_nil_pipe ∷ more) = []
delivered n (accepts (rfcomm_failed false true e) ∷ more) = delivered n more
delivered n (accepts (rfcomm_failed true temporary e) ∷ more) = []
delivered n (accepts (rfcomm_failed false false e) ∷ more) = []
delivered n (removes id ∷ more) = delivered n more
delivered n (takes_number ∷ more) = delivered (n + 1) more
delivered n (joins id c ∷ more) = delivered n more

abbrev pub is_pipe : RfcommOutcome → Bool
is_pipe (rfcomm_pipe c) = true
is_pipe rfcomm_nil_pipe = false
is_pipe (rfcomm_failed stopping temporary e) = false

is_pipe_lem : (o : RfcommOutcome) → is_pipe o ≡ is_wrap (rfcomm_round o)
unfolding rfcomm_round
is_pipe_lem (rfcomm_pipe c) = refl
is_pipe_lem rfcomm_nil_pipe = refl
is_pipe_lem (rfcomm_failed true t e) = refl
is_pipe_lem (rfcomm_failed false true e) = refl
is_pipe_lem (rfcomm_failed false false e) = refl

rfcomm_rounds :
    (n : ℕ) (turns : List (Turn RfcommOutcome)) (before : List Ref)
    → let rounds = map (map_turn rfcomm_round) turns in
      (numbered n rounds ≡ delivered n turns) × (refused rounds before ≡ before)
unfolding refused rfcomm_round numbered delivered
rfcomm_rounds n [] before = (refl, refl)
rfcomm_rounds n (accepts (rfcomm_pipe c) ∷ more) before =
    let (made, none') = rfcomm_rounds (n + 1) more before in (ap (◌∷◌ (n + 1, c)) made, none')
rfcomm_rounds n (accepts rfcomm_nil_pipe ∷ more) before = (refl, refl)
rfcomm_rounds n (accepts (rfcomm_failed true t x) ∷ more) before = (refl, refl)
rfcomm_rounds n (accepts (rfcomm_failed false true x) ∷ more) before = rfcomm_rounds n more before
rfcomm_rounds n (accepts (rfcomm_failed false false x) ∷ more) before = (refl, refl)
rfcomm_rounds n (removes id ∷ more) before = rfcomm_rounds n more before
rfcomm_rounds n (takes_number ∷ more) before = rfcomm_rounds (n + 1) more before
rfcomm_rounds n (joins id c ∷ more) before = rfcomm_rounds n more before

-- The QUIC sessions that open a stream before Listen ends, numbered from `n`.
unfoldable pub streams : ℕ → List (Turn QuicOutcome) → List (ℕ × Ref)
streams n [] = []
streams n (accepts (quic_stream c) ∷ more) = (n + 1, c) ∷ streams (n + 1) more
streams n (accepts (quic_no_stream c) ∷ more) = streams n more
streams n (accepts (quic_failed stopping e) ∷ more) = []
streams n (removes id ∷ more) = streams n more
streams n (takes_number ∷ more) = streams (n + 1) more
streams n (joins id c ∷ more) = streams n more

-- Those that open none, on top of the connections of before.
unfoldable pub streamless : List (Turn QuicOutcome) → List Ref → List Ref
streamless [] before = before
streamless (accepts (quic_stream c) ∷ more) before = streamless more before
streamless (accepts (quic_no_stream c) ∷ more) before = streamless more (c ∷ before)
streamless (accepts (quic_failed stopping e) ∷ more) before = before
streamless (removes id ∷ more) before = streamless more before
streamless (takes_number ∷ more) before = streamless more before
streamless (joins id c ∷ more) before = streamless more before

abbrev pub is_stream : QuicOutcome → Bool
is_stream (quic_stream c) = true
is_stream (quic_no_stream c) = false
is_stream (quic_failed stopping e) = false

is_stream_lem : (o : QuicOutcome) → is_stream o ≡ is_wrap (quic_round o)
unfolding quic_round
is_stream_lem (quic_stream c) = refl
is_stream_lem (quic_no_stream c) = refl
is_stream_lem (quic_failed true e) = refl
is_stream_lem (quic_failed false e) = refl

quic_rounds :
    (n : ℕ) (turns : List (Turn QuicOutcome)) (before : List Ref)
    → let rounds = map (map_turn quic_round) turns in
      (numbered n rounds ≡ streams n turns) × (refused rounds before ≡ streamless turns before)
unfolding refused quic_round numbered streams streamless
quic_rounds n [] before = (refl, refl)
quic_rounds n (accepts (quic_stream c) ∷ more) before =
    let (made, closed) = quic_rounds (n + 1) more before in (ap (◌∷◌ (n + 1, c)) made, closed)
quic_rounds n (accepts (quic_no_stream c) ∷ more) before = quic_rounds n more (c ∷ before)
quic_rounds n (accepts (quic_failed true e) ∷ more) before = (refl, refl)
quic_rounds n (accepts (quic_failed false e) ∷ more) before = (refl, refl)
quic_rounds n (removes id ∷ more) before = quic_rounds n more before
quic_rounds n (takes_number ∷ more) before = quic_rounds (n + 1) more before
quic_rounds n (joins id c ∷ more) before = quic_rounds n more before

-- Listen of the RFCOMM listener, while connections leave the manager, dials take numbers and other
-- connections are added, closes none of the connections that it makes: their numbers are new, so the
-- manager takes all of them, and it still has each under its number at the end of the turns unless
-- others have removed that ID meanwhile. At the start no connection of the kind has a number above the
-- last, those that are added from elsewhere have none above those taken by then, and the counter does
-- not reach 2^64. A nil pipe without an error, on which Listen panics, ends the turns.
pub rfcomm_listen_manages :
    (turns : List (Turn RfcommOutcome)) (h : Hub)
    → NumbersFree (codes "rfcomm") h
    → JoinsTaken (codes "rfcomm") is_pipe h.seq turns
    → h.seq + length turns < 2 ^ 64
    → let h' = (rfcomm_listen turns h).0 in
      ((h'.dropped ≡ h.dropped)
        × All (FoundUnless (codes "rfcomm") (removed_ids turns) h'.manager) (delivered h.seq turns))
unfolding rfcomm_listen
rfcomm_listen_manages turns h free fair small =
    let kind = codes "rfcomm" in
    let m =
      accept_loop-Managed kind (map (map_turn rfcomm_round) turns) h
        (All-map IsNumbering (map_turn rfcomm_round) rfcomm_round-IsNumbering turns) free
        (JoinsTaken-map kind is_pipe rfcomm_round is_pipe_lem h.seq turns fair)
        (omega (arith, small, length-map (map_turn rfcomm_round) turns)) in
    let (made, none') = rfcomm_rounds h.seq turns h.dropped in
    let m' = (rfcomm_listen turns h).0.manager in
    (
      m.dropped_refused ∙ none',
      subst (λ ids. All (FoundUnless kind ids m') (delivered h.seq turns))
          (removed_ids-map rfcomm_round turns)
          (subst (All (FoundUnless kind (removed_ids (map (map_turn rfcomm_round) turns)) m')) made
            m.all_found),
    )

-- Listen of the QUIC listener, while connections leave the manager, dials take numbers and other
-- connections are added, closes the sessions without a stream and no others: the manager takes every
-- connection that it makes, and still has it under its number at the end of the turns unless others
-- have removed that ID meanwhile. At the start no connection of the kind has a number above the last,
-- those that are added from elsewhere have none above those taken by then, and the counter does not
-- reach 2^64.
pub quic_listen_manages :
    (turns : List (Turn QuicOutcome)) (h : Hub)
    → NumbersFree (codes "quic") h
    → JoinsTaken (codes "quic") is_stream h.seq turns
    → h.seq + length turns < 2 ^ 64
    → let h' = (quic_listen turns h).0 in
      ((h'.dropped ≡ streamless turns h.dropped)
        × All (FoundUnless (codes "quic") (removed_ids turns) h'.manager) (streams h.seq turns))
unfolding quic_listen
quic_listen_manages turns h free fair small =
    let kind = codes "quic" in
    let m =
      accept_loop-Managed kind (map (map_turn quic_round) turns) h
        (All-map IsNumbering (map_turn quic_round) quic_round-IsNumbering turns) free
        (JoinsTaken-map kind is_stream quic_round is_stream_lem h.seq turns fair)
        (omega (arith, small, length-map (map_turn quic_round) turns)) in
    let (made, closed) = quic_rounds h.seq turns h.dropped in
    let m' = (quic_listen turns h).0.manager in
    (
      m.dropped_refused ∙ closed,
      subst (λ ids. All (FoundUnless kind ids m') (streams h.seq turns))
          (removed_ids-map quic_round turns)
          (subst (All (FoundUnless kind (removed_ids (map (map_turn quic_round) turns)) m')) made
            m.all_found),
    )
