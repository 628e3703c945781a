-- ===== src/Listeners/Loop.antt =====
-- The accept loops: numbered connections are always taken by the manager, whatever others do with it
-- in the meantime.
use myflowhub_core.Common.{
  ℕ, ◌+◌, ◌%◌, ◌^◌, ◌<◌, ◌≡◌, ◌≢◌, refl, sym, ap, ◌∙◌, subst, List, [], ◌∷◌, some, true, false,
  Bool, Text, text_instance, All, length, arith,
}
use myflowhub_core.Conn.{Ref}
use myflowhub_core.ConnMgr.{Manager, get}
use myflowhub_core.EventBus.{token_of}
use myflowhub_core.Listeners.{
  Hub, admit_numbered, Verdict, wrap, wrap_as, refuse, again, return, panics, Turn, accepts,
  removes, takes_number, joins, removed_meanwhile, joined_meanwhile, accept_loop,
}
use myflowhub_core.Listeners.Turns.{
  NumbersFree, Found, removed_ids, NotIn, JoinsTaken, admit_numbered-Admitted, removed-keeps,
  removed-none, joined-keeps,
}

abbrev pub is_wrap : Verdict → Bool
is_wrap (wrap c) = true
is_wrap (wrap_as id c) = false
is_wrap (refuse c) = false
is_wrap again = false
is_wrap (return e) = false
is_wrap panics = false

-- The numbers that the rounds of a loop give, with their connections.
unfoldable pub numbered : ℕ → List (Turn Verdict) → List (ℕ × Ref)
numbered n [] = []
numbered n (accepts (wrap c) ∷ more) = (n + 1, c) ∷ numbered (n + 1) more
numbered n (accepts (wrap_as id c) ∷ more) = numbered n more
numbered n (accepts (refuse c) ∷ more) = numbered n more
numbered n (accepts again ∷ more) = numbered n more
numbered n (accepts (return e) ∷ more) = []
numbered n (accepts panics ∷ more) = []
numbered n (removes id ∷ more) = numbered n more
numbered n (takes_number ∷ more) = numbered (n + 1) more
numbered n (joins id c ∷ more) = numbered n more

-- The connections that the rounds refuse, on top of those of before.
unfoldable pub refused : List (Turn Verdict) → List Ref → List Ref
refused [] before = before
refused (accepts (wrap c) ∷ more) before = refused more before
refused (accepts (wrap_as id c) ∷ more) before = refused more before
refused (accepts (refuse c) ∷ more) before = refused more (c ∷ before)
refused (accepts again ∷ more) before = refused more before
refused (accepts (return e) ∷ more) before = before
refused (accepts panics ∷ more) before = before
refused (removes id ∷ more) before = refused more before
refused (takes_number ∷ more) before = refused more before
refused (joins id c ∷ more) before = refused more before

-- A round that gives its connection no ID of another form.
abbrev pub IsNumbering : Turn Verdict → Type 0
IsNumbering v = (id : Text) (c : Ref) → v ≢ accepts (wrap_as id c)

-- The connection is found under its number unless its ID is among those removed.
abbrev pub FoundUnless : Text → List Text → Manager → ℕ × Ref → Type 0
FoundUnless kind ids m (n, c) = NotIn (token_of kind n) ids → Found kind m (n, c)

-- What a loop leaves behind.
pub record Managed (kind : Text) (rounds : List (Turn Verdict)) (h h' : Hub) : Type 0 where
  pub dropped_refused : h'.dropped ≡ refused rounds h.dropped
  pub all_found : All (FoundUnless kind (removed_ids rounds) h'.manager) (numbered h.seq rounds)
  keeps :
      (j : Text) (c : Ref)
      → get j h.manager ≡ some c
      → NotIn j (removed_ids rounds)
      → get j h'.manager ≡ some c

All-imply :
    {A : Type 0} (P Q : A → Type 0) → ((a : A) → P a → Q a) → (xs : List A) → All P xs → All Q xs
All-imply P Q f [] h = tt
All-imply P Q f (x ∷ xs) (h, hs) = (f x h, All-imply P Q f xs hs)

pub accept_loop-Managed :
    (kind : Text) (rounds : List (Turn Verdict)) (h : Hub)
    → All IsNumbering rounds
    → NumbersFree kind h
    → JoinsTaken kind is_wrap h.seq rounds
    → h.seq + length rounds < 2 ^ 64
    → Managed kind rounds h (accept_loop kind rounds h).0
unfolding accept_loop numbered refused removed_meanwhile joined_meanwhile
accept_loop-Managed kind [] h num free taken small = record {
  dropped_refused = refl;
  all_found = tt;
  keeps = λ j c here out. here;
}
accept_loop-Managed kind (accepts (wrap c) ∷ more) h (plain, num) free taken small =
    let (found, other, seq, drop, free') =
      admit_numbered-Admitted kind c h free (omega (arith, small)) in
    let h1 = admit_numbered kind c h in
    let rest =
      accept_loop-Managed kind more h1 num free'
        (subst (λ k. JoinsTaken kind is_wrap k more) (sym seq) taken) (omega (arith, small, seq)) in
    record {
      dropped_refused = rest.dropped_refused ∙ ap (refused more) drop;
      all_found = (
        rest.keeps (token_of kind (h.seq + 1)) c found,
        subst
            (λ k.
              All (FoundUnless kind (removed_ids more) (accept_loop kind more h1).0.manager)
                (numbered k more))
            seq rest.all_found,
      );
      keeps = λ j d here out.
          rest.keeps j d
            (other j (λ e. cc (here, free (h.seq + 1) (omega arith), ap (λ i. get i h.manager) e))
              ∙ here)
            out;
    }
accept_loop-Managed kind (accepts (wrap_as id c) ∷ more) h (plain, num) free taken small =
    absurd (plain id c refl)
accept_loop-Managed kind (accepts (refuse c) ∷ more) h (plain, num) free taken small =
    let rest =
      accept_loop-Managed kind more (record h { dropped = c ∷ h.dropped }) num free taken
        (omega (arith, small)) in
    record {
      dropped_refused = rest.dropped_refused;
      all_found = rest.all_found;
      keeps = rest.keeps;
    }
accept_loop-Managed kind (accepts again ∷ more) h (plain, num) free taken small =
    let rest = accept_loop-Managed kind more h num free taken (omega (arith, small)) in
    record {
      dropped_refused = rest.dropped_refused;
      all_found = rest.all_found;
      keeps = rest.keeps;
    }
accept_loop-Managed kind (accepts (return x) ∷ more) h (plain, num) free taken small = record {
  dropped_refused = refl;
  all_found = tt;
  keeps = λ j c here out. here;
}
accept_loop-Managed kind (accepts panics ∷ more) h (plain, num) free taken small = record {
  dropped_refused = refl;
  all_found = tt;
  keeps = λ j c here out. here;
}
accept_loop-Managed kind (takes_number ∷ more) h (plain, num) free taken small =
    let next : (h.seq + 1) % 2 ^ 64 ≡ h.seq + 1 = omega (arith, small) in
    let rest =
      accept_loop-Managed kind more (record h { seq = (h.seq + 1) % 2 ^ 64 }) num
        (λ k above. free k (omega (arith, above, next)))
        (subst (λ k. JoinsTaken kind is_wrap k more) (sym next) taken)
        (omega (arith, small, next)) in
    record {
      dropped_refused = rest.dropped_refused;
      all_found =
          subst
            (λ k.
              All
                (FoundUnless kind (removed_ids more)
                  (accept_loop kind more (record h { seq = (h.seq + 1) % 2 ^ 64 })).0.manager)
                (numbered k more))
            next rest.all_found;
      keeps = rest.keeps;
    }
accept_loop-Managed kind (removes id ∷ more) h (plain, num) free taken small =
    let h1 = removed_meanwhile id h in
    let rest : Managed kind more h1 (accept_loop kind more h1).0 =
      accept_loop-Managed kind more h1 num
        (λ k above. removed-none id (token_of kind k) h (free k above)) taken
        (omega (arith, small)) in
    record {
      dropped_refused = rest.dropped_refused;
      all_found =
          All-imply _ _ (λ (n, c) found out. found out.1) (numbered h.seq more) rest.all_found;
      keeps = λ j c here out. rest.keeps j c (removed-keeps id j c h out.0 here) out.1;
    }
accept_loop-Managed kind (joins id d ∷ more) h (plain, num) free taken small =
    let h1 = joined_meanwhile id d h in
    let rest : Managed kind more h1 (accept_loop kind more h1).0 =
      accept_loop-Managed kind more h1 num
        (λ k above.
          (joined-keeps id (token_of kind k) d h).1 (λ e. taken.0 k above (sym e)) (free k above))
        taken.1 (omega (arith, small)) in
    record {
      dropped_refused = rest.dropped_refused;
      all_found = rest.all_found;
      keeps = λ j c here out. rest.keeps j c ((joined-keeps id j d h).0 c here) out;
    }
