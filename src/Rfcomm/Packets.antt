-- ===== src/Rfcomm/Packets.antt =====
-- winSockPipe.Write: what the socket is given and what the caller is told.
use myflowhub_core.Common.{
  ℕ, zero, suc, ◌<◌, ◌≤◌, ◌≡◌, ◌≢◌, ◌⊎◌, inl, inr, refl, sym, ap, ◌∙◌, List, [], ◌∷◌, ◌++◌, Option,
  none, some, Bool, true, false, Bool-cases, length, take, drop, append-nil, append_assoc, ltb,
  ◌==◌, arith,
}
use myflowhub_core.Stream.{WriterFn, WriteError, short_write, writer_error, Outcome, after_bytes}
use myflowhub_core.Rfcomm.Pipe.{end_round, write_chunk_bytes, too_large}

pub length-take_le : (n : ℕ) (d : List ℕ) → length (take n d) ≤ n
length-take_le zero d = omega arith
length-take_le (suc n) [] = omega arith
length-take_le (suc n) (x ∷ d) = omega (arith, length-take_le n d)

pub length-take_some : (n : ℕ) (x : ℕ) (d : List ℕ) → n ≢ 0 → 0 < length (take n (x ∷ d))
length-take_some zero x d h = absurd (h refl)
length-take_some (suc n) x d h = omega arith

-- The bytes that a send took of a piece, and what is left of the data.
pub take-take-drop :
    (n c : ℕ) (d : List ℕ) → take n (take c d) ++ drop (length (take n (take c d))) d ≡ d
take-take-drop zero c d = refl
take-take-drop (suc n) zero d = refl
take-take-drop (suc n) (suc c) [] = refl
take-take-drop (suc n) (suc c) (x ∷ d) = ap (◌∷◌ x) (take-take-drop n c d)

pub take-take_some : (n c x : ℕ) (d : List ℕ) → n ≢ 0 → c ≢ 0 → 0 < length (take n (take c (x ∷ d)))
take-take_some n zero x d h g = absurd (g refl)
take-take_some zero (suc c) x d h g = absurd (h refl)
take-take_some (suc n) (suc c) x d h g = omega arith

module _ {W E : Type 0} (send : WriterFn W E) (msg_size : E → Bool) where
  -- A socket that takes every message of up to `limit` bytes and answers longer ones with
  -- WSAEMSGSIZE.
  pub record Limit (limit : ℕ) : Type 0 where
    pub positive : 0 < limit
    pub sent : (w : W) (m : List ℕ) → length m ≤ limit → (send w m).0 ≡ length m
    pub accepted : (w : W) (m : List ℕ) → length m ≤ limit → (send w m).1 ≡ none
    pub refused : (w : W) (m : List ℕ) → limit < length m → (send w m).0 ≡ 0
    pub reason :
        (w : W) (m : List ℕ)
        → limit < length m
        → (x : E) × ((send w m).1 ≡ some x) × (msg_size x ≡ true)

  abbrev pub IsLimited : Type 0
  IsLimited = (limit : ℕ) × Limit limit

  -- `P` holds of the socket before and after every message of 1 to 127 bytes.
  abbrev pub Keeps : (W → Type 0) → Type 0
  Keeps P =
      (w : W) (m : List ℕ) → P w → 0 < length m → length m ≤ write_chunk_bytes → P (send w m).2

  -- How a call ended: the socket took a front part of the data, all of it if there is no error;
  -- there is none on a socket that only limits the length of a message.
  pub record Sent (P : W → Type 0) (d : List ℕ) (r : Outcome W E) : Type 0 where
    pub left : List ℕ
    pub split : d ≡ r.accepted ++ left
    pub complete : r.error ≡ none → left ≡ []
    pub limited : IsLimited → r.error ≡ none
    pub kept : P r.writer

  abbrev pub Ends : (W → Type 0) → List ℕ → Option (Outcome W E) → Type 0
  Ends P d o = (r : Outcome W E) × (o ≡ some r) × Sent P d r

  pub after_bytes-Ends :
      (P : W → Type 0) (front back : List ℕ) (o : Option (Outcome W E))
      → Ends P back o
      → Ends P (front ++ back) (after_bytes front o)
  after_bytes-Ends P front back o (r, e, s) = (
    record r { accepted = front ++ r.accepted },
    rw e,
    record {
      left = s.left;
      split = ap (◌++◌ front) s.split ∙ sym (append_assoc front r.accepted s.left);
      complete = s.complete;
      limited = s.limited;
      kept = s.kept;
    },
  )

  pub done-Sent :
      (P : W → Type 0) (w : W) (d : List ℕ)
      → P w
      → Sent P d (record { error = none; accepted = d; writer = w })
  done-Sent P w d p = record {
    left = [];
    split = sym (append-nil d);
    complete = λ e. refl;
    limited = λ l. refl;
    kept = p;
  }

  pub failed-Sent :
      (P : W → Type 0) (w : W) (front left : List ℕ) (e : WriteError E)
      → P w
      → (IsLimited → ⊥)
      → Sent P (front ++ left) (record { error = some e; accepted = front; writer = w })
  failed-Sent P w front left e p h = record {
    left = left;
    split = refl;
    complete = λ n. cc;
    limited = λ l. absurd (h l);
    kept = p;
  }

  -- A round sends again in smaller pieces, goes on, or ends the call; the last never on a socket
  -- that only limits the length.
  pub end_round-Ends :
      (P : W → Type 0) (retry : Bool) (n : ℕ) (e : Option E) (w : W) (front left : List ℕ)
      (rest : Option (Outcome W E))
      → P w
      → (IsLimited → (retry ≡ true) ⊎ ((e ≡ none) × (n ≢ 0)))
      → ((retry ≡ true) ⊎ (n ≢ 0) → Ends P left rest)
      → Ends P (front ++ left) (end_round retry n e w front rest)
  unfolding end_round
  end_round-Ends P true n e w front left rest p h k =
      after_bytes-Ends P front left rest (k (inl refl))
  end_round-Ends P false n (some x) w front left rest p h k = (
    record { error = some (writer_error x); accepted = front; writer = w },
    refl,
    failed-Sent P w front left (writer_error x) p
        (λ l. elim (h l) [ inl y ↦ cc y | inr (y, z) ↦ cc y ]),
  )
  end_round-Ends P false n none w front left rest p h k = elim (Bool-cases (n == 0)) [
    | inl stopped ↦ (
      record { error = some short_write; accepted = front; writer = w },
      rw stopped,
      failed-Sent P w front left short_write p
          (λ l. elim (h l) [ inl y ↦ cc y | inr (y, z) ↦ z (ground (arith, stopped)) ]),
    )
    | inr more ↦
        rw more (after_bytes-Ends P front left rest (k (inr (λ z. ground (arith, z, more)))))
  ]

  -- On a socket that only limits the length, a piece is taken whole or sent again in smaller ones.
  pub limited_round :
      (chunk x : ℕ) (d : List ℕ) (w : W)
      → 0 < chunk
      → IsLimited
      → (too_large send msg_size chunk
            (send w (take chunk (x ∷ d))).0
            (send w (take chunk (x ∷ d))).1
          ≡ true)
        ⊎ (((send w (take chunk (x ∷ d))).1 ≡ none) × ((send w (take chunk (x ∷ d))).0 ≢ 0))
  unfolding too_large
  limited_round chunk x d w pos (limit, l) =
      let m = take chunk (x ∷ d) in
      let some_bytes = length-take_some chunk x d (λ z. omega (arith, z, pos)) in
      elim (Bool-cases (ltb limit (length m))) [
        | inl over ↦
            let (y, e, b) = l.reason w m (ground (arith, over)) in
            let nothing = l.refused w m (ground (arith, over)) in
            let not_one : ltb 1 chunk ≡ true =
              ground (arith, over, l.positive, length-take_le chunk (x ∷ d)) in
            inl (rw e (ground (arith, b, nothing, not_one)))
        | inr fits ↦
            let all = l.sent w m (ground (arith, fits)) in
            inr (l.accepted w m (ground (arith, fits)), λ z. omega (arith, z, all, some_bytes))
      ]
