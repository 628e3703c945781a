-- ===== src/Rfcomm/Written.antt =====
-- winSockPipe.Write: the loops end, keep to the length of a message and lose nothing.
use myflowhub_core.Common.{
  ℕ, zero, suc, ◌+◌, ◌/◌, ◌<◌, ◌≤◌, ◌≡◌, ◌⊎◌, inl, inr, refl, sym, ap, ◌∙◌, subst, List, [], ◌∷◌,
  ◌++◌, Option, none, some, Option-cases, Bool, true, false, Bool-cases, length, length-drop, take,
  drop, take-append-drop, append-nil, append_assoc, ltb, leb, is_empty, arith,
}
use myflowhub_core.Stream.{WriterFn, short_write, writer_error, Outcome, after_bytes}
use myflowhub_core.Rfcomm.Pipe.{
  halve, first_chunk, end_write, write_chunk_bytes, too_large, fallback_loop,
  write_with_msg_size_fallback, write_chunk_with_fallback, pipe_write_loop, pipe_write,
}
use myflowhub_core.Rfcomm.Packets.{
  length-take_le, length-take_some, take-take-drop, take-take_some, Keeps, Ends, Limit, Sent,
  IsLimited, after_bytes-Ends, done-Sent, end_round-Ends, limited_round,
}

halve_bounds : (c : ℕ) → 1 < c → (0 < halve c) × (halve c < c)
unfolding halve
halve_bounds c h = elim (Bool-cases (ltb (c / 2) 1)) [
  | inl y ↦ rw y (omega arith, omega (arith, h))
  | inr n ↦ rw n (ground (arith, n), omega (arith, h))
]

first_chunk_bounds : (n : ℕ) → (0 < first_chunk n) × (first_chunk n ≤ write_chunk_bytes)
unfolding first_chunk
first_chunk_bounds n = (ground arith, ground arith)

module _ {W E : Type 0} (send : WriterFn W E) (msg_size : E → Bool) where
  too_large-halves :
      (c n : ℕ) (e : Option E) → too_large send msg_size c n e ≡ true → (1 < c) × (n ≡ 0)
  unfolding too_large
  too_large-halves c n none h = absurd (cc h)
  too_large-halves c n (some x) h = (ground (arith, h), ground (arith, h))

  fallback_loop-Ends :
      (P : W → Type 0) (keeps : Keeps send msg_size P) (fuel c : ℕ) (w : W) (d : List ℕ)
      → 0 < c
      → c ≤ write_chunk_bytes
      → length d + c ≤ fuel
      → P w
      → Ends send msg_size P d (fallback_loop send msg_size fuel c w d)
  unfolding fallback_loop
  fallback_loop-Ends P keeps fuel c w [] pos le enough p =
      (record { error = none; accepted = []; writer = w }, refl, done-Sent send msg_size P w [] p)
  fallback_loop-Ends P keeps zero c w (x ∷ d) pos le enough p = absurd (omega arith)
  fallback_loop-Ends P keeps (suc fuel) c w (x ∷ d) pos le enough p =
      let m = take c (x ∷ d) in
      let (n, e, w') = send w m in
      let front = take n m in
      let left = drop (length front) (x ∷ d) in
      let retry = too_large send msg_size c n e in
      let p' =
        keeps w m p (length-take_some c x d (λ z. omega (arith, z, pos)))
          (omega (arith, length-take_le c (x ∷ d), le)) in
      let shorter = length-drop (length front) (x ∷ d) in
      subst
        (λ whole. Ends send msg_size P whole (fallback_loop send msg_size (suc fuel) c w (x ∷ d)))
        (take-take-drop n c (x ∷ d))
        (end_round-Ends send msg_size P retry n e w' front left _ p'
          (limited_round send msg_size c x d w pos)
          (λ more. elim (Bool-cases retry) [
            | inl again ↦
                let (big, nothing) = too_large-halves c n e again in
                let (some_left, smaller) = halve_bounds c big in
                rw again (
                  fallback_loop-Ends P keeps fuel (halve c) w' left some_left
                    (omega (arith, smaller, le)) (omega (arith, shorter, smaller, enough)) p')
            | inr on ↦ elim more [
              | inl y ↦ absurd (cc (y, on))
              | inr taken ↦
                  let progress = take-take_some n c x d taken (λ z. omega (arith, z, pos)) in
                  rw on (
                    fallback_loop-Ends P keeps fuel c w' left pos le
                      (omega (arith, shorter, progress, enough)) p')
            ]
          ]))

  write_with_msg_size_fallback-Ends :
      (P : W → Type 0) (keeps : Keeps send msg_size P) (w : W) (b : List ℕ) (offset : ℕ)
      → P w
      → Ends send msg_size P b (write_with_msg_size_fallback send msg_size w b offset)
  unfolding write_with_msg_size_fallback
  write_with_msg_size_fallback-Ends P keeps w b offset p =
      let left = drop offset b in
      let (pos, le) = first_chunk_bounds (length left) in
      subst
        (λ whole.
          Ends send msg_size P whole (write_with_msg_size_fallback send msg_size w b offset))
        (take-append-drop offset b)
        (after_bytes-Ends send msg_size P (take offset b) left _
          (fallback_loop-Ends P keeps _ (first_chunk (length left)) w left pos le (omega arith) p))

  -- How the write of one chunk ended. It may report no error and still leave bytes.
  record Part (P : W → Type 0) (b : List ℕ) (r : Outcome W E) : Type 0 where
    left : List ℕ
    split : b ≡ r.accepted ++ left
    limited : IsLimited send msg_size → (r.error ≡ none) × (is_empty r.accepted ≡ false)
    kept : P r.writer

  Sent-Part :
      (P : W → Type 0) (b : List ℕ) (r : Outcome W E)
      → 0 < length b
      → Sent send msg_size P b r
      → Part P b r
  Sent-Part P b r pos s = record {
    left = s.left;
    split = s.split;
    limited = λ l.
        let all =
          s.split ∙ ap (◌++◌ r.accepted) (s.complete (s.limited l)) ∙ append-nil r.accepted in
        (s.limited l, subst (λ t. is_empty t ≡ false) all (given b pos));
    kept = s.kept;
  }
    where
      given : (t : List ℕ) → 0 < length t → is_empty t ≡ false
      given [] h = absurd (omega (arith, h))
      given (x ∷ t) h = refl

  -- What a socket that only limits the length makes of one message.
  limited_send :
      (w : W) (b : List ℕ)
      → 0 < length b
      → IsLimited send msg_size
      → (((send w b).1 ≡ none) × (is_empty (take (send w b).0 b) ≡ false))
        ⊎ (((send w b).0 ≡ 0) × (x : E) × ((send w b).1 ≡ some x) × (msg_size x ≡ true))
  limited_send w b pos (limit, l) = elim (Bool-cases (ltb limit (length b))) [
    | inl over ↦
        let (x, long, is_long) = l.reason w b (ground (arith, over)) in
        inr (l.refused w b (ground (arith, over)), x, long, is_long)
    | inr fits ↦ inl (
      l.accepted w b (ground (arith, fits)),
      given (send w b).0 b (omega (arith, pos, l.sent w b (ground (arith, fits)))) pos,
    )
  ]
    where
      given : (n : ℕ) (t : List ℕ) → 0 < n → 0 < length t → is_empty (take n t) ≡ false
      given zero t h g = absurd (omega (arith, h))
      given (suc n) [] h g = absurd (omega (arith, g))
      given (suc n) (x ∷ t) h g = refl

  write_chunk-Part :
      (P : W → Type 0) (keeps : Keeps send msg_size P) (w : W) (b : List ℕ)
      → 0 < length b
      → length b ≤ write_chunk_bytes
      → P w
      → (r : Outcome W E) × (write_chunk_with_fallback send msg_size w b ≡ some r) × Part P b r
  unfolding write_chunk_with_fallback
  write_chunk-Part P keeps w b pos le p =
      let (n, e, w') = send w b in
      let p' = keeps w b p pos le in
      elim (Option-cases e) [
        | inl fine ↦ (
          record { error = none; accepted = take n b; writer = w' },
          rw (fine, write_chunk_with_fallback) refl,
          record {
            left = drop n b;
            split = sym (take-append-drop n b);
            limited = λ l. elim (limited_send w b pos l) [
              | inl (no_error, sent) ↦ (refl, sent)
              | inr (nothing, y, long, is_long) ↦ absurd (cc (fine, long))
            ];
            kept = p';
          },
        )
        | inr (x, bad) ↦ elim (Bool-cases (msg_size x)) [
          | inr other ↦ (
            record { error = some (writer_error x); accepted = take n b; writer = w' },
            rw (bad, other, write_chunk_with_fallback) refl,
            record {
              left = drop n b;
              split = sym (take-append-drop n b);
              limited = λ l. elim (limited_send w b pos l) [
                | inl (no_error, sent) ↦ absurd (cc (bad, no_error))
                | inr (nothing, y, long, is_long) ↦ absurd (cc (bad, long, is_long, other))
              ];
              kept = p';
            },
          )
          | inl long ↦ elim (Bool-cases (leb (length b) n)) [
            | inl all ↦ (
              record { error = none; accepted = b; writer = w' },
              rw (bad, long, all, write_chunk_with_fallback) refl,
              Sent-Part P b _ pos (done-Sent send msg_size P w' b p'),
            )
            | inr more ↦
                let (r, ends, s) = write_with_msg_size_fallback-Ends P keeps w' b n p' in
                (r, rw (bad, long, more, write_chunk_with_fallback) ends, Sent-Part P b r pos s)
          ]
        ]
      ]

  -- The end of a round of Write: what the chunk left is written by the next rounds.
  end_write-Ends :
      (P : W → Type 0) (d b : List ℕ) (o : Option (Outcome W E)) (r : Outcome W E)
      (k : Outcome W E → Option (Outcome W E)) (back : List ℕ)
      → d ≡ r.accepted ++ back
      → o ≡ some r
      → Part P b r
      → (is_empty r.accepted ≡ false → Ends send msg_size P back (k r))
      → Ends send msg_size P d (end_write o k)
  unfolding end_write
  end_write-Ends P d b o r k back split ends part next = elim (Option-cases r.error) [
    | inr (x, bad) ↦ (
      r,
      simp (ends, end_write, bad),
      record {
        left = back;
        split = split;
        complete = λ e. absurd (cc (e, bad));
        limited = λ l. (part.limited l).0;
        kept = part.kept;
      },
    )
    | inl fine ↦ elim (Bool-cases (is_empty r.accepted)) [
      | inl nothing ↦ (
        record r { error = some short_write },
        simp (ends, end_write, fine, nothing),
        record {
          left = back;
          split = split;
          complete = λ e. absurd (cc e);
          limited = λ l. absurd (cc ((part.limited l).1, nothing));
          kept = part.kept;
        },
      )
      | inr progress ↦
          subst (λ o. Ends send msg_size P d (end_write o k)) (sym ends)
            (rw (end_write, fine, progress)
              (subst (λ whole. Ends send msg_size P whole (after_bytes r.accepted (k r)))
                (sym split)
                (after_bytes-Ends send msg_size P r.accepted back (k r) (next progress))))
    ]
  ]

  pipe_write_loop-Ends :
      (P : W → Type 0) (keeps : Keeps send msg_size P) (fuel : ℕ) (w : W) (d : List ℕ)
      → length d ≤ fuel
      → P w
      → Ends send msg_size P d (pipe_write_loop send msg_size fuel w d)
  unfolding pipe_write_loop
  pipe_write_loop-Ends P keeps fuel w [] enough p =
      (record { error = none; accepted = []; writer = w }, refl, done-Sent send msg_size P w [] p)
  pipe_write_loop-Ends P keeps zero w (x ∷ d) enough p = absurd (omega arith)
  pipe_write_loop-Ends P keeps (suc fuel) w (x ∷ d) enough p =
      let b = take write_chunk_bytes (x ∷ d) in
      let (r, ends, part) =
        write_chunk-Part P keeps w b
          (length-take_some write_chunk_bytes x d (λ z. omega (arith, z)))
          (length-take_le write_chunk_bytes (x ∷ d)) p in
      let whole : x ∷ d ≡ r.accepted ++ (part.left ++ drop write_chunk_bytes (x ∷ d)) =
        sym (take-append-drop write_chunk_bytes (x ∷ d))
        ∙ ap (λ t. t ++ drop write_chunk_bytes (x ∷ d)) part.split
        ∙ append_assoc r.accepted part.left (drop write_chunk_bytes (x ∷ d)) in
      let back = drop (length r.accepted) (x ∷ d) in
      let split : x ∷ d ≡ r.accepted ++ back =
        whole
        ∙ ap (◌++◌ r.accepted) (
            sym (
              ap (drop (length r.accepted)) whole
              ∙ drop-append r.accepted (part.left ++ drop write_chunk_bytes (x ∷ d)))) in
      end_write-Ends P (x ∷ d) b _ r _ back split ends part (λ progress.
        pipe_write_loop-Ends P keeps fuel r.writer back
          (omega
            (arith, length-drop (length r.accepted) (x ∷ d), taken r.accepted progress, enough))
          part.kept)
    where
      drop-append : (s t : List ℕ) → drop (length s) (s ++ t) ≡ t
      drop-append [] t = refl
      drop-append (y ∷ s) t = drop-append s t

      taken : (t : List ℕ) → is_empty t ≡ false → 0 < length t
      taken [] h = absurd (cc h)
      taken (y ∷ t) h = omega arith

  -- Write ends on every socket. The socket gets messages of 1 to 127 bytes only, so it keeps every
  -- property that these keep; what it took is a front part of the data, and all of it if Write
  -- answers no error.
  pub pipe_write_sends :
      (P : W → Type 0)
      → Keeps send msg_size P
      → (w : W) (d : List ℕ) → P w
      → (r : Outcome W E) × (pipe_write send msg_size w d ≡ some r)
        × ((left : List ℕ) × (d ≡ r.accepted ++ left))
        × (r.error ≡ none → r.accepted ≡ d)
        × P r.writer
  unfolding pipe_write
  pipe_write_sends P keeps w d p =
      let (r, ends, s) = pipe_write_loop-Ends P keeps (length d) w d (omega arith) p in
      (
        r,
        ends,
        (s.left, s.split),
        (λ e. sym (s.split ∙ ap (◌++◌ r.accepted) (s.complete e) ∙ append-nil r.accepted)),
        s.kept,
      )

  -- On a socket that takes every message up to some length of at least 1 and answers WSAEMSGSIZE to
  -- longer ones, Write sends all of the data and answers no error, whatever that length is.
  pub pipe_write_limited :
      (limit : ℕ)
      → Limit send msg_size limit
      → (w : W) (d : List ℕ)
      → (r : Outcome W E) × (pipe_write send msg_size w d ≡ some r)
        × (r.error ≡ none)
        × (r.accepted ≡ d)
  unfolding pipe_write
  pipe_write_limited limit l w d =
      let (r, ends, s) =
        pipe_write_loop-Ends (λ w. w ≡ w) (λ w m p some_bytes few. refl) (length d) w d
          (omega arith) refl in
      let fine = s.limited (limit, l) in
      (
        r,
        ends,
        fine,
        sym (s.split ∙ ap (◌++◌ r.accepted) (s.complete fine) ∙ append-nil r.accepted),
      )
