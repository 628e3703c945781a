-- ===== src/Stream/Write.antt =====
-- WriteAll and WriteAllBuffers write everything, or report an error.
use myflowhub_core.Common.{
  ℕ, zero, suc, ◌≤◌, ◌≡◌, ◌≢◌, refl, sym, ap, ◌∙◌, List, [], ◌∷◌, ◌++◌, Option, none, some,
  Bool-cases, inl, inr, length, length-drop, take, drop, take-append-drop, append_assoc, subst,
  append-nil, ◌==◌, arith, Option-cases,
}
use myflowhub_core.Stream.{
  WriterFn, WriteError, short_write, writer_error, end_round, Outcome, after_bytes, write_loop,
  unless_failed, write_all, write_all_buffers,
}

-- The writer took a front part of the data, and all of it exactly if no error is returned.
pub record Written {W E : Type 0} (data' : List ℕ) (r : Outcome W E) : Type 0 where
  pub left : List ℕ
  pub split : data' ≡ r.accepted ++ left
  pub complete : r.error ≡ none → left ≡ []
  pub failed : left ≡ [] → r.error ≡ none

abbrev pub Finishes : {W E : Type 0} → List ℕ → Option (Outcome W E) → Type 0
Finishes {W} {E} data' o = (r : Outcome W E) × (o ≡ some r) × Written data' r

after_bytes-Finishes :
    {W E : Type 0} (front back : List ℕ) (o : Option (Outcome W E))
    → Finishes back o
    → Finishes (front ++ back) (after_bytes front o)
after_bytes-Finishes front back o (r, e, w) = (
  record r { accepted = front ++ r.accepted },
  rw e,
  record {
    left = w.left;
    split = ap (◌++◌ front) w.split ∙ sym (append_assoc front r.accepted w.left);
    complete = w.complete;
    failed = w.failed;
  },
)

end_round-Finishes :
    {W E : Type 0} (n : ℕ) (e : Option E) (w : W) (front left : List ℕ)
    (rest : Option (Outcome W E))
    → (n ≢ 0 → Finishes left rest)
    → Finishes (front ++ left) (end_round n e w front left rest)
unfolding end_round
end_round-Finishes n e w front [] rest h = (
  record { error = none; accepted = front; writer = w },
  refl,
  record { left = []; split = refl; complete = λ e. refl; failed = λ e. refl },
)
end_round-Finishes n (some x) w front (y ∷ left) rest h = (
  record { error = some (writer_error x); accepted = front; writer = w },
  refl,
  record { left = y ∷ left; split = refl; complete = λ e. cc; failed = λ e. cc },
)
end_round-Finishes n none w front (y ∷ left) rest h = elim (Bool-cases (n == 0)) [
  | inl stopped ↦ (
    record { error = some short_write; accepted = front; writer = w },
    rw stopped,
    record { left = y ∷ left; split = refl; complete = λ e. cc; failed = λ e. cc },
  )
  | inr more ↦ rw more (after_bytes-Finishes front (y ∷ left) rest (h (λ e. ground arith)))
]

module _ {W E : Type 0} (write : WriterFn W E) where
  write_loop-Finishes :
      (fuel : ℕ) (w : W) (d : List ℕ) → length d ≤ fuel → Finishes d (write_loop write fuel w d)
  unfolding write_loop
  write_loop-Finishes fuel w [] h = (
    record { error = none; accepted = []; writer = w },
    refl,
    record { left = []; split = refl; complete = λ e. refl; failed = λ e. refl },
  )
  write_loop-Finishes zero w (x ∷ d) h = absurd (omega arith)
  write_loop-Finishes (suc fuel) w (x ∷ d) h =
      let (n, e, w') = write w (x ∷ d) in
      subst (λ whole. Finishes whole (write_loop write (suc fuel) w (x ∷ d)))
        (take-append-drop n (x ∷ d))
        (end_round-Finishes n e w' (take n (x ∷ d)) (drop n (x ∷ d)) _ (λ some_taken.
          write_loop-Finishes fuel w' (drop n (x ∷ d)) (omega (arith, length-drop n (x ∷ d)))))

  -- WriteAll ends on every writer; the bytes that the writer took are a front part of the data, and
  -- they are all of it exactly if WriteAll returns no error.
  pub write_all-Finishes : (w : W) (d : List ℕ) → Finishes d (write_all write w d)
  unfolding write_all
  write_all-Finishes w d = write_loop-Finishes (length d) w d (omega arith)

abbrev pub joined : List (List ℕ) → List ℕ
joined [] = []
joined (c ∷ cs) = c ++ joined cs

-- An error among the chunks ends the call; otherwise the next chunk is written.
Finishes-failed :
    {W E : Type 0} (front back : List ℕ) (r : Outcome W E) (e : WriteError E)
    → r.error ≡ some e
    → Written front r
    → Written (front ++ back) r
Finishes-failed front back r e h w = record {
  left = w.left ++ back;
  split = ap (λ xs. xs ++ back) w.split ∙ append_assoc r.accepted w.left back;
  complete = λ n. cc;
  failed = λ n. absurd (no_left w.left w.failed n);
}
  where
    no_left : (left : List ℕ) → (left ≡ [] → r.error ≡ none) → left ++ back ≡ [] → ⊥
    no_left [] f n = cc (f refl)
    no_left (x ∷ left) f n = cc

unless_failed-Finishes :
    {W E : Type 0} (front back : List ℕ) (r : Outcome W E) (k : W → Option (Outcome W E))
    → Written front r
    → ((w : W) → Finishes back (k w))
    → Finishes (front ++ back) (unless_failed (some r) k)
unfolding unless_failed
unless_failed-Finishes front back r k written next = elim (Option-cases r.error) [
  | inl fine ↦ rw fine (
      subst (λ start. Finishes (start ++ back) (after_bytes r.accepted (k r.writer)))
        (sym (written.split ∙ rw (written.complete fine) (append-nil r.accepted)))
        (after_bytes-Finishes r.accepted back _ (next r.writer)))
  | inr (x, bad) ↦ (r, simp bad, Finishes-failed front back r x bad written)
]

module _ {W E : Type 0} (write : WriterFn W E) where
  -- WriteAllBuffers likewise, for the chunks one after the other.
  pub write_all_buffers-Finishes :
      (w : W) (chunks : List (List ℕ)) → Finishes (joined chunks) (write_all_buffers write w chunks)
  unfolding write_all_buffers
  write_all_buffers-Finishes w [] = (
    record { error = none; accepted = []; writer = w },
    refl,
    record { left = []; split = refl; complete = λ e. refl; failed = λ e. refl },
  )
  write_all_buffers-Finishes w ([] ∷ chunks) = write_all_buffers-Finishes w chunks
  write_all_buffers-Finishes w ((x ∷ chunk) ∷ chunks) =
      let (r, e, written) = write_all-Finishes write w (x ∷ chunk) in
      subst
        (λ o.
          Finishes ((x ∷ chunk) ++ joined chunks)
            (unless_failed o (λ w'. write_all_buffers write w' chunks)))
        (sym e)
        (unless_failed-Finishes (x ∷ chunk) (joined chunks) r _ written
          (λ w'. write_all_buffers-Finishes w' chunks))
