-- ===== src/Rfcomm/Reads.antt =====
-- winSockPipe.Read: the bytes of the messages that the socket receives, in order.
use myflowhub_core.Common.{
  ℕ, zero, suc, ◌⊎◌, inl, inr, subst, All, true, ◌≡◌, ◌≢◌, refl, sym, ap, ◌∙◌, List, [], ◌∷◌, ◌++◌,
  Option, none, some, Bool, Bool-cases, take, drop, take-append-drop, append_assoc, if◌then◌else◌,
}
use myflowhub_core.Rfcomm.Pipe.{
  Received, ReadError, recv_error, ReadSide, filled, fill_read_cache, copy_out, pipe_read,
  after_fill,
}

-- The bytes that a receive leaves with the caller: all of them, also with WSAEMSGSIZE; none with
-- another error.
unfoldable pub usable : {E : Type 0} → (E → Bool) → Received E → List ℕ
usable msg_size (d, none) = d
usable msg_size (d, some e) = if msg_size e then d else []

-- The usable bytes of the receives to come.
unfoldable pub to_come : {E : Type 0} → (E → Bool) → List (Received E) → List ℕ
to_come msg_size [] = []
to_come msg_size (r ∷ more) = usable msg_size r ++ to_come msg_size more

-- Reads with buffers of the given sizes, going on after an error: the bytes and the pipe.
unfoldable pub reads : {E : Type 0} → (E → Bool) → List ℕ → ReadSide E → List ℕ × ReadSide E
reads msg_size [] p = ([], p)
reads msg_size (size ∷ sizes) p =
    let (out, e, p') = pipe_read msg_size size p in
    let (rest, p'') = reads msg_size sizes p' in (out ++ rest, p'')

-- What the receives put into the buffers, whatever they answer.
abbrev pub buffered : {E : Type 0} → List (Received E) → List ℕ
buffered [] = []
buffered (r ∷ more) = r.0 ++ buffered more

-- A receive that does not fail, or fails with WSAEMSGSIZE alone.
abbrev pub GoesOn : {E : Type 0} → (E → Bool) → Received E → Type 0
GoesOn msg_size r = (r.1 ≡ none) ⊎ ((x : _) × (r.1 ≡ some x) × (msg_size x ≡ true))

module _ {E : Type 0} (msg_size : E → Bool) where
  -- One Read of `size` bytes of a pipe `p` that gives `out`, `e` and `p'`: no byte is lost, doubled or
  -- moved, an error comes without bytes, and a Read of at least a byte without an error gives some.
  record Reading (size : ℕ) (p : ReadSide E) (out : List ℕ) (e : Option (ReadError E))
      (p' : ReadSide E) : Type 0 where
    kept :
        p.cache ++ to_come msg_size p.incoming ≡ out ++ (p'.cache ++ to_come msg_size p'.incoming)
    no_bytes : (x : ReadError E) → e ≡ some x → out ≡ []
    some_bytes : e ≡ none → size ≢ 0 → out ≢ []

  copied-Reading :
      (size x : ℕ) (c : List ℕ) (incoming : List (Received E)) (p : ReadSide E)
      → p.cache ++ to_come msg_size p.incoming ≡ (x ∷ c) ++ to_come msg_size incoming
      → Reading
          (suc size)
          p
          (take (suc size) (x ∷ c))
          none
          (record { cache = drop (suc size) (x ∷ c); incoming = incoming })
  copied-Reading size x c incoming p same = record {
    kept =
        same
        ∙ ap (λ t. t ++ to_come msg_size incoming) (sym (take-append-drop (suc size) (x ∷ c)))
        ∙ append_assoc (take (suc size) (x ∷ c)) (drop (suc size) (x ∷ c))
            (to_come msg_size incoming);
    no_bytes = λ x e. absurd (cc e);
    some_bytes = λ e h n. cc n;
  }

  from_fill :
      (size : ℕ) (r : Received E) (more : List (Received E)) (f : Option (ReadError E) × List ℕ)
      → filled msg_size r ≡ f
      → let p : ReadSide E = record { cache = []; incoming = r ∷ more } in
        let (out, e, p') = after_fill (suc size) (f.0, record { cache = f.1; incoming = more }) in
        Reading (suc size) p out e p'
        → let p : ReadSide E = record { cache = []; incoming = r ∷ more } in
          let (out, e, p') = pipe_read msg_size (suc size) p in Reading (suc size) p out e p'
  unfolding pipe_read fill_read_cache
  from_fill size r more f eq h =
      subst
        (λ f.
          Reading (suc size) (record { cache = []; incoming = r ∷ more })
            (after_fill (suc size) (f.0, record { cache = f.1; incoming = more })).0
            (after_fill (suc size) (f.0, record { cache = f.1; incoming = more })).1
            (after_fill (suc size) (f.0, record { cache = f.1; incoming = more })).2)
        (sym eq) h

  pipe_read-Reading :
      (size : ℕ) (c : List ℕ) (incoming : List (Received E))
      → let p : ReadSide E = record { cache = c; incoming = incoming } in
        let (out, e, p') = pipe_read msg_size size p in Reading size p out e p'
  unfolding pipe_read fill_read_cache copy_out after_fill to_come filled usable
  pipe_read-Reading zero c incoming = record {
    kept = refl;
    no_bytes = λ x e. refl;
    some_bytes = λ e h. absurd (h refl);
  }
  pipe_read-Reading (suc size) (x ∷ c) incoming = copied-Reading size x c incoming _ refl
  pipe_read-Reading (suc size) [] [] = record {
    kept = refl;
    no_bytes = λ x e. refl;
    some_bytes = λ e h. absurd (cc e);
  }
  pipe_read-Reading (suc size) [] (([], none) ∷ more) = record {
    kept = refl;
    no_bytes = λ x e. refl;
    some_bytes = λ e h. absurd (cc e);
  }
  pipe_read-Reading (suc size) [] ((x ∷ d, none) ∷ more) = copied-Reading size x d more _ refl
  pipe_read-Reading (suc size) [] (([], some y) ∷ more) = record {
    kept = elim (Bool-cases (msg_size y)) [ inl is ↦ rw is refl | inr other ↦ rw other refl ];
    no_bytes = λ x e. refl;
    some_bytes = λ e h. absurd (cc e);
  }
  pipe_read-Reading (suc size) [] ((x ∷ d, some y) ∷ more) = elim (Bool-cases (msg_size y)) [
    | inl long ↦
        from_fill size (x ∷ d, some y) more (none, x ∷ d) (rw long refl)
          (copied-Reading size x d more _ (rw long refl))
    | inr other ↦
        from_fill size (x ∷ d, some y) more (some (recv_error y), []) (rw other refl)
          (record {
            kept = rw other refl;
            no_bytes = λ x e. refl;
            some_bytes = λ e h. absurd (cc e);
          })
  ]

  reads_keep_eq :
      (sizes : List ℕ) (p : ReadSide E)
      → p.cache ++ to_come msg_size p.incoming
        ≡ (reads msg_size sizes p).0
          ++ ((reads msg_size sizes p).1.cache
              ++ to_come msg_size (reads msg_size sizes p).1.incoming)
  unfolding reads
  reads_keep_eq [] p = refl
  reads_keep_eq (size ∷ sizes) p =
      let (out, e, p') = pipe_read msg_size size p in
      let (rest, p'') = reads msg_size sizes p' in
      (pipe_read-Reading size p.cache p.incoming).kept
      ∙ ap (◌++◌ out) (reads_keep_eq sizes p')
      ∙ sym (append_assoc out rest (p''.cache ++ to_come msg_size p''.incoming))

to_come-buffered :
    {E : Type 0} (msg_size : E → Bool) (rs : List (Received E))
    → All (GoesOn msg_size) rs
    → to_come msg_size rs ≡ buffered rs
unfolding to_come usable
to_come-buffered msg_size [] h = refl
to_come-buffered msg_size ((d, none) ∷ rs) (h, hs) = ap (◌++◌ d) (to_come-buffered msg_size rs hs)
to_come-buffered msg_size ((d, some x) ∷ rs) (inl e, hs) = absurd (cc e)
to_come-buffered msg_size ((d, some x) ∷ rs) (inr (y, e, long), hs) =
    let is_long : msg_size x ≡ true = cc (e, long) in
    rw is_long (ap (◌++◌ d) (to_come-buffered msg_size rs hs))

module _ {E : Type 0} (msg_size : E → Bool) where
  -- A Read leaves the receives to come, or all but the first of them.
  pipe_read-incoming :
      (size : ℕ) (c : List ℕ) (rs : List (Received E))
      → All (GoesOn msg_size) rs
      → All
          (GoesOn msg_size)
          (pipe_read msg_size size (record { cache = c; incoming = rs })).2.incoming
  unfolding pipe_read fill_read_cache copy_out after_fill filled
  pipe_read-incoming zero c rs h = h
  pipe_read-incoming (suc size) (x ∷ c) rs h = h
  pipe_read-incoming (suc size) [] [] h = h
  pipe_read-incoming (suc size) [] (([], none) ∷ rs) (_, hs) = hs
  pipe_read-incoming (suc size) [] ((x ∷ d, none) ∷ rs) (_, hs) = hs
  pipe_read-incoming (suc size) [] (([], some y) ∷ rs) (_, hs) = hs
  pipe_read-incoming (suc size) [] ((x ∷ d, some y) ∷ rs) (_, hs) = elim (Bool-cases (msg_size y)) [
    | inl is ↦ rw is hs
    | inr other ↦ rw other hs
  ]

  reads-incoming :
      (sizes : List ℕ) (p : ReadSide E)
      → All (GoesOn msg_size) p.incoming
      → All (GoesOn msg_size) (reads msg_size sizes p).1.incoming
  unfolding reads
  reads-incoming [] p h = h
  reads-incoming (size ∷ sizes) p h =
      reads-incoming sizes (pipe_read msg_size size p).2
        (pipe_read-incoming size p.cache p.incoming h)

  -- While every receive succeeds or fails with WSAEMSGSIZE alone, Reads with buffers of any sizes
  -- give exactly the bytes that the receives put into the cache's buffer, in order, none lost or
  -- doubled: those of the cache and of the receives to come are those given out, then those of the
  -- cache and of the receives to come after the Reads, which are still of this kind. The part of a
  -- message that WSAEMSGSIZE cuts off is not put into the buffer.
  pub reads_keep :
      (sizes : List ℕ) (p : ReadSide E)
      → All (GoesOn msg_size) p.incoming
      → let (out, p') = reads msg_size sizes p in
        (p.cache ++ buffered p.incoming ≡ out ++ (p'.cache ++ buffered p'.incoming))
        × All (GoesOn msg_size) p'.incoming
  reads_keep sizes p h =
      let (out, p') = reads msg_size sizes p in
      let h' = reads-incoming sizes p h in
      (
        ap (◌++◌ p.cache) (sym (to_come-buffered msg_size p.incoming h))
            ∙ reads_keep_eq msg_size sizes p
            ∙ ap (λ t. out ++ (p'.cache ++ t)) (to_come-buffered msg_size p'.incoming h'),
        h',
      )
