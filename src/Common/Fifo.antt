-- ===== src/Common/Fifo.antt =====
-- Families of first-in first-out queues, as arrays of Go channels are, and logs of what went through
-- them.
use Prim.Native.Nat.{ℕ}
use mathlib.Core.Path.{◌≡◌, sym, ap, ◌∙◌}
use mathlib.Core.Bool.{Bool, true, false, ◌&&◌, ◌||◌}
use mathlib.Core.List.{List, [], ◌∷◌, ◌++◌, append-nil, append_assoc}
use native.Mathlib.Omega.{arith}
use mathlib.Core.Logic.{inl, inr}
use myflowhub_core.Common.Tests.{◌==◌, ==_iff, ltb, if◌then◌else◌, Bool-cases}
use myflowhub_core.Common.Lists.{length, is_empty}

module _ {A : Type 0} where
  abbrev pub set_queue : ℕ → List A → (ℕ → List A) → ℕ → List A
  set_queue i q queues j = if i == j then q else queues j

  -- Whether a send on a channel of some capacity can go on at once; `waiting` tells whether a
  -- receiver waits on the empty channel.
  abbrev pub has_room : Bool → ℕ → List A → Bool
  has_room waiting buffer q = ltb (length q) buffer || (waiting && is_empty q)

  -- The entries of one queue in a log of all.
  abbrev pub of_queue : ℕ → List (ℕ × A) → List A
  of_queue i [] = []
  of_queue i ((j, e) ∷ es) = let rest = of_queue i es in if j == i then e ∷ rest else rest

  abbrev pub only_if : Bool → A → List A
  only_if true e = e ∷ []
  only_if false e = []

  pub of_queue-append :
      (i j : ℕ) (e : A) (es : List (ℕ × A))
      → of_queue i (es ++ (j, e) ∷ []) ≡ of_queue i es ++ only_if (j == i) e
  of_queue-append i j e [] = ground arith
  of_queue-append i j e ((k, d) ∷ es) = ground (arith, of_queue-append i j e es)

  pub set_queue_adds :
      (queues : ℕ → List A) (j i : ℕ) (e : A) (gone : List A)
      → gone ++ set_queue j (queues j ++ e ∷ []) queues i ≡ (gone ++ queues i) ++ only_if (j == i) e
  set_queue_adds queues j i e gone = elim (Bool-cases (j == i)) [
    | inl same ↦
        let j_is : j ≡ i = (==_iff j i).0 same in
        rw same (
          ap (λ k. gone ++ (queues k ++ e ∷ [])) j_is ∙ sym (append_assoc gone (queues i) (e ∷ [])))
    | inr differs ↦ rw differs (sym (append-nil (gone ++ queues i)))
  ]

  pub set_queue_takes :
      (queues : ℕ → List A) (j i : ℕ) (e : A) (q gone : List A)
      → queues j ≡ e ∷ q
      → (gone ++ only_if (j == i) e) ++ set_queue j q queues i ≡ gone ++ queues i
  set_queue_takes queues j i e q gone h = elim (Bool-cases (j == i)) [
    | inl same ↦
        let j_is : j ≡ i = (==_iff j i).0 same in
        rw same (append_assoc gone (e ∷ []) q ∙ ap (λ x. gone ++ x) (sym h ∙ ap queues j_is))
    | inr differs ↦ rw differs (ap (λ x. x ++ queues i) (append-nil gone))
  ]
