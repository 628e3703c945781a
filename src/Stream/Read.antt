-- ===== src/Stream/Read.antt =====
-- The read loop delivers the frames that were written, in order, and always ends.
use myflowhub_core.Common.{
  ℕ, zero, suc, ◌^◌, ◌<◌, ◌≡◌, ◌≢◌, ◌∙◌, inl, inr, Bool, false, Bool-cases, Result-cases, List, [],
  ◌∷◌, ◌++◌, append_assoc, length, All, ok, err, arith,
}
use myflowhub_core.Header.{HeaderTcp, IHeader, IsValidHeader}
use myflowhub_core.Header.Codec.{DecodeError, decode, encode, complete, restore}
use myflowhub_core.Header.Codec.RoundTrip.{decode-encode}
use myflowhub_core.Header.Codec.Framing.{decode-shorter}
use myflowhub_core.Stream.{out_of_fuel, read_error, read_loop}

-- The bytes of frames sent one after the other, and the frames that should arrive.
abbrev pub stream : List (IHeader × List ℕ) → List ℕ
stream [] = []
stream ((h, payload) ∷ fs) = encode h payload ++ stream fs

abbrev pub received : List (IHeader × List ℕ) → List (HeaderTcp × List ℕ)
received [] = []
received ((h, payload) ∷ fs) = (complete (restore h) payload, payload) ∷ received fs

abbrev pub IsSendable : IHeader × List ℕ → Type 0
IsSendable f = IsValidHeader f.0 × (length f.1 < 2 ^ 32)

-- More fuel than bytes is enough on any stream and under any cancellation: ReadLoop ends with an
-- error of Decode or because its context is done.
pub read_loop-ends :
    (cancelled : ℕ → Bool) (fuel i : ℕ) (s : List ℕ)
    → length s < fuel
    → (read_loop cancelled fuel i s).1 ≢ out_of_fuel
unfolding read_loop
read_loop-ends cancelled zero i s h = absurd (omega arith)
read_loop-ends cancelled (suc fuel) i s h = elim (Bool-cases (cancelled i)) [
  | inl stop ↦ ground arith
  | inr go ↦ elim (Result-cases (decode s)) [
    | inl ((d, payload, rest), e) ↦ ground (
      arith,
      read_loop-ends cancelled fuel (suc i) rest (omega (arith, decode-shorter s d payload rest e)),
    )
    | inr (x, e) ↦ ground arith
  ]
]

read_loop_step :
    (fuel i : ℕ) (s rest payload : List ℕ) (d : HeaderTcp)
    → decode s ≡ ok (d, payload, rest)
    → read_loop (λ _. false) (suc fuel) i s
      ≡ (let r = read_loop (λ _. false) fuel (suc i) rest in ((d, payload) ∷ r.0, r.1))
unfolding read_loop
read_loop_step fuel i s rest payload d e = rw (e, read_loop)

-- On a connection that is not cancelled, on which valid frames were sent and then bytes that Decode
-- refuses, ReadLoop dispatches exactly those frames in the order in which they were sent, and
-- returns Decode's error.
pub read_loop-stream :
    (fs : List (IHeader × List ℕ)) (tail : List ℕ) (x : DecodeError) (fuel i : ℕ)
    → All IsSendable fs
    → decode tail ≡ err x
    → length fs < fuel
    → read_loop (λ _. false) fuel i (stream fs ++ tail) ≡ (received fs, read_error x)
unfolding read_loop
read_loop-stream fs tail x zero i v e h = absurd (omega arith)
read_loop-stream [] tail x (suc fuel) i v e h = rw (e, read_loop)
read_loop-stream ((d, payload) ∷ fs) tail x (suc fuel) i (v, vs) e h =
    rw (append_assoc (encode d payload) (stream fs) tail) (
      read_loop_step fuel i _ _ _ _ (decode-encode d payload (stream fs ++ tail) v.0 v.1)
      ∙ rw (read_loop-stream fs tail x fuel (suc i) vs e (omega arith)))
