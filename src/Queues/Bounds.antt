-- ===== src/Queues/Bounds.antt =====
-- Every strategy answers a queue that exists, and depends on no more than it says.
use native.Mathlib.Nat.{mod-lt, div-add-mod, mul-le-mul_left, lt_of_mul-lt-mul_left, mul-suc}
use myflowhub_core.Common.{
  ℕ, zero, suc, ◌+◌, ◌%◌, ◌^◌, ◌<◌, ◌≤◌, ◌/◌, ◌≡◌, ◌≢◌, refl, sym, ap, ◌∙◌, ◌++◌, Option, none,
  some, false, Text, leb, if◌then◌else◌, Bool-cases, inl, inr, arith,
}
use myflowhub_core.Header.{IHeader, sub_proto, source_id, target_id}
use myflowhub_core.Queues.{
  Strategy, conn_hash, sub_proto_mod, source_target, round_robin, conn_hash_queue, sub_proto_queue,
  source_target_queue, select_queue, fnv32a, fnv64a, id_bytes,
}

-- A guarded remainder is in range.
in_range : (v n k : ℕ) → 0 < n → k ≡ n → (if leb n 1 then 0 else v % k) < n
in_range v n k h e = ground (arith, mod-lt v {m = n} h)

whole : (n : ℕ) → n < 2 ^ 32 → n % 2 ^ 32 ≡ n
whole n h = omega arith

-- With at least one queue and less than 2^32, every strategy answers the number of a queue, whatever
-- the connection and the header are, also if they are nil.
pub select_queue-lt :
    (s : Strategy) (id : Option Text) (hdr : Option IHeader) (n : ℕ)
    → 0 < n
    → n < 2 ^ 32
    → (select_queue s id hdr n).0 < n
unfolding select_queue conn_hash_queue sub_proto_queue source_target_queue
select_queue-lt conn_hash (some id) hdr n h b = in_range (fnv32a id) n (n % 2 ^ 32) h (whole n b)
select_queue-lt conn_hash none (some d) n h b = in_range (sub_proto d) n n h refl
select_queue-lt conn_hash none none n h b = h
select_queue-lt sub_proto_mod id none n h b = h
select_queue-lt sub_proto_mod id (some d) n h b = in_range (sub_proto d) n n h refl
select_queue-lt source_target id none n h b = h
select_queue-lt source_target id (some d) n h b =
    in_range (fnv64a (id_bytes (source_id d) ++ id_bytes (target_id d))) n n h refl
select_queue-lt (round_robin k) id hdr n h b = elim (Bool-cases (leb n 1)) [
  | inl e ↦ rw e h
  | inr e ↦ rw e (mod-lt k h)
]

-- The queue of the last of `i + 1` calls.
abbrev pub nth_queue : ℕ → Strategy → Option Text → Option IHeader → ℕ → ℕ
nth_queue zero s id hdr n = (select_queue s id hdr n).0
nth_queue (suc i) s id hdr n = nth_queue i (select_queue s id hdr n).1 id hdr n

nth_queue-round_robin :
    (i k : ℕ) (id : Option Text) (hdr : Option IHeader) (n : ℕ)
    → 1 < n
    → k + i < 2 ^ 64
    → nth_queue i (round_robin k) id hdr n ≡ (k + i) % n
unfolding select_queue
nth_queue-round_robin zero k id hdr n h b = ground arith
nth_queue-round_robin (suc i) k id hdr n h b =
    let wrap : (k + 1) % 2 ^ 64 ≡ k + 1 = omega (arith, b) in
    let several : leb n 1 ≡ false = ground arith in
    rw (several, wrap)
      (nth_queue-round_robin i (k + 1) id hdr n h (omega (arith, b))
        ∙ ap (λ j. j % n) (omega arith))

same_quotient : (a b n : ℕ) → a ≤ b → b < a + n → a % n ≡ b % n → b / n ≤ a / n
same_quotient a b n le lt e =
    let below : b / n < suc (a / n) =
      lt_of_mul-lt-mul_left n
        (omega (arith, div-add-mod a n, div-add-mod b n, mul-suc n (a / n))) in
    omega (arith, below)

same_remainder : (a b n : ℕ) → a ≤ b → b < a + n → a % n ≡ b % n → a ≡ b
same_remainder a b n le lt e =
    omega (arith, div-add-mod a n, div-add-mod b n, mul-le-mul_left n (same_quotient a b n le lt e))

-- The round robin takes the queues in turn: of at most as many calls in a row as there are queues,
-- starting before the 64-bit counter wraps around, no two get the same queue.
pub round_robin_distinct :
    (k i j n : ℕ) (id : Option Text) (hdr : Option IHeader)
    → 1 < n
    → i < j
    → j < n
    → k + j < 2 ^ 64
    → nth_queue i (round_robin k) id hdr n ≢ nth_queue j (round_robin k) id hdr n
round_robin_distinct k i j n id hdr h lt b c e =
    let same : (k + i) % n ≡ (k + j) % n =
      sym (nth_queue-round_robin i k id hdr n h (omega arith))
      ∙ (e ∙ nth_queue-round_robin j k id hdr n h c) in
    absurd (omega (arith, same_remainder (k + i) (k + j) n (omega arith) (omega arith) same))
