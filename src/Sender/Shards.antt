-- ===== src/Sender/Shards.antt =====
-- The shard of a connection.
use myflowhub_core.Common.{
  ℕ, ◌<◌, ◌^◌, ◌≡◌, refl, sym, Option, none, some, Text, ◌==◌, Bool-cases, inl, inr, arith, subst,
}
use myflowhub_core.Header.{IHeader}
use myflowhub_core.Queues.{conn_hash, conn_hash_queue, select_queue}
use myflowhub_core.Queues.Bounds.{select_queue-lt}
use myflowhub_core.Sender.{select_shard}

agree :
    (id : Option Text) (hdr : Option IHeader) (n : ℕ)
    → 0 < n
    → n < 2 ^ 32
    → select_shard id hdr n ≡ conn_hash_queue id hdr n
unfolding select_shard conn_hash_queue
agree (some id) hdr n h b = elim (Bool-cases (n == 1)) [
  | inl e ↦ ground (arith, h)
  | inr e ↦ ground (arith, h)
]
agree none (some d) n h b = elim (Bool-cases (n == 1)) [
  | inl e ↦ ground (arith, h)
  | inr e ↦ ground (arith, h)
]
agree none none n h b = refl

-- With at least one shard and less than 2^32, the send dispatcher chooses the shard as
-- ConnHashStrategy chooses the queue of a received frame, and the shard exists.
pub select_shard_eq :
    (id : Option Text) (hdr : Option IHeader) (n : ℕ)
    → 0 < n
    → n < 2 ^ 32
    → (select_shard id hdr n ≡ conn_hash_queue id hdr n) × (select_shard id hdr n < n)
unfolding select_queue
select_shard_eq id hdr n h b =
    let same = agree id hdr n h b in
    (same, subst (λ k. k < n) (sym same) (select_queue-lt conn_hash id hdr n h b))
