-- ===== src/Queues.antt =====
-- process/queuestrategy.go: which worker queue a frame goes to.
pub mod Bounds
use Prim.Native.Nat.{bit_and, bit_or}
use myflowhub_core.Common.{
  ℕ, ◌+◌, ◌-◌, ◌*◌, ◌/◌, ◌%◌, ◌^◌, List, [], ◌∷◌, ◌++◌, Option, none, some, Bool, true, false, Text,
  codes, text_eq, leb, if◌then◌else◌,
}
use myflowhub_core.Header.{IHeader, sub_proto, source_id, target_id}
use myflowhub_core.Strings.{trim_space, to_lower}

-- The strategies; the round robin has its counter.
pub data Strategy : Type 0 where
  conn_hash sub_proto_mod source_target : Strategy
  round_robin : ℕ → Strategy

-- hash/fnv: FNV-1a over some bytes, in 32 and in 64 bits.
abbrev bit_xor : ℕ → ℕ → ℕ
bit_xor a b = bit_or a b - bit_and a b

fnv_rounds : ℕ → ℕ → ℕ → List ℕ → ℕ
fnv_rounds prime width h [] = h
fnv_rounds prime width h (b ∷ bs) = fnv_rounds prime width (bit_xor h b * prime % 2 ^ width) bs

unfoldable pub fnv32a : List ℕ → ℕ
unfolding fnv_rounds
fnv32a bs = fnv_rounds 16777619 32 2166136261 bs

unfoldable pub fnv64a : List ℕ → ℕ
unfolding fnv_rounds
fnv64a bs = fnv_rounds 1099511628211 64 14695981039346656037 bs

-- The eight bytes that the source ID or the target ID fills.
unfoldable pub id_bytes : ℕ → List ℕ
id_bytes v =
    v / 2 ^ 56 % 256
    ∷ v / 2 ^ 48 % 256
    ∷ v / 2 ^ 40 % 256
    ∷ v / 2 ^ 32 % 256
    ∷ v / 2 ^ 24 % 256
    ∷ v / 2 ^ 16 % 256
    ∷ v / 2 ^ 8 % 256
    ∷ v % 256
    ∷ []

-- SelectQueue of ConnHashStrategy, from the ID of the connection.
unfoldable pub conn_hash_queue : Option Text → Option IHeader → ℕ → ℕ
unfolding fnv32a
conn_hash_queue (some id) hdr n = if leb n 1 then 0 else fnv32a id % (n % 2 ^ 32)
conn_hash_queue none (some h) n = if leb n 1 then 0 else sub_proto h % n
conn_hash_queue none none n = 0

-- SelectQueue of SubProtoStrategy.
unfoldable pub sub_proto_queue : Option IHeader → ℕ → ℕ
sub_proto_queue none n = 0
sub_proto_queue (some h) n = if leb n 1 then 0 else sub_proto h % n

-- SelectQueue of SourceTargetStrategy.
unfoldable pub source_target_queue : Option IHeader → ℕ → ℕ
unfolding fnv64a id_bytes
source_target_queue none n = 0
source_target_queue (some h) n =
    if leb n 1 then 0 else fnv64a (id_bytes (source_id h) ++ id_bytes (target_id h)) % n

-- SelectQueue: the queue, and the strategy with its counter moved on.
unfoldable pub select_queue : Strategy → Option Text → Option IHeader → ℕ → ℕ × Strategy
unfolding conn_hash_queue sub_proto_queue source_target_queue
select_queue conn_hash id hdr n = (conn_hash_queue id hdr n, conn_hash)
select_queue sub_proto_mod id hdr n = (sub_proto_queue hdr n, sub_proto_mod)
select_queue source_target id hdr n = (source_target_queue hdr n, source_target)
select_queue (round_robin counter) id hdr n =
    if leb n 1
    then (0, round_robin counter)
    else (counter % n, round_robin ((counter + 1) % 2 ^ 64))

-- StrategyFromConfig.
unfoldable pub strategy_from_config : Text → Strategy
strategy_from_config raw =
    let s = to_lower (trim_space raw) in
    if text_eq s (codes "subproto")
    then sub_proto_mod
    else if text_eq s (codes "source_target")
    then source_target
    else if text_eq s (codes "roundrobin")
    then round_robin 0
    else conn_hash
