-- ===== src/Sender/Lifetime.antt =====
-- What becomes of tasks when a connection is closed.
use myflowhub_core.Common.{
  ℕ, ◌<◌, ◌≡◌, inl, inr, refl, sym, ap, ◌∙◌, subst, List, [], ◌∷◌, none, some, true, false, ltb,
  Text, text_instance, lookup, insert, lookup-insert_self, lookup-erase, text_eq_refl, set_queue,
  Option-cases, arith,
}
use myflowhub_core.Conn.{Ref}
use myflowhub_core.ConnMgr.{World}
use myflowhub_core.Sender.{Task, ConnWriter, Sender}
use myflowhub_core.Sender.Steps.{
  sends, EnqueuePick, answered, shard_step, hand_over, hand_to, enqueue, get_or_create_writer,
  close_conn,
}

module _ (w : World) {E : Type 0} where
  close_conn_removes :
      (id : Text) (s : Sender E)
      → let s' = close_conn id s in
        (lookup id s'.writers ≡ none)
        × (s'.shards ≡ s.shards)
        × (s'.writer_buffer ≡ s.writer_buffer)
        × (s'.timeout ≡ s.timeout)
  unfolding close_conn
  close_conn_removes id s = elim (Option-cases (lookup id s.writers)) [
    | inl e ↦ rw (e, close_conn) (e, refl, refl, refl)
    | inr (wr, e) ↦
        rw (e, close_conn)
          (ground (arith, lookup-erase id id s.writers, text_eq_refl id), refl, refl, refl)
  ]

  pub get_or_create_fresh :
      (c : Ref) (s : Sender E)
      → lookup (w.conn c).id s.writers ≡ none
      → let wr : ConnWriter E = record { owner = c; ch = []; stopped = false } in
        get_or_create_writer w c s ≡ (wr, record s { writers = insert (w.conn c).id wr s.writers })
  unfolding get_or_create_writer
  get_or_create_fresh c s e = rw (e, get_or_create_writer) refl

  pub get_or_create_found :
      (c : Ref) (wr : ConnWriter E) (s : Sender E)
      → lookup (w.conn c).id s.writers ≡ some wr
      → get_or_create_writer w c s ≡ (wr, s)
  unfolding get_or_create_writer
  get_or_create_found c wr s e = rw (e, get_or_create_writer) refl

  hand_to_empty :
      (id : Text) (t : Task E) (c : Ref) (s : Sender E)
      → 0 < s.writer_buffer
      → hand_to w sends id t (record { owner = c; ch = []; stopped = false }, s)
        ≡ some (
          record s {
            writers = insert id (record { owner = c; ch = t ∷ []; stopped = false }) s.writers;
          },
          none,
        )
  unfolding hand_to enqueue
  hand_to_empty id t c s room =
      let roomy : ltb 0 s.writer_buffer ≡ true = ground (arith, room) in
      rw (hand_to, enqueue, roomy) refl

  pub shard_step_eq :
      (pick : EnqueuePick) (s : Sender E) (i : ℕ) (t : Task E) (q : List (Task E))
      → s.shards i ≡ t ∷ q
      → shard_step w pick i s
        ≡ answered w t (hand_over w pick t (record s { shards = set_queue i q s.shards }))
  unfolding shard_step
  shard_step_eq pick s i t q e = rw (e, shard_step) refl

  pub hand_over_eq :
      (pick : EnqueuePick) (s : Sender E) (c : Ref) (t : Task E)
      → t.conn ≡ some c
      → hand_over w pick t s ≡ hand_to w pick (w.conn c).id t (get_or_create_writer w c s)
  unfolding hand_over
  hand_over_eq pick s c t e = ground arith

  -- A worker makes a writer for a connection that has none.
  revives :
      (s : Sender E) (c : Ref) (t : Task E) (i : ℕ) (q : List (Task E))
      → s.shards i ≡ t ∷ q
      → t.conn ≡ some c
      → 0 < s.writer_buffer
      → lookup (w.conn c).id s.writers ≡ none
      → (s' : Sender E) × (shard_step w sends i s ≡ some (s', (t, none)))
        × (lookup (w.conn c).id s'.writers
            ≡ some (record { owner = c; ch = t ∷ []; stopped = false }))
  revives s c t i q waits has room missing =
      let id = (w.conn c).id in
      let fresh : ConnWriter E = record { owner = c; ch = []; stopped = false } in
      let one : ConnWriter E = record { owner = c; ch = t ∷ []; stopped = false } in
      let s1 : Sender E = record s { shards = set_queue i q s.shards } in
      let s2 : Sender E = record s1 { writers = insert id fresh s.writers } in
      (
        record s2 { writers = insert id one s2.writers },
        shard_step_eq sends s i t q waits
            ∙ ap (answered w t) (
                hand_over_eq sends s1 c t has
                ∙ ap (hand_to w sends id t) (get_or_create_fresh c s1 missing)
                ∙ hand_to_empty id t c s2 room),
        lookup-insert_self id one s2.writers,
      )

  -- A task that still waits in its shard when CloseConn is called brings the writer of the closed
  -- connection back: the task is handed over without an error, and a later connection with the same
  -- ID gets the writer that writes to the closed one.
  pub stale_writer :
      (s : Sender E) (c c' : Ref) (t : Task E) (i : ℕ) (q : List (Task E))
      → s.shards i ≡ t ∷ q
      → t.conn ≡ some c
      → 0 < s.writer_buffer
      → (w.conn c').id ≡ (w.conn c).id
      → (s' : Sender E) × (shard_step w sends i (close_conn (w.conn c).id s) ≡ some (s', (t, none)))
        × ((get_or_create_writer w c' s').0.owner ≡ c)
  stale_writer s c c' t i q waits has room same =
      let id = (w.conn c).id in
      let (gone, shards, buffer, _) = close_conn_removes id s in
      let (s', step, there) =
        revives (close_conn id s) c t i q (ap (λ f. f i) shards ∙ waits) has
          (subst (λ n. 0 < n) (sym buffer) room) gone in
      let one : ConnWriter E = record { owner = c; ch = t ∷ []; stopped = false } in
      let there' : lookup (w.conn c').id s'.writers ≡ some one =
        subst (λ j. lookup j s'.writers ≡ some one) (sym same) there in
      (s', step, ap (λ r. r.0.owner) (get_or_create_found c' one s' there'))
