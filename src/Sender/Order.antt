-- ===== src/Sender/Order.antt =====
-- The order of the tasks of a connection, from Dispatch over its shard to its writer, while no
-- connection is closed and the dispatcher runs.
use myflowhub_core.Common.{
  ℕ, ◌≡◌, inl, inr, refl, sym, ap, ◌∙◌, subst, List, [], ◌∷◌, ◌++◌, append_assoc, some, Bool, ◌&&◌,
  Text, text_instance, text_eq, text_eq_iff, lookup, insert, ◌==◌, if◌then◌else◌, Option-cases,
  Bool-cases, List-cases, set_queue, of_queue, only_if, of_queue-append, set_queue_adds,
  set_queue_takes, arith,
}
use myflowhub_core.ConnMgr.{World}
use myflowhub_core.Sender.{Task, ConnWriter, Sender, SendOptions, new_sender, select_shard}
use myflowhub_core.Sender.Steps.{
  EnqueuePick, DispatchPick, Dispatched, Answer, next_task, dispatch, hand_over, shard_step,
  writer_step,
}
use myflowhub_core.Sender.Trace.{
  channel, log_dispatched, tasks_of, is_nil, is_for, passed, add_task, Reach, start, dispatches,
  hands, writes, IsOrdered,
}
use myflowhub_core.Sender.Effects.{
  dispatch_to_effect, channel-insert, tasks_of-append, passed-append, hand_over_effect,
}

module _ (w : World) {E : Type 0} where
  dispatch-IsOrdered :
      (pick : DispatchPick) (waiting : Bool) (t : Task E) (s s' : Sender E) (d : Dispatched E)
      (acc : List (ℕ × Task E)) (han : List (ℕ × Answer E)) (wri : Text → List (Task E))
      → IsOrdered w s acc han wri
      → dispatch w pick waiting t s ≡ some (s', d)
      → IsOrdered w s' (log_dispatched d t acc) han wri
  unfolding dispatch
  dispatch-IsOrdered pick waiting t s s' d acc han wri h e = elim (Option-cases t.conn) [
    | inl n ↦
        let same : s ≡ s' = ground arith in
        let quiet : log_dispatched d t acc ≡ acc = ground arith in rw (quiet, ← same) h
    | inr (c, n) ↦
        let i = select_shard (some (w.conn c).id) (some t.hdr) s.shard_count in
        elim (dispatch_to_effect w pick waiting t i s s' d (ground arith)) [
          | inl (same, quiet) ↦ rw (quiet acc, same) h
          | inr (grown, taken) ↦
              rw (grown, taken)
                (record {
                  in_shards = λ j.
                      set_queue_adds s.shards i j t (of_queue j (tasks_of han))
                      ∙ (ap (λ q. q ++ only_if (i == j) t) (h.in_shards j)
                          ∙ sym (of_queue-append j i t acc));
                  in_writers = h.in_writers;
                })
        ]
  ]

  hands-IsOrdered :
      (pick : EnqueuePick) (i : ℕ) (s s' : Sender E) (a : Answer E) (acc : List (ℕ × Task E))
      (han : List (ℕ × Answer E)) (wri : Text → List (Task E))
      → IsOrdered w s acc han wri
      → shard_step w pick i s ≡ some (s', a)
      → IsOrdered w s' acc (han ++ (i, a) ∷ []) wri
  unfolding shard_step
  hands-IsOrdered pick i s s' a acc han wri h r = elim (List-cases (s.shards i)) [
    | inl e ↦ absurd (ground arith)
    | inr (t, q, e) ↦
        let s1 : Sender E = record s { shards = set_queue i q s.shards } in
        elim (Option-cases (hand_over w pick t s1)) [
          | inl blocked ↦ absurd (ground arith)
          | inr ((s2, x), got) ↦
              let result : ◌≡◌ {A = Sender E × Answer E} (s2, (t, x)) (s', a) = ground arith in
              let (shards, grown) = hand_over_effect w pick t s1 (s2, x) got in
              subst (λ y. IsOrdered w y.0 acc (han ++ (i, y.1) ∷ []) wri) result
                (record {
                  in_shards = λ j.
                      ap (λ f. of_queue j (tasks_of (han ++ (i, (t, x)) ∷ [])) ++ f j) shards
                      ∙ (ap (λ l. of_queue j l ++ set_queue i q s.shards j)
                            (tasks_of-append i (t, x) han)
                          ∙ (ap (λ l. l ++ set_queue i q s.shards j)
                                (of_queue-append j i t (tasks_of han))
                              ∙ (set_queue_takes s.shards i j t q (of_queue j (tasks_of han)) e
                                  ∙ h.in_shards j)));
                  in_writers = λ id.
                      ap (λ l. wri id ++ l) (grown id)
                      ∙ (sym (append_assoc (wri id) (channel id s) _)
                          ∙ (ap (λ l. l ++ (if is_for w id t && is_nil x then t ∷ [] else []))
                                (h.in_writers id)
                              ∙ sym (passed-append w id i t x han)));
                })
        ]
  ]

  written :
      (id j : Text) (t : Task E) (q : List (Task E)) (wr : ConnWriter E) (s : Sender E)
      (wri : Text → List (Task E))
      → lookup id s.writers ≡ some wr
      → wr.ch ≡ t ∷ q
      → add_task w id t wri j
          ++ channel j (record s { writers = insert id (record wr { ch = q }) s.writers })
        ≡ wri j ++ channel j s
  written id j t q wr s wri e full = elim (Bool-cases (text_eq id j)) [
    | inl same ↦
        let j_is : id ≡ j = (text_eq_iff id j).0 same in
        let here : channel id s ≡ t ∷ q = rw (e, channel) full in
        ap (λ l. add_task w id t wri j ++ l) (channel-insert id j (record wr { ch = q }) s)
        ∙ rw same (
            append_assoc (wri j) (t ∷ []) q
            ∙ ap (λ l. wri j ++ l) (sym here ∙ ap (λ k. channel k s) j_is))
    | inr differs ↦
        ap (λ l. add_task w id t wri j ++ l) (channel-insert id j (record wr { ch = q }) s)
        ∙ rw differs refl
  ]

  writes-IsOrdered :
      (id : Text) (s s' : Sender E) (t : Task E) (acc : List (ℕ × Task E))
      (han : List (ℕ × Answer E)) (wri : Text → List (Task E))
      → IsOrdered w s acc han wri
      → writer_step id s ≡ some (s', t)
      → IsOrdered w s' acc han (add_task w id t wri)
  unfolding writer_step next_task
  writes-IsOrdered id s s' t acc han wri h r = elim (Option-cases (lookup id s.writers)) [
    | inl e ↦ absurd (ground arith)
    | inr (wr, e) ↦ elim (List-cases wr.ch) [
      | inl none_left ↦ absurd (ground arith)
      | inr (t', q, full) ↦
          let wr' : ConnWriter E = record wr { ch = q } in
          let s2 : Sender E = record s { writers = insert id wr' s.writers } in
          let result : ◌≡◌ {A = Sender E × Task E} (s2, t') (s', t) = ground arith in
          subst (λ y. IsOrdered w y.0 acc han (add_task w id y.1 wri)) result
            (record {
              in_shards = h.in_shards;
              in_writers = λ j. written id j t' q wr s wri e full ∙ h.in_writers j;
            })
    ]
  ]

  Reach-IsOrdered :
      {o : SendOptions} {s : Sender E} {acc : List (ℕ × Task E)} {han : List (ℕ × Answer E)}
      {wri : Text → List (Task E)}
      → Reach w o s acc han wri
      → IsOrdered w s acc han wri
  unfolding new_sender lookup
  Reach-IsOrdered start = record { in_shards = λ i. refl; in_writers = λ id. refl }
  Reach-IsOrdered (dispatches {s} {s'} {d} {acc} {han} {wri} pick waiting t r e) =
      dispatch-IsOrdered pick waiting t s s' d acc han wri (Reach-IsOrdered r) e
  Reach-IsOrdered (hands {s} {s'} {a} {acc} {han} {wri} pick i r e) =
      hands-IsOrdered pick i s s' a acc han wri (Reach-IsOrdered r) e
  Reach-IsOrdered (writes {s} {s'} {t} {acc} {han} {wri} id r e) =
      writes-IsOrdered id s s' t acc han wri (Reach-IsOrdered r) e

  -- While no connection is closed and the dispatcher runs: of each shard, the tasks that its worker
  -- has taken followed by those that wait are those that Dispatch put there, in that order; and the
  -- tasks that the writer of an ID has taken followed by those that wait for it are the tasks of
  -- this ID that workers handed over without an error, in the order in which they took them.
  pub send_order :
      {o : SendOptions} {s : Sender E} {acc : List (ℕ × Task E)} {han : List (ℕ × Answer E)}
      {wri : Text → List (Task E)}
      → Reach w o s acc han wri
      → ((i : ℕ) → of_queue i (tasks_of han) ++ s.shards i ≡ of_queue i acc)
        × ((id : Text) → wri id ++ channel id s ≡ passed w id han)
  send_order r = let h = Reach-IsOrdered r in (h.in_shards, h.in_writers)
