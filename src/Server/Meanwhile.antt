-- ===== src/Server/Meanwhile.antt =====
-- server/server.go: the parent link while other connections come and go.
use myflowhub_core.Common.{
  ℕ, ◌≡◌, ◌≢◌, refl, sym, ap, ◌∙◌, List, [], ◌∷◌, ◌++◌, none, some, true, false, All, Text,
  text_instance, text_eq, text_eq_iff, lookup, lookup-erase, Option-cases, Bool-cases, inl, inr,
  arith,
}
use myflowhub_core.Conn.{Ref}
use myflowhub_core.ConnMgr.{World, Manager, add, remove, get, purge}
use myflowhub_core.ConnMgr.Laws.{add_fresh}
use myflowhub_core.ConnMgr.Invariant.{IsConsistent}
use myflowhub_core.ConnMgr.Invariant.Reach.{add-IsConsistent, remove-IsConsistent}
use myflowhub_core.Server.{ParentState, notify_down}
use myflowhub_core.Server.Link.{
  Phase, LinkState, LinkMove, dials, adds, records, wakes, wakes_up, sees_cancel, cancels, leaves,
  joins, contains, link_step, link_run, at,
}
use myflowhub_core.Server.Wakeups.{leaves_eq, leaves_missing, link_run_step}
use myflowhub_core.Server.LostWakeup.{notify_other, remove_keeps_none, add_other_keeps_none}

-- A connection joins, or one with another ID leaves.
abbrev pub IsBeside : Text → LinkMove → Type 0
IsBeside id (leaves j) = j ≢ id
IsBeside id (joins c) = Unit
IsBeside id cancels = ⊥
IsBeside id (dials answer) = ⊥
IsBeside id adds = ⊥
IsBeside id records = ⊥
IsBeside id wakes = ⊥
IsBeside id wakes_up = ⊥
IsBeside id sees_cancel = ⊥

-- A connection leaves, or one with another ID joins.
abbrev pub IsAfter : World → Text → LinkMove → Type 0
IsAfter w id (leaves j) = Unit
IsAfter w id (joins c) = (w.conn c).id ≢ id
IsAfter w id cancels = ⊥
IsAfter w id (dials answer) = ⊥
IsAfter w id adds = ⊥
IsAfter w id records = ⊥
IsAfter w id wakes = ⊥
IsAfter w id wakes_up = ⊥
IsAfter w id sees_cancel = ⊥

text_ne : (s t : Text) → s ≢ t → text_eq s t ≡ false
text_ne s t ne = elim (Bool-cases (text_eq s t)) [
  | inl same ↦ absurd (ne ((text_eq_iff s t).0 same))
  | inr other ↦ other
]

module _ (w : World) (id : Text) (c : Ref) where
  -- What stays while others come and go: the connection is managed.
  pub record Kept (m : Manager) : Type 0 where
    pub consistent : IsConsistent w m
    pub here : lookup id m.conns ≡ some c

  leaves-Kept : (j : Text) (m : Manager) → j ≢ id → Kept m → Kept (remove w j m).0
  unfolding remove purge
  leaves-Kept j m other k = record {
    consistent = remove-IsConsistent w j m k.consistent;
    here = elim (Option-cases (lookup j m.conns)) [
      | inl missing ↦ rw (remove, missing) k.here
      | inr (d, found) ↦
          rw (remove, found, purge)
            (ground (arith, k.here, text_ne j id other, lookup-erase j id m.conns))
    ];
  }

  joins-Kept : (d : Ref) (m : Manager) → Kept m → Kept (add w (some d) m).0
  unfolding add get
  joins-Kept d m k = record {
    consistent = add-IsConsistent w (some d) m k.consistent;
    here = elim (Option-cases (lookup (w.conn d).id m.conns)) [
      | inl free ↦
          (add_fresh w d m free).1 id (λ e. cc (k.here, free, ap (λ j. lookup j m.conns) e))
          ∙ k.here
      | inr (old, taken) ↦ rw (add, taken) k.here
    ];
  }

  beside_step :
      (move : LinkMove) (m : Manager) (p : ParentState) (ph : Phase)
      → IsBeside id move
      → p.conn_id ≡ id
      → Kept m
      → (m' : Manager) × (link_step move (at w m p ph) ≡ some (at w m' p ph)) × Kept m'
  unfolding link_step
  beside_step (leaves j) m p ph other own k = elim (Option-cases (lookup j m.conns)) [
    | inl missing ↦ (m, leaves_missing w m p ph j missing, k)
    | inr (d, found) ↦
        let named = k.consistent.own_id j d found in
        let differs = text_ne (w.conn d).id p.conn_id (λ e. other (sym named ∙ e ∙ own)) in
        (
          (remove w j m).0,
          leaves_eq w m p ph j d found
              ∙ ap (λ q. some (at w (remove w j m).0 q ph)) (notify_other (w.conn d).id p differs),
          leaves-Kept j m other k,
        )
  ]
  beside_step (joins d) m p ph other own k = ((add w (some d) m).0, refl, joins-Kept d m k)
  beside_step cancels m p ph other own k = absurd other
  beside_step (dials answer) m p ph other own k = absurd other
  beside_step adds m p ph other own k = absurd other
  beside_step records m p ph other own k = absurd other
  beside_step wakes m p ph other own k = absurd other
  beside_step wakes_up m p ph other own k = absurd other
  beside_step sees_cancel m p ph other own k = absurd other

  pub beside_run :
      (ms rest : List LinkMove) (m : Manager) (p : ParentState) (ph : Phase)
      → All (IsBeside id) ms
      → p.conn_id ≡ id
      → Kept m
      → (m' : Manager) × (link_run (ms ++ rest) (at w m p ph) ≡ link_run rest (at w m' p ph))
        × Kept m'
  beside_run [] rest m p ph others own k = (m, refl, k)
  beside_run (move ∷ ms) rest m p ph (other, others) own k =
      let (m1, step, k1) = beside_step move m p ph other own k in
      let (m', run, k') = beside_run ms rest m1 p ph others own k1 in
      (m', link_run_step move (ms ++ rest) (at w m p ph) (at w m1 p ph) step ∙ run, k')

  notify_down-contains :
      (j : Text) (p : ParentState) (ch : ℕ)
      → contains ch p.closed ≡ true
      → contains ch (notify_down j p).closed ≡ true
  unfolding notify_down
  notify_down-contains j p ch has = elim (Option-cases p.down) [
    | inl n ↦ ground (arith, n, has)
    | inr (d, e) ↦ ground (arith, e, has)
  ]

  -- The state after the connection has left: its channel is closed.
  After : ℕ → Phase → LinkState → Type 0
  After ch ph s =
      (m : Manager) × (p : ParentState) × (s ≡ at w m p ph)
      × (contains ch p.closed ≡ true)
      × (lookup id m.conns ≡ none)

  After-step :
      (move : LinkMove) (m : Manager) (p : ParentState) (ph : Phase) (ch : ℕ)
      → IsAfter w id move
      → contains ch p.closed ≡ true
      → lookup id m.conns ≡ none
      → (s : LinkState) × (link_step move (at w m p ph) ≡ some s) × After ch ph s
  unfolding link_step After
  After-step (leaves j) m p ph ch other has gone = elim (Option-cases (lookup j m.conns)) [
    | inl missing ↦ (at w m p ph, leaves_missing w m p ph j missing, (m, p, refl, has, gone))
    | inr (d, found) ↦ (
      at w (remove w j m).0 (notify_down (w.conn d).id p) ph,
      leaves_eq w m p ph j d found,
      (
        (remove w j m).0,
        notify_down (w.conn d).id p,
        refl,
        notify_down-contains (w.conn d).id p ch has,
        remove_keeps_none w j id m gone,
      ),
    )
  ]
  After-step (joins d) m p ph ch other has gone = (
    at w (add w (some d) m).0 p ph,
    refl,
    (
      (add w (some d) m).0,
      p,
      refl,
      has,
      add_other_keeps_none w d id m (text_ne (w.conn d).id id other) gone,
    ),
  )
  After-step cancels m p ph ch other has gone = absurd other
  After-step (dials answer) m p ph ch other has gone = absurd other
  After-step adds m p ph ch other has gone = absurd other
  After-step records m p ph ch other has gone = absurd other
  After-step wakes m p ph ch other has gone = absurd other
  After-step wakes_up m p ph ch other has gone = absurd other
  After-step sees_cancel m p ph ch other has gone = absurd other

  pub After-run :
      (ms rest : List LinkMove) (m : Manager) (p : ParentState) (ph : Phase) (ch : ℕ)
      → All (IsAfter w id) ms
      → contains ch p.closed ≡ true
      → lookup id m.conns ≡ none
      → (m' : Manager) × (p' : ParentState) × (link_run (ms ++ rest) (at w m p ph)
          ≡ link_run rest (at w m' p' ph))
        × (contains ch p'.closed ≡ true)
        × (lookup id m'.conns ≡ none)
  unfolding After
  After-run [] rest m p ph ch others has gone = (m, p, refl, has, gone)
  After-run (move ∷ ms) rest m p ph ch (other, others) has gone =
      let (s, step, (m1, p1, is, has1, gone1)) = After-step move m p ph ch other has gone in
      let (m', p', run, has', gone') = After-run ms rest m1 p1 ph ch others has1 gone1 in
      (
        m',
        p',
        link_run_step move (ms ++ rest) (at w m p ph) s step ∙ ap (link_run (ms ++ rest)) is ∙ run,
        has',
        gone',
      )
