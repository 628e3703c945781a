-- ===== src/Server/Removal.antt =====
-- server/server.go: the end of a connection, from serveConn through the manager to its OnRemove hook.
use myflowhub_core.Common.{
  ℕ, ◌≡◌, refl, sym, ap, subst, [], ◌∷◌, ◌++◌, none, some, true, false, Text, text_instance,
  text_eq_refl, text_eq, text_eq_iff, Bool, if◌then◌else◌, ◌≢◌, ◌∙◌, lookup, lookup-erase, is_empty,
  ==_refl, Option-cases, Bool-cases, inl, inr, arith,
}
use myflowhub_core.Conn.{Ref, extract_conn_node_id}
use myflowhub_core.ConnMgr.{World, Manager, closed, remove, remove_events, purge, get}
use myflowhub_core.ConnMgr.Invariant.{IsConsistent}
use myflowhub_core.Sender.{Sender}
use myflowhub_core.Sender.Steps.{close_conn}
use myflowhub_core.Server.{
  ParentState, Server, ConnClosed, notify_down, removed, run_hooks, serve_end,
}
use myflowhub_core.Server.Link.{contains}

notify_down-closes :
    (id : Text) (ch : ℕ) (p : ParentState)
    → is_empty id ≡ false
    → p.conn_id ≡ id
    → p.down ≡ some ch
    → (contains ch (notify_down id p).closed ≡ true) × ((notify_down id p).down ≡ none)
unfolding notify_down
notify_down-closes id ch p named own waits =
    (ground (arith, text_eq_refl id, ==_refl ch), ground (arith, text_eq_refl id))

-- What the end of a connection with this ID does to the parent link.
notify_down-parent :
    (id : Text) (p : ParentState)
    → is_empty id ≡ false
    → ((ch : ℕ)
        → p.conn_id ≡ id
        → p.down ≡ some ch
        → (contains ch (notify_down id p).closed ≡ true) × ((notify_down id p).down ≡ none))
      × (p.conn_id ≢ id → notify_down id p ≡ p)
unfolding notify_down
notify_down-parent id p named = (
  λ ch own waits. notify_down-closes id ch p named own waits,
  λ other.
      let differ : text_eq id p.conn_id ≡ false = (elim (Bool-cases (text_eq id p.conn_id)) [
        | inl same ↦ absurd (other (sym ((text_eq_iff id p.conn_id).0 same)))
        | inr differ ↦ differ
      ]) in
      ground (arith, differ),
)

module _ (w : World) (publishes : ConnClosed → Bool) {E : Type 0} where
  -- The events of a removal make the hook run once.
  run_hooks-removes :
      (m : Manager) (c : Ref) (s : Server E)
      → m.hooks.on_remove ≡ true
      → run_hooks w publishes (remove_events m c ++ closed c ∷ []) s ≡ removed w publishes c s
  unfolding run_hooks
  run_hooks-removes m c s set = elim (Bool-cases m.link_hooks.on_remove) [
    | inl link ↦ rw (set, link, run_hooks) refl
    | inr link ↦ rw (set, link, run_hooks) refl
  ]

  serve_end_eq :
      (id : Text) (c : Ref) (s : Server E)
      → s.cm.hooks.on_remove ≡ true
      → get id s.cm ≡ some c
      → serve_end w publishes id s ≡ removed w publishes c (record s { cm = purge w id c s.cm })
  unfolding serve_end remove get
  serve_end_eq id c s set found =
      rw (found, serve_end, remove)
        (run_hooks-removes s.cm c (record s { cm = purge w id c s.cm }) set)

  close_conn-forgets : (id : Text) (s : Sender E) → lookup id (close_conn id s).writers ≡ none
  unfolding close_conn
  close_conn-forgets id s = elim (Option-cases (lookup id s.writers)) [
    | inl e ↦ rw (e, close_conn) e
    | inr (wr, e) ↦
        rw (e, close_conn) (ground (arith, lookup-erase id id s.writers, text_eq_refl id))
  ]

  -- When the read loop of a connection has ended that a consistent manager holds under an ID that is
  -- not empty, and the hooks of Start are set: the manager answers no connection for its ID, the send
  -- dispatcher has no writer for it, and the process has been told once. The event with its ID and its
  -- node ID has been published once if the event bus takes it, and else no event has been; this
  -- changes nothing of the rest. If its ID is the one that the parent link has recorded, the channel
  -- that the link waits for is closed; if the link has recorded another one, its state is as before.
  pub serve_end_lem :
      (id : Text) (c : Ref) (s : Server E)
      → IsConsistent w s.cm
      → s.cm.hooks.on_remove ≡ true
      → get id s.cm ≡ some c
      → is_empty id ≡ false
      → let s' = serve_end w publishes id s in
        let e : ConnClosed = record {
          closed_id = id;
          closed_node = extract_conn_node_id (some (w.conn c));
        } in
        (get id s'.cm ≡ none)
        × (lookup id s'.sender.writers ≡ none)
        × (s'.proc_closed ≡ s.proc_closed ++ c ∷ [])
        × (s'.events ≡ s.events ++ (if publishes e then e ∷ [] else []))
        × ((ch : ℕ)
            → s.parent.conn_id ≡ id
            → s.parent.down ≡ some ch
            → (contains ch s'.parent.closed ≡ true) × (s'.parent.down ≡ none))
        × (s.parent.conn_id ≢ id → s'.parent ≡ s.parent)
  unfolding removed get purge
  serve_end_lem id c s ok set found named =
      let own = ok.own_id id c found in
      let after : Server E = removed w publishes c (record s { cm = purge w id c s.cm }) in
      let event : Text → ConnClosed =
        λ j. record { closed_id = j; closed_node = extract_conn_node_id (some (w.conn c)) } in
      let same = serve_end_eq id c s set found in
      let parent : (serve_end w publishes id s).parent ≡ notify_down id s.parent =
        ap (λ z. z.parent) same ∙ ap (λ j. notify_down j s.parent) own in
      let (wakes, stays) = notify_down-parent id s.parent named in
      let gone : get id after.cm ≡ none =
        ground (arith, lookup-erase id id s.cm.conns, text_eq_refl id) in
      (
        ap (λ z. get id z.cm) same ∙ gone,
        ap (λ z. lookup id z.sender.writers) same
            ∙ ap (λ j. lookup id (close_conn j s.sender).writers) own
            ∙ close_conn-forgets id s.sender,
        ap (λ z. z.proc_closed) same,
        ap (λ z. z.events) same
            ∙ ap (λ j. s.events ++ (if publishes (event j) then event j ∷ [] else [])) own,
        λ ch is waits.
            subst (λ p. (contains ch p.closed ≡ true) × (p.down ≡ none)) (sym parent)
              (wakes ch is waits),
        λ other. parent ∙ stays other,
      )
