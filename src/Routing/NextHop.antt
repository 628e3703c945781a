-- ===== src/Routing/NextHop.antt =====
-- Where PreRoute sends a frame for another node.
use myflowhub_core.Common.{
  ℕ, ◌-◌, ◌≤◌, ◌≡◌, ◌≢◌, ◌⊎◌, refl, sym, ap, ◌∙◌, subst, List, [], ◌∷◌, map, Option, none, some,
  Bool, true, false, Option-cases, Bool-cases, inl, inr, arith, Text, text_instance, text_eq,
  text_eq_iff, text_eq_refl, Assoc, lookup, UniqueKeys, ◌==◌, ==_iff, if◌then◌else◌,
}
use myflowhub_core.Header.{IHeader, target_id, with_hop_limit}
use myflowhub_core.Conn.{Ref, is_parent_conn, extract_node_id}
use myflowhub_core.ConnMgr.{World, Manager, snapshot, get, get_by_node}
use myflowhub_core.ConnMgr.Invariant.{IsConsistent}
use myflowhub_core.Routing.{
  Sent, forward_or_drop, fast_forward_sends, deliver, forward_to_parent, find_by_meta, local_child,
  find_parent, act, pre_route,
}
use myflowhub_core.Routing.Decision.{IsRouted, decide_iff}
use myflowhub_core.Routing.Local.{clone_for_forward-some}
use myflowhub_core.Routing.Sends.{hops_left}

-- The connection stands in the table.
abbrev Stands : Assoc Text Ref → Ref → Type 0
Stands es c = (id : Text) × (lookup id es ≡ some c)

Stands-first : (id : Text) (c : Ref) (es : Assoc Text Ref) → Stands ((id, c) ∷ es) c
unfolding lookup
Stands-first id c es = (id, ground (arith, text_eq_refl id))

Stands-later :
    (id : Text) (d c : Ref) (es : Assoc Text Ref)
    → lookup id es ≡ none
    → Stands es c
    → Stands ((id, d) ∷ es) c
unfolding lookup
Stands-later id d c es fresh (j, e) = (j, ground (arith, e, text_eq_iff id j, fresh))

-- A test on the connections of a table, as `find_by_meta` and `find_parent` look for the first.
abbrev first : (Ref → Bool) → List Ref → Option Ref
first test [] = none
first test (c ∷ cs) = if test c then some c else first test cs

-- What a search gives: a connection of the table that passes the test, or none passes.
abbrev Searched : (Ref → Bool) → Assoc Text Ref → Option Ref → Type 0
Searched test es none = (c : Ref) → Stands es c → test c ≡ false
Searched test es (some c) = Stands es c × (test c ≡ true)

search_later :
    (test : Ref → Bool) (id : Text) (d : Ref) (es : Assoc Text Ref) (r : Option Ref)
    → lookup id es ≡ none
    → test d ≡ false
    → Searched test es r
    → Searched test ((id, d) ∷ es) r
unfolding lookup
search_later test id d es none fresh fails h = λ c (j, e). elim (Bool-cases (text_eq id j)) [
  | inl same ↦ (let is : d ≡ c = ground (arith, e, same) in ap test (sym is) ∙ fails)
  | inr other ↦ h c (j, ground (arith, e, other))
]
search_later test id d es (some c) fresh fails (there, passes) =
    (Stands-later id d c es fresh there, passes)

first-Searched :
    (test : Ref → Bool) (es : Assoc Text Ref)
    → UniqueKeys es
    → Searched test es (first test (map (λ e. e.1) es))
unfolding lookup
first-Searched test [] u = λ c (id, e). absurd (cc e)
first-Searched test ((id, d) ∷ es) (fresh, u) = elim (Bool-cases (test d)) [
  | inl passes ↦ rw passes (Stands-first id d es, passes)
  | inr fails ↦ rw fails (search_later test id d es _ fresh fails (first-Searched test es u))
]

module _ (w : World) where
  abbrev is_of : ℕ → Ref → Bool
  is_of target c = extract_node_id (some (w.conn c)) == target

  abbrev is_up : Ref → Bool
  is_up c = is_parent_conn (some (w.conn c))

  find_by_meta-first :
      (target : ℕ) (cs : List Ref) → find_by_meta w target cs ≡ first (is_of target) cs
  unfolding find_by_meta
  find_by_meta-first target [] = refl
  find_by_meta-first target (c ∷ cs) =
      ap (λ r. if is_of target c then some c else r) (find_by_meta-first target cs)

  find_parent-first : (cs : List Ref) → find_parent w cs ≡ first is_up cs
  unfolding find_parent
  find_parent-first [] = refl
  find_parent-first (c ∷ cs) = ap (λ r. if is_up c then some c else r) (find_parent-first cs)

module _ (w : World) (m : Manager) where
  -- The manager has the connection under some ID.
  abbrev pub IsManaged : Ref → Type 0
  IsManaged c = (id : Text) × (get id m ≡ some c)

  -- The node index has no entry for the node, and no managed connection has logged in as it.
  abbrev pub IsUnknown : ℕ → Type 0
  IsUnknown target =
      (get_by_node target m ≡ none)
      × ((c : Ref) → IsManaged c → extract_node_id (some (w.conn c)) ≢ target)

  -- Whether a frame from `src` for a node may go to a connection: it is the one of the node index; or
  -- the index has none, and it is managed and has logged in as the node; or the node is unknown, the
  -- frame is not from the parent, and it is a managed connection to a parent. And whether the frame
  -- goes nowhere: the node is unknown, and the frame is from the parent or there is no parent.
  abbrev pub IsHop : Ref → ℕ → Option Ref → Type 0
  IsHop src target (some c) =
      (get_by_node target m ≡ some c)
      ⊎ ((get_by_node target m ≡ none) × IsManaged c × (extract_node_id (some (w.conn c)) ≡ target))
      ⊎ (IsUnknown target
          × (is_parent_conn (some (w.conn src)) ≡ false)
          × IsManaged c
          × (is_parent_conn (some (w.conn c)) ≡ true))
  IsHop src target none =
      IsUnknown target
      × ((is_parent_conn (some (w.conn src)) ≡ true)
          ⊎ ((c : Ref) → IsManaged c → is_parent_conn (some (w.conn c)) ≡ false))

  abbrev pub one_copy : Option Ref → IHeader → List ℕ → List Sent
  one_copy none h payload = []
  one_copy (some c) h payload = record { to = (w.conn c).id; header = h; payload = payload } ∷ []

  -- What a frame that no connection here is for comes to.
  passed_up :
      (src : Ref) (h : IHeader) (payload : List ℕ) (target : ℕ)
      → UniqueKeys m.conns
      → IsUnknown target
      → (hop : Option Ref) × IsHop src target hop
        × (deliver w m true none src h payload ≡ one_copy hop h payload)
  unfolding deliver forward_to_parent forward_or_drop get
  passed_up src h payload target unique unknown =
      elim (Bool-cases (is_parent_conn (some (w.conn src)))) [
        | inl up ↦ (none, (unknown, inl up), rw up refl)
        | inr down ↦
            let found = find_parent-first w (snapshot m) in
            let searched = first-Searched (is_up w) m.conns unique in
            elim (Option-cases (first (is_up w) (snapshot m))) [
              | inl e ↦
                  let empty : find_parent w (snapshot m) ≡ none = found ∙ e in
                  let nobody = subst (Searched (is_up w) m.conns) e searched in
                  (none, (unknown, inr nobody), rw (down, empty) refl)
              | inr (c, e) ↦
                  let there : find_parent w (snapshot m) ≡ some c = found ∙ e in
                  let (stands, up) = subst (Searched (is_up w) m.conns) e searched in
                  (some c, inr (inr (unknown, down, stands, up)), rw (down, there) refl)
            ]
      ]

  passed_on :
      (src : Ref) (h : IHeader) (payload : List ℕ) (target : ℕ)
      → UniqueKeys m.conns
      → (hop : Option Ref) × IsHop src target hop
        × (deliver w m true (local_child w m target) src h payload ≡ one_copy hop h payload)
  unfolding local_child deliver forward_or_drop get
  passed_on src h payload target unique = elim (Option-cases (get_by_node target m)) [
    | inr (c, e) ↦ (some c, inl e, rw (local_child, e) refl)
    | inl missing ↦
        let found = find_by_meta-first w target (snapshot m) in
        let searched = first-Searched (is_of w target) m.conns unique in
        elim (Option-cases (first (is_of w target) (snapshot m))) [
          | inr (c, e) ↦
              let there : local_child w m target ≡ some c = rw (local_child, missing) (found ∙ e) in
              let (stands, is) = subst (Searched (is_of w target) m.conns) e searched in
              (
                some c,
                inr (
                    inl
                      (missing, stands, (==_iff (extract_node_id (some (w.conn c))) target).0 is)),
                rw there refl,
              )
          | inl e ↦
              let empty : local_child w m target ≡ none = rw (local_child, missing) (found ∙ e) in
              let nobody = subst (Searched (is_of w target) m.conns) e searched in
              let unknown : IsUnknown target = (
                missing,
                λ c stands is.
                    cc (nobody c stands, (==_iff (extract_node_id (some (w.conn c))) target).1 is),
              ) in
              let (hop, is, sent) = passed_up src h payload target unique unknown in
              (hop, is, rw empty sent)
        ]
  ]

  -- With forwarding on, a consistent manager and two hops left, a frame that is routed by its
  -- target, for another node than this one, goes in one copy with one hop less to the connection
  -- of the node index; if there is no such entry, to a managed connection that has logged in as
  -- the target; if there is none either and the frame is not from the parent, to a managed
  -- connection to a parent; and if there is none of these it is not sent. It never goes to the
  -- dispatcher of this node.
  pub pre_route_unicast :
      (local : ℕ) (src : Ref) (h : IHeader) (payload : List ℕ)
      → IsConsistent w m
      → IsRouted h
      → target_id h ≢ 0
      → target_id h ≢ local
      → 2 ≤ hops_left h
      → (hop : Option Ref) × IsHop src (target_id h) hop
        × (pre_route w m true (some local) src (some h) payload
            ≡ (false, one_copy hop (with_hop_limit (hops_left h - 1) h) payload))
  unfolding pre_route act fast_forward_sends
  pre_route_unicast local src h payload v routed known remote two =
      let kind = (decide_iff local h).4.1 (routed, known, remote) in
      let h' = with_hop_limit (hops_left h - 1) h in
      let (hop, is, sent) = passed_on src h' payload (target_id h) v.conns_unique in
      (hop, is, rw (kind, clone_for_forward-some h two, act) (ap (λ s. (false, s)) sent))
