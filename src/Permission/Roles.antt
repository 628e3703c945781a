-- ===== src/Permission/Roles.antt =====
-- Roles, their permissions, and the calls that change them.
use myflowhub_core.Common.{
  ℕ, ◌≡◌, ◌≢◌, ◌↔◌, ◌⊎◌, refl, sym, ap, ◌∙◌, subst, inl, inr, Option-cases, Bool-cases, ==_iff,
  List, [], ◌∷◌, none, some, Bool, true, false, ◌||◌, Text, text_eq_iff, is_empty, Assoc,
  nat_instance, text_instance, lookup, erase, lookup-insert, lookup-erase, lookup-insert_self, ◌==◌,
  if◌then◌else◌, arith,
}
use myflowhub_core.Strings.{trim_space}
use myflowhub_core.Strings.Laws.{trim_space_idem}
use myflowhub_core.Permission.{
  Config, wildcard, upsert_node, invalidate_nodes, erase_all, resolve_role, resolve_perms, grants,
  has,
}

-- An entry of the list: the text is in it, as a predicate by recursion.
abbrev pub Holds : Text → List Text → Type 0
Holds p [] = ⊥
Holds p (q ∷ qs) = (q ≡ p) ⊎ Holds p qs

grants_iff :
    (perm : Text) (perms : List Text)
    → (grants perm perms ≡ true) ↔ (Holds wildcard perms ⊎ Holds perm perms)
unfolding grants
grants_iff perm [] = (λ e. cc, λ e. ground arith)
grants_iff perm (q ∷ qs) = (
  λ e. ground (arith, text_eq_iff q wildcard, text_eq_iff q perm, (grants_iff perm qs).0),
  λ e. ground (arith, text_eq_iff q wildcard, text_eq_iff q perm, (grants_iff perm qs).1),
)

-- The role of a node other than 0: the one recorded for it, without outer spaces, unless that is
-- empty or none is recorded; then the default one.
abbrev pub HasRole : ℕ → Config → Text → Type 0
HasRole n c role =
    ((r : Text) × (lookup n c.node_roles ≡ some r) × (trim_space r ≢ []) × (role ≡ trim_space r))
    ⊎ (((r : Text) → lookup n c.node_roles ≡ some r → trim_space r ≡ []) × (role ≡ c.default_role))

-- The entry of a role has a permission, or the default permissions where the role has no entry.
abbrev pub Permits : Config → Text → Text → Type 0
Permits c role p =
    ((perms : List Text) × (lookup role c.role_perms ≡ some perms) × Holds p perms)
    ⊎ ((lookup role c.role_perms ≡ none) × Holds p c.default_perms)

empty_iff : (t : Text) → (is_empty t ≡ true) ↔ (t ≡ [])
empty_iff [] = (λ e. refl, λ e. refl)
empty_iff (x ∷ t) = (λ e. cc e, λ e. absurd (cc e))

resolve_role-HasRole : (n : ℕ) (c : Config) → n ≢ 0 → HasRole n c (resolve_role n c)
unfolding resolve_role
resolve_role-HasRole n c ne = elim (Option-cases (lookup n c.node_roles)) [
  | inl missing ↦ inr (λ r e. absurd (cc (missing, e)), ground (arith, missing, ne))
  | inr (r, found) ↦ elim (Bool-cases (is_empty (trim_space r))) [
    | inl blank ↦
        let is : trim_space r ≡ [] = (empty_iff (trim_space r)).0 blank in
        inr (
          λ x e. (let same : x ≡ r = cc (found, e) in ap trim_space same ∙ is),
          ground (arith, found, blank, ne),
        )
    | inr full ↦
        inl (
          r,
          found,
          λ e. cc (full, (empty_iff (trim_space r)).1 e),
          ground (arith, found, full, ne),
        )
  ]
]

HasRole-unique : (n : ℕ) (c : Config) (a b : Text) → HasRole n c a → HasRole n c b → a ≡ b
HasRole-unique n c a b (inl (r, e, ne, is)) (inl (r', e', ne', is')) =
    let same : r ≡ r' = cc (e, e') in is ∙ ap trim_space same ∙ sym is'
HasRole-unique n c a b (inl (r, e, ne, is)) (inr (blank, is')) = absurd (ne (blank r e))
HasRole-unique n c a b (inr (blank, is)) (inl (r, e, ne, is')) = absurd (ne (blank r e))
HasRole-unique n c a b (inr (blank, is)) (inr (blank', is')) = is ∙ sym is'

resolve_perms_iff :
    (n : ℕ) (c : Config) (q : Text) → Holds q (resolve_perms n c) ↔ Permits c (resolve_role n c) q
unfolding resolve_perms
resolve_perms_iff n c q = elim (Option-cases (lookup (resolve_role n c) c.role_perms)) [
  | inl missing ↦
      rw (resolve_perms, missing)
        (
          λ h. inr (refl, h),
          λ h. elim h [ inl (perms, e, holds) ↦ absurd (cc e) | inr (_, holds) ↦ holds ],
        )
  | inr (perms, found) ↦
      rw (resolve_perms, found)
        (
          λ h. inl (perms, refl, h),
          λ h. elim h [
            | inl (ps, e, holds) ↦ (let same : ps ≡ perms = cc e in subst (Holds q) same holds)
            | inr (e, holds) ↦ absurd (cc e)
          ],
        )
]

-- Has answers true exactly if the node is 0, the permission is empty, or the entry of the node's role
-- has the wildcard or the permission. The role of a node is the one recorded for it, without outer
-- spaces, or the default role if that is empty or there is none; a role without an entry has the
-- default permissions.
pub has_iff :
    (n : ℕ) (perm : Text) (c : Config)
    → (has n perm c ≡ true) ↔ (
        (n ≡ 0)
        ⊎ (perm ≡ [])
        ⊎ ((role : Text) × HasRole n c role × (Permits c role wildcard ⊎ Permits c role perm)))
unfolding has
has_iff n perm c = elim (Bool-cases (n == 0)) [
  | inl zero_ ↦ (λ e. inl ((==_iff n 0).0 zero_), λ h. ground (arith, zero_))
  | inr other ↦ elim (Bool-cases (is_empty perm)) [
    | inl blank ↦ (λ e. inr (inl ((empty_iff perm).0 blank)), λ h. ground (arith, blank))
    | inr full ↦
        let ne : n ≢ 0 = λ e. cc (other, (==_iff n 0).1 e) in
        let role = resolve_role n c in
        let has_role = resolve_role-HasRole n c ne in
        let opened : has n perm c ≡ grants perm (resolve_perms n c) = ground (arith, other, full) in
        (
          λ e.
              (let held = (grants_iff perm (resolve_perms n c)).0 (sym opened ∙ e) in
                inr (
                  inr (
                    role,
                    has_role,
                    elim held [
                      | inl w ↦ inl ((resolve_perms_iff n c wildcard).0 w)
                      | inr w ↦ inr ((resolve_perms_iff n c perm).0 w)
                    ],
                  ))),
          λ h. elim h [
            | inl z ↦ absurd (ne z)
            | inr (inl e) ↦ absurd (cc (full, (empty_iff perm).1 e))
            | inr (inr (r, is, permits)) ↦
                let same : r ≡ role = HasRole-unique n c r role is has_role in
                let permits' = subst (λ x. Permits c x wildcard ⊎ Permits c x perm) same permits in
                opened
                ∙ (grants_iff perm (resolve_perms n c)).1 (elim permits' [
                  | inl w ↦ inl ((resolve_perms_iff n c wildcard).1 w)
                  | inr w ↦ inr ((resolve_perms_iff n c perm).1 w)
                ])
          ],
        )
  ]
]

-- Recording a role for a node other than 0: the node has that role without its outer spaces, with
-- the permissions given unless these are empty; no other node changes its role, and the default role
-- and permissions stay.
pub upsert_node_lem :
    (n : ℕ) (role : Text) (perms : List Text) (c : Config)
    → n ≢ 0
    → is_empty (trim_space role) ≡ false
    → let c' = upsert_node n role perms c in
      (resolve_role n c' ≡ trim_space role)
      × (is_empty perms ≡ false → resolve_perms n c' ≡ perms)
      × ((k : ℕ) → k ≢ n → resolve_role k c' ≡ resolve_role k c)
      × (c'.default_role ≡ c.default_role)
      × (c'.default_perms ≡ c.default_perms)
unfolding upsert_node resolve_role resolve_perms
upsert_node_lem n role perms c ne full =
    let r : Text = trim_space role in
    (
      ground (arith, lookup-insert_self n r c.node_roles, trim_space_idem role),
      λ some_perms. ground (
        arith,
        lookup-insert_self n r c.node_roles,
        trim_space_idem role,
        lookup-insert_self r perms c.role_perms,
      ),
      λ k other. ground (arith, lookup-insert n k r c.node_roles),
      ground arith,
      ground arith,
    )

-- Recording an empty role takes the node's role away, and changes no other node.
pub upsert_node_empty :
    (n : ℕ) (role : Text) (perms : List Text) (c : Config)
    → n ≢ 0
    → is_empty (trim_space role) ≡ true
    → let c' = upsert_node n role perms c in
      (resolve_role n c' ≡ c.default_role)
      × ((k : ℕ) → k ≢ n → resolve_role k c' ≡ resolve_role k c)
unfolding upsert_node resolve_role
upsert_node_empty n role perms c ne blank = (
  ground (arith, lookup-erase n n c.node_roles),
  λ k other. ground (arith, lookup-erase n k c.node_roles),
)

abbrev listed : ℕ → List ℕ → Bool
listed k [] = false
listed k (n ∷ ns) = n == k || listed k ns

lookup-erase_all :
    (k : ℕ) (ns : List ℕ) (m : Assoc ℕ Text)
    → lookup k (erase_all ns m) ≡ (if listed k ns then none else lookup k m)
unfolding erase_all
lookup-erase_all k [] m = refl
lookup-erase_all k (n ∷ ns) m =
    ground (arith, lookup-erase_all k ns (erase n m), lookup-erase n k m)

-- The nodes that a call of InvalidateNodes means.
abbrev pub invalidated : ℕ → List ℕ → Bool
invalidated k [] = true
invalidated k (n ∷ ns) = listed k (n ∷ ns)

-- After InvalidateNodes the nodes that it lists, or all if it lists none, have the default role; every
-- other node keeps its role, and the permissions of the roles stay.
pub invalidate_nodes_lem :
    (ns : List ℕ) (k : ℕ) (c : Config)
    → let c' = invalidate_nodes ns c in
      (resolve_role k c' ≡ (if invalidated k ns then c.default_role else resolve_role k c))
      × (c'.role_perms ≡ c.role_perms)
      × (c'.default_perms ≡ c.default_perms)
unfolding invalidate_nodes resolve_role lookup
invalidate_nodes_lem [] k c = (ground arith, refl, refl)
invalidate_nodes_lem (n ∷ ns) k c =
    (ground (arith, lookup-erase_all k (n ∷ ns) c.node_roles), refl, refl)
