-- ===== src/Register/Outcomes.antt =====
-- When a registration succeeds.
use myflowhub_core.Common.{
  ℕ, ◌≡◌, ◌≢◌, ◌⊎◌, ◌↔◌, inl, inr, refl, sym, ap, ◌∙◌, subst, some, true, false, Text, codes,
  text_eq, text_eq_iff, is_empty, Result, ok, err, ◌>>=◌, Option-cases, Bool-cases, arith,
}
use myflowhub_core.Conn.{ℤ, pos, negsuc}
use myflowhub_core.Strings.{trim_space, to_lower}
use myflowhub_core.Register.{
  Response, is_one, judge, judge_login, SelfRegisterOptions, Peer, register_header, login_header,
  exchange, permit, parse_register_resp, assert_login_ok, login, register, self_register,
}

is_one_iff : (c : ℤ) → (is_one c ≡ true) ↔ (c ≡ pos 1)
is_one_iff (pos n) = (λ e. ground arith, λ e. ground arith)
is_one_iff (negsuc n) = (λ e. ground arith, λ e. ground arith)

-- A response with the code 1, the ID, which is not 0, and a status that is neither "pending" nor
-- "rejected" when its outer spaces and capitals are not looked at.
abbrev pub Approves : Response → ℕ → Type 0
Approves r n =
    (r.code ≡ pos 1)
    × (r.node_id ≢ 0)
    × (n ≡ r.node_id)
    × (to_lower (trim_space r.status) ≢ codes "pending")
    × (to_lower (trim_space r.status) ≢ codes "rejected")

-- A response grants a node ID exactly if its code is 1, the ID is not 0, and its status, without
-- outer spaces and capitals, is neither "pending" nor "rejected"; any other status is accepted.
pub judge_iff :
    (r : Response) (n : ℕ)
    → (judge r ≡ ok n) ↔ (
        (r.code ≡ pos 1)
        × (r.node_id ≢ 0)
        × (n ≡ r.node_id)
        × (to_lower (trim_space r.status) ≢ codes "pending")
        × (to_lower (trim_space r.status) ≢ codes "rejected"))
unfolding judge
judge_iff r n =
    let status = to_lower (trim_space r.status) in
    let one = is_one_iff r.code in
    elim (Bool-cases (text_eq status (codes "approved"))) [
      | inl a ↦
          let approved : status ≡ codes "approved" = (text_eq_iff status (codes "approved")).0 a in
          (λ e. ground (arith, one.0), λ e. ground (arith, one.1))
      | inr a ↦ elim (Bool-cases (text_eq status (codes "pending"))) [
        | inl p ↦
            let pending : status ≡ codes "pending" = (text_eq_iff status (codes "pending")).0 p in
            (λ e. ground arith, λ e. ground arith)
        | inr p ↦
            let open_ : status ≢ codes "pending" =
              λ e. ground (arith, (text_eq_iff status (codes "pending")).1 e) in
            elim (Bool-cases (text_eq status (codes "rejected"))) [
              | inl q ↦
                  let rejected : status ≡ codes "rejected" =
                    (text_eq_iff status (codes "rejected")).0 q in
                  (λ e. ground arith, λ e. ground arith)
              | inr q ↦
                  let kept : status ≢ codes "rejected" =
                    λ e. ground (arith, (text_eq_iff status (codes "rejected")).1 e) in
                  (λ e. ground (arith, one.0), λ e. ground (arith, one.1))
            ]
      ]
    ]

bind_ok :
    {A B E : Type 0} (x : Result E A) (f : A → Result E B) (b : B)
    → (x >>= f) ≡ ok b
    → (a : A) × (x ≡ ok a) × (f a ≡ ok b)
bind_ok (ok a) f b e = (a, refl, e)
bind_ok (err x) f b e = cc

module _ (p : Peer) where
  -- The parent has answered a login with code 1.
  abbrev pub LoggedIn : Text → ℕ → Type 0
  LoggedIn self_id n =
      (answer : Text) × (msg : Text) × (exchange p (login_header n) (p.login_body self_id)
        ≡ ok answer)
      × (p.decode_login answer ≡ some (pos 1, msg))

  -- The parent has granted the ID in its answer to the register request.
  abbrev pub Granted : SelfRegisterOptions → ℕ → Type 0
  Granted o n =
      (answer : Text) × (r : Response) × (exchange p register_header
          (p.request_body o.self_id (permit p o.join_permit))
        ≡ ok answer)
      × (p.decode_response answer ≡ some r)
      × Approves r n

  parse_ok :
      (body : Text) (n : ℕ)
      → parse_register_resp p body ≡ ok n
      → (r : Response) × (p.decode_response body ≡ some r) × (judge r ≡ ok n)
  unfolding parse_register_resp
  parse_ok body n e = elim (Option-cases (p.decode_response body)) [
    | inl q ↦ absurd (ground arith)
    | inr (r, q) ↦ (r, q, ground arith)
  ]

  login_judged : (code : ℤ) (msg : Text) (k : ℕ) → judge_login code msg ≡ ok k → code ≡ pos 1
  unfolding judge_login
  login_judged code msg k e = ground (arith, (is_one_iff code).0)

  assert_ok :
      (body : Text) (k : ℕ)
      → assert_login_ok p body ≡ ok k
      → (msg : Text) × (p.decode_login body ≡ some (pos 1, msg))
  unfolding assert_login_ok
  assert_ok body k e = elim (Option-cases (p.decode_login body)) [
    | inl q ↦ absurd (ground arith)
    | inr ((code, msg), q) ↦
        let one : code ≡ pos 1 = login_judged code msg k (ground arith) in
        (msg, q ∙ ap (λ c. some (c, msg)) one)
  ]

  login_ok : (self_id : Text) (n k : ℕ) → login p self_id n ≡ ok k → (k ≡ n) × LoggedIn self_id n
  unfolding login
  login_ok self_id n k e =
      let (answer, sent, e1) = bind_ok _ _ k e in
      let (done, good, e2) = bind_ok _ _ k e1 in
      let (msg, one) = assert_ok answer done good in (cc e2, (answer, msg, sent, one))

  register_ok :
      (o : SelfRegisterOptions) (n : ℕ)
      → register p o ≡ ok n
      → Granted o n × (o.do_login ≡ true → LoggedIn o.self_id n)
  unfolding register
  register_ok o n e =
      let (answer, sent, e1) = bind_ok _ _ n e in
      let (id, parsed, e2) = bind_ok _ _ n e1 in
      let (r, decoded, judged) = parse_ok answer id parsed in
      elim (Bool-cases o.do_login) [
        | inl wants ↦
            let (same, logged) = login_ok o.self_id id n (ground arith) in
            (
              subst (Granted o) (sym same) (answer, r, sent, decoded, (judge_iff r id).0 judged),
              λ x. subst (LoggedIn o.self_id) (sym same) logged,
            )
        | inr never ↦
            let same : id ≡ n = ground arith in
            (
              subst (Granted o) same (answer, r, sent, decoded, (judge_iff r id).0 judged),
              λ x. absurd (ground arith),
            )
      ]

  checked :
      (o : SelfRegisterOptions) (n : ℕ)
      → self_register p o ≡ ok n
      → ((o.has_dial ≡ true) ⊎ (is_empty o.parent_addr ≡ false))
        × (is_empty o.self_id ≡ false)
        × (p.dial ≡ some true)
        × (register p o ≡ ok n)
  unfolding self_register
  checked o n e = elim (Option-cases p.dial) [
    | inl q ↦ absurd (ground arith)
    | inr (b, q) ↦ elim (Bool-cases b) [
      | inl y ↦ (ground arith, ground arith, q ∙ ap (λ x. some x) y, ground arith)
      | inr z ↦ absurd (ground arith)
    ]
  ]

  login_accepted : (self_id : Text) (n : ℕ) → LoggedIn self_id n → login p self_id n ≡ ok n
  unfolding login assert_login_ok judge_login
  login_accepted self_id n (answer, msg, sent, one) = rw (login, sent, assert_login_ok, one) refl

  register_accepted :
      (o : SelfRegisterOptions) (n : ℕ)
      → Granted o n
      → (o.do_login ≡ true → LoggedIn o.self_id n)
      → register p o ≡ ok n
  unfolding register parse_register_resp
  register_accepted o n (answer, r, sent, decoded, fine) logged =
      let judged : judge r ≡ ok n = (judge_iff r n).1 fine in
      elim (Bool-cases o.do_login) [
        | inl wants ↦
            rw (register, sent, parse_register_resp, decoded, judged, wants)
              (login_accepted o.self_id n (logged wants))
        | inr never ↦ rw (register, sent, parse_register_resp, decoded, judged, never) refl
      ]

  -- SelfRegister returns a node ID without an error exactly if it has an address or a dialer, and a
  -- name of its own, the dial gives a connection, the parent answers the register request with the
  -- code 1, that ID, which is not 0, and a status that is neither "pending" nor "rejected", up to
  -- outer spaces and capitals, and, where a login is asked for, answers that with code 1.
  pub self_register_ok :
      (o : SelfRegisterOptions) (n : ℕ)
      → (self_register p o ≡ ok n) ↔ (
          ((o.has_dial ≡ true) ⊎ (is_empty o.parent_addr ≡ false))
          × (is_empty o.self_id ≡ false)
          × (p.dial ≡ some true)
          × Granted o n
          × (o.do_login ≡ true → LoggedIn o.self_id n))
  unfolding self_register
  self_register_ok o n = (
    λ e.
        let (target, named, dialled, registered) = checked o n e in
        let (granted, logged) = register_ok o n registered in
        (target, named, dialled, granted, logged),
    λ (target, named, dialled, granted, logged).
        let done = register_accepted o n granted logged in ground (arith, done),
  )
