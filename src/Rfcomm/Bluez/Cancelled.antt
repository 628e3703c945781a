-- ===== src/Rfcomm/Bluez/Cancelled.antt =====
-- bluez_linux.go: a dial over BlueZ that ends while its connection arrives.
use myflowhub_core.Common.{
  ℕ, ◌<◌, ◌≡◌, inl, inr, refl, ap, [], ◌∷◌, none, some, Bool, true, Bool-cases, Text, err, length,
  ltb, arith,
}
use myflowhub_core.Rfcomm.Bluez.{
  Reason, context_done, DbusError, profile_closed, unexpected_adapter, no_file, accept_backlog_full,
  BluezProfile, offer, finish, wanted_adapter, refuse, accepted_or_full, new_connection,
  dial_cancelled, dial_select, context_cancelled,
}
use myflowhub_core.Rfcomm.Bluez.Descriptors.{count, queued, new_connection-settled}

finish-closed : (r : Reason) (p : BluezProfile) → p.closed ≡ true → finish r p ≡ p
unfolding finish
finish-closed r p c = simp (finish, c)

-- A connection that a single-shot profile takes closes the profile, and no descriptor.
taken-closed :
    (new_file : ℕ → Bool) (device : Text) (fd : ℕ) (p : BluezProfile)
    → p.single_shot ≡ true
    → (new_connection new_file device fd p).error ≡ none
    → ((new_connection new_file device fd p).profile.closed ≡ true)
      × ((new_connection new_file device fd p).closes ≡ [])
unfolding new_connection refuse offer accepted_or_full
taken-closed new_file device fd p once fine =
    let refused : (e : DbusError) → (new_connection new_file device fd p).error ≡ some e → ⊥ =
      λ e h. cc (h, fine) in
    elim (Bool-cases p.closed) [
      | inl c ↦ absurd (refused profile_closed (simp (new_connection, c)))
      | inr open' ↦ elim (Bool-cases (wanted_adapter device p)) [
        | inr other ↦ absurd (refused unexpected_adapter (simp (new_connection, open', other)))
        | inl same ↦ elim (Bool-cases (new_file fd)) [
          | inr none' ↦ absurd (refused no_file (simp (new_connection, open', same, none')))
          | inl file ↦ elim (Bool-cases (ltb (length p.accept_ch) 16)) [
            | inr full ↦
                absurd
                  (refused accept_backlog_full (simp (new_connection, open', same, file, full)))
            | inl room ↦ (
              simp (new_connection, open', same, file, room, once),
              simp (new_connection, open', same, file, room),
            )
          ]
        ]
      ]
    ]

-- A dial that is cancelled after NewConnection took a descriptor for it: `finish` finds the profile
-- closed and changes nothing, so the descriptor stays in the channel and is not closed.
pub cancelled_dial_keeps :
    (new_file : ℕ → Bool) (device : Text) (fd : ℕ) (p : BluezProfile)
    → p.single_shot ≡ true
    → (new_connection new_file device fd p).error ≡ none
    → let a = new_connection new_file device fd p in
      let d = dial_select context_cancelled a.profile in
      ((d.result ≡ err dial_cancelled)
        × (d.profile ≡ a.profile)
        × (a.closes ≡ [])
        × (0 < count fd (queued d.profile.accept_ch)))
unfolding dial_select count
cancelled_dial_keeps new_file device fd p once fine =
    let a = new_connection new_file device fd p in
    let (closed, nothing) = taken-closed new_file device fd p once fine in
    let same = finish-closed context_done a.profile closed in
    let one : count fd (fd ∷ []) ≡ 1 = ground arith in
    (
      refl,
      same,
      nothing,
      omega (
        arith,
        new_connection-settled new_file fd fd device p,
        one,
        ap (count fd) nothing,
        ap (λ q. count fd (queued q.accept_ch)) same,
      ),
    )
