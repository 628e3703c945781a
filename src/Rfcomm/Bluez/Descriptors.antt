-- ===== src/Rfcomm/Bluez/Descriptors.antt =====
-- bluez_linux.go: what becomes of the descriptors that BlueZ hands to NewConnection.
use myflowhub_core.Common.{
  ℕ, ◌+◌, ◌≡◌, inl, inr, List-cases, refl, ap, ◌∙◌, List, [], ◌∷◌, ◌++◌, Option, none, some, Bool,
  Bool-cases, Text, length, ◌==◌, ltb, if◌then◌else◌, arith,
}
use myflowhub_core.Rfcomm.Bluez.{
  Reason, Accept, connected, ended, DbusError, BluezProfile, new_bluez_profile, offer, offered_or,
  finish, wanted_adapter, Answer, refuse, accepted_or_full, new_connection, receive,
}

-- The calls that reach a profile: those of BlueZ, `finish`, and a receive from its channel.
pub data Event : Type 0 where
  connection : Text → ℕ → Event
  finishes : Reason → Event
  take_one : Event

-- The profile, the descriptors closed so far and those handed to the caller of Accept or Dial.
pub record World : Type 0 where
  pub profile : BluezProfile
  pub closed_fds : List ℕ
  pub handed : List ℕ

unfoldable pub fds_of : Accept → List ℕ
fds_of (connected fd local remote) = fd ∷ []
fds_of (ended reason) = []

unfoldable pub queued : List Accept → List ℕ
queued [] = []
queued (a ∷ more) = fds_of a ++ queued more

unfoldable pub given : List Event → List ℕ
given [] = []
given (connection device fd ∷ events) = fd ∷ given events
given (finishes reason ∷ events) = given events
given (take_one ∷ events) = given events

unfoldable pub count : ℕ → List ℕ → ℕ
count n [] = 0
count n (x ∷ xs) = (if n == x then 1 else 0) + count n xs

unfoldable pub taken_from : World → Option (Accept × BluezProfile) → World
taken_from w none = w
taken_from w (some (a, p)) = record w { profile = p; handed = fds_of a ++ w.handed }

unfoldable pub step : (ℕ → Bool) → Event → World → World
step new_file (connection device fd) w =
    let a = new_connection new_file device fd w.profile in
    record w { profile = a.profile; closed_fds = a.closes ++ w.closed_fds }
step new_file (finishes reason) w = record w { profile = finish reason w.profile }
step new_file take_one w = taken_from w (receive w.profile)

unfoldable pub run : (ℕ → Bool) → List Event → World → World
run new_file [] w = w
run new_file (e ∷ events) w = run new_file events (step new_file e w)

count-append : (n : ℕ) (xs ys : List ℕ) → count n (xs ++ ys) ≡ count n xs + count n ys
unfolding count
count-append n [] ys = omega arith
count-append n (x ∷ xs) ys = omega (arith, count-append n xs ys)

queued-append : (xs ys : List Accept) → queued (xs ++ ys) ≡ queued xs ++ queued ys
unfolding queued fds_of
queued-append [] ys = refl
queued-append (connected fd l r ∷ xs) ys = ap (◌∷◌ fd) (queued-append xs ys)
queued-append (ended reason ∷ xs) ys = queued-append xs ys

-- Every descriptor of the profile's channel.
abbrev waiting : ℕ → BluezProfile → ℕ
waiting n p = count n (queued p.accept_ch)

count-queued :
    (n : ℕ) (xs : List Accept) (a : Accept)
    → count n (queued (xs ++ (a ∷ []))) ≡ count n (queued xs) + count n (fds_of a)
unfolding queued count
count-queued n xs a =
    ap (count n) (queued-append xs (a ∷ []))
    ∙ count-append n (queued xs) (fds_of a ++ [])
    ∙ omega (arith, count-append n (fds_of a) [])

queue-settled :
    (n fd : ℕ) (xs : List Accept) (a : Accept)
    → fds_of a ≡ fd ∷ []
    → count n (queued (xs ++ (a ∷ []))) + 0 ≡ count n (queued xs) + count n (fd ∷ [])
queue-settled n fd xs a e = omega (arith, count-queued n xs a, ap (count n) e)

finish-waiting : (n : ℕ) (r : Reason) (p : BluezProfile) → waiting n (finish r p) ≡ waiting n p
unfolding finish offer offered_or fds_of count
finish-waiting n r p = elim (Bool-cases p.closed) [
  | inl c ↦ simp (finish, c)
  | inr open' ↦ elim (Bool-cases (ltb (length p.accept_ch) 16)) [
    | inl room ↦ simp (finish, open', room) (count-queued n p.accept_ch (ended r) ∙ omega arith)
    | inr full ↦ simp (finish, open', full)
  ]
]

abbrev settled : ℕ → Answer → ℕ
settled n a = waiting n a.profile + count n a.closes

refuse-settled :
    (n fd : ℕ) (e : DbusError) (p : BluezProfile)
    → settled n (refuse e fd p) ≡ waiting n p + count n (fd ∷ [])
unfolding refuse
refuse-settled n fd e p = refl

pub new_connection-settled :
    (new_file : ℕ → Bool) (n fd : ℕ) (device : Text) (p : BluezProfile)
    → settled n (new_connection new_file device fd p) ≡ waiting n p + count n (fd ∷ [])
unfolding new_connection refuse offer accepted_or_full fds_of count
new_connection-settled new_file n fd device p = elim (Bool-cases p.closed) [
  | inl c ↦ simp (new_connection, c)
  | inr open' ↦ elim (Bool-cases (wanted_adapter device p)) [
    | inr other ↦ simp (new_connection, open', other)
    | inl same ↦ elim (Bool-cases (new_file fd)) [
      | inr none' ↦ simp (new_connection, open', same, none')
      | inl file ↦ elim (Bool-cases (ltb (length p.accept_ch) 16)) [
        | inr full ↦ simp (new_connection, open', same, file, full)
        | inl room ↦ elim (Bool-cases p.single_shot) [
          | inl once ↦
              simp (new_connection, open', same, file, room, once)
                (queue-settled n fd p.accept_ch _ refl)
          | inr more ↦
              simp (new_connection, open', same, file, room, more)
                (queue-settled n fd p.accept_ch _ refl)
        ]
      ]
    ]
  ]
]

receive-settled :
    (n : ℕ) (w : World)
    → waiting n (taken_from w (receive w.profile)).profile
        + count n (taken_from w (receive w.profile)).handed
      ≡ waiting n w.profile + count n w.handed
unfolding receive taken_from count queued
receive-settled n w = elim (List-cases w.profile.accept_ch) [
  | inl empty ↦ simp (receive, empty)
  | inr (a, more, e) ↦
      simp (receive, e)
        (omega (arith, count-append n (fds_of a) w.handed, count-append n (fds_of a) (queued more)))
]

abbrev accounted : ℕ → World → ℕ
accounted n w = count n w.closed_fds + (waiting n w.profile + count n w.handed)

step-accounted :
    (new_file : ℕ → Bool) (n : ℕ) (e : Event) (w : World)
    → accounted n (step new_file e w) ≡ accounted n w + count n (given (e ∷ []))
unfolding step given count taken_from
step-accounted new_file n (connection device fd) w =
    let a = new_connection new_file device fd w.profile in
    omega (
      arith,
      new_connection-settled new_file n fd device w.profile,
      count-append n a.closes w.closed_fds,
    )
step-accounted new_file n (finishes reason) w = omega (arith, finish-waiting n reason w.profile)
step-accounted new_file n take_one w = omega (arith, receive-settled n w, kept (receive w.profile))
  where
    kept :
        (r : Option (Accept × BluezProfile))
        → count n (taken_from w r).closed_fds ≡ count n w.closed_fds
    kept none = refl
    kept (some (a, p)) = refl

run-accounted :
    (new_file : ℕ → Bool) (events : List Event) (w : World) (n : ℕ)
    → accounted n (run new_file events w) ≡ accounted n w + count n (given events)
unfolding run given count
run-accounted new_file [] w n = omega arith
run-accounted new_file (e ∷ events) w n =
    let rest = run-accounted new_file events (step new_file e w) n in
    let one = step-accounted new_file n e w in omega (arith, rest, one, count_given e)
  where
    count_given :
        (e : Event)
        → count n (given (e ∷ events)) ≡ count n (given (e ∷ [])) + count n (given events)
    count_given (connection device fd) = omega arith
    count_given (finishes reason) = omega arith
    count_given take_one = omega arith

-- A new profile, with nothing given yet.
abbrev pub fresh : BluezProfile → World
fresh p = record { profile = p; closed_fds = []; handed = [] }

-- Over every run of calls on a new profile, each descriptor that BlueZ handed to NewConnection was
-- closed by it, waits in the channel, or was handed to the caller of Accept or of the dial, just as
-- often as it was given.
pub descriptors_accounted :
    (new_file : ℕ → Bool) (uuid adapter role : Text) (single_shot : Bool) (events : List Event)
    (n : ℕ)
    → let w = run new_file events (fresh (new_bluez_profile uuid adapter role single_shot)) in
      (count n w.closed_fds + (count n (queued w.profile.accept_ch) + count n w.handed)
        ≡ count n (given events))
unfolding new_bluez_profile queued count
descriptors_accounted new_file uuid adapter role single_shot events n = omega (
  arith,
  run-accounted new_file events (fresh (new_bluez_profile uuid adapter role single_shot)) n,
)
