-- ===== src/Database/Pool/Waiting.antt =====
-- internal/database/pool.go: how long the second phase of UpdateConfig waits. Instants are counted in
-- nanoseconds, and the reference counts are a function of the instant at which they are read.
use safe_my_sqlmcp_server.Base.{
  ℕ, zero, suc, ◌+◌, ◌*◌, ◌-◌, ◌≤◌, ◌<◌, ltb, leb, ◌==◌, Text, Map, Bool, true, false, ◌&&◌, ◌||◌,
  List, [], ◌∷◌, Option, none, some, ◌≡◌, ◌≢◌, ◌⊎◌, inl, inr, refl, arith, if◌then◌else◌,
  Bool-cases,
}
use safe_my_sqlmcp_server.Config.{second}
use safe_my_sqlmcp_server.Database.Pool.{ManagedDb}

-- `50 * time.Millisecond`, and the `10*time.Second` of the context
abbrev pub poll_interval : ℕ
poll_interval = 50_000_000

abbrev pub release_timeout : ℕ
release_timeout = 10 * second

-- (*Pool).waitForRelease, from an instant on: whether the count was zero in time, and the instant of
-- the answer. Where the timer and the deadline fall together, `select` takes either case.
unfoldable pub wait_for_release :
    ℕ → (done_first : Bool) → (ℕ → ℕ) → (deadline now : ℕ) → Option (Bool × ℕ)
wait_for_release zero done_first count deadline now = none
wait_for_release (suc fuel) done_first count deadline now =
    let later = wait_for_release fuel done_first count deadline (now + poll_interval) in
    if count now == 0
    then some (true, now)
    else if leb deadline now
    then some (false, now)
    else if ltb deadline (now + poll_interval) || ((now + poll_interval == deadline) && done_first)
    then some (false, deadline)
    else later

-- The last loop of UpdateConfig: which handles were let go of in time, the others being closed by
-- force, and the instant at which it ends. `closing` is how long `db.Close` and the lock around
-- `delete` take for a handle: the library's Close waits for queries that have started on the server.
unfoldable pub drain :
    ℕ
    → (done_first : Bool) → (Text → ℕ → ℕ)
    → (closing : Text → ℕ) → (deadline now : ℕ) → Map ManagedDb
    → Option (List (Text × Bool) × ℕ)
drain fuel done_first counts closing deadline now [] = some ([], now)
drain fuel done_first counts closing deadline now ((name, m) ∷ rest) =
    elim (wait_for_release fuel done_first (counts name) deadline now) [
      | none ↦ none
      | some (released, at) ↦
          elim (drain fuel done_first counts closing deadline (at + closing name) rest) [
            | none ↦ none
            | some (outs, end) ↦ some ((name, released) ∷ outs, end)
          ]
    ]

-- An answer: released at an instant when the count is zero, or not released, at the deadline or at
-- once when that is over.
abbrev pub IsAnswer : (ℕ → ℕ) → (deadline now : ℕ) → Bool → ℕ → Type 0
IsAnswer count deadline now released at =
    (now ≤ at)
    × ((at ≤ deadline) ⊎ (at ≡ now))
    × (released ≡ true → count at ≡ 0)
    × (released ≡ false → (deadline ≤ at) × (count now ≢ 0))

wait_for_release-IsAnswer :
    (fuel : ℕ) (done_first : Bool) (count : ℕ → ℕ) (deadline now : ℕ)
    → deadline - now < fuel * poll_interval
    → (released : Bool) × (at : ℕ) × (wait_for_release fuel done_first count deadline now
        ≡ some (released, at))
      × IsAnswer count deadline now released at
unfolding wait_for_release
wait_for_release-IsAnswer zero done_first count deadline now enough = absurd (omega arith)
wait_for_release-IsAnswer (suc fuel) done_first count deadline now enough =
    elim (Bool-cases (count now == 0)) [
      | inl free ↦ (true, now, rw (wait_for_release, free), ground arith)
      | inr busy ↦ elim (Bool-cases (leb deadline now)) [
        | inl over ↦ (false, now, rw (wait_for_release, busy, over), ground arith)
        | inr before ↦
            let last =
              ltb deadline (now + poll_interval)
              || ((now + poll_interval == deadline) && done_first) in
            elim (Bool-cases last) [
              | inl done ↦
                  (false, deadline, rw (wait_for_release, busy, before, done), ground arith)
              | inr again ↦
                  let (released, at, same, next) =
                    wait_for_release-IsAnswer fuel done_first count deadline (now + poll_interval)
                      (ground arith) in
                  (released, at, rw (wait_for_release, busy, before, again) same, ground arith)
            ]
      ]
    ]

-- Each handle of a list was answered for, one after the other, and then closed.
abbrev pub AreAnswers :
    (Text → ℕ → ℕ)
    → (Text → ℕ)
    → (deadline now : ℕ) → Map ManagedDb
    → List (Text × Bool)
    → (end : ℕ) → Type 0
AreAnswers counts closing deadline now [] [] end = end ≡ now
AreAnswers counts closing deadline now [] (x ∷ outs) end = ⊥
AreAnswers counts closing deadline now (x ∷ stale) [] end = ⊥
AreAnswers counts closing deadline now ((name, m) ∷ stale) ((label, released) ∷ outs) end =
    (label ≡ name)
    × ((at : ℕ) × IsAnswer (counts name) deadline now released at
        × AreAnswers counts closing deadline (at + closing name) stale outs end)

-- How long it takes to close some handles.
abbrev pub closing_time : (Text → ℕ) → Map ManagedDb → ℕ
closing_time closing [] = 0
closing_time closing ((name, m) ∷ stale) = closing name + closing_time closing stale

drain-AreAnswers :
    (fuel : ℕ) (done_first : Bool) (counts : Text → ℕ → ℕ) (closing : Text → ℕ)
    (deadline now late : ℕ) (stale : Map ManagedDb)
    → now ≤ deadline + late
    → 0 < fuel
    → deadline < now + fuel * poll_interval
    → (outs : List (Text × Bool)) × (end : ℕ) × (drain fuel done_first counts closing deadline now
          stale
        ≡ some (outs, end))
      × (now ≤ end)
      × (end ≤ deadline + late + closing_time closing stale)
      × AreAnswers counts closing deadline now stale outs end
unfolding drain
drain-AreAnswers fuel done_first counts closing deadline now late [] early fueled enough =
    ([], now, refl, omega arith, omega arith, refl)
drain-AreAnswers fuel done_first counts closing deadline now late ((name, m) ∷ stale) early fueled
      enough =
    let (released, at, same, answer) =
      wait_for_release-IsAnswer fuel done_first (counts name) deadline now (omega arith) in
    let (after, in_time, _, _) = answer in
    let by : at ≤ deadline + late = elim in_time [
      | inl before ↦ omega arith
      | inr same ↦ omega arith
    ] in
    let (outs, end, rest, later, ends, answers) =
      drain-AreAnswers fuel done_first counts closing deadline (at + closing name)
        (late + closing name) stale (omega arith) fueled (omega arith) in
    (
      (name, released) ∷ outs,
      end,
      rw (drain, same, rest),
      omega arith,
      omega arith,
      (refl, (at, answer, answers)),
    )

-- The second phase of UpdateConfig waits ten seconds at most, however many handles it has to close
-- and whatever their counts do: it ends by then and the time that closing the handles takes. Each is
-- waited for in turn, and is closed after its count was read as zero, or, if it was not, at the
-- deadline that they share or at once when that is over.
pub drain_ends :
    (done_first : Bool) (counts : Text → ℕ → ℕ) (closing : Text → ℕ) (now : ℕ)
    (stale : Map ManagedDb)
    → (outs : List (Text × Bool)) × (end : ℕ) × (drain 201 done_first counts closing
          (now + release_timeout)
          now
          stale
        ≡ some (outs, end))
      × (now ≤ end)
      × (end ≤ now + release_timeout + closing_time closing stale)
      × AreAnswers counts closing (now + release_timeout) now stale outs end
drain_ends done_first counts closing now stale =
    let (outs, end, same, later, by, answers) =
      drain-AreAnswers 201 done_first counts closing (now + release_timeout) now 0 stale
        (omega arith) (omega arith) (omega arith) in
    (outs, end, same, later, omega arith, answers)
