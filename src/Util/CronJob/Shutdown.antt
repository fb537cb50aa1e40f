-- ===== src/Util/CronJob/Shutdown.antt =====
-- `CronJobShutdown` of util/cron_job.go: how long the polls are apart, and when the wait ends.
use landau.Common.{
  ℕ, zero, suc, ◌+◌, ◌*◌, ◌/◌, ◌≤◌, ◌<◌, ◌≡◌, refl, Bool, true, false, List, [], ◌∷◌, ◌++◌, Bytes,
  Option, none, some, if◌then◌else◌, ltb, leb, arith, Bool-cases, inl, inr,
}

abbrev pub millisecond : ℕ
millisecond = 1000000

abbrev pub shutdown_poll_interval_max : ℕ
shutdown_poll_interval_max = 500 * millisecond

-- `IsAnyJobRunningState`.
unfoldable pub is_any_job_running_state : List (Bytes × Bool) → Bool
is_any_job_running_state [] = false
is_any_job_running_state ((name, running) ∷ m) =
    if running then true else is_any_job_running_state m

-- `nextPollInterval`: the interval and the base that follows; `random n` stands for `rand.Intn(n)`.
unfoldable pub next_poll_interval : (ℕ → ℕ) → ℕ → ℕ × ℕ
next_poll_interval random base =
    let doubled : ℕ = base * 2 in
    (
      base + random (base / 10),
      if ltb shutdown_poll_interval_max doubled then shutdown_poll_interval_max else doubled,
    )

-- The base after `k` polls.
unfoldable pub base_after : (ℕ → ℕ) → ℕ → ℕ
base_after random zero = millisecond
base_after random (suc k) = (next_poll_interval random (base_after random k)).1

-- What the `for` loop meets each time round: the running states, and whether the context is done
-- before the timer.
pub record Round : Type 0 where
  pub running_states : List (Bytes × Bool)
  pub context_done : Bool

pub data Ending : Type 0 where
  complete : Ending
  context_error : Ending

-- The loop over the rounds that happen; `none` says that it is still waiting after them.
unfoldable pub wait_loop : List Round → Option Ending
wait_loop [] = none
wait_loop (r ∷ rounds) =
    if is_any_job_running_state r.running_states
    then (if r.context_done then some context_error else wait_loop rounds)
    else some complete

-- `CronJobShutdown`; the engine was never made if no job was scheduled.
unfoldable pub cron_job_shutdown : Bool → List Round → Option Ending
cron_job_shutdown created rounds = if created then wait_loop rounds else some complete

base_after_bounds :
    (random : ℕ → ℕ) (k : ℕ)
    → (millisecond ≤ base_after random k) × (base_after random k ≤ shutdown_poll_interval_max)
unfolding base_after next_poll_interval
base_after_bounds random zero = (omega arith, omega arith)
base_after_bounds random (suc k) =
    let (low, high) = base_after_bounds random k in
    elim (Bool-cases (ltb shutdown_poll_interval_max (base_after random k * 2))) [
      | inl e ↦ rw e (omega arith, omega arith)
      | inr e ↦ rw e (omega (arith, low), ground (arith, e))
    ]

-- Every wait between two polls is at least a millisecond and less than 550 milliseconds, and the
-- bound of the random number asked for is positive: for a `random n` that is below a positive `n`.
pub next_poll_interval_bounds :
    (random : ℕ → ℕ) (k : ℕ)
    → ((n : ℕ) → 0 < n → random n < n)
    → let base : ℕ = base_after random k in
      (0 < base / 10)
      × (millisecond ≤ (next_poll_interval random base).0)
      × ((next_poll_interval random base).0 < 550 * millisecond)
unfolding next_poll_interval
next_poll_interval_bounds random k below =
    let (low, high) = base_after_bounds random k in
    let some_room : 0 < base_after random k / 10 = omega (arith, low) in
    let small = below (base_after random k / 10) some_room in
    (some_room, omega (arith, low), omega (arith, high, small))

-- Rounds in each of which a job is running and the context is not done.
abbrev pub AllWaiting : List Round → Type 0
AllWaiting [] = Unit
AllWaiting (r ∷ rounds) =
    (is_any_job_running_state r.running_states ≡ true)
    × (r.context_done ≡ false)
    × AllWaiting rounds

-- Behind rounds in each of which a job is running and the context is not done, the wait completes if
-- the next round meets no running job, fails with the context's error if that is done, and else goes
-- on to the rounds that follow.
pub wait_loop_lem :
    (before : List Round) (r : Round) (later : List Round)
    → AllWaiting before
    → wait_loop (before ++ r ∷ later) ≡ (
        if is_any_job_running_state r.running_states
        then (if r.context_done then some context_error else wait_loop later)
        else some complete)
unfolding wait_loop
wait_loop_lem [] r later h = refl
wait_loop_lem (b ∷ before) r later (busy, going, h) =
    rw (busy, going) (wait_loop_lem before r later h)

-- The same loop by the clock: `running k` says whether a job runs at poll `k`, and the context is done
-- from the time `deadline` on, also where the timer fires just then. `none` is the end of the fuel.
module _ (random : ℕ → ℕ) (running : ℕ → Bool) (deadline : ℕ) where
  abbrev pub poll_interval : ℕ → ℕ
  poll_interval k = (next_poll_interval random (base_after random k)).0

  unfoldable pub timed_wait : ℕ → ℕ → ℕ → Option Ending
  unfolding next_poll_interval base_after
  timed_wait zero k now = none
  timed_wait (suc fuel) k now =
      let later : Option Ending = timed_wait fuel (suc k) (now + poll_interval k) in
      if running k
      then (if leb deadline (now + poll_interval k) then some context_error else later)
      else some complete

  poll_interval_least : (k : ℕ) → millisecond ≤ poll_interval k
  unfolding next_poll_interval
  poll_interval_least k = let (low, high) = base_after_bounds random k in omega (arith, low)

  timed_wait_from :
      (fuel k now : ℕ)
      → deadline < now + fuel * millisecond
      → 0 < fuel
      → (ending : Ending) × (timed_wait fuel k now ≡ some ending)
  unfolding timed_wait
  timed_wait_from zero k now h p = absurd (omega arith)
  timed_wait_from (suc fuel) k now h p = elim (Bool-cases (running k)) [
    | inr quiet ↦ (complete, rw quiet refl)
    | inl busy ↦ elim (Bool-cases (leb deadline (now + poll_interval k))) [
      | inl over ↦ (context_error, rw (busy, over) refl)
      | inr early ↦
          let slow : millisecond ≤ poll_interval k = poll_interval_least k in
          let ahead : now + poll_interval k < deadline = ground (arith, early) in
          let (ending, e) =
            timed_wait_from fuel (suc k) (now + poll_interval k) (omega (arith, h, slow))
              (omega (arith, h, slow, ahead)) in
          (ending, rw (busy, early) e)
    ]
  ]

  -- The wait of `CronJobShutdown` ends within any number of polls whose milliseconds are more than the
  -- time at which the context is done, whatever jobs run and whatever random numbers come.
  pub timed_wait_ends :
      (fuel : ℕ)
      → deadline < fuel * millisecond
      → (ending : Ending) × (timed_wait fuel 0 0 ≡ some ending)
  timed_wait_ends fuel h = timed_wait_from fuel 0 0 (omega (arith, h)) (omega (arith, h))
