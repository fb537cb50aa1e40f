-- ===== src/Util/CronJob/Proxy.antt =====
-- `jobFuncProxy` of util/cron_job.go: what the running states know of the runs.
-- A run looks at the running state under one lock and writes it under another, so that other runs
-- may come between. A sequence of events stands for an interleaving.
use landau.Common.{
  ℕ, ◌+◌, ◌≤◌, ◌≡◌, refl, Bool, true, false, List, [], ◌∷◌, ◌==◌, bytes_eq, nat_eq, Bytes,
  if◌then◌else◌, insert, lookup_or, arith, Bool-cases, inl, inr, bytes_beq_iff, beq_self,
}
use landau.Util.CronJob.Shutdown.{is_any_job_running_state}

-- How often a list of runs has one of the job.
abbrev pub count_runs : Bytes → List Bytes → ℕ
count_runs n [] = 0
count_runs n (m ∷ l) = if m == n then count_runs n l + 1 else count_runs n l

abbrev pub end_run : Bytes → List Bytes → List Bytes
end_run n [] = []
end_run n (m ∷ l) = if m == n then l else m ∷ end_run n l

-- `CronJobManager`, and the runs: those behind the look at the state, and those in the job.
pub record Runs : Type 0 where
  pub job_running_state : List (Bytes × Bool)
  pub checked : List Bytes
  pub working : List Bytes

abbrev pub get_job_running_state : Bytes → Runs → Bool
get_job_running_state n s = lookup_or n false s.job_running_state

abbrev pub set_job_running_state : Bytes → Bool → Runs → Runs
set_job_running_state n running s = record s {
  job_running_state = insert n running s.job_running_state;
}

-- The engine calls the proxy, which skips the run if one is under way.
unfoldable pub fire : Bytes → Runs → Runs
fire n s = if get_job_running_state n s then s else record s { checked = n ∷ s.checked }

-- A run behind the look notes itself and calls the job.
unfoldable pub begin_job : Bytes → Runs → Runs
begin_job n s = if count_runs n s.checked == 0 then s else record (set_job_running_state n true s) {
  checked = end_run n s.checked;
  working = n ∷ s.working;
}

-- The job ends, in whatever way, and the deferred function runs.
unfoldable pub end_job : Bytes → Runs → Runs
end_job n s =
    if count_runs n s.working == 0
    then s
    else record (set_job_running_state n false s) { working = end_run n s.working }

pub data Event : Type 0 where
  fired : Bytes → Event
  began : Bytes → Event
  ended : Bytes → Event

unfoldable pub proxy_step : Event → Runs → Runs
unfolding fire begin_job end_job
proxy_step (fired n) s = fire n s
proxy_step (began n) s = begin_job n s
proxy_step (ended n) s = end_job n s

unfoldable pub proxy_run : List Event → Runs → Runs
unfolding proxy_step
proxy_run [] s = s
proxy_run (e ∷ events) s = proxy_run events (proxy_step e s)

-- Two runs of a job that is not marked as running, the second of which looks before the first notes
-- itself, come both into the job.
pub proxy_run_overlap :
    (n : Bytes) (s : Runs)
    → get_job_running_state n s ≡ false
    → count_runs n (proxy_run (fired n ∷ fired n ∷ began n ∷ began n ∷ []) s).working
      ≡ count_runs n s.working + 2
unfolding proxy_run proxy_step fire begin_job end_job
proxy_run_overlap n s h = ground (arith, h, beq_self n)

-- The states in which every run that looked has noted itself, and a job is marked as running exactly
-- while one run of it is in the job.
abbrev pub IsConsistent : Runs → Type 0
IsConsistent s =
    (s.checked ≡ [])
    × ((n : Bytes) → count_runs n s.working ≡ (if get_job_running_state n s then 1 else 0))

-- A run that looks and notes itself with no other run between.
unfoldable pub fire_at_once : Bytes → Runs → Runs
fire_at_once n s = proxy_run (fired n ∷ began n ∷ []) s

count_runs-end_run :
    (j n : Bytes) (l : List Bytes)
    → count_runs n l ≡ 1
    → count_runs j (end_run n l) ≡ (if n == j then 0 else count_runs j l)
count_runs-end_run j n [] h = absurd (ground (arith, h))
count_runs-end_run j n (m ∷ l) h =
    ground
      (arith, h, count_runs-end_run j n l, bytes_beq_iff m n, bytes_beq_iff n j, bytes_beq_iff m j)

state-insert :
    (j n : Bytes) (b : Bool) (m : List (Bytes × Bool))
    → lookup_or j false (insert n b m) ≡ (if n == j then b else lookup_or j false m)
state-insert j n b [] = ground arith
state-insert j n b ((k, v) ∷ m) =
    ground (arith, state-insert j n b m, bytes_beq_iff k n, bytes_beq_iff n j, bytes_beq_iff k j)

-- When one of two such runs ends, the job is marked as not running while the other is in it.
pub end_job-overlap :
    (n : Bytes) (s : Runs)
    → get_job_running_state n s ≡ false
    → let s' = proxy_run (fired n ∷ fired n ∷ began n ∷ began n ∷ ended n ∷ []) s in
      (get_job_running_state n s' ≡ false) × (count_runs n s'.working ≡ count_runs n s.working + 1)
unfolding proxy_run proxy_step fire begin_job end_job
end_job-overlap n s h = (
  ground (
    arith,
    h,
    beq_self n,
    state-insert n n false (insert n true (insert n true s.job_running_state)),
  ),
  ground (arith, h, beq_self n),
)

-- The look and the note at once keep the state right: the run is skipped if the job is running.
pub fire_at_once-IsConsistent :
    (n : Bytes) (s : Runs) → IsConsistent s → IsConsistent (fire_at_once n s)
unfolding fire_at_once proxy_run proxy_step fire begin_job
fire_at_once-IsConsistent n s (empty, right) = elim (Bool-cases (get_job_running_state n s)) [
  | inl e ↦ rw (e, empty) (refl, right)
  | inr e ↦
      rw (e, empty, beq_self n)
        (
          ground (arith, beq_self n),
          λ j.
              ground
                (arith, right j, e, state-insert j n true s.job_running_state, bytes_beq_iff n j),
        )
]

ended_right :
    (same running : Bool) (runs : ℕ)
    → runs ≡ (if running then 1 else 0)
    → (if same then 0 else runs) ≡ (if (if same then false else running) then 1 else 0)
ended_right true running runs h = refl
ended_right false running runs h = h

-- A run that ends leaves its job marked as not running, and no other job changed.
pub end_job-IsConsistent : (n : Bytes) (s : Runs) → IsConsistent s → IsConsistent (end_job n s)
unfolding end_job
end_job-IsConsistent n s (empty, right) = elim (Bool-cases (get_job_running_state n s)) [
  | inl e ↦
      let one : count_runs n s.working ≡ 1 = ground (arith, right n, e) in
      rw one (
        empty,
        λ j.
            rw (state-insert j n false s.job_running_state, count_runs-end_run j n s.working one)
              (ended_right (n == j) (get_job_running_state j s) (count_runs j s.working) (right j)),
      )
  | inr e ↦
      let idle : count_runs n s.working ≡ 0 = ground (arith, right n, e) in rw idle (empty, right)
]

-- What can happen to the jobs if no run looks between another's look and note.
pub data Turn : Type 0 where
  started : Bytes → Turn
  over : Bytes → Turn

unfoldable pub take_turns : List Turn → Runs → Runs
take_turns [] s = s
take_turns (started n ∷ turns) s = take_turns turns (fire_at_once n s)
take_turns (over n ∷ turns) s = take_turns turns (end_job n s)

take_turns-IsConsistent :
    (turns : List Turn) (s : Runs) → IsConsistent s → IsConsistent (take_turns turns s)
unfolding take_turns
take_turns-IsConsistent [] s h = h
take_turns-IsConsistent (started n ∷ turns) s h =
    take_turns-IsConsistent turns (fire_at_once n s) (fire_at_once-IsConsistent n s h)
take_turns-IsConsistent (over n ∷ turns) s h =
    take_turns-IsConsistent turns (end_job n s) (end_job-IsConsistent n s h)

any_running_lem :
    (n : Bytes) (m : List (Bytes × Bool))
    → is_any_job_running_state m ≡ false
    → lookup_or n false m ≡ false
unfolding is_any_job_running_state
any_running_lem n [] h = refl
any_running_lem n ((k, b) ∷ m) h = ground (arith, h, any_running_lem n m)

abbrev pub no_runs : Runs
no_runs = record { job_running_state = []; checked = []; working = [] }

-- If no run looks between another's look and note, then, whatever jobs start and end, a job never has
-- two runs at a time.
pub take_turns_single :
    (turns : List Turn) (n : Bytes) → count_runs n (take_turns turns no_runs).working ≤ 1
take_turns_single turns n =
    let (empty, right) = take_turns-IsConsistent turns no_runs (refl, λ n. refl) in
    ground (arith, right n)

-- If no run looks between another's look and note, then, whatever jobs start and end,
-- `IsAnyJobRunningState` answers no only when no job has a run.
pub is_any_job_running_state-take_turns :
    (turns : List Turn) (n : Bytes)
    → is_any_job_running_state (take_turns turns no_runs).job_running_state ≡ false
    → count_runs n (take_turns turns no_runs).working ≡ 0
is_any_job_running_state-take_turns turns n quiet =
    let (empty, right) = take_turns-IsConsistent turns no_runs (refl, λ n. refl) in
    ground (arith, right n, any_running_lem n (take_turns turns no_runs).job_running_state quiet)
