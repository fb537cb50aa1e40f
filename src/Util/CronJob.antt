-- ===== src/Util/CronJob.antt =====
-- util/cron_job.go: jobs that never run twice at a time, and the wait for them at the end.
-- The scheduler `cron.Cron` is a parameter: `accepts schedule` says that `AddFunc` takes it. A run of
-- a job's proxy is a thread with the places between which others may run. Times are nanoseconds.
pub mod Proxy
pub mod Shutdown
mod Tests
use landau.Common.{
  ℕ, ◌+◌, Bool, true, false, List, [], ◌∷◌, ◌++◌, ◌==◌, bytes_eq, Bytes, Option, none, some,
  if◌then◌else◌, insert, lookup_or, ◌≡◌, refl, arith, ◌≤◌, length, length-append,
}

-- What reflection says of the object that has a job's method.
pub record Instance : Type 0 where
  pub is_valid : Bool
  pub has_method : Bytes → Bool

-- `SingletonCronTask`; of the function itself only whether it is set.
pub record SingletonCronTask : Type 0 where
  pub name : Bytes
  pub enable : Bool
  pub schedule : Bytes
  pub func_name : Bytes
  pub instance_object : Option Instance
  pub has_callback_func : Bool
  pub immediate : Bool

-- What a run of the proxy calls, or the error that it logs.
pub data Action : Type 0 where
  callback_func : Action
  method : Bytes → Action
  no_method : Action
  not_valid : Action
  missing_function : Action

unfoldable pub call_method : Bytes → Instance → Action
call_method func_name i =
    if i.is_valid
    then (if i.has_method func_name then method func_name else no_method)
    else not_valid

abbrev on_object : Bytes → Option Instance → Option Instance → Action
on_object func_name (some i) p = call_method func_name i
on_object func_name none (some i) = call_method func_name i
on_object func_name none none = missing_function

-- The `switch` of the proxy: `p` is the object that `StartCronJob` was given.
unfoldable pub job_action : SingletonCronTask → Option Instance → Action
unfolding call_method
job_action t p =
    if t.has_callback_func then callback_func else on_object t.func_name t.instance_object p

-- The package's variables and the entries of the engine.
pub record Engine : Type 0 where
  pub created : Bool
  pub started : Bool
  pub entries : List SingletonCronTask
  pub immediate_runs : List SingletonCronTask
  pub scheduled_job_count : ℕ

module _ (accepts : Bytes → Bool) where
  unfoldable pub add_job : SingletonCronTask → Engine → Engine
  add_job t s = record s {
    created = true;
    entries = if accepts t.schedule then s.entries ++ t ∷ [] else s.entries;
    immediate_runs = if t.immediate then s.immediate_runs ++ t ∷ [] else s.immediate_runs;
    scheduled_job_count = s.scheduled_job_count + 1;
  }

  unfoldable pub add_jobs : List SingletonCronTask → Engine → Engine
  add_jobs [] s = s
  add_jobs (t ∷ jobs) s = add_jobs jobs (if t.enable then add_job t s else s)

  start_engine : Engine → Engine
  start_engine s = if s.created then record s { started = true } else s

  -- `StartCronJob`.
  unfoldable pub start_cron_job : List SingletonCronTask → Engine → Engine
  unfolding start_engine
  start_cron_job [] s = s
  start_cron_job (t ∷ jobs) s = start_engine (add_jobs (t ∷ jobs) s)

abbrev pub count_enabled : List SingletonCronTask → ℕ
count_enabled [] = 0
count_enabled (t ∷ jobs) = if t.enable then count_enabled jobs + 1 else count_enabled jobs

-- How many jobs are enabled with a schedule that the engine takes.
abbrev pub count_accepted : (Bytes → Bool) → List SingletonCronTask → ℕ
count_accepted accepts [] = 0
count_accepted accepts (t ∷ jobs) =
    if t.enable
    then (if accepts t.schedule
        then count_accepted accepts jobs + 1
        else count_accepted accepts jobs)
    else count_accepted accepts jobs

add_jobs-counts :
    (accepts : Bytes → Bool) (jobs : List SingletonCronTask) (s : Engine)
    → let s' = add_jobs accepts jobs s in
      (s'.scheduled_job_count ≡ s.scheduled_job_count + count_enabled jobs)
      × (length s'.entries ≡ length s.entries + count_accepted accepts jobs)
unfolding add_jobs add_job
add_jobs-counts accepts [] s = (omega arith, omega arith)
add_jobs-counts accepts (t ∷ jobs) s =
    let (count, entries) =
      add_jobs-counts accepts jobs (if t.enable then add_job accepts t s else s) in
    let grown = length-append s.entries (t ∷ []) in
    (ground (arith, count), ground (arith, entries, grown))

-- `StartCronJob` counts every enabled job, and adds as many entries as there are enabled jobs whose
-- schedule the engine takes.
pub start_cron_job-counts :
    (accepts : Bytes → Bool) (jobs : List SingletonCronTask) (s : Engine)
    → let s' = start_cron_job accepts jobs s in
      (s'.scheduled_job_count ≡ s.scheduled_job_count + count_enabled jobs)
      × (length s'.entries ≡ length s.entries + count_accepted accepts jobs)
unfolding start_cron_job start_engine
start_cron_job-counts accepts [] s = (omega arith, omega arith)
start_cron_job-counts accepts (t ∷ jobs) s =
    let (count, entries) = add_jobs-counts accepts (t ∷ jobs) s in
    (ground (arith, count), ground (arith, entries))
