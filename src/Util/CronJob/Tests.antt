-- ===== src/Util/CronJob/Tests.antt =====
-- util/cron_job.go at concrete jobs.
use landau.Common.{◌≤◌, ◌≡◌, true, false, [], ◌∷◌, Bytes, codes, none, some, ◌*◌, arith}
use landau.Util.CronJob.{SingletonCronTask, Engine}
use landau.Util.CronJob.Proxy.{no_runs, count_runs, started, take_turns, take_turns_single}
use landau.Util.CronJob.Shutdown.{Round, Ending, timed_wait, timed_wait_ends, millisecond}

abbrev clean_job : SingletonCronTask
clean_job = record {
  name = codes "clean";
  enable = true;
  schedule = codes "@daily";
  func_name = codes "Clean";
  instance_object = none;
  has_callback_func = true;
  immediate = true;
}

abbrev no_engine : Engine
no_engine = record {
  created = false;
  started = false;
  entries = [];
  immediate_runs = [];
  scheduled_job_count = 0;
}

abbrev busy_round : Round
busy_round = record { running_states = (codes "clean", true) ∷ []; context_done = false }

abbrev quiet_round : Round
quiet_round = record { running_states = (codes "clean", false) ∷ []; context_done = false }

take_turns_single_example :
    let n : Bytes = codes "clean" in
    count_runs n (take_turns (started n ∷ started n ∷ []) no_runs).working ≤ 1
take_turns_single_example =
    take_turns_single (started (codes "clean") ∷ started (codes "clean") ∷ []) (codes "clean")

-- A job that never ends, and a context of three milliseconds.
timed_wait_ends_example :
    (ending : Ending) × (timed_wait (λ n. 0) (λ k. true) (3 * millisecond) 4 0 0 ≡ some ending)
timed_wait_ends_example = timed_wait_ends (λ n. 0) (λ k. true) (3 * millisecond) 4 (omega arith)
