-- ===== src/Pipeline/Tests.antt =====
-- A launch phase over two tasks, and the theorems at concrete inputs.
use pydatatask.Base.{
  ℕ, ◌+◌, ◌*◌, ◌≤◌, ◌≡◌, ◌⊎◌, refl, Bool, true, false, some, List, [], ◌∷◌, ◌++◌, String,
  if◌then◌else◌,
}
use pydatatask.Base.Int.{ℤ, pos}
use pydatatask.Base.Results.{ok, err, Error}
use pydatatask.Base.Keys.{Job, mem, select, same}
use pydatatask.Utils.RoundRobin.{tally}
use pydatatask.Repository.{Repository}
use pydatatask.Repository.JobId.{is_valid_job_id, in_charset, filter_jobs, iter}
use pydatatask.Repository.Aggregate.{unseen}
use pydatatask.Pipeline.{
  Entry, Task, entry_le, put_in, sort, group_from, by_priority, gather_ready_jobs, entries,
  collect_jobs, update_only_launch,
}
use pydatatask.Pipeline.Groups.{Batches, tally_groups, by_priority-Batches}
use pydatatask.Pipeline.Workers.{State, start, Step, Reach, here, IsOver, n_workers}
use pydatatask.Pipeline.Workers.Conserve.{
  Reach-launched, Reach_progress, steps, steps_bound, runs_to_end,
}

program : Unit {0}
unfolding entry_le put_in sort group_from by_priority gather_ready_jobs entries collect_jobs
    update_only_launch iter filter_jobs select is_valid_job_id in_charset unseen mem
program = tt

abbrev ready : List Job → Repository (Unit {0})
ready jobs = record {
  unfiltered_iter = λ s. ok jobs;
  contains = λ s x. ok (mem x jobs);
  delete = λ x s. (err Error.key_error, s);
}

abbrev tasks : List (Task (Unit {0}))
tasks =
    record { name = "low"; disabled = false; ready = ready ("a" ∷ "b" ∷ []) }
    ∷ record { name = "high"; disabled = false; ready = ready ("a" ∷ "-" ∷ []) }
    ∷ record { name = "off"; disabled = true; ready = ready ("c" ∷ []) }
    ∷ []

abbrev preference : String → Job → ℤ
preference task job = if same task "high" then pos 5 else pos 0

abbrev entry : ℕ → String → Job → Entry
entry priority task job = record { priority = pos priority; task = task; job = job }

batches :
    update_only_launch true (some preference) tasks tt
    ≡ ok (true, (entry 5 "high" "a" ∷ []) ∷ (entry 0 "low" "b" ∷ entry 0 "low" "a" ∷ []) ∷ [])
unfolding program
batches = refl

abbrev three : List Entry
three = entry 0 "low" "a" ∷ entry 5 "high" "a" ∷ entry 0 "low" "b" ∷ []

by_priority-Batches_example :
    ((k : ℤ) × Batches k (by_priority three))
    × ((p : Entry → Bool) → tally_groups p (by_priority three) ≡ tally p three)
by_priority-Batches_example = by_priority-Batches three

Reach_progress_example : IsOver (start three) ⊎ ((t : State) × Step (start three) t)
Reach_progress_example = Reach_progress three (start three) here

abbrev whole_run : (s : State) × Reach (start three) s × IsOver s
whole_run = runs_to_end three

steps_bound_example : steps whole_run.1 ≤ 3 * (3 + n_workers)
steps_bound_example = steps_bound three whole_run.0 whole_run.1

Reach-launched_example :
    (whole_run.0.queue ++ whole_run.0.offered ≡ [])
    × ((p : Entry → Bool) → tally p whole_run.0.launched ≡ tally p three)
Reach-launched_example = Reach-launched three whole_run.0 whole_run.1 whole_run.2
