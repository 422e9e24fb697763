-- ===== src/Task/Futures/Tests.antt =====
-- An executor that numbers its futures by their jobs, and never ends one.
use pydatatask.Base.{◌≡◌, refl, false, []}
use pydatatask.Base.Results.{ok, err, key_error}
use pydatatask.Base.Keys.{get, insert, remove}
use pydatatask.Task.Futures.{ExecutorTask, State, launch, cancel}
use pydatatask.Task.Futures.Inverse.{IsFresh, IsInverse, Step, Reach, Reach-IsInverse}

abbrev task : ExecutorTask (Unit {0})
task = record {
  now = λ e. 0;
  synchronous = false;
  build_env = λ job e. (ok tt, e);
  submit = λ job e. (ok job, e);
  await_done = λ f e. e;
  wait = λ fs e. [];
  result_of = λ f e. ok 0;
  cancel = λ f e. e;
  dump_done = λ job o start e. (ok tt, e);
}

abbrev idle : State (Unit {0})
idle = record { rest = tt; jobs = []; rev_jobs = [] }

abbrev running : State (Unit {0})
running = (launch task "a" idle).1

-- A cancel of a job that does not run raises.
cancel_idle : cancel task "b" running ≡ (err key_error, running)
unfolding cancel launch get insert
cancel_idle = refl

cancel_running : cancel task "a" running ≡ (ok tt, idle)
unfolding cancel launch get insert remove
cancel_running = refl

new_job : IsFresh task "a" idle
unfolding get
new_job = record { idle = refl; new = λ e f h. refl }

launch_then_cancel : Reach task tt (cancel task "a" running).1
launch_then_cancel =
    Reach.next (Reach.next Reach.here (Step.launching "a" new_job)) (Step.cancelling "a")

Reach-IsInverse_example : IsInverse (cancel task "a" running).1
Reach-IsInverse_example = Reach-IsInverse task launch_then_cancel
