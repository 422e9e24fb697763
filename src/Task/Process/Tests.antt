-- ===== src/Task/Process/Tests.antt =====
-- A process task over a dictionary of processes, and the theorems at concrete inputs.
use pydatatask.Base.{
  ℕ, true, false, Option, none, some, [], ◌∷◌, ◌≡◌, refl, length, if◌then◌else◌, arith,
}
use pydatatask.Base.Int.{pos, ◌+ℤ◌, ◌*ℤ◌}
use pydatatask.Base.Results.{Result, ok, err, Error, key_error, Exec}
use pydatatask.Base.Exec.{◌>>=◌}
use pydatatask.Base.Keys.{Job, Dict, get, insert, remove, has, keys, mem, select}
use pydatatask.Quota.{
  Quota, QuotaManager, default, add, sub, mul, excess, load, getter, sum_getters, settle, reserve,
  relinquish,
}
use pydatatask.Task.Process.{
  Pid, Process, Pids, IsAtomic, Action, std_out, ProcessTask, World, on_rest, prepare_stdin, script,
  start_process, record_pid, try_launch, kill_if, rmtree_if, clean_up, launch,
}
use pydatatask.Task.Process.Reap.{
  collect, reap, map_pids, pid_map, timed_out, timeout_set, coros_of, found_job, schedule, gather,
  update, recent, get_load,
}
use pydatatask.Task.Process.Launches.{times, Balanced, launch-Balanced}
use pydatatask.Task.Process.Reaps.{Distinct, Reaped, reap-Reaped, reap-Balanced}
use pydatatask.Task.Process.Timeouts.{pids_of, update_timed_out}

abbrev delete : Job → Exec (Dict Process) (Unit {0})
delete job h = if has job h then (ok tt, remove job h) else (err key_error, h)

delete_ok :
    (job : Job) (h : Dict Process) → (delete job h).0 ≡ ok tt → (delete job h).1 ≡ remove job h
delete_ok job h e = ground arith

delete_err :
    (job : Job) (h : Dict Process) (x : Error) → (delete job h).0 ≡ err x → (delete job h).1 ≡ h
delete_err job h x e = ground arith

listed : (h d : Dict Process) → ◌≡◌ {A = Result (Dict Process)} (ok h) (ok d) → d ≡ h
listed h d e = cc

never : {P : Type 0} (e : Error) → ◌≡◌ {A = Result (Unit {0})} (ok tt) (err e) → P
never e q = cc

abbrev store : Pids (Dict Process)
store = record {
  entries = λ h. h;
  info_all = λ h. ok h;
  dump = λ job p h. (ok tt, insert job p h);
  delete = delete;
  info_all_entries = listed;
  dump_ok = λ job p h e. refl;
  delete_ok = delete_ok;
  delete_err = delete_err;
}

store-IsAtomic : IsAtomic store
store-IsAtomic job p h x e = never x e

abbrev done : {A : Type 0} → Result A → Action store A
done a = record { run = λ h. (a, h); keeps = λ h. refl }

abbrev one : Quota
one = record { cpu = pos 2; mem = pos 10; launches = pos 1 }

abbrev task_of : Result Pid → ProcessTask store
task_of spawned = record {
  basedir = "/tmp" ∷ "task" ∷ [];
  job_quota = one;
  environ = [];
  timeout = some 5;
  fail_fast = false;
  now = λ h. 100;
  mkdir = λ path. done (ok tt);
  rmtree = λ path. done (ok tt);
  write_file = λ path text. done (ok tt);
  read_int = λ path. done (ok (pos 0));
  spawn = λ args environ cwd code stdin stdout stderr. done spawned;
  kill = λ pid. done (ok tt);
  get_live_pids = λ expected h. ok [];
  stdin = some (λ job path. done (ok tt));
  stdout = some (λ job path. done (ok tt));
  stderr = std_out;
  done = none;
  render = λ job. done (ok ([], "true", []));
}

abbrev task : ProcessTask store
task = task_of (ok "17")

abbrev total : ℕ → ℕ → ℕ → Quota
total cpu mem launches = record { cpu = pos cpu; mem = pos mem; launches = pos launches }

abbrev manager : Option Quota → QuotaManager (Dict Process)
manager cached = record {
  quota = total 5 100 100;
  cached = cached;
  registered_getters = (λ h. ok (times (length h) one)) ∷ [];
}

abbrev two : Dict Process
two =
    ("a", record { pid = "11"; start_time = 98 })
    ∷ ("b", record { pid = "12"; start_time = 90 })
    ∷ []

abbrev world : Dict Process → Option Quota → World (Dict Process)
world h cached = record { rest = h; quota = manager cached; warned = false }

program : Unit {0}
unfolding add sub mul excess load getter sum_getters settle reserve relinquish on_rest prepare_stdin
    script start_process record_pid try_launch kill_if rmtree_if clean_up launch collect reap
    map_pids pid_map timed_out timeout_set coros_of found_job schedule gather update recent get_load
    get insert remove has keys mem select ◌>>=◌ ◌+ℤ◌ ◌*ℤ◌ times
program = tt

launched :
    (launch task "c" (world [] (some (total 0 0 0))))
    ≡ (ok tt, world (("c", record { pid = "17"; start_time = 100 }) ∷ []) (some (total 2 10 1)))
unfolding program
launched = refl

failed :
    launch (task_of (err key_error)) "c" (world [] (some (total 0 0 0)))
    ≡ (err key_error, world [] (some (total 0 0 0)))
unfolding program
failed = refl

reaped :
    reap task "a" 98 false (world two (some (total 4 20 2)))
    ≡ (ok tt, world (("b", record { pid = "12"; start_time = 90 }) ∷ []) (some (total 2 10 1)))
unfolding program
reaped = refl

loads : get_load task 5 two ≡ ok (total 4 20 1)
unfolding program
loads = refl

in_balance : Balanced task (total 0 0 0) (world two (some (total 4 20 2)))
unfolding program
in_balance = refl

launch-Balanced_example :
    Balanced task (total 0 0 0) (launch task "c" (world two (some (total 4 20 2)))).1
launch-Balanced_example =
    launch-Balanced task store-IsAtomic "c" (total 0 0 0) (world two (some (total 4 20 2)))
      (unfold has keys mem in refl) in_balance

reap-Reaped_example :
    Reaped task "a"
      (total 4 20 2)
      (world two (some (total 4 20 2)))
      (reap task "a" 98 false (world two (some (total 4 20 2))))
reap-Reaped_example =
    reap-Reaped task "a" 98 false (total 4 20 2) (world two (some (total 4 20 2))) refl

two-Distinct : Distinct two
unfolding has keys mem
two-Distinct = (refl, (refl, tt))

there : has "a" two ≡ true
unfolding has keys mem
there = refl

reap-Balanced_example :
    Balanced task (total 0 0 0) (reap task "a" 98 false (world two (some (total 4 20 2)))).1
reap-Balanced_example =
    reap-Balanced task "a" 98 false (total 0 0 0) (world two (some (total 4 20 2))) two-Distinct
      there in_balance

reported : (h : Dict Process) → getter h (manager none) ≡ ok (add default (times (length h) one))
unfolding getter sum_getters
reported h = refl

late : mem "b" (timeout_set task 100 two) ≡ true
unfolding program
late = refl

no_pid : mem "b" (pids_of two) ≡ false
unfolding program pids_of
no_pid = refl

update_timed_out_example :
    update task (world two (some (total 4 20 2))) ≡ (err key_error, world two (some (total 4 20 2)))
update_timed_out_example =
    update_timed_out task (world two (some (total 4 20 2))) two [] "b" refl refl late no_pid
