-- ===== src/Task/Kube/Tests.antt =====
-- A task on a cluster that is the list of its pods' jobs, and the theorems at concrete inputs.
use pydatatask.Base.{ℕ, true, false, none, some, List, [], ◌∷◌, ◌≡◌, refl, String}
use pydatatask.Base.Int.{pos, ◌+ℤ◌, ◌*ℤ◌}
use pydatatask.Base.Results.{ok}
use pydatatask.Base.Exec.{◌>>=◌}
use pydatatask.Base.Keys.{Job}
use pydatatask.Quota.{
  Quota, add, sub, mul, excess, parse, load, getter, settle, reserve, relinquish,
}
use pydatatask.Task.Process.{World}
use pydatatask.Task.Kube.{
  Pod, Manifest, KubeTask, add_containers, request_of, prepare, launch, delete, clean_up,
  update_one, update_all, update, load_of, get_load,
}
use pydatatask.Task.Kube.Account.{Settled, launch-Settled, delete_returns}

abbrev pod : Job → String → Pod ℕ
pod job phase = record {
  job = job;
  phase = phase;
  creation_timestamp = 90;
  image = "image";
  node = "node";
  containers = (1, 10) ∷ (2, 20) ∷ [];
}

abbrev manifest : Manifest ℕ
manifest = record {
  kind = "Pod";
  restart_policy = some "Never";
  containers = (1, 10) ∷ (2, 20) ∷ [];
}

abbrev task : KubeTask (List Job) ℕ
task = record {
  parse_quantity = λ n. ok (pos n);
  int = λ n. ok (pos n);
  zero_count = 0;
  now = λ h. 100;
  window = 20;
  timeout = none;
  fail_fast = true;
  build_env = λ job h. (ok false, h);
  render = λ job h. (ok (record manifest { restart_policy = none }), h);
  launch_pod = λ job m h. (ok tt, job ∷ h);
  delete_pod = λ p h. (ok tt, []);
  query = λ h. ok (pod "a" "Failed" ∷ []);
  is_forbidden = λ e. false;
  dump_logs = none;
  done = none;
  handle_timeout = λ p h. (ok tt, h);
}

abbrev total : ℕ → ℕ → ℕ → Quota
total cpu mem launches = record { cpu = pos cpu; mem = pos mem; launches = pos launches }

abbrev world : List Job → Quota → World (List Job)
world h cached = record {
  rest = h;
  quota = record { quota = total 5 100 100; cached = some cached; registered_getters = [] };
  warned = false;
}

program : Unit {0}
unfolding add sub mul excess parse load getter settle reserve relinquish add_containers request_of
    prepare launch delete clean_up update_one update_all update load_of get_load ◌>>=◌ ◌+ℤ◌ ◌*ℤ◌
program = tt

launched : launch task "a" (world [] (total 0 0 0)) ≡ (ok tt, world ("a" ∷ []) (total 3 30 1))
unfolding program
launched = refl

updated : update task (world ("a" ∷ []) (total 3 30 1)) ≡ (ok true, world [] (total 0 0 0))
unfolding program
updated = refl

-- One pod, launched within the window: the load has one launch more.
loads : get_load task [] ≡ ok (total 3 30 2)
unfolding program
loads = refl

prepared : (prepare task "a" []).0 ≡ ok (manifest, total 3 30 1)
unfolding program
prepared = refl

launch-Settled_example :
    Settled task "a" manifest
      (total 0 0 0)
      (total 3 30 1)
      (prepare task "a" []).1
      (world [] (total 0 0 0))
      (launch task "a" (world [] (total 0 0 0)))
launch-Settled_example =
    launch-Settled task "a" manifest (total 0 0 0) (total 3 30 1) (world [] (total 0 0 0)) prepared
      refl

requested : request_of task (pod "a" "Failed").containers ≡ ok (total 3 30 1)
unfolding program
requested = refl

sum : some (total 3 30 1) ≡ some (add (total 0 0 0) (total 3 30 1))
unfolding program
sum = refl

delete_returns_example :
    delete task (pod "a" "Failed") (world ("a" ∷ []) (total 3 30 1))
    ≡ (ok tt, world [] (total 0 0 0))
delete_returns_example =
    delete_returns task (pod "a" "Failed") (total 0 0 0) (total 3 30 1)
      (world ("a" ∷ []) (total 3 30 1)) requested refl sum
