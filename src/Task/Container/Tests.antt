-- ===== src/Task/Container/Tests.antt =====
-- A task whose container manager refuses the job "bad". The world is the dictionary of live containers.
use pydatatask.Base.{ℕ, ◌≡◌, refl, Bool, true, false, none, some, [], ◌∷◌, String}
use pydatatask.Base.Int.{pos, ◌+ℤ◌}
use pydatatask.Base.Results.{ok, err, raised, Exec}
use pydatatask.Base.Keys.{Job, Dict, insert, same}
use pydatatask.Quota.{Quota, add, reserve, load, settle, excess}
use pydatatask.Task.Container.{ContainerTask, World, launch}

abbrev one_job : Quota
one_job = record { cpu = pos 2; mem = pos 3; launches = pos 1 }

abbrev start : Bool → Job → Exec (Dict ℕ) (Unit {0})
start true job h = (err (raised 0), h)
start false job h = (ok tt, insert job 100 h)

abbrev task : ContainerTask (Dict ℕ) String String
task = record {
  image = "alpine";
  entrypoint = "/bin/sh" ∷ "-c" ∷ [];
  environ = [];
  job_quota = one_job;
  window = 60;
  timeout = none;
  privileged = false;
  tty = false;
  now = λ h. 110;
  render = λ job h. (ok ([], "true", []), h);
  live = λ h. ok h;
  launch_container = λ job c h. start (same job "bad") job h;
  update_containers = λ t h. (ok (false, []), h);
  logs = none;
  done = none;
}

abbrev used : Quota
used = record { cpu = pos 0; mem = pos 0; launches = pos 0 }

abbrev world : World (Dict ℕ)
world = record {
  rest = ("old", 7) ∷ [];
  quota = record {
    quota = record { cpu = pos 9; mem = pos 9; launches = pos 9 };
    cached = some used;
    registered_getters = [];
  };
  warned = false;
  mount_directives = [];
}

-- The launch raises and keeps what it reserved.
kept : (launch task "bad" world).0 ≡ err (raised 0)
unfolding launch reserve add load settle excess ◌+ℤ◌
kept = refl

kept_quota : (launch task "bad" world).1.quota.cached ≡ some one_job
unfolding launch reserve add load settle excess ◌+ℤ◌
kept_quota = refl
