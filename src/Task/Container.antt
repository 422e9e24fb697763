-- ===== src/Task/Container.antt =====
-- `ContainerTask` of pydatatask/task.py: containers that are launched under a quota, the load that they make, and what is
-- stored of those that end. `H` is the state of the world behind the container manager and the repositories,
-- `Log` and `Info` what the manager gives of a container that has ended.
pub mod Account
mod Tests
use pydatatask.Base.{
  ℕ, zero, suc, ◌+◌, ◌-◌, Bool, true, false, Option, none, some, List, [], ◌∷◌, ◌++◌, String, ltb,
  length, if◌then◌else◌,
}
use pydatatask.Base.Int.{ℤ, pos}
use pydatatask.Base.Results.{Result, ok, err, Exec}
use pydatatask.Base.Exec.{◌>>=◌}
use pydatatask.Base.Keys.{Job, Dict, get, remove}
use pydatatask.Quota.{Quota, QuotaType, QuotaManager, mul, sub, reserve}

abbrev pub Mounts : Type 0
Mounts = List (String × String)

-- What the container manager is asked to run, for a job.
pub record Container : Type 0 where
  pub image : String
  pub entrypoint : List String
  pub script : List String
  pub environ : Dict String
  pub quota : Quota
  pub mounts : Mounts
  pub privileged : Bool
  pub tty : Bool

pub record ContainerTask (H Log Info : Type 0) : Type 0 where
  pub image : String
  pub entrypoint : List String
  pub environ : Dict String
  pub job_quota : Quota
  pub window : ℕ
  pub timeout : Option ℕ
  pub privileged : Bool
  pub tty : Bool
  pub now : H → ℕ
  -- `build_env` and `render_template`: preamble, text and epilogue.
  pub render : Job → Exec H (List String × String × List String)
  -- The container manager: the start times of the live containers, a launch, and the jobs that ended.
  pub live : H → Result (Dict ℕ)
  pub launch_container : Job → Container → Exec H (Unit {0})
  pub update_containers : Option ℕ → Exec H (Bool × List (Job × Log × Info))
  -- The repositories: a log written as a blob, and `done`.
  pub logs : Option (Job → Log → Exec H (Unit {0}))
  pub done : Option (Job → Info → Exec H (Unit {0}))

pub record World (H : Type 0) : Type 0 where
  pub rest : H
  pub quota : QuotaManager H
  pub warned : Bool
  pub mount_directives : Dict Mounts

-- The lines of the script.
abbrev pub script : List String → String → List String → List String
script preamble text epilogue =
    "set -e" ∷ preamble
    ++ "set +e" ∷ "(" ∷ "set -e" ∷ text ∷ ")" ∷ "RETCODE=$?" ∷ "set -e" ∷ epilogue
    ++ "exit $RETCODE" ∷ []

abbrev pub or_none : Option Mounts → Mounts
or_none none = []
or_none (some m) = m

module _ {H Log Info : Type 0} (task : ContainerTask H Log Info) where
  abbrev pub container : List String × String × List String → Mounts → Container
  container (preamble, text, epilogue) mounts = record {
    image = task.image;
    entrypoint = task.entrypoint;
    script = script preamble text epilogue;
    environ = task.environ;
    quota = task.job_quota;
    mounts = mounts;
    privileged = task.privileged;
    tty = task.tty;
  }

  abbrev pub launch_rendered :
      Job → World H → Result (List String × String × List String) × H → Result (Unit {0}) × World H
  launch_rendered job w (err e, h) = (err e, record w { rest = h })
  launch_rendered job w (ok texts, h) =
      let mounts = or_none (get job w.mount_directives) in
      let r = task.launch_container job (container texts mounts) h in
      (r.0, record w { rest = r.1; mount_directives = remove job w.mount_directives })

  abbrev pub launch_reserved :
      Job → World H → Result (Option QuotaType) × QuotaManager H → Result (Unit {0}) × World H
  launch_reserved job w (err e, m) = (err e, record w { quota = m })
  launch_reserved job w (ok (some limit), m) = (ok tt, record w { quota = m; warned = true })
  launch_reserved job w (ok none, m) =
      launch_rendered job (record w { quota = m }) (task.render job w.rest)

  unfoldable pub launch : Job → Exec (World H) (Unit {0})
  launch job w = launch_reserved job w (reserve w.rest task.job_quota w.quota)

  abbrev pub store_if :
      {A : Type 0} → Option (Job → A → Exec H (Unit {0})) → Job → A → Exec H (Unit {0})
  store_if none job a h = (ok tt, h)
  store_if (some store) job a h = store job a h

  -- The loop of `update`.
  unfoldable pub store_reaped : List (Job × Log × Info) → Exec H (Unit {0})
  store_reaped [] h = (ok tt, h)
  store_reaped ((job, log, info) ∷ reaped) h =
      (do _ ← store_if task.logs job log; _ ← store_if task.done job info; store_reaped reaped) h

  unfoldable pub update : Exec H Bool
  unfolding store_reaped
  update h =
      (do
        found ← task.update_containers task.timeout
        _ ← store_reaped found.1
        λ h'. (ok found.0, h'))
        h

  -- `sum(c > cutoff for c in containers.values())`, the cutoff `window` ago.
  unfoldable pub recent : ℕ → Dict ℕ → ℕ
  recent now [] = 0
  recent now ((job, start) ∷ rest) =
      let n = recent now rest in if ltb now (start + task.window) then suc n else n

  unfoldable pub get_load : H → Result Quota
  unfolding recent
  get_load h = elim (task.live h) [
    | err e ↦ err e
    | ok containers ↦
        let n = length containers in
        ok (
          sub (mul task.job_quota (pos n)) (record {
            cpu = pos 0;
            mem = pos 0;
            launches = pos (n - recent (task.now h) containers);
          }))
  ]
