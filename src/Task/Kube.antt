-- ===== src/Task/Kube.antt =====
-- `KubeTask` of pydatatask/task.py: pods that are launched, found finished or late, cleaned up and deleted, and the
-- quota that each of them holds. `H` is the state of the cluster and the repositories, `A` the texts of
-- quantities, which `Quota.parse` reads.
pub mod Account
mod Tests
use pydatatask.Base.{
  ℕ, ◌+◌, Bool, true, false, ◌||◌, Option, none, some, List, [], ◌∷◌, String, ltb, if◌then◌else◌,
}
use pydatatask.Base.Int.{ℤ, pos}
use pydatatask.Base.Results.{Result, ok, err, Error, assertion_error, Exec}
use pydatatask.Base.Exec.{go_on, ◌>>=◌}
use pydatatask.Base.Keys.{Job, same}
use pydatatask.Quota.{Quota, QuotaType, QuotaManager, default, add, parse, reserve, relinquish}
use pydatatask.Task.Process.{World}

-- The requests of a container: CPU and memory.
abbrev pub Container : Type 0 → Type 0
Container A = A × A

pub record Pod (A : Type 0) : Type 0 where
  pub job : Job
  pub phase : String
  pub creation_timestamp : ℕ
  pub image : String
  pub node : String
  pub containers : List (Container A)

-- The rendered template.
pub record Manifest (A : Type 0) : Type 0 where
  pub kind : String
  pub restart_policy : Option String
  pub containers : List (Container A)

pub record DoneInfo : Type 0 where
  pub reason : String
  pub start_time : ℕ
  pub end_time : ℕ
  pub image : String
  pub node : String

pub record KubeTask (H A : Type 0) : Type 0 where
  -- `parse_quantity` and `int`, and the count 0.
  pub parse_quantity : A → Result ℤ
  pub int : A → Result ℤ
  pub zero_count : A
  pub now : H → ℕ
  pub window : ℕ
  pub timeout : Option ℕ
  pub fail_fast : Bool
  -- `build_env`: whether there is a preamble or an epilogue; and `render_template`.
  pub build_env : Job → Exec H Bool
  pub render : Job → Exec H (Manifest A)
  -- The pod manager. `is_forbidden` tells an ApiException with the reason Forbidden.
  pub launch_pod : Job → Manifest A → Exec H (Unit {0})
  pub delete_pod : Pod A → Exec H (Unit {0})
  pub query : H → Result (List (Pod A))
  pub is_forbidden : Error → Bool
  -- The repositories: the logs of a pod written as a blob, and `done`.
  pub dump_logs : Option (Pod A → Exec H (Unit {0}))
  pub done : Option (Job → DoneInfo → Exec H (Unit {0}))
  pub handle_timeout : Pod A → Exec H (Unit {0})

module _ {H A : Type 0} (task : KubeTask H A) where
  -- The loops on containers: `request += Quota.parse(cpu, memory, 0)`.
  unfoldable pub add_containers : Quota → List (Container A) → Result Quota
  add_containers q [] = ok q
  add_containers q ((cpus, memory) ∷ rest) =
      elim (parse task.parse_quantity task.int cpus memory (some task.zero_count)) [
        | err e ↦ err e
        | ok p ↦ add_containers (add q p) rest
      ]

  -- `Quota(launches=1)` is what `Quota()` is.
  unfoldable pub request_of : List (Container A) → Result Quota
  unfolding add_containers
  request_of containers = add_containers default containers

  -- What `launch` does before it reserves: the manifest and its request.
  abbrev pub check_manifest : Manifest A → Exec H (Manifest A × Quota)
  check_manifest m h =
      if same m.kind "Pod"
      then (
        elim (request_of m.containers) [
          | err e ↦ err e
          | ok q ↦ ok (record m { restart_policy = some "Never" }, q)
        ],
        h,
      )
      else (err assertion_error, h)

  abbrev pub render_if : Bool → Job → Exec H (Manifest A)
  render_if true job h = (err (Error.raised 0), h)
  render_if false job h = task.render job h

  unfoldable pub prepare : Job → Exec H (Manifest A × Quota)
  unfolding request_of
  prepare job = do
    extra ← task.build_env job
    manifest ← render_if extra job
    check_manifest manifest

  -- The handler of `podman.launch`: what `relinquish` raises takes the place of the exception.
  abbrev pub launch_end : Quota → World H → Result (Unit {0}) × H → Result (Unit {0}) × World H
  launch_end request w (ok _, h) = (ok tt, record w { rest = h })
  launch_end request w (err e, h) =
      let r = relinquish h request w.quota in
      (elim r.0 [ ok _ ↦ err e | err e' ↦ err e' ], record w { rest = h; quota = r.1 })

  abbrev pub launch_granted :
      Job
      → Manifest A
      → Quota
      → World H
      → Result (Option QuotaType) × QuotaManager H
      → Result (Unit {0}) × World H
  launch_granted job manifest request w (err e, m) = (err e, record w { quota = m })
  launch_granted job manifest request w (ok (some limit), m) =
      (ok tt, record w { quota = m; warned = true })
  launch_granted job manifest request w (ok none, m) =
      launch_end request (record w { quota = m }) (task.launch_pod job manifest w.rest)

  abbrev pub launch_prepared :
      Job → World H → Result (Manifest A × Quota) × H → Result (Unit {0}) × World H
  launch_prepared job w (err e, h) = (err e, record w { rest = h })
  launch_prepared job w (ok (manifest, request), h) =
      launch_granted job manifest request (record w { rest = h }) (reserve h request w.quota)

  unfoldable pub launch : Job → Exec (World H) (Unit {0})
  unfolding prepare
  launch job w = launch_prepared job w (prepare job w.rest)

  abbrev pub relinquish_in : Quota → Exec (World H) (Unit {0})
  relinquish_in request w =
      let r = relinquish w.rest request w.quota in (r.0, record w { quota = r.1 })

  abbrev pub in_rest : {B : Type 0} → Exec H B → Exec (World H) B
  in_rest m w = let r = m w.rest in (r.0, record w { rest = r.1 })

  abbrev pub raise_in : {B : Type 0} → Result B → Exec (World H) B
  raise_in r w = (r, w)

  unfoldable pub delete : Pod A → Exec (World H) (Unit {0})
  unfolding request_of
  delete pod = do
    request ← raise_in (request_of pod.containers)
    _ ← in_rest (task.delete_pod pod)
    relinquish_in request

  abbrev pub dump_logs : Option (Pod A → Exec H (Unit {0})) → Pod A → Exec H (Unit {0})
  dump_logs none pod h = (ok tt, h)
  dump_logs (some dump) pod h = dump pod h

  abbrev pub dump_done :
      Option (Job → DoneInfo → Exec H (Unit {0})) → Pod A → String → Exec H (Unit {0})
  dump_done none pod reason h = (ok tt, h)
  dump_done (some dump) pod reason h =
      dump pod.job
        (record {
          reason = reason;
          start_time = pod.creation_timestamp;
          end_time = task.now h;
          image = pod.image;
          node = pod.node;
        })
        h

  unfoldable pub clean_up : Pod A → String → Exec (World H) (Unit {0})
  unfolding delete
  clean_up pod reason = do
    _ ← in_rest (dump_logs task.dump_logs pod)
    _ ← in_rest (dump_done task.done pod reason)
    delete pod

  -- `self.timeout is not None and uptime > self.timeout`
  abbrev pub is_late : Option ℕ → ℕ → ℕ → Bool
  is_late none now start = false
  is_late (some t) now start = ltb (start + t) now

  abbrev pub is_finished : String → Bool
  is_finished phase = same phase "Succeeded" || same phase "Failed"

  abbrev pub logged : Result (Unit {0}) × World H → Result (Unit {0}) × World H
  logged (ok u, w) = (ok u, w)
  logged (err e, w) = (if task.fail_fast then err e else ok tt, w)

  abbrev pub attend : Bool → Bool → Pod A → Exec (World H) (Unit {0})
  attend true late pod = clean_up pod pod.phase
  attend false true pod = do _ ← in_rest (task.handle_timeout pod); clean_up pod "Timeout"
  attend false false pod = λ w. (ok tt, w)

  unfoldable pub update_one : Pod A → Exec (World H) (Unit {0})
  unfolding clean_up ◌>>=◌
  update_one pod w = logged (
      attend (is_finished pod.phase) (is_late task.timeout (task.now w.rest) pod.creation_timestamp)
        pod w)

  -- `asyncio.gather`, one coroutine after the other.
  unfoldable pub update_all : List (Pod A) → Exec (World H) (Unit {0})
  unfolding update_one
  update_all [] w = (ok tt, w)
  update_all (pod ∷ pods) w =
      let r = update_one pod w in
      let rest = update_all pods r.1 in (elim r.0 [ ok _ ↦ rest.0 | err e ↦ err e ], rest.1)

  abbrev pub is_some_pod : List (Pod A) → Bool
  is_some_pod [] = false
  is_some_pod (p ∷ ps) = true

  unfoldable pub update : Exec (World H) Bool
  unfolding update_all
  update w = elim (task.query w.rest) [
    | err e ↦ (err e, record w { warned = false })
    | ok pods ↦
        let r = update_all pods (record w { warned = false }) in
        (elim r.0 [ ok _ ↦ ok (is_some_pod pods) | err e ↦ err e ], r.1)
  ]

  -- The loop of `_get_load`.
  unfoldable pub load_of : ℕ → Quota → List (Pod A) → Result Quota
  unfolding add_containers
  load_of now usage [] = ok usage
  load_of now usage (pod ∷ pods) =
      let counted =
        if ltb now (pod.creation_timestamp + task.window) then add usage default else usage in
      elim (add_containers counted pod.containers) [ err e ↦ err e | ok q ↦ load_of now q pods ]

  unfoldable pub get_load : H → Result Quota
  unfolding load_of
  get_load h = elim (task.query h) [
    | err e ↦ if task.is_forbidden e then ok default else err e
    | ok pods ↦ load_of (task.now h) default pods
  ]
