-- ===== src/Task/Process.antt =====
-- `ProcessTask` of pydatatask/task.py: processes that are launched, found dead and reaped, and the quota that each of
-- them holds. `H` is the state of the world behind the process manager and the repositories.
pub mod Reap
pub mod Launches
pub mod Reaps
pub mod Timeouts
mod Tests
use pydatatask.Base.{
  ℕ, ◌-◌, Bool, true, false, Option, none, some, List, [], ◌∷◌, ◌++◌, ◌≡◌, String, ltb,
  if◌then◌else◌,
}
use pydatatask.Base.Int.{ℤ}
use pydatatask.Base.Results.{Result, ok, err, Error, key_error, Exec}
use pydatatask.Base.Exec.{◌>>=◌}
use pydatatask.Base.Keys.{Job, Dict, get, insert, remove, has, mem}
use pydatatask.Quota.{Quota, QuotaType, QuotaManager, reserve, relinquish}

abbrev pub FilePath : Type 0
FilePath = List String

abbrev pub Pid : Type 0
Pid = String

-- What `pids` holds for a job.
pub record Process : Type 0 where
  pub pid : Pid
  pub start_time : ℕ

-- The repository `pids`. A delete that raises has deleted nothing.
pub record Pids (H : Type 0) : Type 0 where
  pub entries : H → Dict Process
  pub info_all : H → Result (Dict Process)
  pub dump : Job → Process → Exec H (Unit {0})
  pub delete : Job → Exec H (Unit {0})
  pub info_all_entries : (h : H) (d : Dict Process) → info_all h ≡ ok d → d ≡ entries h
  pub dump_ok :
      (job : Job) (p : Process) (h : H)
      → (dump job p h).0 ≡ ok tt
      → entries (dump job p h).1 ≡ insert job p (entries h)
  pub delete_ok :
      (job : Job) (h : H)
      → (delete job h).0 ≡ ok tt
      → entries (delete job h).1 ≡ remove job (entries h)
  pub delete_err :
      (job : Job) (h : H) (e : Error)
      → (delete job h).0 ≡ err e
      → entries (delete job h).1 ≡ entries h

module _ {H : Type 0} (pids : Pids H) where
  -- A dump that raises has stored nothing. That is so of a repository in memory; one of YAML files empties
  -- the file before it is written, and an exception between the two leaves it empty.
  abbrev pub IsAtomic : Type 0
  IsAtomic =
      (job : Job) (p : Process) (h : H) (e : Error)
      → (pids.dump job p h).0 ≡ err e
      → pids.entries (pids.dump job p h).1 ≡ pids.entries h

  -- An action of other code on the world, which does not touch what `pids` holds.
  pub record Action (A : Type 0) : Type 0 where
    pub run : Exec H A
    pub keeps : (h : H) → pids.entries (run h).1 ≡ pids.entries h

  pub data Stderr : Type 0 where
    null std_out : Stderr
    blob : (Job → FilePath → Action (Unit {0})) → Stderr

  pub record Done : Type 0 where
    pub return_code : ℤ
    pub start_time : ℕ
    pub end_time : ℕ
    pub timeout : Bool

  pub record ProcessTask : Type 0 where
    pub basedir : FilePath
    pub job_quota : Quota
    pub environ : Dict String
    pub timeout : Option ℕ
    pub fail_fast : Bool
    pub now : H → ℕ
    -- The process manager.
    pub mkdir : FilePath → Action (Unit {0})
    pub rmtree : FilePath → Action (Unit {0})
    pub write_file : FilePath → List String → Action (Unit {0})
    pub read_int : FilePath → Action ℤ
    pub spawn :
        List FilePath
        → Dict String
        → FilePath
        → FilePath
        → Option FilePath
        → Option FilePath
        → Option (Option FilePath)
        → Action Pid
    pub kill : Pid → Action (Unit {0})
    pub get_live_pids : List Pid → H → Result (List Pid)
    -- The repositories, with `async_copyfile` between a blob and a file.
    pub stdin : Option (Job → FilePath → Action (Unit {0}))
    pub stdout : Option (Job → FilePath → Action (Unit {0}))
    pub stderr : Stderr
    pub done : Option (Job → Done → Action (Unit {0}))
    -- `build_env` and `render_template`: preamble, text and epilogue.
    pub render : Job → Action (List String × String × List String)

pub record World (H : Type 0) : Type 0 where
  pub rest : H
  pub quota : QuotaManager H
  pub warned : Bool

-- The locals of `launch` that the handler of its exceptions reads.
pub record Frame (H : Type 0) : Type 0 where
  pub rest : H
  pub pid : Option Pid
  pub dirmade : Bool

unfoldable pub script : List String → String → List String → List String
script preamble exe_txt epilogue =
    ("set -e\n" ∷ [])
    ++ (preamble
        ++ ("set +e\n(\nset -e\n" ∷ exe_txt ∷ ")\nRETCODE=$?\nset -e\n" ∷ []
            ++ (epilogue ++ "exit $RETCODE" ∷ [])))

module _ {H : Type 0} {pids : Pids H} (task : ProcessTask pids) where
  unfoldable pub on_rest : {A : Type 0} → Exec H A → Exec (Frame H) A
  on_rest m f = let r = m f.rest in (r.0, record f { rest = r.1 })

  abbrev pub set_dirmade : Exec (Frame H) (Unit {0})
  set_dirmade f = (ok tt, record f { dirmade = true })

  abbrev pub set_pid : Pid → Exec (Frame H) (Unit {0})
  set_pid pid f = (ok tt, record f { pid = some pid })

  abbrev pub under : Job → String → FilePath
  under job file = task.basedir ++ job ∷ file ∷ []

  -- The path of the process's stdin, where the task has one.
  unfoldable pub prepare_stdin :
      Option (Job → FilePath → Action pids (Unit {0})) → Job → Exec (Frame H) (Option FilePath)
  unfolding on_rest
  prepare_stdin none job = λ f. (ok none, f)
  prepare_stdin (some copy_to) job = do
    _ ← on_rest (copy_to job (under job "stdin")).run
    λ f. (ok (some (under job "stdin")), f)

  abbrev pub stdout_path : Job → Option FilePath
  stdout_path job = elim task.stdout [ none ↦ none | some _ ↦ some (under job "stdout") ]

  -- `none` is no stderr; `some none` the constant STDOUT.
  abbrev pub stderr_path : Job → Option (Option FilePath)
  stderr_path job = elim task.stderr [
    | null ↦ none
    | std_out ↦ some none
    | blob _ ↦ some (some (under job "stderr"))
  ]

  -- The body of the `try` up to the line that sets `pid`.
  unfoldable pub start_process : Job → Exec (Frame H) (Unit {0})
  unfolding on_rest prepare_stdin script
  start_process job = do
    _ ← on_rest (task.mkdir (under job "cwd")).run
    _ ← set_dirmade
    stdin ← prepare_stdin task.stdin job
    (preamble, exe_txt, epilogue) ← on_rest (task.render job).run
    _ ← on_rest (task.write_file (under job "exe") (script preamble exe_txt epilogue)).run
    pid ←
        on_rest
          (task.spawn (under job "exe" ∷ []) task.environ (under job "cwd")
            (under job "return_code") stdin (stdout_path job) (stderr_path job)).run
    set_pid pid

  -- The rest of it: `pid` is recorded where it is not None.
  unfoldable pub record_pid : Job → Exec (Frame H) (Unit {0})
  unfolding on_rest
  record_pid job f = elim f.pid [
    | none ↦ (ok tt, f)
    | some p ↦ on_rest (pids.dump job (record { pid = p; start_time = task.now f.rest })) f
  ]

  unfoldable pub try_launch : Job → Exec (Frame H) (Unit {0})
  unfolding start_process record_pid
  try_launch job = do _ ← start_process job; record_pid job

  -- `kill` and `rmtree` of the handler, each under a `try` whose exceptions are dropped.
  unfoldable pub kill_if : Option Pid → H → H
  kill_if none h = h
  kill_if (some pid) h = ((task.kill pid).run h).1

  unfoldable pub rmtree_if : Bool → Job → H → H
  rmtree_if false job h = h
  rmtree_if true job h = ((task.rmtree (task.basedir ++ job ∷ [])).run h).1

  -- The handler: whatever `relinquish` raises is dropped too.
  unfoldable pub clean_up : Job → Frame H → World H → World H
  unfolding kill_if rmtree_if
  clean_up job f w = record w {
    rest = rmtree_if f.dirmade job (kill_if f.pid f.rest);
    quota = (relinquish f.rest task.job_quota w.quota).1;
  }

  abbrev pub launch_end : Job → World H → Result (Unit {0}) × Frame H → Result (Unit {0}) × World H
  launch_end job w (ok _, f) = (ok tt, record w { rest = f.rest })
  launch_end job w (err e, f) = (err e, clean_up job f w)

  abbrev pub launch_granted :
      Job → World H → Result (Option QuotaType) × QuotaManager H → Result (Unit {0}) × World H
  launch_granted job w (err e, m) = (err e, record w { quota = m })
  launch_granted job w (ok (some limit), m) = (ok tt, record w { quota = m; warned = true })
  launch_granted job w (ok none, m) =
      launch_end job (record w { quota = m })
        (try_launch job (record { rest = w.rest; pid = none; dirmade = false }))

  unfoldable pub launch : Job → Exec (World H) (Unit {0})
  unfolding try_launch clean_up
  launch job w = launch_granted job w (reserve w.rest task.job_quota w.quota)
