-- ===== src/Task/Process/Reap.antt =====
-- The update phase of `ProcessTask`: which processes are reaped, what a reap does, and the load that a task reports.
use pydatatask.Base.{
  ℕ, suc, ◌+◌, ◌-◌, Bool, true, false, Option, none, some, List, [], ◌∷◌, ◌++◌, ltb, not, length,
  if◌then◌else◌,
}
use pydatatask.Base.Int.{ℤ, pos}
use pydatatask.Base.Results.{Result, ok, err, Error, key_error, Exec}
use pydatatask.Base.Exec.{go_on, ◌>>=◌}
use pydatatask.Base.Keys.{Job, Dict, get, insert, mem, select, keys}
use pydatatask.Quota.{Quota, mul, sub, relinquish}
use pydatatask.Task.Process.{
  FilePath, Pid, Process, Pids, Action, Stderr, null, std_out, blob, Done, ProcessTask, World,
  under,
}

module _ {H : Type 0} {pids : Pids H} (task : ProcessTask pids) where
  abbrev pub done_info : ℤ → ℕ → ℕ → Bool → Done pids
  done_info code start now timeout = record {
    return_code = code;
    start_time = start;
    end_time = now;
    timeout = timeout;
  }

  abbrev pub nothing : Exec H (Unit {0})
  nothing h = (ok tt, h)

  abbrev pub collect_stdout :
      Option (Job → FilePath → Action pids (Unit {0})) → Job → Exec H (Unit {0})
  collect_stdout none job = nothing
  collect_stdout (some copy_from) job = (copy_from job (under task job "stdout")).run

  abbrev pub collect_stderr : Stderr pids → Job → Exec H (Unit {0})
  collect_stderr null job = nothing
  collect_stderr std_out job = nothing
  collect_stderr (blob copy_from) job = (copy_from job (under task job "stderr")).run

  abbrev pub dump_done :
      Option (Job → Done pids → Action pids (Unit {0})) → Job → ℕ → Bool → Exec H (Unit {0})
  dump_done none job start timeout = nothing
  dump_done (some dump) job start timeout =
      (task.read_int (under task job "return_code")).run >>= λ code h.
      (dump job (done_info code start (task.now h) timeout)).run h

  -- The `try` of `_reap` up to the line that deletes the record of the process.
  unfoldable pub collect : Job → ℕ → Bool → Exec H (Unit {0})
  collect job start timeout = do
    _ ← collect_stdout task.stdout job
    _ ← collect_stderr task.stderr job
    _ ← dump_done task.done job start timeout
    (task.rmtree (task.basedir ++ job ∷ [])).run

  -- `except Exception: if self.fail_fast: raise`
  abbrev pub logged : Error → Result (Unit {0})
  logged e = if task.fail_fast then err e else ok tt

  abbrev pub give_back : World H → Result (Unit {0}) × H → Result (Unit {0}) × World H
  give_back w (err e, h) = (logged e, record w { rest = h })
  give_back w (ok _, h) =
      let r = relinquish h task.job_quota w.quota in
      (elim r.0 [ ok _ ↦ ok tt | err e ↦ logged e ], record w { rest = h; quota = r.1 })

  unfoldable pub reap : Job → ℕ → Bool → Exec (World H) (Unit {0})
  unfolding collect
  reap job start timeout w =
      give_back w (go_on (collect job start timeout w.rest) (λ _. pids.delete job))

  -- `_timeout_reap`: `timeout` is not passed on. What `kill` raises is raised when `_reap` is over, unless
  -- that raises itself.
  abbrev pub timeout_reap : Job → Pid → ℕ → Exec (World H) (Unit {0})
  timeout_reap job pid start w =
      let k = (task.kill pid).run w.rest in
      let r = reap job start false (record w { rest = k.1 }) in
      (elim r.0 [ ok _ ↦ k.0 | err e ↦ err e ], r.1)

  -- `pid_map`, where a later job takes the place of an earlier one with the same pid.
  unfoldable pub map_pids : Dict Process → Dict Job → Dict Job
  map_pids [] acc = acc
  map_pids ((job, p) ∷ rest) acc = map_pids rest (insert p.pid job acc)

  unfoldable pub pid_map : Dict Process → Dict Job
  unfolding map_pids
  pid_map d = map_pids d []

  unfoldable pub timed_out : ℕ → Process → Bool
  timed_out now p = elim task.timeout [ none ↦ false | some t ↦ ltb (p.start_time + t) now ]

  unfoldable pub timeout_set : ℕ → Dict Process → List Job
  unfolding timed_out
  timeout_set now [] = []
  timeout_set now ((job, p) ∷ rest) =
      let more = timeout_set now rest in if timed_out now p then job ∷ more else more

  -- A coroutine of the list `coros`.
  pub data Coro : Type 0 where
    reaps : Job → ℕ → Coro
    timeout_reaps : Job → Pid → ℕ → Coro

  -- `job = pid_map[pid]; start_time = job_map[job]["start_time"]`
  unfoldable pub found_job : Dict Process → Dict Job → Pid → Result (Job × ℕ)
  found_job job_map map pid = elim (get pid map) [
    | none ↦ err key_error
    | some job ↦ elim (get job job_map) [ none ↦ err key_error | some p ↦ ok (job, p.start_time) ]
  ]

  abbrev pub one_more :
      (Job → ℕ → Pid → Coro) → Pid → Result (Job × ℕ) → Result (List Coro) → Result (List Coro)
  one_more make pid (err e) more = err e
  one_more make pid (ok x) (err e) = err e
  one_more make pid (ok x) (ok cs) = ok (make x.0 x.1 pid ∷ cs)

  unfoldable pub coros_of :
      (Job → ℕ → Pid → Coro) → Dict Process → Dict Job → List Pid → Result (List Coro)
  coros_of make job_map map [] = ok []
  coros_of make job_map map (pid ∷ rest) =
      one_more make pid (found_job job_map map pid) (coros_of make job_map map rest)

  -- The difference of two sets.
  abbrev pub without : List Pid → List Pid → List Pid
  without xs ys = select (λ x. not (mem x ys)) xs

  -- The two loops: the jobs of `timeout_set` are looked up as pids.
  unfoldable pub schedule : ℕ → Dict Process → List Pid → Result (List Coro)
  unfolding coros_of pid_map timeout_set
  schedule now job_map live =
      let map = pid_map job_map in
      let died = without (keys map) live in
      elim (coros_of (λ job start pid. reaps job start) job_map map died) [
        | err e ↦ err e
        | ok cs ↦
            elim (coros_of (λ job start pid. timeout_reaps job pid start) job_map map
              (without (timeout_set now job_map) died)) [ err e ↦ err e | ok ts ↦ ok (cs ++ ts) ]
      ]

  abbrev pub perform : Coro → Exec (World H) (Unit {0})
  perform (reaps job start) = reap job start false
  perform (timeout_reaps job pid start) = timeout_reap job pid start

  -- `asyncio.gather`, one coroutine after the other: each is run, and the first exception is raised.
  unfoldable pub gather : List Coro → Exec (World H) (Unit {0})
  unfolding reap
  gather [] w = (ok tt, w)
  gather (c ∷ cs) w =
      let r = perform c w in
      let rest = gather cs r.1 in (elim r.0 [ ok _ ↦ rest.0 | err e ↦ err e ], rest.1)

  -- What `update` returns where nothing was raised: whether any process was expected to live.
  abbrev pub answer : Dict Process → Result (Unit {0}) × World H → Result Bool × World H
  answer job_map (err e, w) = (err e, w)
  answer [] (ok _, w) = (ok false, w)
  answer (x ∷ job_map) (ok _, w) = (ok true, w)

  abbrev pub update_from : Dict Process → World H → Result Bool × World H
  update_from job_map w = elim (task.get_live_pids (keys (pid_map job_map)) w.rest) [
    | err e ↦ answer job_map (logged e, w)
    | ok live ↦ elim (schedule (task.now w.rest) job_map live) [
      | err e ↦ (err e, w)
      | ok cs ↦ answer job_map (gather cs w)
    ]
  ]

  unfoldable pub update : Exec (World H) Bool
  unfolding pid_map schedule gather
  update w =
      let w' = record w { warned = false } in
      elim (pids.info_all w.rest) [ err e ↦ (err e, w') | ok job_map ↦ update_from job_map w' ]

  -- The number of processes that were started within the window: `start_time > now - window`.
  unfoldable pub recent : ℕ → ℕ → Dict Process → ℕ
  recent now window [] = 0
  recent now window ((job, p) ∷ rest) =
      let n = recent now window rest in if ltb now (p.start_time + window) then suc n else n

  unfoldable pub get_load : ℕ → H → Result Quota
  unfolding recent
  get_load window h = elim (pids.info_all h) [
    | err e ↦ err e
    | ok job_map ↦
        let n = length job_map in
        ok (
          sub (mul task.job_quota (pos n)) (record {
            cpu = pos 0;
            mem = pos 0;
            launches = pos (n - recent (task.now h) window job_map);
          }))
  ]
