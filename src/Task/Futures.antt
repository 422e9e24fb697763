-- ===== src/Task/Futures.antt =====
-- `ExecutorTask` of pydatatask/task.py: jobs that run as futures of an executor. A future is a key of `jobs` and the value of
-- its job in `rev_jobs`. `E` is the executor's state with that of the repositories; the executor, the futures
-- and the repository are the language's library's and others' code. `E` holds which futures are done.
pub mod Inverse
mod Tests
use pydatatask.Base.{
  ℕ, zero, suc, Bool, true, false, not, ◌&&◌, Option, none, some, List, [], ◌∷◌, String,
  if◌then◌else◌,
}
use pydatatask.Base.Results.{Result, ok, err, Error, key_error, Exec}
use pydatatask.Base.Exec.{go_on, ◌>>=◌}
use pydatatask.Base.Keys.{Job, Dict, get, insert, remove, same}

-- Futures are compared by identity: each has a name of its own.
abbrev pub Future : Type 0
Future = String

-- What `_cleanup` stores: the end time of a result, or that an exception ended the job now.
pub data Outcome : Type 0 where
  success : ℕ → Outcome
  exception : Error → ℕ → Outcome

pub record ExecutorTask (E : Type 0) : Type 0 where
  pub now : E → ℕ
  pub synchronous : Bool
  -- `build_env` and `executor.submit`.
  pub build_env : Job → Exec E (Unit {0})
  pub submit : Job → Exec E Future
  -- The polling until the future is done.
  pub await_done : Future → E → E
  -- The futures among these that are done; what a done future holds.
  pub wait : List Future → E → List Future
  pub result_of : Future → E → Result ℕ
  pub cancel : Future → E → E
  pub dump_done : Job → Outcome → ℕ → Exec E (Unit {0})

pub record State (E : Type 0) : Type 0 where
  pub rest : E
  pub jobs : Dict (Job × ℕ)
  pub rev_jobs : Dict Future

module _ {E : Type 0} (task : ExecutorTask E) where
  abbrev pub outcome : Result ℕ → ℕ → Outcome
  outcome (ok end_time) now = success end_time
  outcome (err e) now = exception e now

  unfoldable pub clean_up : Future → Job → ℕ → Exec E (Unit {0})
  clean_up future job start_time e =
      task.dump_done job (outcome (task.result_of future e) (task.now e)) start_time e

  -- `d.pop(k)`
  abbrev pub pop_of : {V : Type 0} → Option V → Result V
  pop_of none = err key_error
  pop_of (some v) = ok v

  abbrev pub popped : Future → Result (Job × ℕ) → Exec (State E) (Job × ℕ)
  popped future (err e) s = (err e, s)
  popped future (ok found) s =
      let s' = record s { jobs = remove future s.jobs } in
      elim (get found.0 s.rev_jobs) [
        | none ↦ (err key_error, s')
        | some f ↦ (ok found, record s' { rev_jobs = remove found.0 s.rev_jobs })
      ]

  -- The loop of `update` over the futures that are done: both pops for each, and the coroutines that
  -- clean up.
  unfoldable pub pop_done : List Future → Exec (State E) (List (Future × Job × ℕ))
  pop_done [] s = (ok [], s)
  pop_done (f ∷ fs) s =
      go_on (popped f (pop_of (get f s.jobs)) s)
        (λ found s'. go_on (pop_done fs s') (λ rest s''. (ok ((f, found.0, found.1) ∷ rest), s'')))

  -- `asyncio.gather`, one coroutine after the other.
  unfoldable pub clean_all : List (Future × Job × ℕ) → Exec E (Unit {0})
  unfolding clean_up
  clean_all [] e = (ok tt, e)
  clean_all ((f, job, start) ∷ rest) e =
      let r = clean_up f job start e in
      let more = clean_all rest r.1 in (elim r.0 [ ok _ ↦ more.0 | err x ↦ err x ], more.1)

  abbrev pub any_jobs : Dict (Job × ℕ) → Bool
  any_jobs [] = false
  any_jobs (j ∷ js) = true

  abbrev pub futures : Dict (Job × ℕ) → List Future
  futures [] = []
  futures ((f, j) ∷ d) = f ∷ futures d

  unfoldable pub update : Exec (State E) Bool
  unfolding pop_done clean_all
  update s = go_on (pop_done (task.wait (futures s.jobs) s.rest) s) λ found s'.
      let r = clean_all found s'.rest in
      (elim r.0 [ ok _ ↦ ok (any_jobs s.jobs) | err x ↦ err x ], record s' { rest = r.1 })

  abbrev pub launched : Job → ℕ → Future × E → Bool → Exec (State E) (Unit {0})
  launched job start (future, e) true s =
      let r = clean_up future job start (task.await_done future e) in (r.0, record s { rest = r.1 })
  launched job start (future, e) false s = (
    ok tt,
    record {
      rest = e;
      jobs = insert future (job, start) s.jobs;
      rev_jobs = insert job future s.rev_jobs;
    },
  )

  -- Behind `executor.submit`, which raises where the executor is shut down.
  abbrev pub submitted : Job → ℕ → State E → Result Future × E → Result (Unit {0}) × State E
  submitted job start s (err x, e) = (err x, record s { rest = e })
  submitted job start s (ok future, e) = launched job start (future, e) task.synchronous s

  abbrev pub built : Job → State E → Result (Unit {0}) × E → Result (Unit {0}) × State E
  built job s (err x, e) = (err x, record s { rest = e })
  built job s (ok _, e) = submitted job (task.now e) s (task.submit job e)

  unfoldable pub launch : Job → Exec (State E) (Unit {0})
  unfolding clean_up
  launch job s = built job s (task.build_env job s.rest)

  -- `future.cancel()`, then `self.jobs.pop(future)`.
  abbrev pub cancelled : Job → State E → Option Future → Result (Unit {0}) × State E
  cancelled job s none = (err key_error, s)
  cancelled job s (some future) =
      let s' = record s { rest = task.cancel future s.rest; rev_jobs = remove job s.rev_jobs } in
      elim (get future s.jobs) [
        | none ↦ (err key_error, s')
        | some found ↦ (ok tt, record s' { jobs = remove future s.jobs })
      ]

  unfoldable pub cancel : Job → Exec (State E) (Unit {0})
  cancel job s = cancelled job s (get job s.rev_jobs)
