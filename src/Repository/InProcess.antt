-- ===== src/Repository/InProcess.antt =====
-- `InProcessMetadataRepository`: a dictionary in memory. Objects live in a heap, so that two of them, or two
-- names of one, can share it; `cell` is the object's place.
pub mod Laws
mod Tests
use pydatatask.Base.{ℕ, Bool, true, false, Option, none, some, List, [], ◌∷◌, ◌==◌, if◌then◌else◌}
use pydatatask.Base.Results.{Result, ok, err, Error, key_error, Exec, ◌>>=◌}
use pydatatask.Base.Keys.{Job, Dict, get, insert, remove, keys, has}
use pydatatask.Repository.{Repository, MetadataRepository}
use pydatatask.Repository.JobId.{is_valid_job_id}
use pydatatask.Repository.Filters.{default_info_all}

-- A value is None or a `V`.
abbrev pub Heap : Type 0 → Type 0
Heap V = ℕ → Dict (Option V)

module _ {V : Type 0} where
  unfoldable pub store : ℕ → Dict (Option V) → Heap V → Heap V
  store cell d heap other = if cell == other then d else heap other

  -- `self.data.get(job)`: None for a job that is not there.
  unfoldable pub info : ℕ → Heap V → Job → Result (Option V)
  info cell heap job = ok (elim (get job (heap cell)) [ none ↦ none | some v ↦ v ])

  unfoldable pub dump : ℕ → Job → Option V → Exec (Heap V) (Unit {0})
  dump cell job v heap =
      if is_valid_job_id job
      then (ok tt, store cell (insert job v (heap cell)) heap)
      else (err key_error, heap)

  -- `del self.data[job]`
  unfoldable pub delete : ℕ → Job → Exec (Heap V) (Unit {0})
  delete cell job heap =
      if has job (heap cell)
      then (ok tt, store cell (remove job (heap cell)) heap)
      else (err key_error, heap)

  unfoldable pub members : ℕ → Repository (Heap V)
  members cell = record {
    unfiltered_iter = λ heap. ok (keys (heap cell));
    contains = λ heap item. ok (has item (heap cell));
    delete = delete cell;
  }

  unfoldable pub in_process : ℕ → MetadataRepository (Heap V) (Option V)
  unfolding members
  in_process cell = record {
    repository = members cell;
    info = info cell;
    info_all = default_info_all (members cell) (info cell);
    dump = dump cell;
  }
