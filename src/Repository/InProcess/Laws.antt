-- ===== src/Repository/InProcess/Laws.antt =====
-- The dictionary of an in-process repository behaves as a key-value store.
use pydatatask.Base.{
  ℕ, ◌≡◌, refl, ap, ◌∙◌, false, ◌&&◌, Option, none, some, List, [], ◌∷◌, ◌==◌, if◌then◌else◌, arith,
}
use pydatatask.Base.Results.{Result, ok, err, key_error}
use pydatatask.Base.Keys.{
  Job, Dict, get, insert, remove, keys, has, mem, mem-select, select, same, same_iff, get-insert,
  get-remove, has-get,
}
use pydatatask.Repository.JobId.{is_valid_job_id, filter_jobs, iter}
use pydatatask.Repository.Filters.{collect, default_info_all}
use pydatatask.Repository.Filters.Infos.{Found}
use pydatatask.Repository.InProcess.{Heap, store, info, dump, delete, members, in_process}

module _ {V : Type 0} (cell : ℕ) (job : Job) (heap : Heap V) where
  -- A dump under a valid identifier is what `info` then gives for it, in this repository and no other, and for
  -- every other job, and every other repository, what it gave before; under any other text the dump
  -- raises KeyError and every `info` gives what it gave before.
  pub info-dump :
      (v : Option V)
      → ((dump cell job v heap).0 ≡ (if is_valid_job_id job then ok tt else err key_error))
        × ((c : ℕ) (j : Job)
            → info c (dump cell job v heap).1 j ≡ (
                if is_valid_job_id job && ((cell == c) && same job j) then ok v else info c heap j))
  unfolding dump info store
  info-dump v =
      (ground arith, λ c j. ground (arith, get-insert job j v (heap c), ap heap {x = cell} {y = c}))

  -- A delete removes its job, in this repository and no other, and no other job; where the job is not there, it
  -- raises KeyError.
  pub contains-delete :
      ((delete cell job heap).0 ≡ (if has job (heap cell) then ok tt else err key_error))
      × ((c : ℕ) (j : Job)
          → (members c).contains (delete cell job heap).1 j
            ≡ (if (cell == c) && same job j then ok false else (members c).contains heap j))
  unfolding delete store members
  contains-delete = (
    ground arith,
    λ c j. ground (
      arith,
      same_iff job j,
      ap (λ x. has x (heap cell)) {x = job} {y = j},
      has-get j (remove job (heap cell)),
      get-remove job j (heap cell),
      has-get j (heap cell),
      ap heap {x = cell} {y = c},
    ),
  )

module _ {S V : Type 0} (f : Job → V) (s : S) (info' : S → Job → Result V)
    (answers : (x : Job) → info' s x ≡ ok (f x)) where
  pub collect-Found :
      (jobs : List Job) (acc : Dict V)
      → Found (collect info' s jobs acc) (λ k. if mem k jobs then some (f k) else get k acc)
  unfolding collect mem
  collect-Found [] acc = (acc, refl, λ k. refl)
  collect-Found (j ∷ jobs) acc =
      let (d, e, g) = collect-Found jobs (insert j (f j) acc) in
      (
        d,
        rw (answers j) e,
        λ k. ground (arith, g k, get-insert j k (f j) acc, same_iff j k, same_iff k j),
      )

module _ {V : Type 0} (cell : ℕ) (heap : Heap V) where
  abbrev value : Job → Option V
  value x = elim (get x (heap cell)) [ none ↦ none | some v ↦ v ]

  abbrev valid_keys : List Job
  valid_keys = select is_valid_job_id (keys (heap cell))

  shown :
      (k : Job)
      → (if mem k valid_keys then some (value k) else none)
        ≡ (if is_valid_job_id k && has k (heap cell) then get k (heap cell) else none)
  unfolding has
  shown k = ground (arith, mem-select is_valid_job_id k (keys (heap cell)), has-get k (heap cell))

  -- `info_all` of an in-process repository gives the value of every job that is there under a valid
  -- identifier, and nothing else.
  pub in_process-info_all :
      Found
        ((in_process cell).info_all heap)
        (λ k. if is_valid_job_id k && has k (heap cell) then get k (heap cell) else none)
  unfolding in_process default_info_all iter members filter_jobs
  in_process-info_all =
      let (d, e, g) =
        collect-Found value heap (info cell) (λ x. unfold info in refl) valid_keys [] in
      (d, e, λ k. g k ∙ unfold get in shown k)
