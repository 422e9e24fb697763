-- ===== src/Repository/Filters.antt =====
-- `MapRepository`, `FilterRepository`, `FilterMetadataRepository` and `FunctionCallMetadataRepository`.
-- The functions that a user passes may read the state and may raise.
pub mod Views
pub mod Infos
mod Tests
use pydatatask.Base.{Bool, true, false, Option, none, some, List, [], ◌∷◌, if◌then◌else◌}
use pydatatask.Base.Results.{Result, ok, err, Error, type_error, Exec, ◌>>=◌}
use pydatatask.Base.Keys.{Job, Dict, insert}
use pydatatask.Repository.{Repository, MetadataRepository, filter_ok}
use pydatatask.Repository.JobId.{iter}

abbrev pub Filt : Type 0 → Type 0
Filt S = Option (S → Job → Result Bool)

abbrev pub skip : {S : Type 0} → Exec S (Unit {0})
skip s = (ok tt, s)

abbrev pub refuse : {S : Type 0} → Exec S (Unit {0})
refuse s = (err type_error, s)

module _ {S : Type 0} where
  -- `self.filter is None or await self.filter(item)`
  unfoldable pub passes : Filt S → S → Job → Result Bool
  passes none s item = ok true
  passes (some f) s item = f s item

  unfoldable pub filtered_contains : Repository S → Filt S → S → Job → Result Bool
  filtered_contains base filt s item = do
    kept ← passes filt s item
    if kept then base.contains s item else ok false

  unfoldable pub filtered_delete : Repository S → Bool → Job → Exec S (Unit {0})
  filtered_delete base allow_deletes job = if allow_deletes then base.delete job else skip

  unfoldable pub filtered_iter : Repository S → Filt S → S → Result (List Job)
  filtered_iter base filt s = do items ← base.unfiltered_iter s; filter_ok (passes filt s) items

  unfoldable pub filter_repository : Repository S → Filt S → Bool → Repository S
  unfolding passes filtered_contains filtered_delete filtered_iter
  filter_repository base filt allow_deletes = record {
    unfiltered_iter = filtered_iter base filt;
    contains = filtered_contains base filt;
    delete = filtered_delete base allow_deletes;
  }

module _ {S V U : Type 0} where
  -- The loop of `MapRepository.info_all`: a value is replaced where the filter passes, and its key is
  -- popped where it does not.
  unfoldable pub map_entries : Filt S → (S → V → Result U) → S → Dict V → Result (Dict U)
  unfolding passes
  map_entries filt func s [] = ok []
  map_entries filt func s ((k, v) ∷ entries) = do
    kept ← passes filt s k
    v' ← if kept then (do u ← func s v; ok (some u)) else ok none
    rest ← map_entries filt func s entries
    ok (elim v' [ none ↦ rest | some u ↦ (k, u) ∷ rest ])

  unfoldable pub map_repository :
      MetadataRepository S V → (S → V → Result U) → Filt S → Bool → MetadataRepository S U
  unfolding filter_repository map_entries
  map_repository base func filt allow_deletes = record {
    repository = filter_repository base.repository filt allow_deletes;
    info = λ s job. (do v ← base.info s job; func s v);
    info_all = λ s. (do entries ← base.info_all s; map_entries filt func s entries);
    dump = λ job v. refuse;
  }

-- What the class overrides of the base class, apart from `info`.
unfoldable pub call_domain : {S : Type 0} → Repository S → Repository S
unfolding iter
call_domain domain = record {
  unfiltered_iter = iter domain;
  contains = domain.contains;
  delete = λ job. skip;
}

module _ {S V : Type 0} where
  -- The loops of `FilterMetadataRepository.info_all`: a key is popped if there is a filter and it passes.
  unfoldable pub pop_entries : Filt S → S → Dict V → Result (Dict V)
  pop_entries filt s [] = ok []
  pop_entries filt s ((k, v) ∷ entries) = do
    popped ← elim filt [ none ↦ ok false | some f ↦ f s k ]
    rest ← pop_entries filt s entries
    ok (if popped then rest else (k, v) ∷ rest)

  unfoldable pub filter_metadata_repository :
      MetadataRepository S V → Filt S → Bool → MetadataRepository S V
  unfolding filter_repository pop_entries
  filter_metadata_repository base filt allow_deletes = record {
    repository = filter_repository base.repository filt allow_deletes;
    info = base.info;
    info_all = λ s. (do entries ← base.info_all s; pop_entries filt s entries);
    dump = λ job v. refuse;
  }

  -- The default `info_all`: `{job: await info(job) async for job in self}`.
  unfoldable pub collect : (S → Job → Result V) → S → List Job → Dict V → Result (Dict V)
  collect info s [] result = ok result
  collect info s (job ∷ jobs) result = do v ← info s job; collect info s jobs (insert job v result)

  unfoldable pub default_info_all : Repository S → (S → Job → Result V) → S → Result (Dict V)
  unfolding collect iter
  default_info_all r info s = do jobs ← iter r s; collect info s jobs []

  unfoldable pub function_call_repository :
      (S → Job → Result V) → Repository S → MetadataRepository S V
  unfolding call_domain default_info_all
  function_call_repository function domain = record {
    repository = call_domain domain;
    info = function;
    info_all = default_info_all (call_domain domain) function;
    dump = λ job v. refuse;
  }
