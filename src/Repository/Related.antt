-- ===== src/Repository/Related.antt =====
-- `RelatedItemRepository` and `RelatedItemMetadataRepository`: the keys of one repository are translated by the
-- metadata of another, whose values are None or a job. The lookup table that an object keeps is
-- explicit: `None` until the first lookup fills it.
pub mod Views
mod Tests
use pydatatask.Base.{Bool, true, false, Option, none, some, List, [], ◌∷◌, ◌&&◌, if◌then◌else◌}
use pydatatask.Base.Results.{Result, ok, err, Error, lookup_error, Exec, ◌>>=◌}
use pydatatask.Base.Keys.{Job, Dict, get, mem}
use pydatatask.Repository.{Repository, MetadataRepository, filter_ok}
use pydatatask.Repository.JobId.{iter}
use pydatatask.Repository.Filters.{skip, refuse, default_info_all}

abbrev pub Table : Type 0
Table = Option (Dict (Option Job))

abbrev pub is_nonempty : {V : Type 0} → Dict V → Bool
is_nonempty [] = false
is_nonempty (e ∷ d) = true

-- `self.prefetch_lookup.get(item)`
abbrev pub get_or_none : Option (Option Job) → Option Job
get_or_none none = none
get_or_none (some v) = v

module _ {S : Type 0} (base : Repository S) (translator : MetadataRepository S (Option Job))
    (allow_deletes prefetch : Bool) where
  -- The first test of `_lookup`: the table as it stands behind it.
  unfoldable pub prefetched : Table → S → Result Table
  prefetched (some table) s = ok (some table)
  prefetched none s = elim prefetch [
    | true ↦ (do d ← translator.info_all s; ok (some d))
    | false ↦ ok none
  ]

  -- The second test: an empty table counts as none.
  unfoldable pub consult : Table → S → Job → Result (Option Job)
  consult none s item = translator.info s item
  consult (some table) s item = elim (is_nonempty table) [
    | true ↦ ok (get_or_none (get item table))
    | false ↦ translator.info s item
  ]

  unfoldable pub lookup : Table → S → Job → Result (Option Job)
  lookup table s item = do filled ← prefetched table s; consult filled s item

  unfoldable pub contains : Table → S → Job → Result Bool
  contains table s item = do
    basename ← lookup table s item
    elim basename [ none ↦ ok false | some b ↦ base.contains s b ]

  unfoldable pub delete : Table → Job → Exec S (Unit {0})
  delete table job s =
      if allow_deletes
      then elim (lookup table s job) [
        | err e ↦ (err e, s)
        | ok none ↦ (ok tt, s)
        | ok (some b) ↦ base.delete b s
      ]
      else (ok tt, s)

  -- `basename is not None and basename in base_contents`
  unfoldable pub related_in : Table → S → List Job → Job → Result Bool
  related_in table s base_contents item = do
    basename ← lookup table s item
    elim basename [ none ↦ ok false | some b ↦ ok (mem b base_contents) ]

  unfoldable pub related_iter : Table → S → Result (List Job)
  related_iter table s = do
    base_contents ← iter base s
    items ← iter translator.repository s
    filter_ok (related_in table s base_contents) items

  unfoldable pub related : Table → Repository S
  related table = record {
    unfiltered_iter = related_iter table;
    contains = contains table;
    delete = delete table;
  }

-- `info` of `RelatedItemMetadataRepository`, and the other job getters through `__getattr__`.
module _ {S V : Type 0} (base : MetadataRepository S V)
    (translator : MetadataRepository S (Option Job)) (allow_deletes prefetch : Bool) where
  unfoldable pub related_info : Table → S → Job → Result V
  related_info table s job = do
    basename ← lookup base.repository translator allow_deletes prefetch table s job
    elim basename [ none ↦ err lookup_error | some b ↦ base.info s b ]

  unfoldable pub related_metadata : Table → MetadataRepository S V
  related_metadata table = record {
    repository = related base.repository translator allow_deletes prefetch table;
    info = related_info table;
    info_all =
        default_info_all (related base.repository translator allow_deletes prefetch table)
          (related_info table);
    dump = λ job v. refuse;
  }
