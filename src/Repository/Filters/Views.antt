-- ===== src/Repository/Filters/Views.antt =====
-- What a filtered repository holds.
use pydatatask.Base.{◌≡◌, refl, Bool, true, false, ◌&&◌, List, [], ◌∷◌, arith, if◌then◌else◌}
use pydatatask.Base.Results.{ok}
use pydatatask.Base.Keys.{Job, mem, select, mem-select}
use pydatatask.Repository.{Repository, IsView, filter_ok}
use pydatatask.Repository.Filters.{
  Filt, passes, filtered_contains, filtered_iter, filtered_delete, filter_repository,
}

-- The filter answers for every job, and `p` is its answer.
abbrev pub Decides : {S : Type 0} → Filt S → S → (Job → Bool) → Type 0
Decides filt s p = (x : Job) → passes filt s x ≡ ok (p x)

module _ {S : Type 0} (filt : Filt S) (s : S) (p : Job → Bool) (h : Decides filt s p) where
  filter_ok-select : (xs : List Job) → filter_ok (passes filt s) xs ≡ ok (select p xs)
  unfolding filter_ok select
  filter_ok-select [] = refl
  filter_ok-select (x ∷ xs) = rw (h x, filter_ok-select xs) (ground arith)

  contains_filtered :
      (base : Repository S) (items : List Job) (x : Job)
      → IsView base s items
      → filtered_contains base filt s x ≡ ok (mem x (select p items))
  unfolding filtered_contains
  contains_filtered base items x v = rw (h x, mem-select p x items) (go (p x))
    where
      go : (b : Bool) → (if b then base.contains s x else ok false) ≡ ok (b && mem x items)
      go true = v.decides x
      go false = refl

-- Filtering a repository leaves of what it holds the jobs that pass, in the iteration and in the test of
-- membership alike, where the filter answers for every job.
pub filter_repository-IsView :
    {S : Type 0} (base : Repository S) (filt : Filt S) (allow_deletes : Bool) (s : S)
    (p : Job → Bool) (items : List Job)
    → Decides filt s p
    → IsView base s items
    → IsView (filter_repository base filt allow_deletes) s (select p items)
unfolding filter_repository filtered_iter
filter_repository-IsView base filt allow_deletes s p items h v = record {
  iterates = rw v.iterates (filter_ok-select filt s p h items);
  decides = λ x. contains_filtered filt s p h base items x v;
}

-- Without `allow_deletes` a filtered repository deletes nothing, and with it exactly what its base does.
pub filter_repository-delete :
    {S : Type 0} (base : Repository S) (filt : Filt S) (job : Job) (s : S)
    → ((filter_repository base filt false).delete job s ≡ (ok tt, s))
      × ((filter_repository base filt true).delete job s ≡ base.delete job s)
unfolding filter_repository filtered_delete
filter_repository-delete base filt job s = (refl, refl)
