-- ===== src/Repository/Related/Tests.antt =====
-- Results looked up under the names of their inputs.
use pydatatask.Base.{◌≡◌, inl, refl, true, false, Option, none, some, List, [], ◌∷◌, arith}
use pydatatask.Base.Results.{ok, err, Error}
use pydatatask.Base.Keys.{Job, Dict, get, mem, select, same_iff}
use pydatatask.Repository.{Repository, MetadataRepository, IsView}
use pydatatask.Repository.JobId.{is_valid_job_id, in_charset, filter_jobs}
use pydatatask.Repository.Filters.{refuse}
use pydatatask.Repository.Related.{related, get_or_none, contains, lookup, prefetched, consult}
use pydatatask.Repository.Related.Views.{Translates, held_by, related-IsView}

abbrev table : Dict (Option Job)
table = ("x", some "a") ∷ ("y", some "z") ∷ []

abbrev target : Job → Option Job
target x = get_or_none (get x table)

abbrev listing : List Job → Repository (Unit {0})
listing jobs = record {
  unfiltered_iter = λ s. ok jobs;
  contains = λ s x. ok (mem x jobs);
  delete = λ x s. (err Error.key_error, s);
}

abbrev names : MetadataRepository (Unit {0}) (Option Job)
names = record {
  repository = listing ("x" ∷ "y" ∷ []);
  info = λ s x. ok (target x);
  info_all = λ s. ok table;
  dump = λ x v. refuse;
}

-- The table is not yet filled.
names-Translates : Translates names tt target true none
names-Translates = (table, refl, inl (refl, λ x. refl))

untranslated : (x : Job) → mem x ("x" ∷ "y" ∷ []) ≡ false → target x ≡ none
unfolding mem get
untranslated x h = ground (arith, same_iff x "x", same_iff "x" x, same_iff x "y", same_iff "y" x)

related-IsView_example :
    IsView
      (related (listing ("a" ∷ [])) names false true none)
      tt
      (select (held_by target ("a" ∷ [])) ("x" ∷ "y" ∷ []))
unfolding filter_jobs select is_valid_job_id in_charset
related-IsView_example =
    related-IsView (listing ("a" ∷ [])) names false true none tt target names-Translates ("a" ∷ [])
      ("x" ∷ "y" ∷ []) (record { iterates = refl; decides = λ x. refl }) refl untranslated refl refl

abbrev stale_table : Dict (Option Job)
stale_table = ("y", some "a") ∷ []

-- A table that was filled before is read, though the translator now says otherwise.
stale :
    (related (listing ("a" ∷ [])) names false true (some stale_table)).contains tt "x" ≡ ok false
unfolding related contains lookup prefetched consult get
stale = refl
