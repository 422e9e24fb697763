-- ===== src/Repository/JobId/Tests.antt =====
-- Job identifiers: examples, and the theorems at concrete inputs.
use pydatatask.Base.{◌≡◌, refl, true, false, List}
use pydatatask.Base.Results.{ok, err, Error}
use pydatatask.Base.Keys.{Job, mem, select}
use pydatatask.Repository.{Repository}
use pydatatask.Repository.JobId.{
  in_charset, is_valid_codes, is_valid_job_id, filter_jobs, iter, default_contains,
}

program : Unit {0}
unfolding in_charset is_valid_codes is_valid_job_id filter_jobs iter default_contains select mem
program = tt

accepted :
    (is_valid_job_id "job7" ≡ true) × (is_valid_job_id "" ≡ false) × (is_valid_job_id "a-b" ≡ false)
unfolding program
accepted = (refl, refl, refl)

abbrev listing : Repository (List Job)
listing = record {
  unfiltered_iter = λ s. ok s;
  contains = λ s x. ok (mem x s);
  delete = λ x s. (err Error.key_error, s);
}
