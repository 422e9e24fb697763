-- ===== src/Repository/InProcess/Tests.antt =====
-- An in-process repository, and its theorems at concrete inputs.
use pydatatask.Base.{ℕ, ◌≡◌, refl, some, [], ◌∷◌}
use pydatatask.Base.Keys.{insert}
use pydatatask.Repository.JobId.{is_valid_job_id, in_charset}
use pydatatask.Repository.InProcess.{Heap, store, dump}

abbrev heap : Heap ℕ
heap cell = ("a", some 1) ∷ []

dumped : (dump 0 "b" (some 2) heap).1 0 ≡ ("a", some 1) ∷ ("b", some 2) ∷ []
unfolding dump store insert is_valid_job_id in_charset
dumped = refl
