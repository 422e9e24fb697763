-- ===== src/Repository/JobId.antt =====
-- Which texts are job identifiers, and what iterating a repository yields.
pub mod Charset
mod Tests
use pydatatask.Base.{
  ℕ, ◌≤◌, Bool, true, false, ◌&&◌, ◌||◌, List, [], ◌∷◌, leb, ltb, length, all, if◌then◌else◌,
}
use pydatatask.Base.Results.{Result, ok, err, ◌>>=◌}
use pydatatask.Base.Keys.{Job, codes, same, select}
use pydatatask.Repository.{Repository}

-- `string.ascii_letters + string.digits`
unfoldable pub in_charset : ℕ → Bool
in_charset c =
    (leb b'a' c && leb c b'z') || ((leb b'A' c && leb c b'Z') || (leb b'0' c && leb c b'9'))

-- `job[0]` and `job[-1]`, which are asked for only if the text is not empty.
abbrev pub first_in : List ℕ → Bool
first_in [] = false
first_in (c ∷ cs) = in_charset c

abbrev pub last_in : List ℕ → Bool
last_in [] = false
last_in (c ∷ []) = in_charset c
last_in (c ∷ d ∷ cs) = last_in (d ∷ cs)

unfoldable pub is_valid_codes : List ℕ → Bool
is_valid_codes cs =
    (ltb 0 (length cs) && leb (length cs) 64) && (all in_charset cs && (first_in cs && last_in cs))

unfoldable pub is_valid_job_id : Job → Bool
unfolding is_valid_codes
is_valid_job_id job = is_valid_codes (codes job)

unfoldable pub filter_jobs : List Job → List Job
filter_jobs jobs = select is_valid_job_id jobs

-- The loop of `Repository.contains`.
abbrev pub found : Job → List Job → Bool
found item [] = false
found item (x ∷ xs) = same x item || found item xs

module _ {S : Type 0} where
  -- `async for job in repository`
  unfoldable pub iter : Repository S → S → Result (List Job)
  iter r s = do jobs ← r.unfiltered_iter s; ok (filter_jobs jobs)

  -- `Repository.contains`, for the classes that do not override it.
  unfoldable pub default_contains : Repository S → S → Job → Result Bool
  default_contains r s item = do jobs ← iter r s; ok (found item jobs)
