-- ===== src/Repository/JobId/Charset.antt =====
-- What `is_valid_job_id` accepts.
use pydatatask.Base.{
  ℕ, ◌≤◌, ◌<◌, ◌≡◌, ◌↔◌, ◌⊎◌, inl, inr, refl, true, ◌&&◌, List, [], ◌∷◌, length, all, All, arith,
  Bool-cases,
}
use pydatatask.Base.Results.{ok}
use pydatatask.Base.Keys.{Job, codes, same_iff, mem, select, mem-select}
use pydatatask.Repository.{Repository}
use pydatatask.Repository.JobId.{
  in_charset, last_in, is_valid_codes, is_valid_job_id, filter_jobs, iter, found, default_contains,
}

-- A letter or a digit of ASCII.
abbrev pub IsAlnum : ℕ → Type 0
IsAlnum c = (b'a' ≤ c) × (c ≤ b'z') ⊎ (b'A' ≤ c) × (c ≤ b'Z') ⊎ (b'0' ≤ c) × (c ≤ b'9')

in_charset→IsAlnum : (c : ℕ) → in_charset c ≡ true → IsAlnum c
unfolding in_charset
in_charset→IsAlnum c h = ground arith

IsAlnum→in_charset : (c : ℕ) → IsAlnum c → in_charset c ≡ true
unfolding in_charset
IsAlnum→in_charset c h = ground arith

all→All : (cs : List ℕ) → all in_charset cs ≡ true → All IsAlnum cs
all→All [] h = tt
all→All (c ∷ cs) h = elim (Bool-cases (in_charset c)) [
  | inl e ↦ (in_charset→IsAlnum c e, all→All cs (rw e at h))
  | inr e ↦ absurd (ground arith)
]

All→all : (cs : List ℕ) → All IsAlnum cs → all in_charset cs ≡ true
All→all [] h = refl
All→all (c ∷ cs) h = rw (IsAlnum→in_charset c h.0) (All→all cs h.1)

last_of_All : (c : ℕ) (cs : List ℕ) → All IsAlnum (c ∷ cs) → last_in (c ∷ cs) ≡ true
last_of_All c [] h = IsAlnum→in_charset c h.0
last_of_All c (d ∷ cs) h = last_of_All d cs h.1

to_All :
    (cs : List ℕ) → is_valid_codes cs ≡ true → (0 < length cs) × (length cs ≤ 64) × All IsAlnum cs
unfolding is_valid_codes
to_All cs h = (ground arith, ground arith, all→All cs (ground arith))

of_All : (cs : List ℕ) → 0 < length cs → length cs ≤ 64 → All IsAlnum cs → is_valid_codes cs ≡ true
unfolding is_valid_codes
of_All [] p q h = absurd (omega arith)
of_All (c ∷ cs) p q h =
    ground (arith, All→all (c ∷ cs) h, last_of_All c cs h, IsAlnum→in_charset c h.0)

-- A text is a job identifier exactly when it has 1 to 64 characters, all of them ASCII letters or digits: the
-- tests of its first and last character add nothing.
pub is_valid_job_id_iff :
    (job : Job)
    → (is_valid_job_id job ≡ true)
      ↔ ((0 < length (codes job)) × (length (codes job) ≤ 64) × All IsAlnum (codes job))
unfolding is_valid_job_id
is_valid_job_id_iff job = (to_All (codes job), λ (p, q, h). of_All (codes job) p q h)

found-mem : (x : Job) (ys : List Job) → found x ys ≡ mem x ys
unfolding mem
found-mem x [] = refl
found-mem x (y ∷ ys) = ground (arith, found-mem x ys, same_iff x y, same_iff y x)

-- The default membership test finds exactly the valid identifiers among what the repository yields.
pub default_contains-mem :
    {S : Type 0} (r : Repository S) (s : S) (items : List Job) (x : Job)
    → r.unfiltered_iter s ≡ ok items
    → default_contains r s x ≡ ok (is_valid_job_id x && mem x items)
unfolding default_contains iter filter_jobs
default_contains-mem r s items x h =
    rw (h, found-mem x (select is_valid_job_id items), mem-select is_valid_job_id x items) refl
