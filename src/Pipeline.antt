-- ===== src/Pipeline.antt =====
-- pydatatask/pipeline.py: the launch phase of a pipeline; and, in Rounds, its settings and rounds.
pub mod Order
pub mod Groups
pub mod Workers
pub mod Rounds
mod Tests
use Prim.Native.String.{compare}
use Prim.Native.Nat.{Ordering}
use pydatatask.Base.{
  ℕ, Bool, true, false, Option, none, some, List, [], ◌∷◌, ◌++◌, ◌&&◌, if◌then◌else◌, length,
  String,
}
use pydatatask.Base.Int.{ℤ, pos, ltb_ℤ}
use pydatatask.Base.Results.{Result, ok, err, Error, ◌>>=◌}
use pydatatask.Base.Keys.{Job, mem}
use pydatatask.Repository.{Repository}
use pydatatask.Repository.JobId.{iter}
use pydatatask.Repository.Aggregate.{unseen}

-- `(priority, task name, job)`
pub record Entry : Type 0 where
  pub priority : ℤ
  pub task : String
  pub job : Job

abbrev pub text_le : String → String → Bool
text_le a b = elim (compare a b) [ Ordering.gt ↦ false | _ ↦ true ]

abbrev pub eq_ℤ : ℤ → ℤ → Bool
eq_ℤ a b = if ltb_ℤ a b then false else if ltb_ℤ b a then false else true

-- Python's order on tuples: `a <= b`.
unfoldable pub entry_le : Entry → Entry → Bool
entry_le a b =
    if ltb_ℤ a.priority b.priority
    then true
    else if ltb_ℤ b.priority a.priority
    then false
    else if text_le a.task b.task
    then (if text_le b.task a.task then text_le a.job b.job else true)
    else false

-- `jobs.sort()`
unfoldable pub put_in : Entry → List Entry → List Entry
put_in e [] = e ∷ []
put_in e (x ∷ xs) = if entry_le e x then e ∷ x ∷ xs else x ∷ put_in e xs

unfoldable pub sort : List Entry → List Entry
unfolding put_in
sort [] = []
sort (x ∷ xs) = put_in x (sort xs)

-- The loop on `jobs.pop()`, which takes the entries from the last to the first. `current` is the last of
-- `jobs_by_priority`, and `priority` the priority of its first entry.
unfoldable pub group_from : List Entry → ℤ → List Entry → List (List Entry)
group_from current priority [] = current ∷ []
group_from current priority (e ∷ rest) =
    let joins = group_from (current ++ e ∷ []) priority rest in
    let starts = current ∷ group_from (e ∷ []) e.priority rest in
    if eq_ℤ e.priority priority then joins else starts

abbrev pub grouped : List Entry → List (List Entry)
grouped [] = []
grouped (e ∷ rest) = group_from (e ∷ []) e.priority rest

abbrev pub backwards : List Entry → List Entry
backwards [] = []
backwards (e ∷ rest) = backwards rest ++ e ∷ []

unfoldable pub by_priority : List Entry → List (List Entry)
unfolding sort group_from
by_priority jobs = grouped (backwards (sort jobs))

-- The part of a task that the launch phase reads.
pub record Task (S : Type 0) : Type 0 where
  pub name : String
  pub disabled : Bool
  pub ready : Repository S

-- `self.priority(task.name, job) if self.priority is not None else 0`
abbrev pub priority_of : Option (String → Job → ℤ) → String → Job → ℤ
priority_of none task job = pos 0
priority_of (some f) task job = f task job

unfoldable pub entries : Option (String → Job → ℤ) → String → List Job → List Entry
entries priority task [] = []
entries priority task (job ∷ jobs) =
    record { priority = priority_of priority task job; task = task; job = job }
    ∷ entries priority task jobs

module _ {S : Type 0} where
  -- A set, in some order: the jobs are sorted before the order could matter.
  unfoldable pub gather_ready_jobs : Task S → S → Result (List Job)
  gather_ready_jobs task s =
      if task.disabled then ok [] else (do jobs ← iter task.ready s; ok (unseen [] jobs))

  unfoldable pub collect_jobs : Option (String → Job → ℤ) → List (Task S) → S → Result (List Entry)
  unfolding gather_ready_jobs entries
  collect_jobs priority [] s = ok []
  collect_jobs priority (task ∷ tasks) s = do
    jobs ← gather_ready_jobs task s
    rest ← collect_jobs priority tasks s
    ok (entries priority task.name jobs ++ rest)

  -- `update_only_launch` up to the workers: the batches that are launched one after the other, and what
  -- is returned.
  unfoldable pub update_only_launch :
      Bool → Option (String → Job → ℤ) → List (Task S) → S → Result (Bool × List (List Entry))
  unfolding collect_jobs by_priority
  update_only_launch opened priority tasks s =
      if opened
      then (do
        jobs ← collect_jobs priority tasks s
        elim jobs [ [] ↦ ok (false, []) | e ∷ rest ↦ ok (true, by_priority (e ∷ rest)) ])
      else err (Error.raised 0)
