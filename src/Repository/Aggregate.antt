-- ===== src/Repository/Aggregate.antt =====
-- `AggregateAndRepository`, `AggregateOrRepository` and `BlockingRepository`. The children are the keyword
-- arguments, in order. (Their generators are consumed to the end; each child's listing is
-- taken when the iteration starts.)
pub mod Any
pub mod Every
pub mod Block
pub mod Deletes
mod Tests
use pydatatask.Base.{
  ℕ, zero, suc, ◌+◌, Bool, true, false, not, Option, none, some, List, [], ◌∷◌, ◌++◌, ◌==◌,
  if◌then◌else◌, length, String,
}
use pydatatask.Base.Results.{Result, ok, err, Error, assertion_error, Exec, ◌>>=◌}
use pydatatask.Base.Keys.{Job, mem, same}
use pydatatask.Repository.{Repository}
use pydatatask.Utils.RoundRobin.{roundrobin}

abbrev pub Children : Type 0 → Type 0
Children S = List (String × Repository S)

module _ {S : Type 0} where
  unfoldable pub iter_all : S → Children S → Result (List (List Job))
  iter_all s [] = ok []
  iter_all s ((name, child) ∷ children) = do
    items ← child.unfiltered_iter s
    rest ← iter_all s children
    ok (items ∷ rest)

-- `counting`, a Counter, as the number of times that each job was met.
unfoldable pub bump : Job → (Job → ℕ) → Job → ℕ
bump x counting y = if same x y then counting y + 1 else counting y

-- The loop of the iteration of `AggregateAndRepository`, over what `roundrobin` yields.
unfoldable pub counted : ℕ → (Job → ℕ) → List Job → List Job
counted n counting [] = []
counted n counting (item ∷ items) =
    let now = bump item counting in
    let rest = counted n now items in if now item == n then item ∷ rest else rest

-- The loop of the iteration of `AggregateOrRepository`.
unfoldable pub unseen : List Job → List Job → List Job
unseen seen [] = []
unseen seen (item ∷ items) =
    let fresh = item ∷ unseen (item ∷ seen) items in
    let old = unseen seen items in if mem item seen then old else fresh

abbrev pub flatten : List (List Job) → List Job
flatten [] = []
flatten (l ∷ ls) = l ++ flatten ls

-- The round-robin always ends, so that its `none` is met by no input.
abbrev pub or_stuck : Option (List Job) → Result (List Job)
or_stuck none = err assertion_error
or_stuck (some items) = ok items

-- The loop of `BlockingRepository`. Where `unless` is not enumerated the test is of
-- `self.unless.contains(item)`, which is not awaited: a coroutine object, and true.
unfoldable pub unblocked : Option (List Job) → List Job → List Job
unblocked blocked [] = []
unblocked blocked (item ∷ items) =
    let rest = unblocked blocked items in
    elim blocked [ none ↦ rest | some jobs ↦ if mem item jobs then rest else item ∷ rest ]

module _ {S : Type 0} where
  unfoldable pub and_iter : Children S → S → Result (List Job)
  unfolding iter_all
  and_iter children s = do
    lists ← iter_all s children
    items ← or_stuck (roundrobin lists)
    ok (counted (length children) (λ x. 0) items)

  unfoldable pub and_contains : Children S → S → Job → Result Bool
  and_contains [] s item = ok true
  and_contains ((name, child) ∷ children) s item = do
    there ← child.contains s item
    elim there [ true ↦ and_contains children s item | false ↦ ok false ]

  -- The loop of `delete`, the same in both classes. It stops at the first child that raises.
  unfoldable pub delete_all : Children S → Job → Exec S (Unit {0})
  delete_all [] job s = (ok tt, s)
  delete_all ((name, child) ∷ children) job s =
      let (result, s') = child.delete job s in
      elim result [ err e ↦ (err e, s') | ok u ↦ delete_all children job s' ]

  unfoldable pub aggregate_and : Children S → Repository S
  unfolding and_iter and_contains delete_all
  aggregate_and children = record {
    unfiltered_iter = and_iter children;
    contains = and_contains children;
    delete = delete_all children;
  }

  unfoldable pub or_iter : Children S → S → Result (List Job)
  unfolding iter_all
  or_iter children s = do lists ← iter_all s children; ok (unseen [] (flatten lists))

  unfoldable pub or_contains : Children S → S → Job → Result Bool
  or_contains [] s item = ok false
  or_contains ((name, child) ∷ children) s item = do
    there ← child.contains s item
    elim there [ true ↦ ok true | false ↦ or_contains children s item ]

  unfoldable pub aggregate_or : Children S → Repository S
  unfolding or_iter or_contains delete_all
  aggregate_or children = record {
    unfiltered_iter = or_iter children;
    contains = or_contains children;
    delete = delete_all children;
  }

  -- `assert children`, in both constructors.
  unfoldable pub construct : (Children S → Repository S) → Children S → Result (Repository S)
  construct class [] = err assertion_error
  construct class (child ∷ children) = ok (class (child ∷ children))

  unfoldable pub blocking_iter : Repository S → Repository S → Bool → S → Result (List Job)
  unfolding unblocked
  blocking_iter source unless enumerate_unless s = do
    blocked ← elim enumerate_unless [
      | true ↦ (do jobs ← unless.unfiltered_iter s; ok (some jobs))
      | false ↦ ok none
    ]
    items ← source.unfiltered_iter s
    ok (unblocked blocked items)

  unfoldable pub blocking_contains : Repository S → Repository S → S → Job → Result Bool
  blocking_contains source unless s item = do
    there ← source.contains s item
    elim there [ false ↦ ok false | true ↦ (do blocked ← unless.contains s item; ok (not blocked)) ]

  unfoldable pub blocking : Repository S → Repository S → Bool → Repository S
  unfolding blocking_iter blocking_contains
  blocking source unless enumerate_unless = record {
    unfiltered_iter = blocking_iter source unless enumerate_unless;
    contains = blocking_contains source unless;
    delete = source.delete;
  }
