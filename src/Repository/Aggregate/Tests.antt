-- ===== src/Repository/Aggregate/Tests.antt =====
-- Aggregates of two dictionaries in memory, and the theorems at concrete inputs.
use pydatatask.Base.{ℕ, zero, suc, ◌≡◌, refl, true, not, none, List, [], ◌∷◌, any, all, arith}
use pydatatask.Base.Results.{ok, err, Error}
use pydatatask.Base.Keys.{Job, mem, select, keys, has, same_iff}
use pydatatask.Utils.RoundRobin.{tally, pop, turns, total_length, roundrobin}
use pydatatask.Repository.{IsView}
use pydatatask.Repository.InProcess.{Heap, members, store, delete}
use pydatatask.Repository.InProcess.Laws.{contains-delete}
use pydatatask.Repository.Aggregate.{
  Children, aggregate_and, aggregate_or, blocking, construct, unseen, counted, bump,
}
use pydatatask.Repository.Aggregate.Any.{NoRepeat, aggregate_or-IsView}
use pydatatask.Repository.Aggregate.Every.{aggregate_and-IsView}
use pydatatask.Repository.Aggregate.Block.{blocking-IsView}
use pydatatask.Repository.Aggregate.Deletes.{Removes, Spares}

abbrev heap : Heap ℕ
heap zero = ("a", none) ∷ ("b", none) ∷ []
heap (suc n) = ("b", none) ∷ ("c", none) ∷ []

abbrev two : Children (Heap ℕ)
two = ("left", members 0) ∷ ("right", members 1) ∷ []

abbrev held : List (List Job)
held = ("a" ∷ "b" ∷ []) ∷ ("b" ∷ "c" ∷ []) ∷ []

program : Unit {0}
unfolding mem keys has tally members aggregate_or aggregate_and unseen counted bump pop turns
    total_length roundrobin
program = tt

both :
    ((aggregate_and two).unfiltered_iter heap ≡ ok ("b" ∷ []))
    × ((aggregate_or two).unfiltered_iter heap ≡ ok ("a" ∷ "b" ∷ "c" ∷ []))
unfolding program
both = (refl, refl)

no_children : construct {S = Heap ℕ} aggregate_and [] ≡ err Error.assertion_error
unfolding construct
no_children = refl

left-IsView : IsView (members 0) heap ("a" ∷ "b" ∷ [])
unfolding program
left-IsView = record { iterates = refl; decides = λ x. refl }

right-IsView : IsView (members 1) heap ("b" ∷ "c" ∷ [])
unfolding program
right-IsView = record { iterates = refl; decides = λ x. refl }

aggregate_or-IsView_example :
    (items : List Job) × IsView (aggregate_or two) heap items
    × ((x : Job) → mem x items ≡ any (mem x) held)
    × NoRepeat items
aggregate_or-IsView_example = aggregate_or-IsView heap two held (left-IsView, (right-IsView, tt))

left_once : NoRepeat ("a" ∷ "b" ∷ [])
unfolding tally
left_once x = ground (arith, same_iff x "a", same_iff x "b", same_iff "a" "b")

right_once : NoRepeat ("b" ∷ "c" ∷ [])
unfolding tally
right_once x = ground (arith, same_iff x "b", same_iff x "c", same_iff "b" "c")

aggregate_and-IsView_example :
    (items : List Job) × IsView (aggregate_and two) heap items
    × ((x : Job) → mem x items ≡ all (mem x) held)
aggregate_and-IsView_example =
    aggregate_and-IsView heap two held (left-IsView, (right-IsView, tt))
      (left_once, (right_once, tt)) (omega arith)

blocking-IsView_example :
    IsView
      (blocking (members 0) (members 1) true)
      heap
      (select (λ x. not (mem x ("b" ∷ "c" ∷ []))) ("a" ∷ "b" ∷ []))
blocking-IsView_example =
    blocking-IsView (members 0) (members 1) heap ("a" ∷ "b" ∷ []) ("b" ∷ "c" ∷ []) left-IsView
      right-IsView

removes : (cell : ℕ) → Removes "b" (members {V = ℕ} cell)
unfolding members
removes cell s h = ground (arith, (contains-delete cell "b" s).1 cell "b")

spares : Spares "b" (members {V = ℕ} 0) (members 1)
unfolding members delete store
spares s a = ground (arith, a)
