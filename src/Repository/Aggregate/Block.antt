-- ===== src/Repository/Aggregate/Block.antt =====
-- What a blocking repository holds.
use pydatatask.Base.{
  ◌≡◌, refl, sym, ap, ◌∙◌, Bool, true, false, not, ◌&&◌, none, some, List, [], ◌∷◌, arith,
}
use pydatatask.Base.Results.{ok, ◌>>=◌}
use pydatatask.Base.Keys.{Job, mem, select, mem-select}
use pydatatask.Repository.{Repository, IsView}
use pydatatask.Repository.Aggregate.{unblocked, blocking_iter, blocking_contains, blocking}

unblocked-select :
    (jobs ys : List Job) → unblocked (some jobs) ys ≡ select (λ x. not (mem x jobs)) ys
unfolding unblocked select
unblocked-select jobs [] = refl
unblocked-select jobs (y ∷ ys) = ground (arith, unblocked-select jobs ys)

unblocked-none : (ys : List Job) → unblocked none ys ≡ []
unfolding unblocked
unblocked-none [] = refl
unblocked-none (y ∷ ys) = unblocked-none ys

module _ {S : Type 0} (source unless : Repository S) (s : S) (items blocked : List Job)
    (v : IsView source s items) (b : IsView unless s blocked) where
  contains_unblocked :
      (x : Job) → blocking_contains source unless s x ≡ ok (not (mem x blocked) && mem x items)
  unfolding blocking_contains
  contains_unblocked x = rw (v.decides x) (go (mem x items))
    where
      go :
          (there : Bool)
          → (elim there [ false ↦ ok false | true ↦ (do c ← unless.contains s x; ok (not c)) ])
            ≡ ok (not (mem x blocked) && there)
      go true = rw (b.decides x) (ground arith)
      go false = ground arith

  -- Where both repositories hold given jobs, a blocking repository that enumerates `unless` holds the jobs of `source` that `unless` does not hold, in the
  -- order of `source`, in the iteration and in the test of membership alike.
  pub blocking-IsView :
      IsView (blocking source unless true) s (select (λ x. not (mem x blocked)) items)
  unfolding blocking blocking_iter
  blocking-IsView = record {
    iterates = rw (b.iterates, v.iterates) (ap ok (unblocked-select blocked items));
    decides =
        λ x. contains_unblocked x ∙ ap ok (sym (mem-select (λ y. not (mem y blocked)) x items));
  }

  -- Where both hold given jobs, one that does not enumerate `unless` yields no job at all, whatever `source` holds, while its test
  -- of membership holds for the same jobs as that of one that enumerates.
  pub blocking_unenumerated :
      ((blocking source unless false).unfiltered_iter s ≡ ok [])
      × ((x : Job)
          → (blocking source unless false).contains s x ≡ ok (not (mem x blocked) && mem x items))
  unfolding blocking blocking_iter
  blocking_unenumerated = (rw v.iterates (ap ok (unblocked-none items)), contains_unblocked)
