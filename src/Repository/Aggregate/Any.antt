-- ===== src/Repository/Aggregate/Any.antt =====
-- What an or-aggregate holds.
use pydatatask.Base.{
  ◌≤◌, ◌≡◌, refl, sym, ap, ◌∙◌, not, ◌&&◌, ◌||◌, List, [], ◌∷◌, any, arith, if◌then◌else◌, length,
}
use pydatatask.Base.Results.{ok}
use pydatatask.Base.Keys.{Job, mem, mem-append, same, same_iff}
use pydatatask.Utils.RoundRobin.{tally}
use pydatatask.Repository.{IsView}
use pydatatask.Repository.Aggregate.{
  Children, iter_all, unseen, flatten, or_iter, or_contains, aggregate_or,
}

-- Each child holds, in order, the jobs at its place in the list.
abbrev pub Views : {S : Type 0} → S → Children S → List (List Job) → Type 0
Views s [] [] = Unit
Views s ((name, child) ∷ children) (l ∷ ls) = IsView child s l × Views s children ls
Views s [] (l ∷ ls) = ⊥
Views s (c ∷ children) [] = ⊥

-- No job stands twice in the list.
abbrev pub NoRepeat : List Job → Type 0
NoRepeat l = (x : Job) → tally (same x) l ≤ 1

pub iter_all-Views :
    {S : Type 0} (s : S) (children : Children S) (ls : List (List Job))
    → Views s children ls
    → (iter_all s children ≡ ok ls) × (length children ≡ length ls)
unfolding iter_all
iter_all-Views s [] [] v = (refl, refl)
iter_all-Views s ((name, child) ∷ children) (l ∷ ls) v =
    let (e, n) = iter_all-Views s children ls v.1 in (rw (v.0.iterates, e) refl, omega arith)
iter_all-Views s [] (l ∷ ls) v = absurd v
iter_all-Views s (c ∷ children) [] v = absurd v

mem-flatten : (x : Job) (ls : List (List Job)) → mem x (flatten ls) ≡ any (mem x) ls
unfolding mem
mem-flatten x [] = refl
mem-flatten x (l ∷ ls) = mem-append x l (flatten ls) ∙ ap (λ b. mem x l || b) (mem-flatten x ls)

mem-unseen :
    (x : Job) (seen ys : List Job) → mem x (unseen seen ys) ≡ (not (mem x seen) && mem x ys)
unfolding unseen mem
mem-unseen x seen [] = ground arith
mem-unseen x seen (y ∷ ys) =
    ground (arith, mem-unseen x seen ys, mem-unseen x (y ∷ seen) ys, same_iff x y)

tally-unseen :
    (x : Job) (seen ys : List Job) → tally (same x) (unseen seen ys) ≤ (if mem x seen then 0 else 1)
unfolding unseen mem tally
tally-unseen x seen [] = ground arith
tally-unseen x seen (y ∷ ys) =
    ground (arith, tally-unseen x seen ys, tally-unseen x (y ∷ seen) ys, same_iff x y)

or_contains-any :
    {S : Type 0} (s : S) (children : Children S) (ls : List (List Job)) (x : Job)
    → Views s children ls
    → or_contains children s x ≡ ok (any (mem x) ls)
unfolding or_contains
or_contains-any s [] [] x v = refl
or_contains-any s ((name, child) ∷ children) (l ∷ ls) x v =
    rw (v.0.decides x) (ground (arith, or_contains-any s children ls x v.1))
or_contains-any s [] (l ∷ ls) x v = absurd v
or_contains-any s (c ∷ children) [] x v = absurd v

-- Where the children hold given jobs, an or-aggregate of them holds the jobs that some child holds, in the
-- iteration and in the test of membership alike, and the iteration yields none of them twice.
pub aggregate_or-IsView :
    {S : Type 0} (s : S) (children : Children S) (ls : List (List Job))
    → Views s children ls
    → (items : List Job) × IsView (aggregate_or children) s items
      × ((x : Job) → mem x items ≡ any (mem x) ls)
      × NoRepeat items
unfolding aggregate_or or_iter mem
aggregate_or-IsView s children ls v = (
  unseen [] (flatten ls),
  record {
    iterates = rw (iter_all-Views s children ls v).0 refl;
    decides = λ x. or_contains-any s children ls x v ∙ ap ok (sym (held x));
  },
  held,
  λ x. tally-unseen x [] (flatten ls),
)
  where
    held : (x : Job) → mem x (unseen [] (flatten ls)) ≡ any (mem x) ls
    held x = mem-unseen x [] (flatten ls) ∙ mem-flatten x ls
