-- ===== src/Repository/Aggregate/Every.antt =====
-- What an and-aggregate holds.
use pydatatask.Base.{
  ℕ, ◌+◌, ◌≤◌, ◌<◌, ◌≡◌, refl, sym, ap, ◌∙◌, Bool, true, false, ◌&&◌, ◌||◌, List, [], ◌∷◌, all,
  arith, if◌then◌else◌, length, leb, ltb, ◌==◌, All, Bool-cases, inl, inr, subst,
}
use pydatatask.Base.Results.{ok}
use pydatatask.Base.Keys.{Job, mem, same, same_iff, same_refl}
use pydatatask.Utils.RoundRobin.{tally, tally_all}
use pydatatask.Utils.RoundRobin.Counts.{roundrobin-Yields}
use pydatatask.Repository.{IsView}
use pydatatask.Repository.Aggregate.{Children, bump, counted, and_iter, and_contains, aggregate_and}
use pydatatask.Repository.Aggregate.Any.{Views, NoRepeat, iter_all-Views}

mem_if :
    (b : Bool) (x y : Job) (ys : List Job)
    → mem x (if b then y ∷ ys else ys) ≡ ((b && same x y) || mem x ys)
unfolding mem
mem_if true x y ys = refl
mem_if false x y ys = refl

-- The arithmetic of one step of the loop: `x` is met, its count was `c`, and it is met `t` times more.
met :
    (c n t : ℕ) (m : Bool)
    → m ≡ (ltb (c + 1) n && leb n (c + 1 + t))
    → ((c + 1 == n) || m) ≡ (ltb c n && leb n (c + (1 + t)))
met c n t m h = ground arith

tally_met : (x : Job) (ys : List Job) → tally (same x) (x ∷ ys) ≡ 1 + tally (same x) ys
unfolding tally
tally_met x ys = rw (same_refl x) refl

tally_other :
    (x y : Job) (ys : List Job) → same x y ≡ false → tally (same x) (y ∷ ys) ≡ tally (same x) ys
unfolding tally
tally_other x y ys h = rw h (omega arith)

bump_met : (x : Job) (counting : Job → ℕ) → bump x counting x ≡ counting x + 1
unfolding bump
bump_met x counting = rw (same_refl x) refl

bump_other : (x y : Job) (counting : Job → ℕ) → same x y ≡ false → bump y counting x ≡ counting x
unfolding bump
bump_other x y counting h = ground (arith, same_iff x y, same_iff y x)

abbrev InTime : ℕ → Job → (Job → ℕ) → List Job → Type 0
InTime n x counting ys =
    mem x (counted n counting ys) ≡ (ltb (counting x) n && leb n (counting x + tally (same x) ys))

counted_met :
    (n : ℕ) (x : Job) (counting : Job → ℕ) (ys : List Job)
    → InTime n x (bump x counting) ys
    → InTime n x counting (x ∷ ys)
unfolding counted
counted_met n x counting ys ih =
    mem_if (bump x counting x == n) x x (counted n (bump x counting) ys)
    ∙ rw (same_refl x, tally_met x ys, bump_met x counting) (go (rw (bump_met x counting) at ih))
  where
    go :
        mem x (counted n (bump x counting) ys)
          ≡ (ltb (counting x + 1) n && leb n (counting x + 1 + tally (same x) ys))
        → (((counting x + 1 == n) && true) || mem x (counted n (bump x counting) ys))
          ≡ (ltb (counting x) n && leb n (counting x + (1 + tally (same x) ys)))
    go k =
        ground
          (arith, met (counting x) n (tally (same x) ys) (mem x (counted n (bump x counting) ys)) k)

counted_other :
    (n : ℕ) (x y : Job) (counting : Job → ℕ) (ys : List Job)
    → same x y ≡ false
    → InTime n x (bump y counting) ys
    → InTime n x counting (y ∷ ys)
unfolding counted
counted_other n x y counting ys h ih =
    mem_if (bump y counting y == n) x y (counted n (bump y counting) ys)
    ∙ rw (h, tally_other x y ys h)
        (go (bump y counting y == n) (rw (bump_other x y counting h) at ih))
  where
    go :
        (b : Bool)
        → mem x (counted n (bump y counting) ys)
          ≡ (ltb (counting x) n && leb n (counting x + tally (same x) ys))
        → ((b && false) || mem x (counted n (bump y counting) ys))
          ≡ (ltb (counting x) n && leb n (counting x + tally (same x) ys))
    go true k = k
    go false k = k

-- A job is yielded where the count of it passes from below `n` to `n`.
mem-counted :
    (n : ℕ) (x : Job) (counting : Job → ℕ) (ys : List Job)
    → mem x (counted n counting ys) ≡ (ltb (counting x) n && leb n (counting x + tally (same x) ys))
mem-counted n x counting [] = unfold counted mem tally in ground arith
mem-counted n x counting (y ∷ ys) = elim (Bool-cases (same x y)) [
  | inl e ↦
      subst (λ z. InTime n x counting (z ∷ ys)) ((same_iff x y).0 e)
        (counted_met n x counting ys (mem-counted n x (bump x counting) ys))
  | inr e ↦ counted_other n x y counting ys e (mem-counted n x (bump y counting) ys)
]

and_contains-all :
    {S : Type 0} (s : S) (children : Children S) (ls : List (List Job)) (x : Job)
    → Views s children ls
    → and_contains children s x ≡ ok (all (mem x) ls)
unfolding and_contains
and_contains-all s [] [] x v = refl
and_contains-all s ((name, child) ∷ children) (l ∷ ls) x v =
    rw (v.0.decides x) (ground (arith, and_contains-all s children ls x v.1))
and_contains-all s [] (l ∷ ls) x v = absurd v
and_contains-all s (c ∷ children) [] x v = absurd v

tally-mem :
    (x : Job) (l : List Job)
    → (mem x l ≡ true → 0 < tally (same x) l) × (mem x l ≡ false → tally (same x) l ≡ 0)
unfolding mem tally
tally-mem x [] = (λ e. absurd (ground arith), λ e. refl)
tally-mem x (y ∷ ys) = (λ e. ground (arith, tally-mem x ys), λ e. ground (arith, tally-mem x ys))

-- Lists with no job twice hold a job as often as there are lists exactly if each holds it.
full-all :
    (x : Job) (ls : List (List Job))
    → All NoRepeat ls
    → (leb (length ls) (tally_all (same x) ls) ≡ all (mem x) ls)
      × (tally_all (same x) ls ≤ length ls)
unfolding tally_all
full-all x [] h = (refl, omega arith)
full-all x (l ∷ ls) h = ground (arith, full-all x ls h.1, tally-mem x l, h.0 x)

-- Where the children hold given jobs, each of them no job twice, an and-aggregate of them holds the jobs
-- that every child holds, in the iteration and in the test of membership alike.
pub aggregate_and-IsView :
    {S : Type 0} (s : S) (children : Children S) (ls : List (List Job))
    → Views s children ls
    → All NoRepeat ls
    → 0 < length children
    → (items : List Job) × IsView (aggregate_and children) s items
      × ((x : Job) → mem x items ≡ all (mem x) ls)
unfolding aggregate_and and_iter
aggregate_and-IsView s children ls v distinct positive = (
  counted (length children) (λ x. 0) out,
  record {
    iterates = rw ((iter_all-Views s children ls v).0, (roundrobin-Yields ls).1) refl;
    decides = λ x. and_contains-all s children ls x v ∙ ap ok (sym (held x));
  },
  held,
)
  where
    out : List Job
    out = (roundrobin-Yields ls).0

    count : (x : Job) → tally (same x) out ≡ tally_all (same x) ls
    count x = (roundrobin-Yields ls).2 (same x)

    held : (x : Job) → mem x (counted (length children) (λ y. 0) out) ≡ all (mem x) ls
    held x =
        mem-counted (length children) x (λ y. 0) out
        ∙ ground (arith, count x, (full-all x ls distinct).0, (iter_all-Views s children ls v).1)
