-- ===== src/Utils/RoundRobin.antt =====
-- `roundrobin` of pydatatask/utils.py: items are taken from several iterators in turn.
pub mod Counts
mod Tests
use pydatatask.Base.{
  ℕ, zero, suc, ◌+◌, ◌%◌, Bool, Option, none, some, List, [], ◌∷◌, if◌then◌else◌, length, get_elem?,
  set,
}
use mathlib.Core.Option

module _ {ℓ} {A : Type ℓ} where
  -- `iterables.pop(i)`
  unfoldable pub pop : ℕ → List (List A) → List (List A)
  pop i [] = []
  pop zero (l ∷ ls) = ls
  pop (suc i) (l ∷ ls) = l ∷ pop i ls

  -- The loop, with what it yields; `none` is a loop that goes on beyond its fuel.
  unfoldable pub turns : ℕ → ℕ → List (List A) → Option (List A)
  turns zero i iterables = none
  turns (suc fuel) i [] = some []
  turns (suc fuel) i (l ∷ ls) =
      let iterables = l ∷ ls in
      let j = i % length iterables in
      let shorter = turns fuel j (pop j iterables) in
      let next = λ (x : A) (xs : List A). turns fuel (j + 1) (set iterables j xs) in
      elim (get_elem? iterables j) [
        | none ↦ none
        | some [] ↦ shorter
        | some (x ∷ xs) ↦ Option.map (λ out. x ∷ out) (next x xs)
      ]

  unfoldable pub total_length : List (List A) → ℕ
  total_length [] = 0
  total_length (l ∷ ls) = length l + total_length ls

  -- Each round yields an item or drops an iterator.
  unfoldable pub roundrobin : List (List A) → Option (List A)
  unfolding total_length
  roundrobin iterables = turns (total_length iterables + length iterables + 1) 0 iterables

  -- How many items pass the test.
  unfoldable pub tally : (A → Bool) → List A → ℕ
  tally p [] = 0
  tally p (x ∷ xs) = (if p x then 1 else 0) + tally p xs

  unfoldable pub tally_all : (A → Bool) → List (List A) → ℕ
  unfolding tally
  tally_all p [] = 0
  tally_all p (l ∷ ls) = tally p l + tally_all p ls
