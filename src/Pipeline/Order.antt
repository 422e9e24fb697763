-- ===== src/Pipeline/Order.antt =====
-- The sort keeps all entries and puts them in the order of their priorities.
use pydatatask.Base.{
  ◌+◌, ◌≡◌, refl, ap, ◌∙◌, Bool, true, false, List, [], ◌∷◌, ◌++◌, if◌then◌else◌, arith, Bool-cases,
  inl, inr, All,
}
use pydatatask.Base.Int.{◌≤ℤ◌}
use pydatatask.Utils.RoundRobin.{tally}
use pydatatask.Pipeline.{Entry, entry_le, put_in, sort, backwards}

-- Priorities rise or stay, from each entry to all behind it.
abbrev pub IsRising : List Entry → Type 0
IsRising [] = Unit
IsRising (e ∷ es) = All (λ x. e.priority ≤ℤ x.priority) es × IsRising es

abbrev pub IsFalling : List Entry → Type 0
IsFalling [] = Unit
IsFalling (e ∷ es) = All (λ x. x.priority ≤ℤ e.priority) es × IsFalling es

entry_le-true : (a b : Entry) → entry_le a b ≡ true → a.priority ≤ℤ b.priority
unfolding entry_le
entry_le-true a b h = ground arith

entry_le-false : (a b : Entry) → entry_le a b ≡ false → b.priority ≤ℤ a.priority
unfolding entry_le
entry_le-false a b h = ground arith

All-trans :
    (e x : Entry) (xs : List Entry)
    → e.priority ≤ℤ x.priority
    → All (λ y. x.priority ≤ℤ y.priority) xs
    → All (λ y. e.priority ≤ℤ y.priority) xs
All-trans e x [] h a = tt
All-trans e x (y ∷ ys) h a = (omega (arith, a.0), All-trans e x ys h a.1)

All-put_in :
    (P : Entry → Type 0) (e : Entry) (xs : List Entry) → P e → All P xs → All P (put_in e xs)
unfolding put_in
All-put_in P e [] p a = (p, tt)
All-put_in P e (x ∷ xs) p a = elim (Bool-cases (entry_le e x)) [
  | inl h ↦ rw h (p, a)
  | inr h ↦ rw h (a.0, All-put_in P e xs p a.1)
]

put_in-IsRising : (e : Entry) (xs : List Entry) → IsRising xs → IsRising (put_in e xs)
unfolding put_in
put_in-IsRising e [] r = (tt, tt)
put_in-IsRising e (x ∷ xs) r = elim (Bool-cases (entry_le e x)) [
  | inl h ↦ rw h ((entry_le-true e x h, All-trans e x xs (entry_le-true e x h) r.0), r)
  | inr h ↦ rw h (
    All-put_in (λ y. x.priority ≤ℤ y.priority) e xs (entry_le-false e x h) r.0,
    put_in-IsRising e xs r.1,
  )
]

pub sort-IsRising : (xs : List Entry) → IsRising (sort xs)
unfolding sort
sort-IsRising [] = tt
sort-IsRising (x ∷ xs) = put_in-IsRising x (sort xs) (sort-IsRising xs)

tally-put_in :
    (p : Entry → Bool) (e : Entry) (xs : List Entry)
    → tally p (put_in e xs) ≡ (if p e then 1 else 0) + tally p xs
unfolding put_in tally
tally-put_in p e [] = refl
tally-put_in p e (x ∷ xs) = ground (arith, tally-put_in p e xs)

pub tally-sort : (p : Entry → Bool) (xs : List Entry) → tally p (sort xs) ≡ tally p xs
unfolding sort tally
tally-sort p [] = refl
tally-sort p (x ∷ xs) =
    tally-put_in p x (sort xs) ∙ ap (λ k. (if p x then 1 else 0) + k) (tally-sort p xs)

pub tally-append :
    (p : Entry → Bool) (xs ys : List Entry) → tally p (xs ++ ys) ≡ tally p xs + tally p ys
unfolding tally
tally-append p [] ys = omega arith
tally-append p (x ∷ xs) ys = omega (arith, tally-append p xs ys)

pub tally-backwards : (p : Entry → Bool) (xs : List Entry) → tally p (backwards xs) ≡ tally p xs
unfolding tally
tally-backwards p [] = refl
tally-backwards p (x ∷ xs) =
    omega (arith, tally-append p (backwards xs) (x ∷ []), tally-backwards p xs)

pub All-append : (P : Entry → Type 0) (xs ys : List Entry) → All P xs → All P ys → All P (xs ++ ys)
All-append P [] ys a b = b
All-append P (x ∷ xs) ys a b = (a.0, All-append P xs ys a.1 b)

IsFalling-snoc :
    (xs : List Entry) (e : Entry)
    → IsFalling xs
    → All (λ x. e.priority ≤ℤ x.priority) xs
    → IsFalling (xs ++ e ∷ [])
IsFalling-snoc [] e f a = (tt, tt)
IsFalling-snoc (x ∷ xs) e f a = (
  All-append (λ y. y.priority ≤ℤ x.priority) xs (e ∷ []) f.0 (a.0, tt),
  IsFalling-snoc xs e f.1 a.1,
)

All-backwards : (P : Entry → Type 0) (xs : List Entry) → All P xs → All P (backwards xs)
All-backwards P [] a = tt
All-backwards P (x ∷ xs) a = All-append P (backwards xs) (x ∷ []) (All-backwards P xs a.1) (a.0, tt)

pub backwards-IsFalling : (xs : List Entry) → IsRising xs → IsFalling (backwards xs)
backwards-IsFalling [] r = tt
backwards-IsFalling (x ∷ xs) r =
    IsFalling-snoc (backwards xs) x (backwards-IsFalling xs r.1)
      (All-backwards (λ y. x.priority ≤ℤ y.priority) xs r.0)
