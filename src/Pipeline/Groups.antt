-- ===== src/Pipeline/Groups.antt =====
-- The batches of the launch phase.
use pydatatask.Base.{
  ℕ, ◌+◌, ◌<◌, ◌≢◌, ◌≡◌, refl, ◌∙◌, Bool, true, false, List, [], ◌∷◌, ◌++◌, arith, Bool-cases, inl,
  inr, All,
}
use pydatatask.Base.Int.{ℤ, pos_part, neg_part, ◌≤ℤ◌, eq_of_parts, pos, ◌+ℤ◌, int_laws}
use pydatatask.Utils.RoundRobin.{tally}
use pydatatask.Pipeline.{Entry, eq_ℤ, sort, group_from, grouped, backwards, by_priority}
use pydatatask.Pipeline.Order.{
  IsFalling, sort-IsRising, tally-sort, tally-append, tally-backwards, backwards-IsFalling,
  All-append,
}

-- How many entries of all batches pass the test.
unfoldable pub tally_groups : (Entry → Bool) → List (List Entry) → ℕ
tally_groups p [] = 0
tally_groups p (g ∷ gs) = tally p g + tally_groups p gs

-- Every entry of the batch has this priority.
abbrev pub IsBatch : ℤ → List Entry → Type 0
IsBatch k g = All (λ e. e.priority ≡ k) g

abbrev pub Below : ℤ → ℤ → Type 0
Below a b = pos_part a + neg_part b < pos_part b + neg_part a

-- No batch is empty, each has one priority, and the priorities fall from batch to batch, below `k`.
abbrev pub Batches : ℤ → List (List Entry) → Type 0
Batches k [] = Unit
Batches k (g ∷ gs) = (h : ℤ) × Below h k × (g ≢ []) × IsBatch h g × Batches h gs

abbrev Starts : ℤ → List (List Entry) → Type 0
Starts k [] = ⊥
Starts k (g ∷ gs) = (g ≢ []) × IsBatch k g × Batches k gs

eq_ℤ-true : (a b : ℤ) → eq_ℤ a b ≡ true → a ≡ b
eq_ℤ-true a b h = eq_of_parts a b (ground arith)

eq_ℤ-false : (a b : ℤ) → a ≤ℤ b → eq_ℤ a b ≡ false → Below a b
eq_ℤ-false a b l h = ground arith

snoc_ne_nil : (g : List Entry) (e : Entry) → (g ++ e ∷ []) ≢ []
snoc_ne_nil [] e h = cc
snoc_ne_nil (x ∷ g) e h = cc

group_from-Starts :
    (current : List Entry) (k : ℤ) (rest : List Entry)
    → current ≢ []
    → IsBatch k current
    → IsFalling rest
    → All (λ e. e.priority ≤ℤ k) rest
    → Starts k (group_from current k rest)
unfolding group_from
group_from-Starts current k [] n b f a = (n, b, tt)
group_from-Starts current k (e ∷ rest) n b f a = elim (Bool-cases (eq_ℤ e.priority k)) [
  | inl h ↦ rw h (
      group_from-Starts (current ++ e ∷ []) k rest (snoc_ne_nil current e)
        (All-append (λ x. x.priority ≡ k) current (e ∷ []) b (eq_ℤ-true e.priority k h, tt)) f.1
        a.1)
  | inr h ↦ rw h (
    n,
    b,
    below (group_from (e ∷ []) e.priority rest) (eq_ℤ-false e.priority k a.0 h)
        (group_from-Starts (e ∷ []) e.priority rest (λ q. cc) (refl, tt) f.1 f.0),
  )
]
  where
    below : (gs : List (List Entry)) → Below e.priority k → Starts e.priority gs → Batches k gs
    below [] l st = tt
    below (g ∷ gs) l st = (e.priority, l, st.0, st.1, st.2)

tally-group_from :
    (p : Entry → Bool) (current : List Entry) (k : ℤ) (rest : List Entry)
    → tally_groups p (group_from current k rest) ≡ tally p current + tally p rest
unfolding group_from tally_groups tally
tally-group_from p current k [] = omega arith
tally-group_from p current k (e ∷ rest) = elim (Bool-cases (eq_ℤ e.priority k)) [
  | inl h ↦ rw h (
      omega (arith, tally-group_from p (current ++ e ∷ []) k rest, tally-append p current (e ∷ [])))
  | inr h ↦ rw h (omega (arith, tally-group_from p (e ∷ []) e.priority rest))
]

-- The batches in which jobs are launched have falling priorities, each batch one priority and at least one
-- job, and together they hold the entries that they were made of, each as often.
pub by_priority-Batches :
    (jobs : List Entry)
    → ((k : ℤ) × Batches k (by_priority jobs))
      × ((p : Entry → Bool) → tally_groups p (by_priority jobs) ≡ tally p jobs)
unfolding by_priority
by_priority-Batches jobs = (
  falls (backwards (sort jobs)) (backwards-IsFalling (sort jobs) (sort-IsRising jobs)),
  λ p. kept p (backwards (sort jobs)) ∙ tally-backwards p (sort jobs) ∙ tally-sort p jobs,
)
  where
    kept : (p : Entry → Bool) (es : List Entry) → tally_groups p (grouped es) ≡ tally p es
    kept p [] = unfold tally_groups tally in refl
    kept p (e ∷ es) = tally-group_from p (e ∷ []) e.priority es ∙ unfold tally in omega arith

    above : (k : ℤ) → Below k (k +ℤ pos 1)
    above k = omega int_laws

    falls : (es : List Entry) → IsFalling es → (k : ℤ) × Batches k (grouped es)
    falls [] f = (pos 0, tt)
    falls (e ∷ es) f =
        go (group_from (e ∷ []) e.priority es)
          (group_from-Starts (e ∷ []) e.priority es (λ q. cc) (refl, tt) f.1 f.0)
      where
        go : (gs : List (List Entry)) → Starts e.priority gs → (k : ℤ) × Batches k gs
        go [] st = absurd st
        go (g ∷ gs) st = (e.priority +ℤ pos 1, (e.priority, above e.priority, st.0, st.1, st.2))
