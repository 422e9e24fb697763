-- ===== src/Staging/Answers.antt =====
-- What `allocate` supplies, and what is left of it when the lock file is read.
use pydatatask.Base.{
  ◌≡◌, refl, ◌∙◌, ◌⊎◌, inl, inr, true, Option, some, List, [], ◌∷◌, String, Bool-cases,
}
use pydatatask.Base.Results.{ok, Exec}
use pydatatask.Base.Exec.{◌>>=◌, >>=-ok}
use pydatatask.Base.Keys.{Dict, get, is_some}
use pydatatask.Staging.{
  Tree, tree, Forest, nil, cons, ChildArgs, Missing, ready, allocate_repos, allocate_executors,
  allocate, allocate_all, allocator, given, pure, specify,
}
use pydatatask.Staging.Specs.{
  reprocess, reprocess-specify, Answered, Answers, Everywhere, EverywhereAll,
}

-- A dispatcher for each name, in order.
abbrev pub Filled {ℓ} : {D : Type 0} {N : Type ℓ} → (N → String) → List N → Dict (Option D) → Type 0
Filled name [] [] = Unit
Filled name (n ∷ ns) ((k, v) ∷ d) = (name n ≡ k) × (is_some v ≡ true) × Filled name ns d
Filled name _ _ = ⊥

abbrev pub Fills : {D : Type 0} → Missing → ChildArgs D → Type 0
Fills m a = Filled (λ n. n.0) m.repos a.repos × Filled (λ n. n) m.executors a.executors

-- Every pipeline file gets what it lacks; the imports that lack nothing may be left out.
module _ {D : Type 0} where
  abbrev mutual
    pub Supplied : Tree Missing → Tree (ChildArgs D) → Type 0
    Supplied (tree m imports) (tree a args) = Fills m a × SuppliedAll imports args

    pub SuppliedAll : Forest Missing → Forest (ChildArgs D) → Type 0
    SuppliedAll nil nil = Unit
    SuppliedAll nil (cons j b bs) = ⊥
    SuppliedAll (cons k t ts) nil = (ready t ≡ true) × SuppliedAll ts nil
    SuppliedAll (cons k t ts) (cons j b bs) =
        ((ready t ≡ true) × SuppliedAll ts (cons j b bs))
        ⊎ ((k ≡ j) × Supplied t b × SuppliedAll ts bs)

  Filled-Answered :
      {N : Type 0} (name : N → String) (ns : List N) (d e : Dict (Option D))
      → Filled name ns d
      → Answered d e
      → Filled name ns e
  Filled-Answered name [] [] [] f a = tt
  Filled-Answered name [] [] (x ∷ e) f a = absurd a
  Filled-Answered name [] (x ∷ d) e f a = absurd f
  Filled-Answered name (n ∷ ns) [] e f a = absurd f
  Filled-Answered name (n ∷ ns) (x ∷ d) [] f a = absurd a
  Filled-Answered name (n ∷ ns) ((k, v) ∷ d) ((j, w) ∷ e) (f, g, fs) (a, b, as') =
      (f ∙ a, b g, Filled-Answered name ns d e fs as')

  mutual
    Supplied-Answers :
        (t : Tree Missing) (a b : Tree (ChildArgs D))
        → Supplied t a
        → Everywhere Answers a b
        → Supplied t b
    Supplied-Answers (tree m ts) (tree a as') (tree b bs) ((r, x), subs) ((ar, ax), answers) = (
      (
        Filled-Answered (λ n. n.0) m.repos a.repos b.repos r ar,
        Filled-Answered (λ n. n) m.executors a.executors b.executors x ax,
      ),
      SuppliedAll-Answers ts as' bs subs answers,
    )

    SuppliedAll-Answers :
        (ts : Forest Missing) (as' bs : Forest (ChildArgs D))
        → SuppliedAll ts as'
        → EverywhereAll Answers as' bs
        → SuppliedAll ts bs
    SuppliedAll-Answers nil nil nil s a = tt
    SuppliedAll-Answers nil nil (cons i y ys) s a = absurd a
    SuppliedAll-Answers nil (cons j x xs) bs s a = absurd s
    SuppliedAll-Answers (cons k t ts) nil (cons i y ys) s a = absurd a
    SuppliedAll-Answers (cons k t ts) (cons j x xs) nil s a = absurd a
    SuppliedAll-Answers (cons k t ts) nil nil (r, s) a = (r, SuppliedAll-Answers ts nil nil s a)
    SuppliedAll-Answers (cons k t ts) (cons j x xs) (cons i y ys) (inl (r, s)) a =
        inl (r, SuppliedAll-Answers ts (cons j x xs) (cons i y ys) s a)
    SuppliedAll-Answers (cons k t ts) (cons j x xs) (cons i y ys) (inr (e, s, ss)) (q, a, as') =
        inr (e ∙ q, Supplied-Answers t x y s a, SuppliedAll-Answers ts xs ys ss as')

  Filled-repos :
      {S : Type 0} (allocators : Dict (Exec S D)) (default : Option D) (ns : Dict String) (s : S)
      (d : Dict (Option D))
      → (allocate_repos allocators default ns s).0 ≡ ok d
      → Filled (λ n. n.0) ns d
  unfolding allocate_repos
  Filled-repos allocators default [] s d h = let e : d ≡ [] = cc in rw e tt
  Filled-repos allocators default ((n, c) ∷ ns) s d h =
      let make = allocator allocators default (get c allocators) in
      let (v, e, h1) = >>=-ok make _ s d h in
      let (rest, e2, h2) = >>=-ok (allocate_repos allocators default ns) _ (make s).1 d h1 in
      let q : d ≡ (n, some v) ∷ rest = cc in
      rw q (refl, refl, Filled-repos allocators default ns (make s).1 rest e2)

  Filled-executors :
      {S : Type 0} (allocators : Dict (Exec S D)) (default : Option D) (ns : List String) (s : S)
      (d : Dict (Option D))
      → (allocate_executors allocators default ns s).0 ≡ ok d
      → Filled (λ n. n) ns d
  unfolding allocate_executors
  Filled-executors allocators default [] s d h = let e : d ≡ [] = cc in rw e tt
  Filled-executors allocators default (n ∷ ns) s d h =
      let make : Exec _ D = given allocators default default in
      let (v, e, h1) = >>=-ok make _ s d h in
      let (rest, e2, h2) = >>=-ok (allocate_executors allocators default ns) _ (make s).1 d h1 in
      let q : d ≡ (n, some v) ∷ rest = cc in
      rw q (refl, refl, Filled-executors allocators default ns (make s).1 rest e2)

  -- An import that is skipped.
  skipped :
      (k : String) (t : Tree Missing) (ts : Forest Missing) (as' : Forest (ChildArgs D))
      → ready t ≡ true
      → SuppliedAll ts as'
      → SuppliedAll (cons k t ts) as'
  skipped k t ts nil r s = (r, s)
  skipped k t ts (cons j b bs) r s = inl (r, s)

module _ {S D : Type 0} (allocators : Dict (Exec S D)) (default : Option D) where
  mutual
    unfolding allocate

    allocate-Supplied :
        (t : Tree Missing) (s : S) (args : Tree (ChildArgs D))
        → (allocate allocators default t s).0 ≡ ok args
        → Supplied t args
    allocate-Supplied (tree m ts) s args h =
        let (repos, e1, h1) = >>=-ok (allocate_repos allocators default m.repos) _ s args h in
        let s1 = (allocate_repos allocators default m.repos s).1 in
        let (executors, e2, h2) =
          >>=-ok (allocate_executors allocators default m.executors) _ s1 args h1 in
        let s2 = (allocate_executors allocators default m.executors s1).1 in
        let (subs, e3, h3) = >>=-ok (allocate_all allocators default ts) _ s2 args h2 in
        let q : args ≡ tree (record { repos = repos; executors = executors }) subs = cc in
        rw q (
          (
            Filled-repos allocators default m.repos s repos e1,
            Filled-executors allocators default m.executors s1 executors e2,
          ),
          allocate_all-Supplied ts s2 subs e3,
        )

    allocate_all-Supplied :
        (ts : Forest Missing) (s : S) (args : Forest (ChildArgs D))
        → (allocate_all allocators default ts s).0 ≡ ok args
        → SuppliedAll ts args
    allocate_all-Supplied nil s args h = let q : args ≡ nil = cc in rw q tt
    allocate_all-Supplied (cons k t ts) s args h = elim (Bool-cases (ready t)) [
      | inl r ↦ skipped k t ts args r (allocate_all-Supplied ts s args (rw r at h))
      | inr more ↦
          let go_on : ((allocate allocators default t >>= λ sub.
          allocate_all allocators default ts >>= λ rest. pure (cons k sub rest))
                s).0
              ≡ ok args =
            rw more at h in
          let (sub, e1, h1) = >>=-ok (allocate allocators default t) _ s args go_on in
          let s1 = (allocate allocators default t s).1 in
          let (rest, e2, h2) = >>=-ok (allocate_all allocators default ts) _ s1 args h1 in
          let q : args ≡ cons k sub rest = cc in
          rw q (inr (refl, allocate-Supplied t s sub e1, allocate_all-Supplied ts s1 rest e2))
    ]

-- A lock file supplies all that its pipeline lacks. Where `allocate` ends without an exception, then each name that the pipeline
-- file or one of its imports lacks, but for imports that lack nothing, has a dispatcher when the imports of the lock
-- file are read: the dispatchers that `specify` gives are those of the lock file, and its spec that of the import.
pub reprocess-allocate :
    {S D : Type 0} (allocators : Dict (Exec S D)) (default : Option D) (t : Tree Missing) (s : S)
    (args : Tree (ChildArgs D))
    → (allocate allocators default t s).0 ≡ ok args
    → Supplied t (
        reprocess
          (λ k. get k (specify "" args).repos)
          (λ k. get k (specify "" args).executors)
          (specify "" args).result)
reprocess-allocate allocators default t s args h =
    Supplied-Answers t args _ (allocate-Supplied allocators default t s args h)
      (reprocess-specify "" args)
