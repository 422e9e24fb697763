-- ===== src/Task/Futures/Inverse.antt =====
-- `jobs` and `rev_jobs` stay inverse to one another.
use pydatatask.Base.{
  ℕ, ◌≡◌, refl, sym, ap, ◌∙◌, inl, inr, Bool, true, false, none, some, List, [], ◌∷◌, arith,
  Option-cases, Bool-cases,
}
use pydatatask.Base.Results.{Result, ok, err, Exec}
use pydatatask.Base.Exec.{go_on}
use pydatatask.Base.Keys.{Job, Dict, get, insert, remove, same, same_iff, get-insert, get-remove}
use pydatatask.Task.Futures.{
  ExecutorTask, State, Future, pop_of, popped, pop_done, launched, cancelled, cancel, launch,
  submitted, built, futures, update,
}

pub record IsInverse {E : Type 0} (s : State E) : Type 0 where
  pub there :
      (f : Future) (j : Job) (t : ℕ) → get f s.jobs ≡ some (j, t) → get j s.rev_jobs ≡ some f
  pub back :
      (j : Job) (f : Future) → get j s.rev_jobs ≡ some f → (t : ℕ) × (get f s.jobs ≡ some (j, t))

-- What is still there after a removal.
get-remove-some :
    {V : Type 0} (k j : Job) (d : Dict V) (v : V)
    → get j (remove k d) ≡ some v
    → (same k j ≡ false) × (get j d ≡ some v)
get-remove-some k j d v h = elim (Bool-cases (same k j)) [
  | inl e ↦ absurd (ground (arith, h, get-remove k j d, e))
  | inr e ↦ (e, ground (arith, h, get-remove k j d, e))
]

same_of_eq : (a b : Job) → a ≡ b → same a b ≡ false → ⊥
same_of_eq a b e h = ground (arith, same_iff a b, e, h)

module _ {E : Type 0} where
  -- A job that runs is taken out of both.
  removed-IsInverse :
      (s : State E) (e : E) (f : Future) (j : Job) (t : ℕ)
      → IsInverse s
      → get f s.jobs ≡ some (j, t)
      → IsInverse (record { rest = e; jobs = remove f s.jobs; rev_jobs = remove j s.rev_jobs })
  removed-IsInverse s e f j t inv h = record {
    there = λ g k u q.
        let (other, was) = get-remove-some f g s.jobs (k, u) q in
        let rev = inv.there g k u was in
        elim (Bool-cases (same j k)) [
          | inr apart ↦ get-remove j k s.rev_jobs ∙ rw apart rev
          | inl hit ↦
              let own = inv.there f j t h in
              let meets : get j s.rev_jobs ≡ get k s.rev_jobs =
                ap (λ x. get x s.rev_jobs) ((same_iff j k).0 hit) in
              let one : f ≡ g = cc in absurd (same_of_eq f g one other)
        ];
    back = λ k g q.
        let (other, was) = get-remove-some j k s.rev_jobs g q in
        let (x, forth) = inv.back k g was in
        (
          x,
          elim (Bool-cases (same f g)) [
            | inr apart ↦ get-remove f g s.jobs ∙ rw apart forth
            | inl hit ↦
                let meets : get f s.jobs ≡ get g s.jobs =
                  ap (λ y. get y s.jobs) ((same_iff f g).0 hit) in
                let pairs : some (j, t) ≡ some (k, x) = sym h ∙ meets ∙ forth in
                let one : j ≡ k = ground (arith, pairs) in absurd (same_of_eq j k one other)
          ],
        );
  }

  -- A job that does not run is put into both, with a new future.
  added-IsInverse :
      (s : State E) (e : E) (f : Future) (j : Job) (t : ℕ)
      → IsInverse s
      → get f s.jobs ≡ none
      → get j s.rev_jobs ≡ none
      → IsInverse
          (record { rest = e; jobs = insert f (j, t) s.jobs; rev_jobs = insert j f s.rev_jobs })
  added-IsInverse s e f j t inv new idle = record {
    there = λ g k u q. elim (Bool-cases (same f g)) [
      | inl hit ↦
          let pairs : some (j, t) ≡ some (k, u) =
            sym (get-insert f g (j, t) s.jobs ∙ rw hit refl) ∙ q in
          let one : j ≡ k = ground (arith, pairs) in
          get-insert j k f s.rev_jobs ∙ rw ((same_iff j k).1 one) (ap some ((same_iff f g).0 hit))
      | inr apart ↦
          let was : get g s.jobs ≡ some (k, u) =
            sym (get-insert f g (j, t) s.jobs ∙ rw apart refl) ∙ q in
          let rev = inv.there g k u was in
          elim (Bool-cases (same j k)) [
            | inr other ↦ get-insert j k f s.rev_jobs ∙ rw other rev
            | inl meet ↦ absurd (
                let runs = ap (λ x. get x s.rev_jobs) ((same_iff j k).0 meet) in
                cc (idle, runs, rev))
          ]
    ];
    back = λ k g q. elim (Bool-cases (same j k)) [
      | inl hit ↦
          let both : some f ≡ some g = sym (get-insert j k f s.rev_jobs ∙ rw hit refl) ∙ q in
          let one : f ≡ g = cc in
          (
            t,
            get-insert f g (j, t) s.jobs
                ∙ rw ((same_iff f g).1 one) (ap (λ x. some (x, t)) ((same_iff j k).0 hit)),
          )
      | inr apart ↦
          let was : get k s.rev_jobs ≡ some g =
            sym (get-insert j k f s.rev_jobs ∙ rw apart refl) ∙ q in
          let (x, forth) = inv.back k g was in
          (
            x,
            elim (Bool-cases (same f g)) [
              | inr other ↦ get-insert f g (j, t) s.jobs ∙ rw other forth
              | inl meet ↦ absurd (
                  let runs = ap (λ y. get y s.jobs) ((same_iff f g).0 meet) in
                  cc (new, runs, forth))
            ],
          )
    ];
  }

  -- The executor and the repositories have no part in it.
  elsewhere-IsInverse : (s : State E) (e : E) → IsInverse s → IsInverse (record s { rest = e })
  elsewhere-IsInverse s e inv = record { there = inv.there; back = inv.back }

  go_on-IsInverse :
      {A B : Type 0} (r : Result A × State E) (f : A → Exec (State E) B)
      → IsInverse r.1
      → ((a : A) → IsInverse (f a r.1).1)
      → IsInverse (go_on r f).1
  go_on-IsInverse (ok a, s) f inv h = h a
  go_on-IsInverse (err e, s) f inv h = inv

module _ {E : Type 0} (task : ExecutorTask E) where
  cancel_running :
      (job : Job) (s : State E) (f : Future)
      → IsInverse s
      → get job s.rev_jobs ≡ some f
      → cancel task job s ≡ (
        ok tt,
        record {
          rest = task.cancel f s.rest;
          jobs = remove f s.jobs;
          rev_jobs = remove job s.rev_jobs;
        },
      )
  unfolding cancel
  cancel_running job s f inv e = let (t, h) = inv.back job f e in rw (e, cancelled, h) refl

  cancel-IsInverse : (job : Job) (s : State E) → IsInverse s → IsInverse (cancel task job s).1
  cancel-IsInverse job s inv = elim (Option-cases (get job s.rev_jobs)) [
    | inl e ↦ unfold cancel in rw e inv
    | inr (f, e) ↦
        let (t, h) = inv.back job f e in
        rw (cancel_running job s f inv e) (removed-IsInverse s (task.cancel f s.rest) f job t inv h)
  ]

  popped-IsInverse :
      (f : Future) (s : State E)
      → IsInverse s
      → IsInverse (popped task f (pop_of task (get f s.jobs)) s).1
  popped-IsInverse f s inv = elim (Option-cases (get f s.jobs)) [
    | inl e ↦ rw e inv
    | inr ((j, t), e) ↦ rw (e, popped, inv.there f j t e) (removed-IsInverse s s.rest f j t inv e)
  ]

  pop_done-IsInverse :
      (fs : List Future) (s : State E) → IsInverse s → IsInverse (pop_done task fs s).1
  unfolding pop_done
  pop_done-IsInverse [] s inv = inv
  pop_done-IsInverse (f ∷ fs) s inv =
      let r = popped task f (pop_of task (get f s.jobs)) s in
      let rest = pop_done-IsInverse fs r.1 (popped-IsInverse f s inv) in
      go_on-IsInverse r _ (popped-IsInverse f s inv)
        (λ found. go_on-IsInverse (pop_done task fs r.1) _ rest (λ more. rest))

  update-IsInverse : (s : State E) → IsInverse s → IsInverse (update task s).1
  unfolding update
  update-IsInverse s inv =
      let popping = pop_done task (task.wait (futures task s.jobs) s.rest) s in
      let inv' = pop_done-IsInverse (task.wait (futures task s.jobs) s.rest) s inv in
      go_on-IsInverse popping _ inv' (λ found. elsewhere-IsInverse popping.1 _ inv')

  -- A job is launched that does not run, and its future is new.
  pub record IsFresh (job : Job) (s : State E) : Type 0 where
    pub idle : get job s.rev_jobs ≡ none
    pub new : (e : E) (f : Future) → (task.submit job e).0 ≡ ok f → get f s.jobs ≡ none

  launched-IsInverse :
      (job : Job) (start : ℕ) (e : E) (f : Future) (sync : Bool) (s : State E)
      → IsInverse s
      → get job s.rev_jobs ≡ none
      → get f s.jobs ≡ none
      → IsInverse (launched task job start (f, e) sync s).1
  launched-IsInverse job start e f true s inv idle new = elsewhere-IsInverse s _ inv
  launched-IsInverse job start e f false s inv idle new =
      added-IsInverse s e f job start inv new idle

  launch-IsInverse :
      (job : Job) (s : State E) → IsInverse s → IsFresh job s → IsInverse (launch task job s).1
  unfolding launch
  launch-IsInverse job s inv fresh = go (task.build_env job s.rest)
    where
      handed :
          (start : ℕ) (r : Result Future × E)
          → ((f : Future) → r.0 ≡ ok f → get f s.jobs ≡ none)
          → IsInverse (submitted task job start s r).1
      handed start (err x, e) new = elsewhere-IsInverse s e inv
      handed start (ok f, e) new =
          launched-IsInverse job start e f task.synchronous s inv fresh.idle (new f refl)

      go : (r : Result (Unit {0}) × E) → IsInverse (built task job s r).1
      go (err x, e) = elsewhere-IsInverse s e inv
      go (ok u, e) = handed (task.now e) (task.submit job e) (fresh.new e)

  -- The task's methods, one at a time.
  pub data Step (s : State E) : State E → Type 0 where
    launching : (job : Job) → IsFresh job s → Step s (launch task job s).1
    cancelling : (job : Job) → Step s (cancel task job s).1
    updating : Step s (update task s).1

  pub data Reach (e : E) : State E → Type 0 where
    here : Reach e (record { rest = e; jobs = []; rev_jobs = [] })
    next : {s t : State E} → Reach e s → Step s t → Reach e t

  Step-IsInverse : {s t : State E} → Step s t → IsInverse s → IsInverse t
  Step-IsInverse (launching job fresh) inv = launch-IsInverse job _ inv fresh
  Step-IsInverse (cancelling job) inv = cancel-IsInverse job _ inv
  Step-IsInverse updating inv = update-IsInverse _ inv

  -- In every state that launches, cancels and updates lead to, whatever raises among them, `jobs` and `rev_jobs` are inverse to one
  -- another. A launch is of a job that does not run, with a future that is not in `jobs`.
  pub Reach-IsInverse : {e : E} {s : State E} → Reach e s → IsInverse s
  unfolding get
  Reach-IsInverse here = record { there = λ f j t h. absurd (cc h); back = λ j f h. absurd (cc h) }
  Reach-IsInverse (next r st) = Step-IsInverse st (Reach-IsInverse r)
