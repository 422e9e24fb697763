-- ===== src/Pipeline/Workers/Conserve.antt =====
-- Whatever the order of the steps: no entry is lost or launched twice, the loop cannot get stuck, and it ends.
use pydatatask.Base.{
  ℕ, zero, suc, ◌+◌, ◌*◌, ◌≤◌, ◌<◌, ◌≡◌, ◌⊎◌, inl, inr, refl, sym, ap, ◌∙◌, Bool, Option, none,
  some, List, [], ◌∷◌, ◌++◌, map, append_assoc, length, length-append, if◌then◌else◌, arith, subst,
}
use pydatatask.Utils.RoundRobin.{tally}
use pydatatask.Pipeline.{Entry}
use pydatatask.Pipeline.Order.{tally-append}
use pydatatask.Pipeline.Workers.{
  n_workers, nones, State, start, Step, puts, gets, finishes, returns, Reach, here, next, IsOver,
}

-- The entries that no worker has taken yet stand before the stop marks, of which there is one for each worker
-- that has not returned.
record Keeps (jobs : List Entry) (s : State) : Type 0 where
  left : List Entry
  stops : ℕ
  shape : s.queue ++ s.offered ≡ map some left ++ nones stops
  alive : stops ≡ s.idle + length s.launching
  full : (left ≡ []) ⊎ (stops ≡ n_workers)
  kept : (p : Entry → Bool) → tally p left + tally p s.launching + tally p s.launched ≡ tally p jobs

tally_cons :
    (p : Entry → Bool) (e : Entry) (es : List Entry)
    → tally p (e ∷ es) ≡ (if p e then 1 else 0) + tally p es
unfolding tally
tally_cons p e es = refl

start-Keeps : (jobs : List Entry) → Keeps jobs (start jobs)
unfolding start
start-Keeps jobs = record {
  left = jobs;
  stops = n_workers;
  shape = refl;
  alive = refl;
  full = inr refl;
  kept = λ p. unfold tally in omega arith;
}

-- What the front of the queue says of the entries that are left.
some_front :
    (left : List Entry) (stops : ℕ) (e : Entry) (rest : List (Option Entry))
    → some e ∷ rest ≡ map some left ++ nones stops
    → (left' : List Entry) × (left ≡ e ∷ left') × (rest ≡ map some left' ++ nones stops)
some_front [] zero e rest h = cc
some_front [] (suc n) e rest h = cc
some_front (x ∷ left) stops e rest h = (left, cc, cc)

none_front :
    (left : List Entry) (stops : ℕ) (rest : List (Option Entry))
    → none ∷ rest ≡ map some left ++ nones stops
    → (n : ℕ) × (left ≡ []) × (stops ≡ suc n) × (rest ≡ nones n)
none_front [] zero rest h = cc
none_front [] (suc n) rest h = (n, refl, refl, cc)
none_front (x ∷ left) stops rest h = cc

module _ (jobs : List Entry) (s : State) (k : Keeps jobs s) where
  puts-Keeps :
      (x : Option Entry) (rest : List (Option Entry))
      → s.offered ≡ x ∷ rest
      → Keeps jobs (record s { offered = rest; queue = s.queue ++ x ∷ [] })
  puts-Keeps x rest h = record {
    left = k.left;
    stops = k.stops;
    shape = append_assoc s.queue (x ∷ []) rest ∙ ap (λ l. s.queue ++ l) (sym h) ∙ k.shape;
    alive = k.alive;
    full = k.full;
    kept = k.kept;
  }

  gets-Keeps :
      (e : Entry) (rest : List (Option Entry)) (n : ℕ)
      → s.queue ≡ some e ∷ rest
      → s.idle ≡ suc n
      → Keeps jobs (record s { queue = rest; idle = n; launching = e ∷ s.launching })
  gets-Keeps e rest n h i =
      let (left', l, r) =
        some_front k.left k.stops e (rest ++ s.offered)
          (ap (λ q. q ++ s.offered) (sym h) ∙ k.shape) in
      record {
        left = left';
        stops = k.stops;
        shape = r;
        alive = omega (arith, k.alive, i);
        full = inr (elim k.full [ inl z ↦ cc | inr f ↦ f ]);
        kept = λ p.
            omega
              (arith, k.kept p, ap (tally p) l, tally_cons p e left', tally_cons p e s.launching);
      }

  finishes-Keeps :
      (before : List Entry) (e : Entry) (behind : List Entry)
      → s.launching ≡ before ++ e ∷ behind
      → Keeps jobs
          (record s { launching = before ++ behind; idle = suc s.idle; launched = e ∷ s.launched })
  finishes-Keeps before e behind h = record {
    left = k.left;
    stops = k.stops;
    shape = k.shape;
    alive = omega (
      arith,
      k.alive,
      ap length h,
      length-append {0} before (e ∷ behind),
      length-append {0} before behind,
    );
    full = k.full;
    kept = λ p. omega (
      arith,
      k.kept p,
      ap (tally p) h,
      tally-append p before (e ∷ behind),
      tally-append p before behind,
      tally_cons p e behind,
      tally_cons p e s.launched,
    );
  }

  returns-Keeps :
      (rest : List (Option Entry)) (n : ℕ)
      → s.queue ≡ none ∷ rest
      → s.idle ≡ suc n
      → Keeps jobs (record s { queue = rest; idle = n })
  returns-Keeps rest n h i =
      let (m, l, z, r) =
        none_front k.left k.stops (rest ++ s.offered)
          (ap (λ q. q ++ s.offered) (sym h) ∙ k.shape) in
      record {
        left = [];
        stops = m;
        shape = r;
        alive = omega (arith, k.alive, i, z);
        full = inl refl;
        kept = λ p. omega (arith, k.kept p, ap (tally p) l);
      }

Step-Keeps : (jobs : List Entry) (s t : State) → Step s t → Keeps jobs s → Keeps jobs t
Step-Keeps jobs s t (puts x rest h e) k = subst (Keeps jobs) (sym e) (puts-Keeps jobs s k x rest h)
Step-Keeps jobs s t (gets e rest n h i q) k =
    subst (Keeps jobs) (sym q) (gets-Keeps jobs s k e rest n h i)
Step-Keeps jobs s t (finishes before e behind h q) k =
    subst (Keeps jobs) (sym q) (finishes-Keeps jobs s k before e behind h)
Step-Keeps jobs s t (returns rest n h i q) k =
    subst (Keeps jobs) (sym q) (returns-Keeps jobs s k rest n h i)

Reach-Keeps : (jobs : List Entry) {s : State} → Reach (start jobs) s → Keeps jobs s
Reach-Keeps jobs here = start-Keeps jobs
Reach-Keeps jobs (next {t} {u} r st) = Step-Keeps jobs t u st (Reach-Keeps jobs r)

-- When all workers have returned, the launched entries are those of the batch, each launched exactly as often as
-- it stands there; and nothing is left in the queue or with the leader.
pub Reach-launched :
    (jobs : List Entry) (s : State)
    → Reach (start jobs) s
    → IsOver s
    → (s.queue ++ s.offered ≡ []) × ((p : Entry → Bool) → tally p s.launched ≡ tally p jobs)
Reach-launched jobs s r o =
    let (l, z) = ended in
    (
      k.shape ∙ ap (λ a. map some a ++ nones k.stops) l ∙ ap nones z,
      λ p. omega (arith, k.kept p, ap (tally p) l, ap (tally p) o.none_launching, tally_nil p),
    )
  where
    k : Keeps jobs s
    k = Reach-Keeps jobs r

    none_alive : k.stops ≡ 0
    none_alive = omega (arith, k.alive, o.none_idle, ap length o.none_launching)

    ended : (k.left ≡ []) × (k.stops ≡ 0)
    ended = elim k.full [ inl l ↦ (l, none_alive) | inr f ↦ absurd (omega (arith, f, none_alive)) ]

    tally_nil : (p : Entry → Bool) → tally p [] ≡ 0
    tally_nil p = unfold tally in refl

-- In every reachable state that is not over some step is possible: the loop is free of deadlock.
pub Reach_progress :
    (jobs : List Entry) (s : State) → Reach (start jobs) s → IsOver s ⊎ ((t : State) × Step s t)
Reach_progress jobs s r = busy s.launching refl
  where
    k : Keeps jobs s
    k = Reach-Keeps jobs r

    offer :
        (q : List (Option Entry))
        → s.offered ≡ q
        → s.queue ≡ []
        → (n : ℕ) → s.idle ≡ suc n
        → IsOver s ⊎ ((t : State) × Step s t)
    offer (x ∷ rest) h e n i =
        inr (record s { offered = rest; queue = s.queue ++ x ∷ [] }, puts x rest h refl)
    offer [] h e n i = absurd (
        stopped k.left k.stops (omega (arith, k.alive, i))
          (sym k.shape ∙ ap (λ a. a ++ s.offered) e ∙ h))
      where
        stopped : (l : List Entry) (m : ℕ) → 0 < m → map some l ++ nones m ≡ [] → ⊥
        stopped [] zero a b = absurd (omega arith)
        stopped [] (suc m) a b = cc
        stopped (x ∷ l) m a b = cc

    take :
        (q : List (Option Entry))
        → s.queue ≡ q
        → (n : ℕ) → s.idle ≡ suc n
        → IsOver s ⊎ ((t : State) × Step s t)
    take [] h n i = offer s.offered refl h n i
    take (none ∷ rest) h n i = inr (record s { queue = rest; idle = n }, returns rest n h i refl)
    take (some e ∷ rest) h n i =
        inr
          (record s { queue = rest; idle = n; launching = e ∷ s.launching }, gets e rest n h i refl)

    idle : (n : ℕ) → s.idle ≡ n → s.launching ≡ [] → IsOver s ⊎ ((t : State) × Step s t)
    idle zero i h = inl (record { none_idle = i; none_launching = h })
    idle (suc n) i h = take s.queue refl n i

    busy : (l : List Entry) → s.launching ≡ l → IsOver s ⊎ ((t : State) × Step s t)
    busy [] h = idle s.idle refl h
    busy (e ∷ l) h = inr (
      record s { launching = l; idle = suc s.idle; launched = e ∷ s.launched },
      finishes [] e l h refl,
    )

-- What is still to be done: a mark is put, taken and worked on.
measure : State → ℕ
measure s = 3 * length s.offered + 2 * length s.queue + length s.launching

Step-measure : (s t : State) → Step s t → measure t < measure s
unfolding measure
Step-measure s t (puts x rest h e) =
    rw e (omega (arith, ap length h, length-append {0} s.queue (x ∷ [])))
Step-measure s t (gets e rest n h i q) = rw q (omega (arith, ap length h))
Step-measure s t (finishes before e behind h q) = rw q (
    omega
      (arith, ap length h, length-append {0} before (e ∷ behind), length-append {0} before behind))
Step-measure s t (returns rest n h i q) = rw q (omega (arith, ap length h))

pub steps : {s t : State} → Reach s t → ℕ
steps here = 0
steps (next r st) = suc (steps r)

steps-measure : {s t : State} → (r : Reach s t) → steps r + measure t ≤ measure s
unfolding steps
steps-measure here = omega arith
steps-measure (next {t} {u} r st) = omega (arith, steps-measure r, Step-measure t u st)

length-map : (jobs : List Entry) → length (map {B = Option Entry} some jobs) ≡ length jobs
length-map [] = refl
length-map (e ∷ jobs) = ap suc (length-map jobs)

-- Every run of the loop is over after at most three steps for each entry and each worker.
pub steps_bound :
    (jobs : List Entry) (s : State) (r : Reach (start jobs) s)
    → steps r ≤ 3 * (length jobs + n_workers)
unfolding measure start
steps_bound jobs s r =
    omega
      (arith, steps-measure r, length-append {0} (map some jobs) (nones n_workers), length-map jobs)

run_on :
    (jobs : List Entry) (fuel : ℕ) (s : State)
    → Reach (start jobs) s
    → measure s < fuel
    → (t : State) × Reach (start jobs) t × IsOver t
run_on jobs zero s r h = absurd (omega arith)
run_on jobs (suc fuel) s r h = elim (Reach_progress jobs s r) [
  | inl over ↦ (s, r, over)
  | inr (t, st) ↦ run_on jobs fuel t (next r st) (omega (arith, Step-measure s t st))
]

-- Every batch can be run to its end.
pub runs_to_end : (jobs : List Entry) → (s : State) × Reach (start jobs) s × IsOver s
runs_to_end jobs = run_on jobs (suc (measure (start jobs))) (start jobs) here (omega arith)
