-- ===== src/Session/Tests.antt =====
-- A session with two managers: the world is how far each of them is.
use pydatatask.Base.{
  ℕ, ◌≡◌, refl, true, false, none, [], ◌∷◌, if◌then◌else◌, Bool-cases, inl, inr, arith,
}
use pydatatask.Base.Results.{ok, err, key_error, raised}
use pydatatask.Base.Keys.{Job, same, keys, mem, has, insert, get}
use pydatatask.Session.{
  Anext, yielded, stopped, Manager, Session, init, ephemeral, inner, live_or_raise, failed,
  open_session, close,
}
use pydatatask.Session.Lifetime.{
  Phase, fresh, live, done, IsManager, AreManagers, AllFresh, AllLive, AllDone, open-close,
}
use pydatatask.Session.Failure.{IsFaulty, open_failed}

abbrev World : Type 0
World = Phase ℕ × Phase ℕ

abbrev phase : Job → World → Phase ℕ
phase j (p, q) = if same j "src" then p else if same j "dst" then q else done

abbrev step : ℕ → Phase ℕ → Anext ℕ × Phase ℕ
step n fresh = (yielded n, live n)
step n (live x) = (stopped, done)
step n done = (stopped, done)

abbrev on_src : Anext ℕ × Phase ℕ → Phase ℕ → Anext ℕ × World
on_src (a, p) q = (a, (p, q))

abbrev on_dst : Anext ℕ × Phase ℕ → Phase ℕ → Anext ℕ × World
on_dst (a, q) p = (a, (p, q))

abbrev src : Manager World ℕ
src (p, q) = on_src (step 7 p) q

abbrev dst : Manager World ℕ
dst (p, q) = on_dst (step 8 q) p

abbrev session : Session World ℕ
session = ephemeral "dst" dst (ephemeral "src" src init)

src-IsManager : IsManager phase "src" src
src-IsManager = record {
  starts = λ (p, q) h. (7, (live 7, q), rw h refl, refl);
  ends = λ (p, q) x h. ((done, q), rw h refl, refl);
  apart = λ (p, q) j h. rw h refl;
}

dst-IsManager : IsManager phase "dst" dst
dst-IsManager = record {
  starts = λ (p, q) h. (8, (p, live 8), rw h refl, refl);
  ends = λ (p, q) x h. ((p, done), rw h refl, refl);
  apart = λ (p, q) j h. ground (arith, h);
}

managers : AreManagers phase session.ephemeral_defs
unfolding init ephemeral insert has keys mem
managers = (src-IsManager, refl, (dst-IsManager, refl, tt))

all_fresh : AllFresh phase session.ephemeral_defs (fresh, fresh)
unfolding init ephemeral insert has keys mem
all_fresh j h = elim (Bool-cases (same j "src")) [
  | inl e ↦ rw e refl
  | inr e ↦ elim (Bool-cases (same j "dst")) [
    | inl d ↦ rw (e, d) refl
    | inr d ↦
        absurd (let no : has j session.ephemeral_defs ≡ false = ground (arith, e, d) in cc (h, no))
  ]
]

before_open : inner "src" session ≡ live_or_raise none
unfolding inner init ephemeral insert get
before_open = refl

open-close_example :
    (during : Session World ℕ) × (w1 : World) × (after : Session World ℕ) × (w2 : World)
    × (open_session (session, (fresh, fresh)) ≡ (ok tt, (during, w1)))
    × (close (during, w1) ≡ (ok tt, (after, w2)))
    × ((j : Job)
        → has j session.ephemeral_defs ≡ true
        → (x : ℕ) × (phase j w1 ≡ live x) × (inner j during ≡ ok x))
    × ((j : Job)
        → has j session.ephemeral_defs ≡ true
        → (phase j w2 ≡ done) × (inner j after ≡ live_or_raise none))
    × ((j : Job)
        → has j session.ephemeral_defs ≡ false
        → (phase j w2 ≡ phase j (fresh, fresh)) × (inner j after ≡ inner j session))
open-close_example = open-close phase session (fresh, fresh) managers all_fresh

abbrev faulty_step : Phase ℕ → Anext ℕ × Phase ℕ
faulty_step fresh = (failed (raised 2), done)
faulty_step (live x) = (stopped, done)
faulty_step done = (stopped, done)

abbrev bad : Manager World ℕ
bad (p, q) = on_dst (faulty_step q) p

abbrev bad_session : Session World ℕ
bad_session = record { ephemeral_defs = ("src", src) ∷ ("dst", bad) ∷ []; ephemerals = [] }

bad-IsFaulty : IsFaulty phase "dst" bad (raised 2)
bad-IsFaulty = record {
  fails = λ (p, q) h. ((p, done), rw h refl, refl);
  ended = λ (p, q) h. ((p, done), rw h refl);
  apart = λ (p, q) j h. ground (arith, h);
}

first : AreManagers phase (("src", src) ∷ [])
unfolding has keys mem
first = (src-IsManager, refl, tt)

first_fresh : AllFresh phase (("src", src) ∷ []) (fresh, fresh)
unfolding has keys mem
first_fresh j h = let e : same j "src" ≡ true = ground (arith, h) in rw e refl

not_first : has "dst" (("src", src) ∷ []) ≡ false
unfolding has keys mem
not_first = refl

nothing : get "dst" bad_session.ephemerals ≡ none
unfolding get
nothing = refl

open_failed_example :
    (during : Session World ℕ) × (w1 : World) × (after : Session World ℕ) × (w2 : World)
    × (open_session (bad_session, (fresh, fresh)) ≡ (err (raised 2), (during, w1)))
    × AllLive phase (("src", src) ∷ []) (during.ephemerals, w1)
    × (close (during, w1) ≡ (err key_error, (after, w2)))
    × AllDone phase (("src", src) ∷ []) (after.ephemerals, w2)
open_failed_example =
    open_failed phase bad_session (("src", src) ∷ []) [] "dst" bad (raised 2) (fresh, fresh) refl
      nothing first not_first bad-IsFaulty first_fresh refl
