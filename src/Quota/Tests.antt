-- ===== src/Quota/Tests.antt =====
-- Runs of the quota manager on small inputs, and the theorems at concrete inputs.
use pydatatask.Base.{ℕ, ◌≡◌, refl, none, some, [], ◌∷◌, arith}
use pydatatask.Base.Int.{ℤ, pos, ◌+ℤ◌, ◌*ℤ◌}
use pydatatask.Base.Results.{Result, ok, err, Error}
use pydatatask.Quota.{
  Quota, QuotaType, QuotaManager, parse, init, register, add, sub, mul, excess, sum_getters, getter,
  load, settle, reserve, relinquish, flush,
}
use pydatatask.Quota.Manager.{Reserved, reserve_cases}
use pydatatask.Quota.Reach.{
  reserves, relinquishes, flushes, Reach, here, next, IsWithin, Reach-IsWithin,
}

program : Unit {0}
unfolding add mul sub excess sum_getters getter load settle reserve relinquish flush init register
    ◌+ℤ◌ ◌*ℤ◌ parse
program = tt

abbrev quota : ℕ → ℕ → ℕ → Quota
quota c m l = record { cpu = pos c; mem = pos m; launches = pos l }

-- The world is the number of jobs that a task has running, of two units of memory each.
abbrev running : ℕ → Result Quota
running n = ok (quota n n 0)

abbrev manager : QuotaManager ℕ
manager = record { quota = quota 4 8 3; cached = none; registered_getters = running ∷ [] }

built : register running (init (quota 4 8 3)) ≡ manager
unfolding program
built = refl

refused :
    reserve 4 (quota 1 1 1) manager
    ≡ (ok (some QuotaType.cpu), record manager { cached = some (quota 4 4 1) })
unfolding program
refused = refl

load-manager : load 2 manager ≡ ok (quota 2 2 1)
unfolding program
load-manager = refl

parse_default : parse {A = ℤ} ok ok (pos 2) (pos 5) none ≡ ok (quota 2 5 999999999)
unfolding program
parse_default = refl

reserve_cases_example :
    Reserved manager (quota 2 2 1) (quota 1 1 1) (reserve 2 (quota 1 1 1) manager)
reserve_cases_example = reserve_cases 2 manager (quota 2 2 1) (quota 1 1 1) load-manager

add-quota : add (quota 2 2 1) (quota 1 1 1) ≡ quota 3 3 2
unfolding program
add-quota = refl

granted : (reserve 2 (quota 1 1 1) manager).0 ≡ ok none
unfolding program
granted = refl

abbrev broken : QuotaManager ℕ
broken = record manager { registered_getters = (λ n. err (Error.raised 7)) ∷ [] }

broken-load : load 2 broken ≡ err (Error.raised 7)
unfolding program
broken-load = refl

abbrev counted : QuotaManager ℕ
counted = record { quota = quota 4 8 3; cached = none; registered_getters = [] }

counted-IsWithin : IsWithin counted
unfolding program
counted-IsWithin = record { fits = λ q e. cc; loads = λ w q e. ground arith }

abbrev history :
    Reach counted (flush (relinquish 0 (quota 1 1 1) (reserve 0 (quota 2 2 1) counted).1).1)
history =
    next
      (next (next here (reserves 0 (quota 2 2 1))) (
        relinquishes 0 (quota 1 1 1)
          (record { cpu = omega arith; mem = omega arith; launches = omega arith })))
      flushes

Reach-IsWithin_example :
    IsWithin (flush (relinquish 0 (quota 1 1 1) (reserve 0 (quota 2 2 1) counted).1).1)
Reach-IsWithin_example = Reach-IsWithin history counted-IsWithin
