-- ===== src/Quota.antt =====
-- pydatatask/quota.py: resource quantities and the manager that grants and takes them back.
-- A quantity is an integer number of a fixed smallest unit; `W` is the outside world, which the
-- registered callbacks read. The lock makes each method one atomic step.
pub mod Order
pub mod Manager
pub mod Reach
pub mod Usage
mod Tests
use pydatatask.Base.{ℕ, Bool, Option, none, some, List, [], ◌∷◌, ◌++◌, if◌then◌else◌}
use pydatatask.Base.Int.{ℤ, pos, negsuc, ◌+ℤ◌, ◌*ℤ◌, ltb_ℤ}
use pydatatask.Base.Results.{Result, ok, err, ◌>>=◌}

pub data QuotaType : Type 0 where
  cpu mem rate : QuotaType

pub record Quota : Type 0 where
  pub cpu : ℤ
  pub mem : ℤ
  pub launches : ℤ

-- `Quota()`: the dataclass's defaults.
abbrev pub default : Quota
default = record { cpu = pos 0; mem = pos 0; launches = pos 1 }

-- `parse_quantity` belongs to the kubernetes library and `int` to the language; either may raise.
module _ {A : Type 0} (parse_quantity int : A → Result ℤ) where
  unfoldable pub parse : A → A → Option A → Result Quota
  parse cpus memory count = do
    c ← parse_quantity cpus
    m ← parse_quantity memory
    l ← elim count [ none ↦ ok (pos 999999999) | some n ↦ int n ]
    ok (record { cpu = c; mem = m; launches = l })

unfoldable pub add : Quota → Quota → Quota
add a b = record { cpu = a.cpu +ℤ b.cpu; mem = a.mem +ℤ b.mem; launches = a.launches +ℤ b.launches }

unfoldable pub mul : Quota → ℤ → Quota
mul a n = record { cpu = a.cpu *ℤ n; mem = a.mem *ℤ n; launches = a.launches *ℤ n }

unfoldable pub sub : Quota → Quota → Quota
unfolding add mul
sub a b = add a (mul b (negsuc 0))

unfoldable pub excess : Quota → Quota → Option QuotaType
excess q limit =
    if ltb_ℤ limit.cpu q.cpu
    then some cpu
    else if ltb_ℤ limit.mem q.mem
    then some mem
    else if ltb_ℤ limit.launches q.launches
    then some rate
    else none

pub record QuotaManager (W : Type 0) : Type 0 where
  pub quota : Quota
  pub cached : Option Quota
  pub registered_getters : List (W → Result Quota)

module _ {W : Type 0} where
  unfoldable pub init : Quota → QuotaManager W
  init quota = record { quota = quota; cached = none; registered_getters = [] }

  unfoldable pub register : (W → Result Quota) → QuotaManager W → QuotaManager W
  register f m = record m { registered_getters = m.registered_getters ++ f ∷ [] }

  -- The loop of `_getter`: `result += await getter()`.
  unfoldable pub sum_getters : W → Quota → List (W → Result Quota) → Result Quota
  sum_getters w result [] = ok result
  sum_getters w result (getter ∷ rest) = do q ← getter w; sum_getters w (add result q) rest

  unfoldable pub getter : W → QuotaManager W → Result Quota
  getter w m = sum_getters w default m.registered_getters

  unfoldable pub flush : QuotaManager W → QuotaManager W
  flush m = record m { cached = none }

  -- `if self._cached is None: self._cached = await self._getter()`
  unfoldable pub load : W → QuotaManager W → Result Quota
  load w m = elim m.cached [ none ↦ getter w m | some q ↦ ok q ]

  unfoldable pub settle :
      Quota → Quota → QuotaManager W → Result (Option QuotaType) × QuotaManager W
  settle used request m =
      let target = add used request in
      elim (excess target m.quota) [
        | none ↦ (ok none, record m { cached = some target })
        | some kind ↦ (ok (some kind), record m { cached = some used })
      ]

  unfoldable pub reserve : W → Quota → QuotaManager W → Result (Option QuotaType) × QuotaManager W
  reserve w request m = elim (load w m) [ err e ↦ (err e, m) | ok used ↦ settle used request m ]

  unfoldable pub relinquish : W → Quota → QuotaManager W → Result (Unit {0}) × QuotaManager W
  relinquish w request m = elim (load w m) [
    | err e ↦ (err e, m)
    | ok used ↦ (ok tt, record m { cached = some (sub used request) })
  ]
