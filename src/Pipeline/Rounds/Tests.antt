-- ===== src/Pipeline/Rounds/Tests.antt =====
-- Settings and a round over a world that is its quota managers.
use pydatatask.Base.{ℕ, Bool, true, false, Option, none, some, List, [], ◌∷◌, ◌≡◌, refl, String}
use pydatatask.Base.Results.{ok}
use pydatatask.Base.Keys.{mem}
use pydatatask.Quota.{Quota, QuotaManager, default, flush}
use pydatatask.Pipeline.Rounds.{
  Managed, excluded, set_task, settings, raise_timeouts, gather_any, update_only_update, flush_all,
  update,
}

abbrev task : String → Bool → Option ℕ → Managed
task name long_running timeout = record {
  name = name;
  synchronous = false;
  metadata = true;
  fail_fast = false;
  disabled = false;
  long_running = long_running;
  timeout = timeout;
}

program : Unit {0}
unfolding excluded set_task settings raise_timeouts gather_any update_only_update flush_all update
    flush mem
program = tt

set :
    settings false true false (some ("a" ∷ [])) (task "a" false none ∷ task "b" false none ∷ [])
    ≡ task "a" false none ∷ record (task "b" false none) { disabled = true } ∷ []
unfolding program
set = refl

raised :
    raise_timeouts
      (some 9)
      (task "a" true none ∷ task "b" true (some 12) ∷ task "c" false none ∷ [])
    ≡ task "a" true (some 9) ∷ task "b" true (some 12) ∷ task "c" false none ∷ []
unfolding program
raised = refl

abbrev Managers : Type 0
Managers = List (QuotaManager (Unit {0}))

abbrev manager : Option Quota → QuotaManager (Unit {0})
manager cached = record { quota = default; cached = cached; registered_getters = [] }

updated :
    update {W = Managers}
      (λ w. w)
      (λ ms w. ms)
      true
      ((λ w. (ok false, w)) ∷ [])
      (λ w. (ok true, w))
      (manager (some default) ∷ [])
    ≡ (ok true, manager none ∷ [])
unfolding program
updated = refl
