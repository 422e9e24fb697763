-- ===== src/Pipeline/Rounds.antt =====
-- The settings of a run, the time limits that `open` sets, and a round of `update`: the update phase, the launch phase,
-- and the flush of every quota manager. `W` is the world that the tasks act on.
mod Tests
use pydatatask.Base.{
  ℕ, Bool, true, false, ◌&&◌, ◌||◌, not, Option, none, some, List, [], ◌∷◌, String, ltb,
  if◌then◌else◌,
}
use pydatatask.Base.Results.{Result, ok, err, Error, Exec}
use pydatatask.Base.Keys.{mem}
use pydatatask.Quota.{QuotaManager, flush}

-- What the pipeline reads and sets of a task.
pub record Managed : Type 0 where
  pub name : String
  pub synchronous : Bool
  pub metadata : Bool
  pub fail_fast : Bool
  pub disabled : Bool
  pub long_running : Bool
  pub timeout : Option ℕ

-- `task_allowlist and task.name not in task_allowlist`
unfoldable pub excluded : Option (List String) → String → Bool
excluded none name = false
excluded (some []) name = false
excluded (some (x ∷ xs)) name = not (mem name (x ∷ xs))

unfoldable pub set_task : Bool → Bool → Bool → Option (List String) → Managed → Managed
unfolding excluded
set_task synchronous metadata fail_fast allowlist t = record t {
  synchronous = synchronous;
  metadata = metadata;
  fail_fast = fail_fast;
  disabled = excluded allowlist t.name || t.disabled;
}

-- The loop of `settings`.
unfoldable pub settings : Bool → Bool → Bool → Option (List String) → List Managed → List Managed
unfolding set_task
settings synchronous metadata fail_fast allowlist [] = []
settings synchronous metadata fail_fast allowlist (t ∷ ts) =
    set_task synchronous metadata fail_fast allowlist t
    ∷ settings synchronous metadata fail_fast allowlist ts

-- `task.timeout is None or task.timeout < self.long_running_timeout`
abbrev pub is_below : Option ℕ → ℕ → Bool
is_below none limit = true
is_below (some t) limit = ltb t limit

-- The time limits that `open` raises for the tasks that run long.
unfoldable pub raise_timeouts : Option ℕ → List Managed → List Managed
raise_timeouts none ts = ts
raise_timeouts (some limit) [] = []
raise_timeouts (some limit) (t ∷ ts) =
    let rest = raise_timeouts (some limit) ts in
    (if t.long_running && is_below t.timeout limit then record t { timeout = some limit } else t)
    ∷ rest

unfoldable pub flush_all : {H : Type 0} → List (QuotaManager H) → List (QuotaManager H)
flush_all [] = []
flush_all (m ∷ ms) = flush m ∷ flush_all ms

module _ {W : Type 0} where
  -- `any(await asyncio.gather(...))`, the updates one after the other; the first exception is raised when
  -- all of them are over.
  unfoldable pub gather_any : List (Exec W Bool) → Exec W Bool
  gather_any [] w = (ok false, w)
  gather_any (u ∷ us) w =
      let r = u w in
      let rest = gather_any us r.1 in
      (
        elim r.0 [ err e ↦ err e | ok b ↦ elim rest.0 [ err e ↦ err e | ok c ↦ ok (b || c) ] ],
        rest.1,
      )

  unfoldable pub update_only_update : Bool → List (Exec W Bool) → Exec W Bool
  unfolding gather_any
  update_only_update false updates w = (err (Error.raised 0), w)
  update_only_update true updates w = gather_any updates w

  abbrev pub flush_after :
      {H : Type 0}
      → (W → List (QuotaManager H))
      → (List (QuotaManager H) → W → W)
      → Bool
      → Result Bool × W
      → Result Bool × W
  flush_after managers set_managers active (err e, w) = (err e, w)
  flush_after managers set_managers active (ok launched, w) =
      (ok (active || launched), set_managers (flush_all (managers w)) w)

  abbrev pub launch_after :
      {H : Type 0}
      → (W → List (QuotaManager H))
      → (List (QuotaManager H) → W → W)
      → Exec W Bool
      → Result Bool × W
      → Result Bool × W
  launch_after managers set_managers launch (err e, w) = (err e, w)
  launch_after managers set_managers launch (ok active, w) =
      flush_after managers set_managers active (launch w)

  -- `update`: the quota managers, the one of the local host among them, are a part of the world.
  unfoldable pub update :
      {H : Type 0}
      → (W → List (QuotaManager H))
      → (List (QuotaManager H) → W → W)
      → Bool
      → List (Exec W Bool)
      → Exec W Bool
      → Exec W Bool
  unfolding update_only_update flush_all
  update managers set_managers false updates launch w = (err (Error.raised 0), w)
  update managers set_managers true updates launch w =
      launch_after managers set_managers launch (update_only_update true updates w)
