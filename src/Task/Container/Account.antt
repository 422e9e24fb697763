-- ===== src/Task/Container/Account.antt =====
-- What a launch does to the account, and what the load of the live containers is.
use pydatatask.Base.{ℕ, ◌-◌, ◌≤◌, ◌≡◌, refl, ◌⊎◌, true, some, [], ◌∷◌, length, arith}
use pydatatask.Base.Int.{ℤ, pos, negsuc, neg_parts, eq_of_parts, ◌+ℤ◌, ◌*ℤ◌, int_laws}
use pydatatask.Base.Results.{Result, ok, err, Error}
use pydatatask.Base.Keys.{Job, Dict}
use pydatatask.Quota.{Quota, add, mul, sub}
use pydatatask.Task.Container.{ContainerTask, Container, World, recent, get_load}

minus_nothing : (a : ℤ) → a +ℤ (pos 0 *ℤ negsuc 0) ≡ a
minus_nothing a = omega (int_laws, neg_parts (pos 0), eq_of_parts (a +ℤ (pos 0 *ℤ negsuc 0)) a)

minus_late : (n r : ℕ) → r ≤ n → (pos 1 *ℤ pos n) +ℤ (pos (n - r) *ℤ negsuc 0) ≡ pos r
unfolding ◌*ℤ◌ ◌+ℤ◌
minus_late n r h = ground arith

module _ {H Log Info : Type 0} (task : ContainerTask H Log Info) where
  -- The three ends of a launch, where the account stood at `used`.
  abbrev pub Ended : Job → Quota → Result (Unit {0}) × World H → Type 0
  Ended job used r =
      ((r.0 ≡ ok tt) × (r.1.warned ≡ true) × (r.1.quota.cached ≡ some used))
      ⊎ (((r.0 ≡ ok tt)
            × ((c : Container) × (h : H) × (task.launch_container job c h ≡ (ok tt, r.1.rest)))
            × (r.1.quota.cached ≡ some (add used task.job_quota)))
          ⊎ ((e : Error) × (r.0 ≡ err e) × (r.1.quota.cached ≡ some (add used task.job_quota))))

  recent-le : (now : ℕ) (d : Dict ℕ) → recent task now d ≤ length d
  unfolding recent
  recent-le now [] = omega arith
  recent-le now ((job, start) ∷ d) = ground (arith, recent-le now d)

  -- The load of a task whose job quota has one launch, as the constructor sets it: the job quota's CPU and memory for each live
  -- container, and one launch for each of those that were started within the window.
  pub get_load-live :
      (h : H) (d : Dict ℕ)
      → task.job_quota.launches ≡ pos 1
      → task.live h ≡ ok d
      → get_load task h
        ≡ ok (record {
          cpu = task.job_quota.cpu *ℤ pos (length d);
          mem = task.job_quota.mem *ℤ pos (length d);
          launches = pos (recent task (task.now h) d);
        })
  unfolding get_load sub add mul
  get_load-live h d one live =
      rw
        (
          live,
          get_load,
          one,
          minus_nothing (task.job_quota.cpu *ℤ pos (length d)),
          minus_nothing (task.job_quota.mem *ℤ pos (length d)),
          minus_late (length d) (recent task (task.now h) d) (recent-le (task.now h) d),
        )
        refl
