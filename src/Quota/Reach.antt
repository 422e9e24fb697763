-- ===== src/Quota/Reach.antt =====
-- The account over a history of calls.
use pydatatask.Base.{◌≡◌, refl, some, arith, inl, inr, Option-cases}
use pydatatask.Base.Int.{pos, ◌≤ℤ◌, int_laws}
use pydatatask.Base.Results.{Result, ok, err}
use pydatatask.Quota.{Quota, QuotaManager, add, sub, mul, getter, load, reserve, relinquish, flush}
use pydatatask.Quota.Order.{Within}
use pydatatask.Quota.Manager.{reserve_cases, raise_changes_nothing}

-- No resource of the request is negative.
pub record IsNonneg (q : Quota) : Type 0 where
  pub cpu : pos 0 ≤ℤ q.cpu
  pub mem : pos 0 ≤ℤ q.mem
  pub launches : pos 0 ≤ℤ q.launches

pub sub-Within : (a b limit : Quota) → IsNonneg b → Within a limit → Within (sub a b) limit
unfolding sub add mul
sub-Within a b limit n w = record {
  cpu = omega int_laws;
  mem = omega int_laws;
  launches = omega int_laws;
}

module _ {W : Type 0} where
  -- One call on a manager, in whatever state the world is then.
  pub data Step (m : QuotaManager W) : QuotaManager W → Type 0 where
    reserves : (w : W) (request : Quota) → Step m (reserve w request m).1
    relinquishes : (w : W) (request : Quota) → IsNonneg request → Step m (relinquish w request m).1
    flushes : Step m (flush m)

  pub data Reach (m : QuotaManager W) : QuotaManager W → Type 0 where
    here : Reach m m
    next : {a b : QuotaManager W} → Reach m a → Step a b → Reach m b

  -- The account, once it is loaded, is within the quota.
  pub record IsWithin (m : QuotaManager W) : Type 0 where
    pub fits : (q : Quota) → m.cached ≡ some q → Within q m.quota
    pub loads : (w : W) (q : Quota) → getter w m ≡ ok q → Within q m.quota

  load-Within :
      (w : W) (m : QuotaManager W) (q : Quota) → IsWithin m → load w m ≡ ok q → Within q m.quota
  unfolding load
  load-Within w m q v h = elim (Option-cases m.cached) [
    | inl e ↦ v.loads w q (rw (e, load) at h)
    | inr (u, e) ↦ v.fits q (ground arith)
  ]

  with_cached-IsWithin :
      (m : QuotaManager W) (q : Quota)
      → IsWithin m
      → Within q m.quota
      → IsWithin (record m { cached = some q })
  unfolding getter
  with_cached-IsWithin m q v h = record { fits = λ u e. subst_some u e; loads = v.loads }
    where
      subst_some : (u : Quota) → some q ≡ some u → Within u m.quota
      subst_some u e = ground arith

  reserve-IsWithin :
      (w : W) (request : Quota) (m : QuotaManager W) → IsWithin m → IsWithin (reserve w request m).1
  reserve-IsWithin w request m v = go (load w m) refl
    where
      go : (r : Result Quota) → load w m ≡ r → IsWithin (reserve w request m).1
      go (err e) h = rw (raise_changes_nothing w m request e h).0 v
      go (ok used) h = elim (reserve_cases w m used request h) [
        | inl (_, fits, after) ↦ rw after (with_cached-IsWithin m _ v fits)
        | inr (kind, _, _, after) ↦ rw after (with_cached-IsWithin m _ v (load-Within w m used v h))
      ]

  relinquish-IsWithin :
      (w : W) (request : Quota) (m : QuotaManager W)
      → IsNonneg request
      → IsWithin m
      → IsWithin (relinquish w request m).1
  unfolding relinquish
  relinquish-IsWithin w request m n v = go (load w m) refl
    where
      go : (r : Result Quota) → load w m ≡ r → IsWithin (relinquish w request m).1
      go (err e) h = rw (raise_changes_nothing w m request e h).1 v
      go (ok used) h =
          rw (h, relinquish)
            (with_cached-IsWithin m _ v
              (sub-Within used request m.quota n (load-Within w m used v h)))

  Step-IsWithin : {a b : QuotaManager W} → Step a b → IsWithin a → IsWithin b
  unfolding flush getter
  Step-IsWithin {a} (reserves w request) v = reserve-IsWithin w request a v
  Step-IsWithin {a} (relinquishes w request n) v = relinquish-IsWithin w request a n v
  Step-IsWithin flushes v = record { fits = λ q e. cc; loads = v.loads }

  -- However reservations, returns of nonnegative amounts and flushes follow one another, in changing
  -- states of the world, the account stays within the quota, if it and every load that the callbacks report are.
  pub Reach-IsWithin : {a b : QuotaManager W} → Reach a b → IsWithin a → IsWithin b
  Reach-IsWithin here v = v
  Reach-IsWithin (next r s) v = Step-IsWithin s (Reach-IsWithin r v)
