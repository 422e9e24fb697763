-- ===== src/Quota/Manager.antt =====
-- What `reserve` and `relinquish` do to the account.
use pydatatask.Base.{◌≡◌, refl, Option, none, some, arith, ◌⊎◌, inl, inr, Option-cases}
use pydatatask.Base.Int.{◌≤ℤ◌}
use pydatatask.Base.Results.{Result, ok, err, Error}
use pydatatask.Quota.{
  Quota, QuotaType, QuotaManager, add, sub, excess, load, settle, reserve, relinquish,
}
use pydatatask.Quota.Order.{Within, sub-add, excess-none→Within, Within→excess-none}

-- The resource that a refusal names is over its limit, and those that stand before it are not.
abbrev pub Exceeds : QuotaType → Quota → Quota → Type 0
Exceeds QuotaType.cpu q limit = ¬ (q.cpu ≤ℤ limit.cpu)
Exceeds QuotaType.mem q limit = (q.cpu ≤ℤ limit.cpu) × (¬ (q.mem ≤ℤ limit.mem))
Exceeds QuotaType.rate q limit =
    (q.cpu ≤ℤ limit.cpu) × (q.mem ≤ℤ limit.mem) × (¬ (q.launches ≤ℤ limit.launches))

excess-some→Exceeds :
    (q limit : Quota) (kind : QuotaType) → excess q limit ≡ some kind → Exceeds kind q limit
unfolding excess
excess-some→Exceeds q limit QuotaType.cpu h = ground arith
excess-some→Exceeds q limit QuotaType.mem h = ground arith
excess-some→Exceeds q limit QuotaType.rate h = ground arith

-- The two outcomes of `reserve` where the load is `used`.
abbrev pub Reserved :
    {W : Type 0}
    → QuotaManager W
    → Quota
    → Quota
    → Result (Option QuotaType) × QuotaManager W
    → Type 0
Reserved m used request r =
    (r.0 ≡ ok none)
      × Within (add used request) m.quota
      × (r.1 ≡ record m { cached = some (add used request) })
    ⊎ ((kind : QuotaType) × (r.0 ≡ ok (some kind))
        × Exceeds kind (add used request) m.quota
        × (r.1 ≡ record m { cached = some used }))

module _ {W : Type 0} where
  settle-Reserved :
      (used request : Quota) (m : QuotaManager W) → Reserved m used request (settle used request m)
  unfolding settle
  settle-Reserved used request m = elim (Option-cases (excess (add used request) m.quota)) [
    | inl e ↦ inl (rw (e, settle) refl, excess-none→Within _ _ e, rw (e, settle) refl)
    | inr (kind, e) ↦
        inr (kind, rw (e, settle) refl, excess-some→Exceeds _ _ kind e, rw (e, settle) refl)
  ]

  -- Where the load is known, `reserve` either grants: the request fits and is added to the account; or
  -- refuses: it changes nothing but the memo of the account, and names the first resource in the order
  -- CPU, memory, launches that the request would take over its limit.
  pub reserve_cases :
      (w : W) (m : QuotaManager W) (used request : Quota)
      → load w m ≡ ok used
      → Reserved m used request (reserve w request m)
  unfolding reserve
  reserve_cases w m used request h = rw (h, reserve) (settle-Reserved used request m)

  -- A request that fits is granted.
  pub reserve_grants :
      (w : W) (m : QuotaManager W) (used request : Quota)
      → load w m ≡ ok used
      → Within (add used request) m.quota
      → (reserve w request m).0 ≡ ok none
  unfolding reserve settle
  reserve_grants w m used request h fits = rw (h, reserve, Within→excess-none _ _ fits, settle) refl

  pub load-cached : (w : W) (m : QuotaManager W) (q : Quota) → m.cached ≡ some q → load w m ≡ ok q
  unfolding load
  load-cached w m q h = rw h refl

  pub relinquish-cached :
      (w : W) (q : Quota) (m : QuotaManager W) (used : Quota)
      → m.cached ≡ some used
      → relinquish w q m ≡ (ok tt, record m { cached = some (sub used q) })
  unfolding relinquish
  relinquish-cached w q m used e = rw (load-cached w m used e, relinquish) refl

  -- Where the load is known, after a granted request is taken back, at any later state of the world, the account stands
  -- where it stood before.
  pub relinquish-reserve :
      (w w' : W) (m : QuotaManager W) (used request : Quota)
      → load w m ≡ ok used
      → (reserve w request m).0 ≡ ok none
      → relinquish w' request (reserve w request m).1 ≡ (ok tt, record m { cached = some used })
  relinquish-reserve w w' m used request h granted = elim (reserve_cases w m used request h) [
    | inl (_, _, after) ↦ rw after taken_back
    | inr (kind, refused, _, _) ↦ absurd (cc)
  ]
    where
      taken_back :
          relinquish w' request (record m { cached = some (add used request) })
          ≡ (ok tt, record m { cached = some used })
      taken_back = unfold relinquish load in rw (sub-add used request) refl

  -- A callback that raises leaves the manager as it was, in both methods.
  pub raise_changes_nothing :
      (w : W) (m : QuotaManager W) (request : Quota) (e : Error)
      → load w m ≡ err e
      → (reserve w request m ≡ (err e, m)) × (relinquish w request m ≡ (err e, m))
  unfolding reserve relinquish
  raise_changes_nothing w m request e h = (rw (h, reserve) refl, rw (h, relinquish) refl)
