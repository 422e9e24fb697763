-- ===== src/Quota/Usage.antt =====
-- What the account starts from: the sum of the registered callbacks.
use pydatatask.Base.{◌≡◌, ◌∙◌, List, [], ◌∷◌, ap}
use pydatatask.Base.Int.{ℤ, pos, ◌+ℤ◌, int_laws}
use pydatatask.Base.Results.{Result, ok, ◌>>=◌}
use pydatatask.Quota.{Quota, QuotaManager, default, add, sum_getters, getter}
use pydatatask.Quota.Order.{Quota-eq}

abbrev pub zero_quota : Quota
zero_quota = record { cpu = pos 0; mem = pos 0; launches = pos 0 }

pub total : List Quota → Quota
total [] = zero_quota
total (q ∷ qs) = add q (total qs)

-- Each callback answers, in order, with the quota at its place.
abbrev pub Answers : {W : Type 0} → W → List (W → Result Quota) → List Quota → Type 0
Answers w [] [] = Unit
Answers w (g ∷ gs) (q ∷ qs) = (g w ≡ ok q) × Answers w gs qs
Answers w (g ∷ gs) [] = ⊥
Answers w [] (q ∷ qs) = ⊥

add_regroup_field : (r q t : ℤ) → (r +ℤ q) +ℤ t ≡ r +ℤ (q +ℤ t)
add_regroup_field r q t = omega int_laws

add_zero_field : (r : ℤ) → r ≡ r +ℤ pos 0
add_zero_field r = omega int_laws

add-zero_quota : (r : Quota) → r ≡ add r zero_quota
unfolding add
add-zero_quota r =
    Quota-eq r _ (add_zero_field r.cpu) (add_zero_field r.mem) (add_zero_field r.launches)

add_regroup : (r q t : Quota) → add (add r q) t ≡ add r (add q t)
unfolding add
add_regroup r q t =
    Quota-eq _ _ (add_regroup_field r.cpu q.cpu t.cpu) (add_regroup_field r.mem q.mem t.mem)
      (add_regroup_field r.launches q.launches t.launches)

module _ {W : Type 0} where
  sum_getters-total :
      (w : W) (gs : List (W → Result Quota)) (qs : List Quota) (r : Quota)
      → Answers w gs qs
      → sum_getters w r gs ≡ ok (add r (total qs))
  unfolding sum_getters total
  sum_getters-total w [] [] r h = ap ok (add-zero_quota r)
  sum_getters-total w (g ∷ gs) (q ∷ qs) r h =
      rw (h.0, ◌>>=◌) (sum_getters-total w gs qs (add r q) h.1 ∙ ap ok (add_regroup r q (total qs)))
  sum_getters-total w (g ∷ gs) [] r h = absurd h
  sum_getters-total w [] (q ∷ qs) r h = absurd h

  -- Where every callback answers, the load is the sum of the answers and of one launch more: the
  -- sum starts from `Quota()`, whose default is one launch.
  pub getter-total :
      (w : W) (m : QuotaManager W) (qs : List Quota)
      → Answers w m.registered_getters qs
      → getter w m ≡ ok (add default (total qs))
  unfolding getter
  getter-total w m qs h = sum_getters-total w m.registered_getters qs default h
