-- ===== src/Task/Process/Reaps.antt =====
-- A reap ends the record of a process and gives its quota back, both or neither; and the case where the account was
-- not loaded before.
use pydatatask.Base.{
  ℕ, suc, Bool, true, false, none, some, [], ◌∷◌, ◌≡◌, ◌⊎◌, inl, inr, refl, sym, ap, ◌∙◌, length,
  arith,
}
use pydatatask.Base.Results.{Result, ok, err, Error}
use pydatatask.Base.Exec.{go_on, Spares, >>=-Spares}
use pydatatask.Base.Keys.{Job, Dict, remove, has, keys, mem, same_iff}
use pydatatask.Quota.{Quota, add, sub, load, getter, relinquish}
use pydatatask.Quota.Order.{sub-add, add-sub}
use pydatatask.Quota.Manager.{relinquish-cached}
use pydatatask.Task.Process.{Process, Pids, ProcessTask, World, blob, null, std_out}
use pydatatask.Task.Process.Reap.{
  collect_stdout, collect_stderr, dump_done, collect, logged, give_back, reap,
}
use pydatatask.Task.Process.Launches.{times, add_assoc, Balanced}

-- The keys of a dictionary are different from one another.
abbrev pub Distinct : {V : Type 0} → Dict V → Type 0
Distinct [] = Unit
Distinct ((k, v) ∷ d) = (has k d ≡ false) × Distinct d

remove-absent : {V : Type 0} (k : Job) (d : Dict V) → has k d ≡ false → remove k d ≡ d
unfolding has mem keys remove
remove-absent k [] h = refl
remove-absent k ((j, v) ∷ d) h = ground (arith, h, remove-absent k d, same_iff j k, same_iff k j)

length-remove :
    {V : Type 0} (k : Job) (d : Dict V)
    → Distinct d
    → has k d ≡ true
    → suc (length (remove k d)) ≡ length d
unfolding has mem keys remove
length-remove k [] u h = cc
length-remove k ((j, v) ∷ d) u h =
    ground (arith, h, u.0, remove-absent k d, length-remove k d u.1, same_iff j k, same_iff k j)

module _ {H : Type 0} {pids : Pids H} (task : ProcessTask pids) where
  stdout-Spares : (o : _) (job : Job) → Spares pids.entries (collect_stdout task o job)
  stdout-Spares none job h = refl
  stdout-Spares (some copy_from) job h = (copy_from job _).keeps h

  stderr-Spares : (o : _) (job : Job) → Spares pids.entries (collect_stderr task o job)
  stderr-Spares null job h = refl
  stderr-Spares std_out job h = refl
  stderr-Spares (blob copy_from) job h = (copy_from job _).keeps h

  done-Spares :
      (o : _) (job : Job) (start : ℕ) (timeout : Bool)
      → Spares pids.entries (dump_done task o job start timeout)
  done-Spares none job start timeout = λ h. refl
  done-Spares (some dump) job start timeout =
      >>=-Spares pids.entries _ _ (task.read_int _).keeps (λ code h. (dump job _).keeps h)

  collect-Spares :
      (job : Job) (start : ℕ) (timeout : Bool)
      → Spares pids.entries (collect task job start timeout)
  unfolding collect
  collect-Spares job start timeout =
      >>=-Spares pids.entries _ _ (stdout-Spares task.stdout job) (λ _.
        >>=-Spares pids.entries _ _ (stderr-Spares task.stderr job) (λ _.
          >>=-Spares pids.entries _ _ (done-Spares task.done job start timeout)
            (λ _. (task.rmtree _).keeps)))

  -- The record is deleted, or something raised and the records are what they were.
  Gone : Job → Dict Process → Result (Unit {0}) × H → Type 0
  Gone job d r =
      ((r.0 ≡ ok tt) × (pids.entries r.1 ≡ remove job d))
      ⊎ ((e : Error) × (r.0 ≡ err e) × (pids.entries r.1 ≡ d))

  collect-Gone :
      (job : Job) (start : ℕ) (timeout : Bool) (h : H)
      → Gone job (pids.entries h) (go_on (collect task job start timeout h) (λ _. pids.delete job))
  unfolding Gone
  collect-Gone job start timeout h =
      after (collect task job start timeout h) (collect-Spares job start timeout h)
    where
      deleted :
          (g : H) (o : _)
          → (pids.delete job g).0 ≡ o
          → Gone job (pids.entries g) (pids.delete job g)
      deleted g (ok a) e = inl (e, pids.delete_ok job g e)
      deleted g (err x) e = inr (x, e, pids.delete_err job g x e)

      after :
          (r : Result (Unit {0}) × H)
          → pids.entries r.1 ≡ pids.entries h
          → Gone job (pids.entries h) (go_on r (λ _. pids.delete job))
      after (ok a, g) s = rw s at (deleted g (pids.delete job g).0 refl)
      after (err e, g) s = inr (e, refl, s)

  -- The two ends of a reap, where the account stood at `used`.
  abbrev pub Reaped : Job → Quota → World H → Result (Unit {0}) × World H → Type 0
  Reaped job used w r =
      ((r.0 ≡ ok tt)
        × (pids.entries r.1.rest ≡ remove job (pids.entries w.rest))
        × (r.1.quota.cached ≡ some (sub used task.job_quota)))
      ⊎ ((e : Error) × (r.0 ≡ logged task e)
          × (pids.entries r.1.rest ≡ pids.entries w.rest)
          × (r.1.quota.cached ≡ some used))

  give_back-Reaped :
      (job : Job) (used : Quota) (w : World H)
      → w.quota.cached ≡ some used
      → (r : Result (Unit {0}) × H) → Gone job (pids.entries w.rest) r
      → Reaped job used w (give_back task w r)
  unfolding Gone relinquish
  give_back-Reaped job used w c (ok a, h) (inl (o, e)) =
      rw (relinquish-cached h task.job_quota w.quota used c, give_back) (inl (refl, e, refl))
  give_back-Reaped job used w c (ok a, h) (inr (x, o, e)) = cc
  give_back-Reaped job used w c (err y, h) (inl (o, e)) = cc
  give_back-Reaped job used w c (err y, h) (inr (x, o, e)) = inr (y, refl, e, c)

  -- Where the account is loaded, a reap either deletes the record of its process and gives its quota back, or, where something raised, does
  -- neither, so that the next update finds the process again; the exception is raised only with
  -- `fail_fast`.
  pub reap-Reaped :
      (job : Job) (start : ℕ) (timeout : Bool) (used : Quota) (w : World H)
      → w.quota.cached ≡ some used
      → Reaped job used w (reap task job start timeout w)
  unfolding reap
  reap-Reaped job start timeout used w c =
      give_back-Reaped job used w c _ (collect-Gone job start timeout w.rest)

  -- A reap of a recorded process keeps a loaded account in balance with the recorded processes, however it
  -- ends, where no job is recorded twice.
  pub reap-Balanced :
      (job : Job) (start : ℕ) (timeout : Bool) (base : Quota) (w : World H)
      → Distinct (pids.entries w.rest)
      → has job (pids.entries w.rest) ≡ true
      → Balanced task base w
      → Balanced task base (reap task job start timeout w).1
  unfolding times
  reap-Balanced job start timeout base w u there b = elim (reap-Reaped job start timeout _ w b) [
    | inl (_, e, c) ↦ rw e (c ∙ ap some taken)
    | inr (_, _, e, c) ↦ rw e c
  ]
    where
      one_less :
          (n : ℕ)
          → sub (add base (times (suc n) task.job_quota)) task.job_quota
            ≡ add base (times n task.job_quota)
      one_less n = rw (sym (add_assoc base (times n task.job_quota) task.job_quota)) (sub-add _ _)

      taken :
          sub (add base (times (length (pids.entries w.rest)) task.job_quota)) task.job_quota
          ≡ add base (times (length (remove job (pids.entries w.rest))) task.job_quota)
      taken = rw (sym (length-remove job (pids.entries w.rest) u there)) (one_less _)

  -- Where the account is not loaded when a reap begins, and the callbacks report what `base` and the
  -- recorded processes hold, the account ends one job quota short: the record is deleted before the load is
  -- read, and the quota is taken off once more.
  pub reap_unloaded :
      (job : Job) (start : ℕ) (timeout : Bool) (base : Quota) (w : World H)
      → ((h : H)
          → getter h w.quota ≡ ok (add base (times (length (pids.entries h)) task.job_quota)))
      → w.quota.cached ≡ none
      → (go_on (collect task job start timeout w.rest) (λ _. pids.delete job)).0 ≡ ok tt
      → let after = (reap task job start timeout w).1 in
        (used : Quota) × (after.quota.cached ≡ some used)
        × (add used task.job_quota
            ≡ add base (times (length (pids.entries after.rest)) task.job_quota))
  unfolding reap load getter relinquish sub
  reap_unloaded job start timeout base w reports c =
      go (go_on (collect task job start timeout w.rest) (λ _. pids.delete job))
    where
      loaded :
          (h : H) → load h w.quota ≡ ok (add base (times (length (pids.entries h)) task.job_quota))
      loaded h = rw (c, load) (reports h)

      go :
          (r : Result (Unit {0}) × H)
          → r.0 ≡ ok tt
          → (used : Quota) × ((give_back task w r).1.quota.cached ≡ some used)
            × (add used task.job_quota
                ≡ add base
                    (times (length (pids.entries (give_back task w r).1.rest)) task.job_quota))
      go (ok a, h) e = (
        _,
        rw (loaded h, give_back, relinquish) refl,
        add-sub (add base (times (length (pids.entries h)) task.job_quota)) task.job_quota,
      )
      go (err x, h) e = cc
