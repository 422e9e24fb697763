-- ===== src/Task/Process/Launches.antt =====
-- The account of the quota manager follows the processes: each process that is recorded holds one
-- job quota, and nothing else does.
use pydatatask.Base.{
  ℕ, zero, suc, Bool, true, false, none, some, [], ◌∷◌, ◌≡◌, ◌⊎◌, inl, inr, refl, ap, ◌∙◌, length,
  arith,
}
use pydatatask.Base.Int.{ℤ, pos, ◌+ℤ◌, int_laws}
use pydatatask.Base.Results.{Result, ok, err, Error}
use pydatatask.Base.Exec.{go_on, ◌>>=◌, Spares, >>=-Spares, Ensures, >>=-Ensures}
use pydatatask.Base.Keys.{Job, Dict, insert, has, keys, mem, same_iff}
use pydatatask.Quota.{Quota, QuotaManager, add, reserve}
use pydatatask.Quota.Order.{Quota-eq, sub-add}
use pydatatask.Quota.Manager.{relinquish-cached, reserve_cases, load-cached, Reserved}
use pydatatask.Task.Process.{
  Process, Pids, IsAtomic, Action, ProcessTask, World, Frame, on_rest, prepare_stdin, start_process,
  record_pid, try_launch, kill_if, rmtree_if, clean_up, launch_end, launch_granted, launch,
}

unfoldable pub times : ℕ → Quota → Quota
times zero q = record { cpu = pos 0; mem = pos 0; launches = pos 0 }
times (suc n) q = add (times n q) q

+ℤ_assoc : (a b c : ℤ) → (a +ℤ b) +ℤ c ≡ a +ℤ (b +ℤ c)
+ℤ_assoc a b c = omega int_laws

pub add_assoc : (a b c : Quota) → add (add a b) c ≡ add a (add b c)
unfolding add
add_assoc a b c =
    Quota-eq _ _ (+ℤ_assoc a.cpu b.cpu c.cpu) (+ℤ_assoc a.mem b.mem c.mem)
      (+ℤ_assoc a.launches b.launches c.launches)

pub length-insert :
    {V : Type 0} (k : Job) (v : V) (d : Dict V)
    → has k d ≡ false
    → length (insert k v d) ≡ suc (length d)
unfolding has mem keys insert
length-insert k v [] h = refl
length-insert k v ((j, w) ∷ d) h =
    ground (arith, h, length-insert k v d, same_iff k j, same_iff j k)

module _ {H : Type 0} {pids : Pids H} (task : ProcessTask pids) where
  -- The account is what `base`, the share of other tasks, and the recorded processes hold together.
  abbrev pub Balanced : Quota → World H → Type 0
  Balanced base w =
      w.quota.cached ≡ some (add base (times (length (pids.entries w.rest)) task.job_quota))

  abbrev entries_of : Frame H → Dict Process
  entries_of f = pids.entries f.rest

  action-Spares : {A : Type 0} (a : Action pids A) → Spares entries_of (on_rest task a.run)
  unfolding on_rest
  action-Spares a f = a.keeps f.rest

  prepare_stdin-Spares : (stdin : _) (job : Job) → Spares entries_of (prepare_stdin task stdin job)
  unfolding prepare_stdin
  prepare_stdin-Spares none job = λ f. refl
  prepare_stdin-Spares (some copy_to) job =
      >>=-Spares entries_of _ _ (action-Spares (copy_to job _)) (λ _ f. refl)

  start_process-Spares : (job : Job) → Spares entries_of (start_process task job)
  unfolding start_process
  start_process-Spares job = >>=-Spares entries_of _ _ (action-Spares (task.mkdir _)) (λ _.
      >>=-Spares entries_of _ _ (λ f. refl)
        (λ _. >>=-Spares entries_of _ _ (prepare_stdin-Spares task.stdin job) (λ _.
          >>=-Spares entries_of _ _ (action-Spares (task.render job)) (λ _.
            >>=-Spares entries_of _ _ (action-Spares (task.write_file _ _)) (λ _.
              >>=-Spares entries_of _ _ (action-Spares (task.spawn _ _ _ _ _ _ _))
                (λ _ f. refl))))))

  HasPid : Frame H → Type 0
  HasPid f = (p : _) × (f.pid ≡ some p)

  start_process-HasPid : (job : Job) → Ensures HasPid (start_process task job)
  unfolding start_process HasPid
  start_process-HasPid job = >>=-Ensures HasPid _ _ (λ _. >>=-Ensures HasPid _ _ (λ _.
      >>=-Ensures HasPid _ _ (λ _.
        >>=-Ensures HasPid _ _
          (λ _. >>=-Ensures HasPid _ _ (λ _. >>=-Ensures HasPid _ _ (λ pid f a h. (pid, refl)))))))

  -- What the `try` of `launch` leaves in `pids`.
  Tried : Job → Dict Process → Result (Unit {0}) × Frame H → Type 0
  Tried job d r =
      ((r.0 ≡ ok tt) × ((p : Process) × (entries_of r.1 ≡ insert job p d)))
      ⊎ ((e : Error) × (r.0 ≡ err e) × (entries_of r.1 ≡ d))

  record_pid-Tried :
      (atomic : IsAtomic pids) (job : Job) (f : Frame H)
      → HasPid f
      → Tried job (entries_of f) (record_pid task job f)
  unfolding record_pid on_rest HasPid Tried
  record_pid-Tried atomic job f (p, h) = rw (h, record_pid) (go (pids.dump job proc f.rest).0 refl)
    where
      proc : Process
      proc = record { pid = p; start_time = task.now f.rest }

      go :
          (o : Result (Unit {0}))
          → (pids.dump job proc f.rest).0 ≡ o
          → Tried job (entries_of f) (on_rest task (pids.dump job proc) f)
      go (ok a) e = inl (e, (proc, pids.dump_ok job proc f.rest e))
      go (err x) e = inr (x, e, atomic job proc f.rest x e)

  try_launch-Tried :
      (atomic : IsAtomic pids) (job : Job) (f : Frame H)
      → Tried job (entries_of f) (try_launch task job f)
  unfolding try_launch ◌>>=◌ Tried
  try_launch-Tried atomic job f =
      go (start_process task job f) (start_process-Spares job f) (start_process-HasPid job f)
    where
      go :
          (r : Result (Unit {0}) × Frame H)
          → entries_of r.1 ≡ entries_of f
          → ((a : Unit {0}) → r.0 ≡ ok a → HasPid r.1)
          → Tried job (entries_of f) (go_on r (λ _. record_pid task job))
      go (ok a, g) s h = rw s at (record_pid-Tried atomic job g (h a refl))
      go (err e, g) s h = inr (e, refl, s)

  -- The three ends of a launch, where the account stood at `used`.
  abbrev pub Launched : Job → Quota → World H → Result (Unit {0}) × World H → Type 0
  Launched job used w r =
      ((r.0 ≡ ok tt) × (r.1.rest ≡ w.rest) × (r.1.quota.cached ≡ some used) × (r.1.warned ≡ true))
      ⊎ (((r.0 ≡ ok tt)
            × ((p : Process) × (pids.entries r.1.rest ≡ insert job p (pids.entries w.rest)))
            × (r.1.quota.cached ≡ some (add used task.job_quota)))
          ⊎ ((e : Error) × (r.0 ≡ err e)
              × (pids.entries r.1.rest ≡ pids.entries w.rest)
              × (r.1.quota.cached ≡ some used)))

  kill_if-Spares : (pid : _) (h : H) → pids.entries (kill_if task pid h) ≡ pids.entries h
  unfolding kill_if
  kill_if-Spares none h = refl
  kill_if-Spares (some pid) h = (task.kill pid).keeps h

  rmtree_if-Spares :
      (b : Bool) (job : Job) (h : H) → pids.entries (rmtree_if task b job h) ≡ pids.entries h
  unfolding rmtree_if
  rmtree_if-Spares false job h = refl
  rmtree_if-Spares true job h = (task.rmtree _).keeps h

  launch_end-Launched :
      (job : Job) (used : Quota) (w : World H) (m : QuotaManager H)
      → m.cached ≡ some (add used task.job_quota)
      → (r : Result (Unit {0}) × Frame H) → Tried job (pids.entries w.rest) r
      → Launched job used w (launch_end task job (record w { quota = m }) r)
  unfolding Tried clean_up
  launch_end-Launched job used w m c (ok a, f) (inl (o, (p, e))) = inr (inl (refl, (p, e), c))
  launch_end-Launched job used w m c (ok a, f) (inr (x, o, e)) = cc
  launch_end-Launched job used w m c (err y, f) (inl (o, (p, e))) = cc
  launch_end-Launched job used w m c (err y, f) (inr (x, o, e)) = inr (
      inr (
        y,
        refl,
        rmtree_if-Spares f.dirmade job _ ∙ kill_if-Spares f.pid f.rest ∙ e,
        ap (λ r. r.1.cached) (relinquish-cached f.rest task.job_quota m _ c)
            ∙ ap some (sub-add used task.job_quota),
      ))

  pub launch-Launched :
      (atomic : IsAtomic pids) (job : Job) (used : Quota) (w : World H)
      → w.quota.cached ≡ some used
      → Launched job used w (launch task job w)
  unfolding launch
  launch-Launched atomic job used w c =
      go (reserve w.rest task.job_quota w.quota)
        (reserve_cases w.rest w.quota used task.job_quota (load-cached w.rest w.quota used c))
    where
      go :
          (r : _)
          → Reserved w.quota used task.job_quota r
          → Launched job used w (launch_granted task job w r)
      go (o, m) (inl (granted, _, after)) = rw granted (
          launch_end-Launched job used w m (ap (λ x. x.cached) after) _
            (try_launch-Tried atomic job _))
      go (o, m) (inr (kind, refused, _, after)) =
          rw refused (inl (refl, refl, ap (λ x. x.cached) after, refl))

  -- Where a dump of `pids` that raises has stored nothing, a launch of a job that has no process keeps a loaded account in balance with the recorded processes, however
  -- it ends.
  pub launch-Balanced :
      (atomic : IsAtomic pids) (job : Job) (base : Quota) (w : World H)
      → has job (pids.entries w.rest) ≡ false
      → Balanced base w
      → Balanced base (launch task job w).1
  unfolding times
  launch-Balanced atomic job base w absent b = elim (launch-Launched atomic job _ w b) [
    | inl (_, e, c, _) ↦ rw e c
    | inr (inl (_, (p, e), c)) ↦
        rw (e, length-insert job p (pids.entries w.rest) absent)
          (c ∙ ap some (add_assoc base _ task.job_quota))
    | inr (inr (_, _, e, c)) ↦ rw e c
  ]
