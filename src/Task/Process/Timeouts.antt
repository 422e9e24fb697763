-- ===== src/Task/Process/Timeouts.antt =====
-- An update while a job is over its time limit.
use pydatatask.Base.{
  ℕ, Bool, true, false, not, none, List, [], ◌∷◌, ◌≡◌, ◌⊎◌, inl, inr, refl, ap, ◌∙◌, arith,
  Option-cases,
}
use pydatatask.Base.Results.{ok, err, key_error}
use pydatatask.Base.Keys.{
  Job, Dict, get, insert, has, keys, mem, mem-select, same, same_iff, has-get, get-insert, is_some,
}
use pydatatask.Task.Process.{Pid, Process, Pids, ProcessTask, World}
use pydatatask.Task.Process.Reap.{
  map_pids, pid_map, timeout_set, Coro, found_job, one_more, coros_of, without, schedule,
  update_from, update, reaps, timeout_reaps,
}

unfoldable pub pids_of : Dict Process → List Pid
pids_of [] = []
pids_of ((job, p) ∷ d) = p.pid ∷ pids_of d

module _ {H : Type 0} {pids : Pids H} (task : ProcessTask pids) where
  get-map_pids :
      (x : Pid) (d : Dict Process) (acc : Dict Job)
      → mem x (pids_of d) ≡ false
      → get x (map_pids task d acc) ≡ get x acc
  unfolding map_pids pids_of mem
  get-map_pids x [] acc h = refl
  get-map_pids x ((job, p) ∷ d) acc h = ground (
    arith,
    h,
    get-map_pids x d (insert p.pid job acc),
    get-insert p.pid x job acc,
    same_iff p.pid x,
    same_iff x p.pid,
  )

  found_job_cases :
      (d : Dict Process) (map : Dict Job) (x : Pid)
      → (found_job task d map x ≡ err key_error) ⊎ ((r : Job × ℕ) × (found_job task d map x ≡ ok r))
  unfolding found_job
  found_job_cases d map x = elim (Option-cases (get x map)) [
    | inl e ↦ inl (rw (e, found_job) refl)
    | inr (job, e) ↦ elim (Option-cases (get job d)) [
      | inl q ↦ inl (rw (e, found_job, q) refl)
      | inr (p, q) ↦ inr ((job, p.start_time), rw (e, found_job, q) refl)
    ]
  ]

  coros_of_cases :
      (make : _) (d : Dict Process) (map : Dict Job) (xs : List Pid)
      → (coros_of task make d map xs ≡ err key_error)
        ⊎ ((cs : List (Coro task)) × (coros_of task make d map xs ≡ ok cs))
  unfolding coros_of
  coros_of_cases make d map [] = inr ([], refl)
  coros_of_cases make d map (x ∷ xs) =
      let later = coros_of_cases make d map xs in
      elim (found_job_cases d map x) [
        | inl e ↦ inl (rw (e, one_more) refl)
        | inr (r, e) ↦ elim later [
          | inl q ↦ inl (rw (e, q, one_more) refl)
          | inr (cs, q) ↦ inr (make r.0 r.1 x ∷ cs, rw (e, q, one_more) refl)
        ]
      ]

  coros_of_missing :
      (make : _) (d : Dict Process) (map : Dict Job) (xs : List Pid) (x : Pid)
      → get x map ≡ none
      → mem x xs ≡ true
      → coros_of task make d map xs ≡ err key_error
  unfolding coros_of mem found_job
  coros_of_missing make d map [] x h k = cc
  coros_of_missing make d map (y ∷ ys) x h k =
      let later = coros_of_missing make d map ys x h in
      elim (found_job_cases d map y) [
        | inl e ↦ rw (e, one_more) refl
        | inr (r, e) ↦ rw (e, later (behind r e), one_more) refl
      ]
    where
      behind : (r : Job × ℕ) → found_job task d map y ≡ ok r → mem x ys ≡ true
      behind r e = go (same x y) refl
        where
          go : (b : Bool) → same x y ≡ b → mem x ys ≡ true
          go true q = absurd (absent (rw ((same_iff x y).0 q) at h))
            where
              absent : get y map ≡ none → ⊥
              absent a =
                  let refused : found_job task d map y ≡ err key_error = rw (a, found_job) refl in
                  cc
          go false q = ground (arith, k, q)

  -- While a job is over its time limit whose identifier is not the pid of a recorded process, an update that finds
  -- the live processes raises KeyError and does nothing: neither that job nor any process that has
  -- ended is reaped.
  pub update_timed_out :
      (w : World H) (d : Dict Process) (live : List Pid) (job : Job)
      → pids.info_all w.rest ≡ ok d
      → task.get_live_pids (keys (pid_map task d)) w.rest ≡ ok live
      → mem job (timeout_set task (task.now w.rest) d) ≡ true
      → mem job (pids_of d) ≡ false
      → update task w ≡ (err key_error, record w { warned = false })
  unfolding update schedule pid_map get has
  update_timed_out w d live job i l late foreign = rw (i, update, update_from, l, raises) refl
    where
      no_job : get job (pid_map task d) ≡ none
      no_job = get-map_pids job d [] foreign

      no_pid : mem job (keys (pid_map task d)) ≡ false
      no_pid = has-get job (pid_map task d) ∙ ap is_some no_job

      due : List Pid
      due =
          without task (timeout_set task (task.now w.rest) d)
            (without task (keys (pid_map task d)) live)

      is_due : mem job due ≡ true
      is_due = ground (
        arith,
        late,
        no_pid,
        mem-select (λ x. not (mem x (without task (keys (pid_map task d)) live))) job
            (timeout_set task (task.now w.rest) d),
        mem-select (λ x. not (mem x live)) job (keys (pid_map task d)),
      )

      raises : schedule task (task.now w.rest) d live ≡ err key_error
      raises =
          elim (coros_of_cases (λ job start pid. reaps job start) d (pid_map task d)
            (without task (keys (pid_map task d)) live)) [
              | inl e ↦ rw (e, schedule) refl
              | inr (cs, e) ↦
                  rw
                    (
                      e,
                      schedule,
                      coros_of_missing (λ job start pid. timeout_reaps job pid start) d
                          (pid_map task d) due job no_job is_due,
                    )
                    refl
            ]
