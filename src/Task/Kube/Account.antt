-- ===== src/Task/Kube/Account.antt =====
-- What a launch and a delete of a pod do to the account of the quota manager.
use pydatatask.Base.{true, some, Option, ◌≡◌, ◌⊎◌, inl, inr, refl}
use pydatatask.Base.Results.{Result, ok, err, Error}
use pydatatask.Base.Exec.{◌>>=◌}
use pydatatask.Base.Keys.{Job}
use pydatatask.Quota.{Quota, QuotaManager, QuotaType, add, reserve}
use pydatatask.Quota.Order.{Within, sub-add}
use pydatatask.Quota.Manager.{reserve_cases, load-cached, Exceeds, Reserved, relinquish-cached}
use pydatatask.Task.Process.{World}
use pydatatask.Task.Kube.{
  Pod, Manifest, KubeTask, request_of, prepare, launch_end, launch_granted, launch_prepared, launch,
  relinquish_in, delete,
}

module _ {H A : Type 0} (task : KubeTask H A) where
  -- The three ends of a launch with this manifest and request, where the cluster stands at `h` behind the rendering and the
  -- account at `used`: refused, launched, and failed.
  abbrev pub Settled :
      Job → Manifest A → Quota → Quota → H → World H → Result (Unit {0}) × World H → Type 0
  Settled job manifest used request h w r =
      ((kind : QuotaType) × Exceeds kind (add used request) w.quota.quota
        × (r ≡ (
          ok tt,
          record w { rest = h; quota = record w.quota { cached = some used }; warned = true },
        )))
      ⊎ ((Within (add used request) w.quota.quota
            × ((task.launch_pod job manifest h).0 ≡ ok tt)
            × (r ≡ (
              ok tt,
              record w {
                rest = (task.launch_pod job manifest h).1;
                quota = record w.quota { cached = some (add used request) };
              },
            )))
          ⊎ ((e : Error) × Within (add used request) w.quota.quota
              × ((task.launch_pod job manifest h).0 ≡ err e)
              × (r ≡ (
                err e,
                record w {
                  rest = (task.launch_pod job manifest h).1;
                  quota = record w.quota { cached = some used };
                },
              ))))

  launch_end-Settled :
      (job : Job) (manifest : Manifest A) (used request : Quota) (w : World H) (h : H)
      → Within (add used request) w.quota.quota
      → (r : Result (Unit {0}) × H) → task.launch_pod job manifest h ≡ r
      → Settled job manifest used request h w (
          launch_end task request
            (record w { rest = h; quota = record w.quota { cached = some (add used request) } })
            r)
  launch_end-Settled job manifest used request w h fits (ok a, g) e =
      rw e (inr (inl (fits, refl, refl)))
  launch_end-Settled job manifest used request w h fits (err x, g) e =
      rw
        (
          e,
          relinquish-cached g request (record w.quota { cached = some (add used request) })
              (add used request) refl,
          sub-add used request,
        )
        (inr (inr (x, fits, refl, refl)))

  -- Where the account is loaded, a launch whose manifest is rendered and whose request is known ends in one of three ways. If the
  -- request would take a resource over its limit, the launch is refused: nothing is launched, the warning
  -- is marked as given, and the account is what it was. If the request fits, the pod is launched with the rendered manifest; where
  -- that succeeds the account is raised by the request; where it raises, so does the launch, and the account is what it was.
  pub launch-Settled :
      (job : Job) (manifest : Manifest A) (used request : Quota) (w : World H)
      → (prepare task job w.rest).0 ≡ ok (manifest, request)
      → w.quota.cached ≡ some used
      → Settled job manifest used request (prepare task job w.rest).1 w (launch task job w)
  unfolding launch
  launch-Settled job manifest used request w p c = prepared (prepare task job w.rest) p
    where
      go :
          (h : H) (r : Result (Option QuotaType) × QuotaManager H)
          → Reserved w.quota used request r
          → Settled job manifest used request h w
              (launch_granted task job manifest request (record w { rest = h }) r)
      go h (o, m) (inl (granted, fits, after)) =
          rw (granted, after) (launch_end-Settled job manifest used request w h fits _ refl)
      go h (o, m) (inr (kind, refused, over, after)) = rw (refused, after) (inl (kind, over, refl))

      prepared :
          (r : Result (Manifest A × Quota) × H)
          → r.0 ≡ ok (manifest, request)
          → Settled job manifest used request r.1 w (launch_prepared task job w r)
      prepared (o, h) e = rw e (
          go h (reserve h request w.quota)
            (reserve_cases h w.quota used request (load-cached h w.quota used c)))

  -- Where the account is loaded and holds the request that the containers of a pod make, a delete of the pod that
  -- the pod manager carries out takes that request, and nothing else, off the account.
  pub delete_returns :
      (pod : Pod A) (used request : Quota) (w : World H)
      → request_of task pod.containers ≡ ok request
      → (task.delete_pod pod w.rest).0 ≡ ok tt
      → w.quota.cached ≡ some (add used request)
      → delete task pod w ≡ (
        ok tt,
        record w {
          rest = (task.delete_pod pod w.rest).1;
          quota = record w.quota { cached = some used };
        },
      )
  unfolding delete ◌>>=◌
  delete_returns pod used request w q d c = rw (q, d) (go _)
    where
      go :
          (h : H)
          → relinquish_in task request (record w { rest = h })
            ≡ (ok tt, record w { rest = h; quota = record w.quota { cached = some used } })
      go h =
          rw (relinquish-cached h request w.quota (add used request) c, sub-add used request) refl
