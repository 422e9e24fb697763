-- ===== src/Session/Failure.antt =====
-- A session one of whose managers raises when it is opened.
use pydatatask.Base.{◌≡◌, refl, ap, ◌∙◌, false, Option, none, some, [], ◌∷◌, ◌++◌}
use pydatatask.Base.Results.{Result, ok, err, Error, key_error}
use pydatatask.Base.Keys.{Job, Dict, get, has, same}
use pydatatask.Session.{
  Anext, yielded, stopped, failed, Manager, Session, opened, open_all, popped, closed, close_all,
  with_ephemerals, open_session, close,
}
use pydatatask.Session.Lifetime.{
  Phase, fresh, done, AreManagers, AllFresh, AllLive, AllDone, open_all-AllLive, close_all-AllDone,
  other, stays,
}

abbrev Loop : Type 0 → Type 0 → Type 0
Loop W T = Dict T × W → Result (Unit {0}) × (Dict T × W)

module _ {W T : Type 0} where
  abbrev Goes : Loop W T → Loop W T → Dict T × W → Result (Unit {0}) × (Dict T × W) → Type 0
  Goes rest rest' s t = (es : Dict T) (w : W) → rest (es, w) ≡ (ok tt, s) → rest' (es, w) ≡ t

  opened-Goes :
      (name : Job) (rest rest' : Loop W T) (es : Dict T) (r : Anext T × W) (s : Dict T × W)
      (t : Result (Unit {0}) × (Dict T × W))
      → opened name rest es r ≡ (ok tt, s)
      → Goes rest rest' s t
      → opened name rest' es r ≡ t
  opened-Goes name rest rest' es (yielded x, w) s t h go = go _ w h
  opened-Goes name rest rest' es (stopped, w) s t h go = absurd (cc h)
  opened-Goes name rest rest' es (failed e, w) s t h go = absurd (cc h)

  popped-Goes :
      (name : Job) (rest rest' : Loop W T) (es : Dict T) (o : Option T) (w : W) (s : Dict T × W)
      (t : Result (Unit {0}) × (Dict T × W))
      → popped name rest o (es, w) ≡ (ok tt, s)
      → Goes rest rest' s t
      → popped name rest' o (es, w) ≡ t
  popped-Goes name rest rest' es none w s t h go = absurd (cc h)
  popped-Goes name rest rest' es (some x) w s t h go = go _ w h

  closed-Goes :
      (name : Job) (rest rest' : Loop W T) (es : Dict T) (r : Anext T × W) (s : Dict T × W)
      (t : Result (Unit {0}) × (Dict T × W))
      → closed name rest es r ≡ (ok tt, s)
      → Goes rest rest' s t
      → closed name rest' es r ≡ t
  closed-Goes name rest rest' es (yielded x, w) s t h go =
      popped-Goes name rest rest' es (get name es) w s t h go
  closed-Goes name rest rest' es (stopped, w) s t h go =
      popped-Goes name rest rest' es (get name es) w s t h go
  closed-Goes name rest rest' es (failed e, w) s t h go = absurd (cc h)

  open_all-append :
      (before later : Dict (Manager W T)) (es : Dict T) (w : W) (s : Dict T × W)
      → open_all before (es, w) ≡ (ok tt, s)
      → open_all (before ++ later) (es, w) ≡ open_all later s
  unfolding open_all
  open_all-append [] later es w s h = let q : (es, w) ≡ s = ap (λ r. r.1) h in ap (open_all later) q
  open_all-append ((name, m) ∷ before) later es w s h =
      opened-Goes name (open_all before) (open_all (before ++ later)) es (m w) s (open_all later s)
        h (λ es' w' k. open_all-append before later es' w' s k)

  close_all-append :
      (before later : Dict (Manager W T)) (es : Dict T) (w : W) (s : Dict T × W)
      → close_all before (es, w) ≡ (ok tt, s)
      → close_all (before ++ later) (es, w) ≡ close_all later s
  unfolding close_all
  close_all-append [] later es w s h =
      let q : (es, w) ≡ s = ap (λ r. r.1) h in ap (close_all later) q
  close_all-append ((name, m) ∷ before) later es w s h =
      closed-Goes name (close_all before) (close_all (before ++ later)) es (m w) s
        (close_all later s) h (λ es' w' k. close_all-append before later es' w' s k)

  raises :
      (name : Job) (m : Manager W T) (later : Dict (Manager W T)) (es : Dict T) (w w' : W)
      (e : Error)
      → m w ≡ (failed e, w')
      → open_all ((name, m) ∷ later) (es, w) ≡ (err e, (es, w'))
  unfolding open_all
  raises name m later es w w' e h = rw h refl

  misses :
      (name : Job) (m : Manager W T) (later : Dict (Manager W T)) (es : Dict T) (w w' : W)
      → m w ≡ (stopped, w')
      → get name es ≡ none
      → close_all ((name, m) ∷ later) (es, w) ≡ (err key_error, (es, w'))
  unfolding close_all
  misses name m later es w w' h absent = rw (h, absent) refl

module _ {W T : Type 0} (phase : Job → W → Phase T) where
  -- A manager that raises `e` at its first step, which ends it, as it does any asynchronous generator, and that leaves
  -- the resources of other names alone.
  pub record IsFaulty (name : Job) (m : Manager W T) (e : Error) : Type 0 where
    pub fails :
        (w : W) → phase name w ≡ fresh → (w' : W) × (m w ≡ (failed e, w')) × (phase name w' ≡ done)
    pub ended : (w : W) → phase name w ≡ done → (w' : W) × (m w ≡ (stopped, w'))
    pub apart : (w : W) (j : Job) → same j name ≡ false → phase j (m w).1 ≡ phase j w

  -- A session is opened whose first managers are as they should be and one of whose managers raises `e`, where managers have names of
  -- their own, have not started, and nothing is live under the name of the faulty one. `open` raises `e` and leaves the
  -- resources of the managers before it live, so that they still wait for `close`. If `close` is called then, it tears these
  -- resources down and raises KeyError at the faulty manager.
  pub open_failed :
      (session : Session W T) (before later : Dict (Manager W T)) (name : Job) (m : Manager W T)
      (e : Error) (w : W)
      → session.ephemeral_defs ≡ before ++ (name, m) ∷ later
      → get name session.ephemerals ≡ none
      → AreManagers phase before
      → has name before ≡ false
      → IsFaulty name m e
      → AllFresh phase before w
      → phase name w ≡ fresh
      → (during : Session W T) × (w1 : W) × (after : Session W T) × (w2 : W) × (open_session
            (session, w)
          ≡ (err e, (during, w1)))
        × AllLive phase before (during.ephemerals, w1)
        × (close (during, w1) ≡ (err key_error, (after, w2)))
        × AllDone phase before (after.ephemerals, w2)
  unfolding open_session close
  open_failed session before later name m e w is absent ms distinct k f is_fresh =
      let ((es1, w0), opens, lives, frame1) =
        open_all-AllLive phase before session.ephemerals w ms f in
      let (same_phase, same_entry) = frame1 name distinct in
      let (w1, fails, is_done) = k.fails w0 (same_phase ∙ is_fresh) in
      let kept = stays phase name m w0 w1 (failed e) k.apart fails in
      let lives' : AllLive phase before (es1, w1) = λ j h.
        let (x, p, q) = lives j h in (x, kept j (other phase j name m before distinct h) ∙ p, q) in
      let ((es2, w2), closes, over, frame2) = close_all-AllDone phase before es1 w1 ms lives' in
      let (same_phase', same_entry') = frame2 name distinct in
      let (w3, stops) = k.ended w2 (same_phase' ∙ is_done) in
      let kept' = stays phase name m w2 w3 stopped k.apart stops in
      (
        record session { ephemerals = es1 },
        w1,
        record session { ephemerals = es2 },
        w3,
        ap (with_ephemerals session) (
            ap (λ (d : Dict (Manager W T)). open_all d (session.ephemerals, w)) is
            ∙ open_all-append before ((name, m) ∷ later) session.ephemerals w (es1, w0) opens
            ∙ raises name m later es1 w0 w1 e fails),
        lives',
        ap (with_ephemerals session) (
            ap (λ (d : Dict (Manager W T)). close_all d (es1, w1)) is
            ∙ close_all-append before ((name, m) ∷ later) es1 w1 (es2, w2) closes
            ∙ misses name m later es2 w2 w3 stops (same_entry' ∙ same_entry ∙ absent)),
        (λ j h. let (p, q) = over j h in (kept' j (other phase j name m before distinct h) ∙ p, q)),
      )
