-- ===== src/Session/Lifetime.antt =====
-- The resources of a session while it is open and after it.
use pydatatask.Base.{
  ◌≡◌, refl, sym, ap, ◌∙◌, true, false, none, some, [], ◌∷◌, Bool-cases, inl, inr, arith,
}
use pydatatask.Base.Results.{ok}
use pydatatask.Base.Keys.{
  Job, Dict, get, insert, remove, keys, mem, has, same, same_iff, same_refl, get-insert, get-remove,
}
use pydatatask.Session.{
  Anext, yielded, stopped, Manager, Session, inner, live_or_raise, open_all, close_all,
  open_session, close,
}

pub data Phase (T : Type 0) : Type 0 where
  fresh : Phase T
  live : T → Phase T
  done : Phase T

module _ {W T : Type 0} (phase : Job → W → Phase T) where
  -- What the documentation of `ephemeral` asks of a manager: it yields one object, which is then live, and at its next step tears
  -- it down and ends; and it leaves the resources of other names alone.
  pub record IsManager (name : Job) (m : Manager W T) : Type 0 where
    pub starts :
        (w : W)
        → phase name w ≡ fresh
        → (x : T) × (w' : W) × (m w ≡ (yielded x, w')) × (phase name w' ≡ live x)
    pub ends :
        (w : W) (x : T)
        → phase name w ≡ live x
        → (w' : W) × (m w ≡ (stopped, w')) × (phase name w' ≡ done)
    pub apart : (w : W) (j : Job) → same j name ≡ false → phase j (m w).1 ≡ phase j w

  abbrev pub AreManagers : Dict (Manager W T) → Type 0
  AreManagers [] = Unit
  AreManagers ((name, m) ∷ defs) = IsManager name m × (has name defs ≡ false) × AreManagers defs

  abbrev pub AllFresh : Dict (Manager W T) → W → Type 0
  AllFresh defs w = (j : Job) → has j defs ≡ true → phase j w ≡ fresh

  -- Each name of `defs` has a live resource, the one that the session hands out.
  abbrev pub AllLive : Dict (Manager W T) → Dict T × W → Type 0
  AllLive defs (es, w) =
      (j : Job) → has j defs ≡ true → (x : T) × (phase j w ≡ live x) × (get j es ≡ some x)

  abbrev pub AllDone : Dict (Manager W T) → Dict T × W → Type 0
  AllDone defs (es, w) = (j : Job) → has j defs ≡ true → (phase j w ≡ done) × (get j es ≡ none)

  abbrev pub Same : Dict (Manager W T) → Dict T × W → Dict T × W → Type 0
  Same defs (es, w) (es', w') =
      (j : Job) → has j defs ≡ false → (phase j w' ≡ phase j w) × (get j es' ≡ get j es)

  -- A name is that of the first definition, or not.
  pub other :
      (j name : Job) (m : Manager W T) (defs : Dict (Manager W T))
      → has name defs ≡ false
      → has j defs ≡ true
      → same j name ≡ false
  unfolding has keys mem
  other j name m defs h k = elim (Bool-cases (same j name)) [
    | inl e ↦ absurd (
        let q : j ≡ name = (same_iff j name).0 e in
        let l : has j defs ≡ false = ap (λ (i : Job). has i defs) q ∙ h in cc (sym k ∙ l))
    | inr e ↦ e
  ]

  same_sym : (i j : Job) → same i j ≡ false → same j i ≡ false
  same_sym i j h = ground (arith, same_iff i j, same_iff j i)

  -- Every name of the definitions is the first or one of the rest.
  each :
      (P : Job → Type 0) (name : Job) (m : Manager W T) (defs : Dict (Manager W T))
      → P name
      → ((j : Job) → has j defs ≡ true → P j)
      → (j : Job) → has j ((name, m) ∷ defs) ≡ true
      → P j
  unfolding has keys mem
  each P name m defs here rest j h = elim (Bool-cases (same j name)) [
    | inl e ↦ (let q : j ≡ name = (same_iff j name).0 e in rw q here)
    | inr e ↦ rest j (ground (arith, h, e))
  ]

  earlier_one :
      (name : Job) (m : Manager W T) (defs : Dict (Manager W T)) (es es1 : Dict T) (w w1 : W)
      (s : Dict T × W)
      → ((j : Job) → same j name ≡ false → (phase j w1 ≡ phase j w) × (get j es1 ≡ get j es))
      → Same defs (es1, w1) s
      → Same ((name, m) ∷ defs) (es, w) s
  unfolding has keys mem
  earlier_one name m defs es es1 w w1 s first frame j h =
      let not_first : same j name ≡ false = ground (arith, h) in
      let not_rest : has j defs ≡ false = ground (arith, h) in
      let (a, b) = first j not_first in let (c, d) = frame j not_rest in (c ∙ a, d ∙ b)

  get_inserted :
      (name j : Job) (x : T) (es : Dict T)
      → same j name ≡ false
      → get j (insert name x es) ≡ get j es
  get_inserted name j x es h = get-insert name j x es ∙ rw (same_sym j name h) refl

  get_removed :
      (name j : Job) (es : Dict T) → same j name ≡ false → get j (remove name es) ≡ get j es
  get_removed name j es h = get-remove name j es ∙ rw (same_sym j name h) refl

  pub stays :
      (name : Job) (m : Manager W T) (w w1 : W) (a : Anext T)
      → ((w : W) (j : Job) → same j name ≡ false → phase j (m w).1 ≡ phase j w)
      → m w ≡ (a, w1)
      → (j : Job) → same j name ≡ false
      → phase j w1 ≡ phase j w
  stays name m w w1 a apart e j h = ap (phase j) (sym (ap (λ r. r.1) e)) ∙ apart w j h

  pub open_all-AllLive :
      (defs : Dict (Manager W T)) (es : Dict T) (w : W)
      → AreManagers defs
      → AllFresh defs w
      → (s : Dict T × W) × (open_all defs (es, w) ≡ (ok tt, s))
        × AllLive defs s
        × Same defs (es, w) s
  unfolding open_all has keys mem
  open_all-AllLive [] es w ms f = ((es, w), refl, (λ j h. absurd (cc h)), (λ j h. (refl, refl)))
  open_all-AllLive ((name, m) ∷ defs) es w (k, distinct, ms) f =
      let (x, w1, steps, is_live) = k.starts w (f name (ground (arith, same_refl name))) in
      let kept = stays name m w w1 (yielded x) k.apart steps in
      let still : AllFresh defs w1 =
        λ j h. kept j (other j name m defs distinct h) ∙ f j (ground (arith, h)) in
      let (s, e, lives, frame) = open_all-AllLive defs (insert name x es) w1 ms still in
      let (a, b) = frame name distinct in
      let here : get name (insert name x es) ≡ some x =
        get-insert name name x es ∙ rw (same_refl name) refl in
      (
        s,
        rw steps e,
        each (λ j. (y : T) × (phase j s.1 ≡ live y) × (get j s.0 ≡ some y)) name m defs
            (x, a ∙ is_live, b ∙ here) lives,
        earlier_one name m defs es (insert name x es) w w1 s
            (λ j h. (kept j h, get_inserted name j x es h)) frame,
      )

  pub close_all-AllDone :
      (defs : Dict (Manager W T)) (es : Dict T) (w : W)
      → AreManagers defs
      → AllLive defs (es, w)
      → (s : Dict T × W) × (close_all defs (es, w) ≡ (ok tt, s))
        × AllDone defs s
        × Same defs (es, w) s
  unfolding close_all has keys mem
  close_all-AllDone [] es w ms f = ((es, w), refl, (λ j h. absurd (cc h)), (λ j h. (refl, refl)))
  close_all-AllDone ((name, m) ∷ defs) es w (k, distinct, ms) f =
      let (x, is_live, there) = f name (ground (arith, same_refl name)) in
      let (w1, steps, is_done) = k.ends w x is_live in
      let kept = stays name m w w1 stopped k.apart steps in
      let still : AllLive defs (remove name es, w1) = λ j h.
        let apart = other j name m defs distinct h in
        let (y, p, q) = f j (ground (arith, h)) in
        (y, kept j apart ∙ p, get_removed name j es apart ∙ q) in
      let (s, e, over, frame) = close_all-AllDone defs (remove name es) w1 ms still in
      let (a, b) = frame name distinct in
      let gone : get name (remove name es) ≡ none =
        get-remove name name es ∙ rw (same_refl name) refl in
      (
        s,
        rw (steps, there) e,
        each (λ j. (phase j s.1 ≡ done) × (get j s.0 ≡ none)) name m defs (a ∙ is_done, b ∙ gone)
            over,
        earlier_one name m defs es (remove name es) w w1 s
            (λ j h. (kept j h, get_removed name j es h)) frame,
      )

  -- A session whose managers have names of their own and have not started. `open` succeeds; then the resource of each
  -- manager is live, and the function that `ephemeral` returned gives it. `close` then succeeds, after which each
  -- resource is torn down, and those functions raise; and under a name without a manager nothing has changed.
  pub open-close :
      (session : Session W T) (w : W)
      → AreManagers session.ephemeral_defs
      → AllFresh session.ephemeral_defs w
      → (during : Session W T) × (w1 : W) × (after : Session W T) × (w2 : W) × (open_session
            (session, w)
          ≡ (ok tt, (during, w1)))
        × (close (during, w1) ≡ (ok tt, (after, w2)))
        × ((j : Job)
            → has j session.ephemeral_defs ≡ true
            → (x : T) × (phase j w1 ≡ live x) × (inner j during ≡ ok x))
        × ((j : Job)
            → has j session.ephemeral_defs ≡ true
            → (phase j w2 ≡ done) × (inner j after ≡ live_or_raise none))
        × ((j : Job)
            → has j session.ephemeral_defs ≡ false
            → (phase j w2 ≡ phase j w) × (inner j after ≡ inner j session))
  unfolding open_session close inner
  open-close session w ms f =
      let defs = session.ephemeral_defs in
      let ((es1, w1), e1, lives, frame1) = open_all-AllLive defs session.ephemerals w ms f in
      let ((es2, w2), e2, over, frame2) = close_all-AllDone defs es1 w1 ms lives in
      (
        record session { ephemerals = es1 },
        w1,
        record session { ephemerals = es2 },
        w2,
        rw e1 refl,
        rw e2 refl,
        (λ j h. let (x, p, q) = lives j h in (x, p, ap live_or_raise q)),
        (λ j h. let (p, q) = over j h in (p, ap live_or_raise q)),
        (λ j h.
            let (p1, q1) = frame1 j h in
            let (p2, q2) = frame2 j h in (p2 ∙ p1, ap live_or_raise (q2 ∙ q1))),
      )
