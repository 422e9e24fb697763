-- ===== src/Session.antt =====
-- pydatatask/session.py: resources that live while a session is open. A manager is an asynchronous generator whose
-- next step is a parameter; `W` is the world that it acts on and `T` what it yields.
pub mod Failure
pub mod Lifetime
mod Tests
use pydatatask.Base.{Option, none, some, [], ◌∷◌}
use pydatatask.Base.Results.{Result, ok, err, Error, key_error, raised, Exec}
use pydatatask.Base.Keys.{Job, Dict, get, insert, remove}

-- What `__anext__` does: it yields, or raises StopAsyncIteration or another exception.
pub data Anext (T : Type 0) : Type 0 where
  yielded : T → Anext T
  stopped : Anext T
  failed : Error → Anext T

abbrev pub Manager : Type 0 → Type 0 → Type 0
Manager W T = W → Anext T × W

pub record Session (W T : Type 0) : Type 0 where
  pub ephemeral_defs : Dict (Manager W T)
  pub ephemerals : Dict T

abbrev pub live_or_raise : {T : Type 0} → Option T → Result T
live_or_raise none = err (raised 0)
live_or_raise (some x) = ok x

module _ {W T : Type 0} where
  unfoldable pub init : Session W T
  init = record { ephemeral_defs = []; ephemerals = [] }

  unfoldable pub ephemeral : Job → Manager W T → Session W T → Session W T
  ephemeral name manager s = record s { ephemeral_defs = insert name manager s.ephemeral_defs }

  -- The function that `ephemeral` returns.
  unfoldable pub inner : Job → Session W T → Result T
  inner name s = live_or_raise (get name s.ephemerals)

  abbrev pub opened :
      Job → Exec (Dict T × W) (Unit {0}) → Dict T → Anext T × W → Result (Unit {0}) × (Dict T × W)
  opened name rest es (yielded x, w) = rest (insert name x es, w)
  opened name rest es (stopped, w) = (err (raised 1), (es, w))
  opened name rest es (failed e, w) = (err e, (es, w))

  unfoldable pub open_all : Dict (Manager W T) → Exec (Dict T × W) (Unit {0})
  open_all [] s = (ok tt, s)
  open_all ((name, manager) ∷ defs) (es, w) = opened name (open_all defs) es (manager w)

  -- `self.ephemerals.pop(name)`
  abbrev pub popped : Job → Exec (Dict T × W) (Unit {0}) → Option T → Exec (Dict T × W) (Unit {0})
  popped name rest none s = (err key_error, s)
  popped name rest (some x) (es, w) = rest (remove name es, w)

  -- A manager that yields again gets a warning, and no more.
  abbrev pub closed :
      Job → Exec (Dict T × W) (Unit {0}) → Dict T → Anext T × W → Result (Unit {0}) × (Dict T × W)
  closed name rest es (yielded x, w) = popped name rest (get name es) (es, w)
  closed name rest es (stopped, w) = popped name rest (get name es) (es, w)
  closed name rest es (failed e, w) = (err e, (es, w))

  unfoldable pub close_all : Dict (Manager W T) → Exec (Dict T × W) (Unit {0})
  close_all [] s = (ok tt, s)
  close_all ((name, manager) ∷ defs) (es, w) = closed name (close_all defs) es (manager w)

  abbrev pub with_ephemerals :
      Session W T → Result (Unit {0}) × (Dict T × W) → Result (Unit {0}) × (Session W T × W)
  with_ephemerals s (r, (es, w)) = (r, (record s { ephemerals = es }, w))

  unfoldable pub open_session : Exec (Session W T × W) (Unit {0})
  unfolding open_all
  open_session (s, w) = with_ephemerals s (open_all s.ephemeral_defs (s.ephemerals, w))

  unfoldable pub close : Exec (Session W T × W) (Unit {0})
  unfolding close_all
  close (s, w) = with_ephemerals s (close_all s.ephemeral_defs (s.ephemerals, w))
