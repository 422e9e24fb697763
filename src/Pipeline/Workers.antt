-- ===== src/Pipeline/Workers.antt =====
-- The leader and the workers that launch a batch, with `fail_fast` off: a launch that raises is logged, and its
-- worker goes on. The event loop runs them in any order; a step is what one of them does between two
-- waits.
pub mod Conserve
use pydatatask.Base.{ℕ, zero, suc, ◌≡◌, Option, none, some, List, [], ◌∷◌, ◌++◌, map}
use pydatatask.Pipeline.{Entry}

abbrev pub n_workers : ℕ
n_workers = 15

abbrev pub nones : ℕ → List (Option Entry)
nones zero = []
nones (suc n) = none ∷ nones n

-- `offered` is what the leader has still to put; a worker is idle, launches an entry, or has returned.
pub record State : Type 0 where
  pub offered : List (Option Entry)
  pub queue : List (Option Entry)
  pub idle : ℕ
  pub launching : List Entry
  pub launched : List Entry

unfoldable pub start : List Entry → State
start jobs = record {
  offered = map some jobs ++ nones n_workers;
  queue = [];
  idle = n_workers;
  launching = [];
  launched = [];
}

pub data Step (s t : State) : Type 0 where
  -- `await queue.put(job)`
  puts :
      (x : Option Entry) (rest : List (Option Entry))
      → s.offered ≡ x ∷ rest
      → t ≡ record s { offered = rest; queue = s.queue ++ x ∷ [] }
      → Step s t
  -- `jobt = await queue.get()`, then the launch begins.
  gets :
      (e : Entry) (rest : List (Option Entry)) (n : ℕ)
      → s.queue ≡ some e ∷ rest
      → s.idle ≡ suc n
      → t ≡ record s { queue = rest; idle = n; launching = e ∷ s.launching }
      → Step s t
  -- The launch ends, or raises.
  finishes :
      (before : List Entry) (e : Entry) (behind : List Entry)
      → s.launching ≡ before ++ e ∷ behind
      → t ≡ record s { launching = before ++ behind; idle = suc s.idle; launched = e ∷ s.launched }
      → Step s t
  -- `if jobt is None: return`
  returns :
      (rest : List (Option Entry)) (n : ℕ)
      → s.queue ≡ none ∷ rest
      → s.idle ≡ suc n
      → t ≡ record s { queue = rest; idle = n }
      → Step s t

pub data Reach (s : State) : State → Type 0 where
  here : Reach s s
  next : {t u : State} → Reach s t → Step t u → Reach s u

-- `asyncio.gather` is over: every worker has returned.
pub record IsOver (s : State) : Type 0 where
  pub none_idle : s.idle ≡ 0
  pub none_launching : s.launching ≡ []
