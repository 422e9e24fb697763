-- ===== src/Utils/Queue.antt =====
-- The queues of pydatatask/utils.py: `QueueStream` and `AsyncReaderQueueStream`, whose code is the same
-- but for the way they wait. Bytes are numbers; a read that would sleep and test again
-- is the outcome `waits`, with the locals at which the loop goes on. A negative size is `none`.
pub mod Lists
pub mod Reads
pub mod Total
pub mod Writes
mod Tests
use pydatatask.Base.{
  ℕ, zero, suc, ◌+◌, ◌-◌, Bool, true, false, Option, none, some, List, [], ◌∷◌, ◌++◌, leb, ◌==◌,
  if◌then◌else◌, length, take, drop, get_elem?, set,
}
use pydatatask.Base.Results.{Error}

abbrev pub Bytes : Type 0
Bytes = List ℕ

pub record Queue : Type 0 where
  pub buffer : List (Option Bytes)
  pub line : ℕ
  pub col : ℕ
  pub closed : Bool

pub data Outcome : Type 0 where
  returned : Bytes → Queue → Outcome
  waits : Option ℕ → Bytes → Queue → Outcome
  failed : Error → Outcome

abbrev pub empty : Queue
empty = record { buffer = []; line = 0; col = 0; closed = false }

unfoldable pub write : Bytes → Queue → Queue
write bytes q = record q { buffer = q.buffer ++ some bytes ∷ [] }

unfoldable pub close : Queue → Queue
close q = record q { closed = true }

-- `size < 0 or size >= n`
unfoldable pub covers : Option ℕ → ℕ → Bool
covers none n = true
covers (some size) n = leb n size

-- `size -= n`, where it does not fall below 0: a negative size stays negative.
unfoldable pub reduce : Option ℕ → ℕ → Option ℕ
reduce none n = none
reduce (some size) n = some (size - n)

-- `size != 0`, negated.
unfoldable pub is_zero : Option ℕ → Bool
is_zero none = false
is_zero (some size) = size == 0

abbrev pub up_to : Option ℕ → Bytes → Bytes
up_to none bytes = bytes
up_to (some size) bytes = take size bytes

abbrev pub forward : Option ℕ → ℕ
forward none = 0
forward (some size) = size

-- The last lines of the loop's body: `buf` is not exhausted.
unfoldable pub read_part : Option ℕ → Bytes → Queue → Bytes → Outcome
read_part size out q buf =
    returned (out ++ up_to size (drop q.col buf)) (record q { col = q.col + forward size })

-- `self.buffer[line] = None; self.readptr = (line + 1, 0)`
unfoldable pub consume : Queue → Queue
consume q = record q { buffer = set q.buffer q.line none; line = q.line + 1; col = 0 }

-- At the end of the buffer: `if self.closed: break`, else sleep and go on.
abbrev pub if_closed : Bool → Option ℕ → Bytes → Queue → Outcome
if_closed true size out q = returned out q
if_closed false size out q = waits size out q

-- The `while` loop, on fuel: each round but the last moves on by a line.
unfoldable pub read_loop : ℕ → Option ℕ → Bytes → Queue → Option Outcome
read_loop zero size out q = none
read_loop (suc fuel) size out q =
    let next = λ (buf : Bytes).
      read_loop fuel (reduce size (length buf - q.col)) (out ++ drop q.col buf) (consume q) in
    if is_zero size then some (returned out q) else elim (get_elem? q.buffer q.line) [
      | none ↦ some (if_closed q.closed size out q)
      | some none ↦ some (failed Error.assertion_error)
      | some (some buf) ↦ elim (covers size (length buf - q.col)) [
        | true ↦ next buf
        | false ↦ some (read_part size out q buf)
      ]
    ]

-- One round for each line that is left, and one to stop.
unfoldable pub read : Option ℕ → Queue → Option Outcome
read size q = read_loop (length q.buffer - q.line + 1) size [] q
