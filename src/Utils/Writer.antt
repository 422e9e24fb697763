-- ===== src/Utils/Writer.antt =====
-- `AsyncWriterQueueStream` of pydatatask/utils.py: a queue whose writer is held back while `bufsize` bytes
-- are in the buffer. `none` as the result of a write means that it goes on sleeping.
pub mod Account
mod Tests
use pydatatask.Base.{
  ℕ, zero, suc, ◌+◌, ◌-◌, ◌*◌, Bool, true, false, Option, none, some, List, [], ◌∷◌, ◌++◌, leb,
  if◌then◌else◌, length, drop, get_elem?,
}
use pydatatask.Base.Results.{Error}
use pydatatask.Utils.Queue.{
  Bytes, Queue, Outcome, returned, failed, write, covers, reduce, is_zero, if_closed, read_part,
  consume,
}

pub record Writer : Type 0 where
  pub queue : Queue
  pub bufsize : ℕ

abbrev pub max_bufsize : ℕ
max_bufsize = 1024 * 16 * 8

unfoldable pub put : Bytes → Writer → Option Writer
put bytes w =
    if leb max_bufsize w.bufsize
    then none
    else some (record { queue = write bytes w.queue; bufsize = w.bufsize + length bytes })

-- `read`: the loop of the other queues, which also gives up the bytes of each chunk that it finishes.
unfoldable pub take_loop : ℕ → Option ℕ → Bytes → Queue → ℕ → Option (Outcome × ℕ)
take_loop zero size out q bufsize = none
take_loop (suc fuel) size out q bufsize =
    let next = λ (buf : Bytes).
      take_loop fuel (reduce size (length buf - q.col)) (out ++ drop q.col buf) (consume q)
        (bufsize - length buf) in
    if is_zero size then some (returned out q, bufsize) else elim (get_elem? q.buffer q.line) [
      | none ↦ some (if_closed q.closed size out q, bufsize)
      | some none ↦ some (failed Error.assertion_error, bufsize)
      | some (some buf) ↦ elim (covers size (length buf - q.col)) [
        | true ↦ next buf
        | false ↦ some (read_part size out q buf, bufsize)
      ]
    ]

unfoldable pub get : Option ℕ → Writer → Option (Outcome × ℕ)
get size w = take_loop (length w.queue.buffer - w.queue.line + 1) size [] w.queue w.bufsize
