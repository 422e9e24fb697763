-- ===== src/Utils/Queue/Tests.antt =====
-- Runs of a queue, and its theorems at concrete inputs.
use pydatatask.Base.{◌≡◌, refl, true, none, some, [], ◌∷◌, arith, Bool}
use pydatatask.Utils.Queue.{
  Queue, Outcome, returned, waits, empty, write, close, covers, reduce, is_zero, read_part, consume,
  read_loop, read,
}
use pydatatask.Utils.Queue.Reads.{pending, joined, IsValid, Reads}
use pydatatask.Utils.Queue.Total.{read-Reads}
use pydatatask.Utils.Queue.Writes.{read-write_all, write_all}

program : Unit {0}
unfolding write close covers reduce is_zero read_part consume read_loop read pending joined
    write_all
program = tt

abbrev two_chunks : Queue
two_chunks = record {
  buffer = some (1 ∷ 2 ∷ 3 ∷ []) ∷ some (4 ∷ 5 ∷ []) ∷ [];
  line = 0;
  col = 1;
  closed = true;
}

abbrev after_three : Queue
after_three = record { buffer = none ∷ some (4 ∷ 5 ∷ []) ∷ []; line = 1; col = 1; closed = true }

read_three : read (some 3) two_chunks ≡ some (returned (2 ∷ 3 ∷ 4 ∷ []) after_three)
unfolding program
read_three = refl

read_open :
    read none (write (7 ∷ []) empty)
    ≡ some (
        waits none (7 ∷ []) (record { buffer = none ∷ []; line = 1; col = 0; closed = Bool.false }))
unfolding program
read_open = refl

two_chunks-IsValid : IsValid two_chunks
two_chunks-IsValid = record {
  line_le = omega arith;
  col_le = omega arith;
  present = (tt, (tt, tt));
}

read-Reads_example :
    (o : Outcome) × (read (some 3) two_chunks ≡ some o) × Reads (some 3) [] two_chunks o
read-Reads_example = read-Reads (some 3) two_chunks two_chunks-IsValid

read-write_all_example :
    (r : Queue) × (read none (close (write_all ((1 ∷ []) ∷ (2 ∷ 3 ∷ []) ∷ []) empty))
      ≡ some (returned (1 ∷ 2 ∷ 3 ∷ []) r))
    × (pending r ≡ [])
read-write_all_example = read-write_all ((1 ∷ []) ∷ (2 ∷ 3 ∷ []) ∷ [])
