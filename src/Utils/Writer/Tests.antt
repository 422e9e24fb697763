-- ===== src/Utils/Writer/Tests.antt =====
-- Runs of a writer's queue, and its theorems at concrete inputs.
use pydatatask.Base.{◌≡◌, refl, false, none, some, [], ◌∷◌}
use pydatatask.Utils.Queue.{
  returned, empty, write, covers, reduce, is_zero, read_part, consume, read_loop, read,
}
use pydatatask.Utils.Writer.{Writer, put, take_loop, get}
use pydatatask.Utils.Writer.Account.{held, Counts, Agrees, get-Agrees}

program : Unit {0}
unfolding write covers reduce is_zero read_part consume read_loop read put take_loop get held
program = tt

abbrev fresh : Writer
fresh = record { queue = empty; bufsize = 0 }

abbrev one_chunk : Writer
one_chunk = record { queue = write (8 ∷ 9 ∷ []) empty; bufsize = 2 }

put_once : put (8 ∷ 9 ∷ []) fresh ≡ some one_chunk
unfolding program
put_once = refl

one_chunk-Counts : Counts one_chunk
unfolding program
one_chunk-Counts = refl

fresh-Counts : Counts fresh
unfolding program
fresh-Counts = refl

get-Agrees_example : Agrees (read (some 2) one_chunk.queue) (get (some 2) one_chunk)
get-Agrees_example = get-Agrees (some 2) one_chunk one_chunk-Counts

get_all :
    get (some 2) one_chunk
    ≡ some (
      returned (8 ∷ 9 ∷ []) (record { buffer = none ∷ []; line = 1; col = 0; closed = false }),
      0,
    )
unfolding program
get_all = refl
