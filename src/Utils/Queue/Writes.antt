-- ===== src/Utils/Queue/Writes.antt =====
-- A write puts bytes behind those that are pending.
use pydatatask.Base.{
  ◌≤◌, ◌≡◌, refl, sym, ap, ◌∙◌, Option, none, some, List, [], ◌∷◌, ◌++◌, length, drop, arith,
  append-nil, append_assoc, length-append, All,
}
use pydatatask.Utils.Queue.{
  Bytes, Queue, Outcome, returned, waits, failed, write, close, empty, read,
}
use pydatatask.Utils.Queue.Lists.{drop-append_ge}
use pydatatask.Utils.Queue.Reads.{joined, pending, IsPresent, head_length, IsValid, Reads}
use pydatatask.Utils.Queue.Total.{read-Reads}

joined-append : (xs : List (Option Bytes)) (b : Bytes) → joined (xs ++ some b ∷ []) ≡ joined xs ++ b
unfolding joined
joined-append [] b = append-nil b
joined-append (none ∷ xs) b = joined-append xs b
joined-append (some a ∷ xs) b = rw (joined-append xs b) (sym (append_assoc a (joined xs) b))

head_length-le : (xs : List (Option Bytes)) → head_length xs ≤ length (joined xs)
unfolding joined
head_length-le [] = omega arith
head_length-le (none ∷ xs) = omega arith
head_length-le (some b ∷ xs) = omega (arith, length-append {0} b (joined xs))

head_length-append :
    (xs : List (Option Bytes)) (b : Bytes) → head_length xs ≤ head_length (xs ++ some b ∷ [])
head_length-append [] b = omega arith
head_length-append (none ∷ xs) b = omega arith
head_length-append (some a ∷ xs) b = omega arith

IsPresent-append :
    (xs : List (Option Bytes)) (b : Bytes) → All IsPresent xs → All IsPresent (xs ++ some b ∷ [])
IsPresent-append [] b h = (tt, tt)
IsPresent-append (none ∷ xs) b h = absurd h.0
IsPresent-append (some a ∷ xs) b h = (tt, IsPresent-append xs b h.1)

-- A write keeps the queue valid, leaves it open or closed as it was, and appends its bytes to what is
-- pending.
pub write-pending :
    (bytes : Bytes) (q : Queue)
    → IsValid q
    → IsValid (write bytes q)
      × (pending (write bytes q) ≡ pending q ++ bytes)
      × ((write bytes q).closed ≡ q.closed)
unfolding write pending
write-pending bytes q v = (
  record {
    line_le = omega (arith, length-append {0} q.buffer (some bytes ∷ []));
    col_le = rw behind (omega (arith, head_length-append (drop q.line q.buffer) bytes));
    present = rw behind (IsPresent-append (drop q.line q.buffer) bytes v.present);
  },
  rw (behind, joined-append (drop q.line q.buffer) bytes)
      (drop-append_ge q.col (joined (drop q.line q.buffer)) bytes
        (omega (arith, head_length-le (drop q.line q.buffer)))),
  refl,
)
  where
    behind : drop q.line (q.buffer ++ some bytes ∷ []) ≡ drop q.line q.buffer ++ some bytes ∷ []
    behind = drop-append_ge q.line q.buffer (some bytes ∷ []) v.line_le

unfoldable pub write_all : List Bytes → Queue → Queue
write_all [] q = q
write_all (b ∷ bs) q = write_all bs (write b q)

abbrev pub concat : List Bytes → Bytes
concat [] = []
concat (b ∷ bs) = b ++ concat bs

write_all-pending :
    (bs : List Bytes) (q : Queue)
    → IsValid q
    → IsValid (write_all bs q) × (pending (write_all bs q) ≡ pending q ++ concat bs)
unfolding write_all
write_all-pending [] q v = (v, sym (append-nil (pending q)))
write_all-pending (b ∷ bs) q v =
    let (v', p, _) = write-pending b q v in
    let (v'', r) = write_all-pending bs (write b q) v' in
    (v'', r ∙ ap (λ k. k ++ concat bs) p ∙ append_assoc (pending q) b (concat bs))

empty-IsValid : IsValid empty
empty-IsValid = record { line_le = omega arith; col_le = omega arith; present = tt }

-- The bytes that are written in any number of chunks before the queue is closed are what a read to the end
-- returns, in order, and then nothing is pending.
pub read-write_all :
    (bs : List Bytes)
    → (r : Queue) × (read none (close (write_all bs empty)) ≡ some (returned (concat bs) r))
      × (pending r ≡ [])
unfolding close
read-write_all bs = finish (read-Reads none (close (write_all bs empty)) (unfold close in valid))
  where
    written : IsValid (write_all bs empty) × (pending (write_all bs empty) ≡ concat bs)
    written =
        let (v, p) = write_all-pending bs empty empty-IsValid in (v, unfold pending joined in p)

    valid : IsValid (close (write_all bs empty))
    valid = record {
      line_le = written.0.line_le;
      col_le = written.0.col_le;
      present = written.0.present;
    }

    same : pending (close (write_all bs empty)) ≡ concat bs
    same = unfold pending in written.1

    finish :
        (o : Outcome) × (read none (close (write_all bs empty)) ≡ some o)
          × Reads none [] (close (write_all bs empty)) o
        → (r : Queue) × (read none (close (write_all bs empty)) ≡ some (returned (concat bs) r))
          × (pending r ≡ [])
    finish (returned o r, e, h) = (r, rw (e, h.0, same) refl, h.1)
    finish (waits m o r, e, h) = absurd (cc)
    finish (failed x, e, h) = absurd h
