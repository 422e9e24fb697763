-- ===== src/Utils/Queue/Total.antt =====
-- Every read of a valid queue comes to an outcome, and the outcome is right.
use pydatatask.Base.{
  ℕ, zero, suc, ◌+◌, ◌-◌, ◌≤◌, ◌<◌, ◌≡◌, refl, sym, ap, ◌∙◌, inl, inr, Bool, true, false, Option,
  none, some, [], ◌++◌, length, take, drop, get_elem?, arith, append-nil, Bool-cases, length-append,
  length-drop, drop-drop,
}
use pydatatask.Utils.Queue.{
  Bytes, Queue, Outcome, returned, covers, reduce, is_zero, up_to, if_closed, read_part, consume,
  read_loop, read,
}
use pydatatask.Utils.Queue.Lists.{drop-get_elem?, take-append_ge, length-set, get_elem?_lt}
use pydatatask.Utils.Queue.Reads.{
  joined, pending, IsValid, beyond, Short, Reads, pending_at_end, present_at, pending_split,
  pending_next, consume-IsValid, Reads-consume,
}

pub data Chunk (q : Queue) : Type 0 where
  at_end : get_elem? q.buffer q.line ≡ none → Chunk q
  at_chunk : (buf : Bytes) → get_elem? q.buffer q.line ≡ some (some buf) → Chunk q

Chunk-cases : (q : Queue) → IsValid q → Chunk q
Chunk-cases q v = go (get_elem? q.buffer q.line) refl
  where
    go : (o : Option (Option Bytes)) → get_elem? q.buffer q.line ≡ o → Chunk q
    go none e = at_end e
    go (some none) e = absurd (present_at q v e)
    go (some (some buf)) e = at_chunk buf e

abbrev Finishes : ℕ → Option ℕ → Bytes → Queue → Type 0
Finishes fuel size out q = (o : Outcome) × (read_loop fuel size out q ≡ some o) × Reads size out q o

-- What a read of size 0 returns.
Reads-nothing :
    (size : Option ℕ) (out : Bytes) (q : Queue)
    → IsValid q
    → is_zero size ≡ true
    → Reads size out q (returned out q)
unfolding is_zero
Reads-nothing none out q v h = cc
Reads-nothing (some zero) out q v h = (sym (append-nil out), refl, v, inr (omega arith))
Reads-nothing (some (suc n)) out q v h = absurd (ground arith)

reduce_zero : (size : Option ℕ) → reduce size 0 ≡ size
unfolding reduce
reduce_zero none = refl
reduce_zero (some n) = ap some (omega arith)

up_to_nil : (size : Option ℕ) → up_to size [] ≡ []
up_to_nil none = refl
up_to_nil (some zero) = refl
up_to_nil (some (suc n)) = refl

beyond_nil : (size : Option ℕ) → beyond size [] ≡ []
beyond_nil none = refl
beyond_nil (some zero) = refl
beyond_nil (some (suc n)) = refl

is_zero-Short : (size : Option ℕ) → is_zero size ≡ false → Short size 0
unfolding is_zero
is_zero-Short none h = tt
is_zero-Short (some n) h = ground arith

Reads-at_end :
    (size : Option ℕ) (out : Bytes) (q : Queue)
    → IsValid q
    → is_zero size ≡ false
    → pending q ≡ []
    → Reads size out q (if_closed q.closed size out q)
Reads-at_end size out q v more e = go q.closed refl
  where
    go : (b : Bool) → q.closed ≡ b → Reads size out q (if_closed b size out q)
    go true c =
        (rw (e, up_to_nil size) (sym (append-nil out)), rw (e, beyond_nil size) refl, v, inl c)
    go false c = (
      rw e (sym (append-nil out)),
      e,
      v,
      c,
      rw e (sym (reduce_zero size)),
      rw e (is_zero-Short size more),
    )

-- The last round: the chunk holds more than is wanted.
module _ (n : ℕ) (out : Bytes) (q : Queue) (v : IsValid q) (buf : Bytes)
    (here : get_elem? q.buffer q.line ≡ some (some buf))
    (less : covers (some n) (length buf - q.col) ≡ false) where
  short : q.col + n ≤ length buf
  unfolding covers
  short = ground arith

  fits : n ≤ length (drop q.col buf)
  fits = omega (arith, length-drop {0} q.col buf, short)

  Reads-part : Reads (some n) out q (read_part (some n) out q buf)
  unfolding read_part pending
  Reads-part = (
    ap (λ k. out ++ k)
        (sym (ap (take n) (pending_split q v buf here) ∙ take-append_ge n (drop q.col buf) _ fits)),
    left,
    valid,
    inr (
        rw (pending_split q v buf here) (
          omega (
            arith,
            length-append {0} (drop q.col buf) (joined (drop (suc q.line) q.buffer)),
            fits,
          ))),
  )
    where
      left : drop (q.col + n) (joined (drop q.line q.buffer)) ≡ drop n (pending q)
      left = unfold pending in sym (drop-drop n q.col (joined (drop q.line q.buffer)))

      valid : IsValid (record q { col = q.col + n })
      valid = record {
        line_le = v.line_le;
        col_le = rw (drop-get_elem? q.buffer q.line here) short;
        present = v.present;
      }

takes_part :
    (fuel : ℕ) (size : Option ℕ) (out : Bytes) (q : Queue) (v : IsValid q) (buf : Bytes)
    → get_elem? q.buffer q.line ≡ some (some buf)
    → is_zero size ≡ false
    → covers size (length buf - q.col) ≡ false
    → Finishes (suc fuel) size out q
unfolding read_loop
takes_part fuel none out q v buf here nonzero less = absurd (unfold covers in cc less)
takes_part fuel (some n) out q v buf here nonzero less =
    (read_part (some n) out q buf, ground arith, Reads-part n out q v buf here less)

-- A round that takes the whole of the chunk, and the rounds behind it.
module _ (fuel : ℕ) (size : Option ℕ) (out : Bytes) (q : Queue) (v : IsValid q) (buf : Bytes)
    (here : get_elem? q.buffer q.line ≡ some (some buf)) (nonzero : is_zero size ≡ false)
    (covered : covers size (length buf - q.col) ≡ true)
    (rest : Finishes fuel
      (reduce size (length buf - q.col))
      (out ++ drop q.col buf)
      (consume q)) where
  takes_chunk : Finishes (suc fuel) size out q
  unfolding read_loop
  takes_chunk = (
    rest.0,
    ground arith,
    Reads-consume size out q (drop q.col buf) (pending_next q v buf here)
        (rw (length-drop q.col buf) covered) rest.0 (rw (length-drop q.col buf) rest.2),
  )

round :
    (fuel : ℕ) (size : Option ℕ) (out : Bytes) (q : Queue)
    → IsValid q
    → is_zero size ≡ false
    → Chunk q
    → ((buf : Bytes)
        → get_elem? q.buffer q.line ≡ some (some buf)
        → Finishes fuel (reduce size (length buf - q.col)) (out ++ drop q.col buf) (consume q))
    → Finishes (suc fuel) size out q
unfolding read_loop
round fuel size out q v nonzero (at_end e) rest = (
  if_closed q.closed size out q,
  ground arith,
  Reads-at_end size out q v nonzero (pending_at_end q v e),
)
round fuel size out q v nonzero (at_chunk buf e) rest =
    elim (Bool-cases (covers size (length buf - q.col))) [
      | inl c ↦ takes_chunk fuel size out q v buf e nonzero c (rest buf e)
      | inr c ↦ takes_part fuel size out q v buf e nonzero c
    ]

read_loop-Finishes :
    (fuel : ℕ) (size : Option ℕ) (out : Bytes) (q : Queue)
    → IsValid q
    → length q.buffer - q.line < fuel
    → Finishes fuel size out q
unfolding read_loop
read_loop-Finishes zero size out q v h = absurd (omega arith)
read_loop-Finishes (suc fuel) size out q v h = elim (Bool-cases (is_zero size)) [
  | inl z ↦ (returned out q, ground arith, Reads-nothing size out q v z)
  | inr more ↦ round fuel size out q v more (Chunk-cases q v) λ buf here.
      read_loop-Finishes fuel _ _ (consume q) (consume-IsValid q v buf here) (fewer buf here)
]
  where
    fewer :
        (buf : Bytes)
        → get_elem? q.buffer q.line ≡ some (some buf)
        → length (consume q).buffer - (consume q).line < fuel
    fewer buf here =
        unfold consume in
        omega (arith, length-set q.buffer q.line none, get_elem?_lt q.buffer q.line here)

-- A read of a valid queue stops at an outcome: it returns the bytes at the front of what is pending, as
-- many as were asked for or all, and leaves the others pending; short of bytes it returns only
-- if the queue is closed. It waits only if the queue is open and it is short of bytes, with all that was pending in its hands and
-- the number of bytes that it still wants.
pub read-Reads :
    (size : Option ℕ) (q : Queue)
    → IsValid q
    → (o : Outcome) × (read size q ≡ some o) × Reads size [] q o
unfolding read
read-Reads size q v = read_loop-Finishes _ size [] q v (omega arith)
