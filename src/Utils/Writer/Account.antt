-- ===== src/Utils/Writer/Account.antt =====
-- `bufsize` counts the bytes of the chunks that are in the buffer.
use pydatatask.Base.{
  ℕ, zero, suc, ◌+◌, ◌-◌, ◌<◌, ◌≡◌, refl, Bool, true, false, Option, none, some, List, [], ◌∷◌,
  ◌++◌, length, drop, get_elem?, set, arith, Bool-cases, inl, inr,
}
use pydatatask.Utils.Queue.{
  Bytes, Queue, Outcome, returned, waits, failed, write, covers, reduce, is_zero, if_closed,
  read_part, consume, read_loop, read,
}
use pydatatask.Utils.Writer.{Writer, max_bufsize, put, take_loop, get}

-- The bytes of all chunks that are in the buffer, the part that is read of the current one included.
unfoldable pub held : List (Option Bytes) → ℕ
held [] = 0
held (none ∷ chunks) = held chunks
held (some b ∷ chunks) = length b + held chunks

abbrev pub Counts : Writer → Type 0
Counts w = w.bufsize ≡ held w.queue.buffer

held-append : (xs : List (Option Bytes)) (b : Bytes) → held (xs ++ some b ∷ []) ≡ held xs + length b
unfolding held
held-append [] b = omega arith
held-append (none ∷ xs) b = held-append xs b
held-append (some a ∷ xs) b = omega (arith, held-append xs b)

held-set :
    (xs : List (Option Bytes)) (i : ℕ) (b : Bytes)
    → get_elem? xs i ≡ some (some b)
    → held (set xs i none) + length b ≡ held xs
unfolding held
held-set [] i b h = cc
held-set (none ∷ xs) zero b h = absurd (ground arith)
held-set (some a ∷ xs) zero b h = ground arith
held-set (none ∷ xs) (suc i) b h = held-set xs i b h
held-set (some a ∷ xs) (suc i) b h = omega (arith, held-set xs i b h)

-- A write that goes through adds its bytes to the queue and to the count, which stays right; the buffer was
-- below the bound before, so afterwards it is less than this write over it.
pub put-Counts :
    (bytes : Bytes) (w w' : Writer)
    → Counts w
    → put bytes w ≡ some w'
    → Counts w' × (w'.bufsize < max_bufsize + length bytes) × (w'.queue ≡ write bytes w.queue)
unfolding put write
put-Counts bytes w w' c h = ground (arith, held-append w.queue.buffer bytes)

abbrev pub Counted : Outcome → ℕ → Type 0
Counted (returned o r) n = n ≡ held r.buffer
Counted (waits m o r) n = n ≡ held r.buffer
Counted (failed e) n = Unit

-- What the loop of a writer's read gives: the outcome of the plain loop, and a count that is right.
abbrev pub Agrees : Option Outcome → Option (Outcome × ℕ) → Type 0
Agrees none none = Unit
Agrees (some o) (some (o', n)) = (o ≡ o') × Counted o' n
Agrees none (some x) = ⊥
Agrees (some o) none = ⊥

if_closed-Counted :
    (b : Bool) (size : Option ℕ) (out : Bytes) (q : Queue) (n : ℕ)
    → n ≡ held q.buffer
    → Counted (if_closed b size out q) n
if_closed-Counted true size out q n h = h
if_closed-Counted false size out q n h = h

module _ (fuel : ℕ) (size : Option ℕ) (out : Bytes) (q : Queue) (n : ℕ) (h : n ≡ held q.buffer)
    (more : is_zero size ≡ false)
    (rest : (buf : Bytes)
      → get_elem? q.buffer q.line ≡ some (some buf)
      → Agrees
          (read_loop fuel (reduce size (length buf - q.col)) (out ++ drop q.col buf) (consume q))
          (take_loop fuel
            (reduce size (length buf - q.col))
            (out ++ drop q.col buf)
            (consume q)
            (n - length buf))) where
  round-Agrees :
      (o : Option (Option Bytes))
      → get_elem? q.buffer q.line ≡ o
      → Agrees (read_loop (suc fuel) size out q) (take_loop (suc fuel) size out q n)
  unfolding read_loop take_loop read_part
  round-Agrees none e = rw (more, e) (refl, if_closed-Counted q.closed size out q n h)
  round-Agrees (some none) e = rw (more, e) (refl, tt)
  round-Agrees (some (some buf)) e = elim (Bool-cases (covers size (length buf - q.col))) [
    | inl c ↦ rw (more, e, c) (rest buf e)
    | inr c ↦ rw (more, e, c) (refl, h)
  ]

consumed :
    (q : Queue) (n : ℕ) (buf : Bytes)
    → n ≡ held q.buffer
    → get_elem? q.buffer q.line ≡ some (some buf)
    → n - length buf ≡ held (consume q).buffer
unfolding consume
consumed q n buf h e = omega (arith, held-set q.buffer q.line buf e)

take_loop-Agrees :
    (fuel : ℕ) (size : Option ℕ) (out : Bytes) (q : Queue) (n : ℕ)
    → n ≡ held q.buffer
    → Agrees (read_loop fuel size out q) (take_loop fuel size out q n)
unfolding read_loop take_loop
take_loop-Agrees zero size out q n h = tt
take_loop-Agrees (suc fuel) size out q n h = elim (Bool-cases (is_zero size)) [
  | inl z ↦ rw z (refl, h)
  | inr more ↦
      round-Agrees fuel size out q n h more
        (λ buf e. take_loop-Agrees fuel _ _ (consume q) _ (consumed q n buf h e))
        (get_elem? q.buffer q.line) refl
]

-- A read of a writer's queue ends as the read of the plain queue does, and the count of bytes is right
-- again: what the reader finished makes room for the writer.
pub get-Agrees : (size : Option ℕ) (w : Writer) → Counts w → Agrees (read size w.queue) (get size w)
unfolding read get
get-Agrees size w c = take_loop-Agrees _ size [] w.queue w.bufsize c
