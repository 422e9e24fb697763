-- ===== src/Utils/Queue/Reads.antt =====
-- A read takes bytes off the front of what was written and not yet read.
use pydatatask.Base.{
  ℕ, zero, suc, ◌+◌, ◌≤◌, ◌<◌, ◌≡◌, ◌≢◌, refl, sym, ap, ◌∙◌, ◌⊎◌, inl, inr, true, false, Option,
  none, some, List, [], ◌∷◌, ◌++◌, length, drop, get_elem?, set, arith, append_assoc, All,
  length-append, subst,
}
use pydatatask.Utils.Queue.{
  Bytes, Queue, Outcome, returned, waits, failed, covers, reduce, up_to, consume,
}
use pydatatask.Utils.Queue.Lists.{
  drop-get_elem?, drop_past, drop-set, take-append_le, drop-append_le, drop-append_ge, length-set,
  get_elem?_lt,
}

-- The bytes of a list of chunks.
unfoldable pub joined : List (Option Bytes) → Bytes
joined [] = []
joined (none ∷ chunks) = joined chunks
joined (some b ∷ chunks) = b ++ joined chunks

-- What was written and is not yet read.
unfoldable pub pending : Queue → Bytes
pending q = drop q.col (joined (drop q.line q.buffer))

abbrev pub IsPresent : Option Bytes → Type 0
IsPresent none = ⊥
IsPresent (some b) = Unit

abbrev pub head_length : List (Option Bytes) → ℕ
head_length [] = 0
head_length (none ∷ chunks) = 0
head_length (some b ∷ chunks) = length b

-- The read pointer is in the buffer or at its end, and no chunk from there on is gone.
pub record IsValid (q : Queue) : Type 0 where
  pub line_le : q.line ≤ length q.buffer
  pub col_le : q.col ≤ head_length (drop q.line q.buffer)
  pub present : All IsPresent (drop q.line q.buffer)

-- What is left of `bytes` behind a read of this size.
abbrev pub beyond : Option ℕ → Bytes → Bytes
beyond none bytes = []
beyond (some size) bytes = drop size bytes

abbrev pub Covered : Option ℕ → ℕ → Type 0
Covered none n = ⊥
Covered (some size) n = size ≤ n

-- More bytes are asked for than these; all bytes up to the end of the queue always are.
abbrev pub Short : Option ℕ → ℕ → Type 0
Short none n = Unit
Short (some size) n = n < size

-- What an outcome of a read must satisfy: a read of `size` that has collected `out`, from `q` on.
abbrev pub Reads : Option ℕ → Bytes → Queue → Outcome → Type 0
Reads size out q (returned o r) =
    (o ≡ out ++ up_to size (pending q))
    × (pending r ≡ beyond size (pending q))
    × IsValid r
    × ((q.closed ≡ true) ⊎ Covered size (length (pending q)))
Reads size out q (waits more o r) =
    (o ≡ out ++ pending q)
    × (pending r ≡ [])
    × IsValid r
    × (q.closed ≡ false)
    × (more ≡ reduce size (length (pending q)))
    × Short size (length (pending q))
Reads size out q (failed e) = ⊥

module _ (q : Queue) (v : IsValid q) where
  pub pending_at_end : get_elem? q.buffer q.line ≡ none → pending q ≡ []
  unfolding pending joined
  pending_at_end h = rw (drop_past q.buffer q.line h) (drop_nil q.col)
    where
      drop_nil : (n : ℕ) → drop {A = ℕ} n [] ≡ []
      drop_nil zero = refl
      drop_nil (suc n) = refl

  pub present_at : get_elem? q.buffer q.line ≢ some none
  present_at h = absurd (gone (rw (drop-get_elem? q.buffer q.line h) at v.present))
    where
      gone : All IsPresent (none ∷ drop (suc q.line) q.buffer) → ⊥
      gone p = p.0

  module _ (buf : Bytes) (here : get_elem? q.buffer q.line ≡ some (some buf)) where
    pub col-le-length : q.col ≤ length buf
    col-le-length = rw (drop-get_elem? q.buffer q.line here) at v.col_le

    drop-consume : drop (consume q).line (consume q).buffer ≡ drop (suc q.line) q.buffer
    unfolding consume
    drop-consume =
        ap (λ k. drop k (set q.buffer q.line none)) {x = q.line + 1} {y = suc q.line} (omega arith)
        ∙ drop-set q.buffer q.line none

    pub pending_split : pending q ≡ drop q.col buf ++ joined (drop (suc q.line) q.buffer)
    unfolding pending joined
    pending_split =
        rw (drop-get_elem? q.buffer q.line here) (drop-append_ge q.col buf _ col-le-length)

    pending-consume : pending (consume q) ≡ joined (drop (suc q.line) q.buffer)
    unfolding pending
    pending-consume = rw drop-consume (unfold consume in refl)

    pub pending_next : pending q ≡ drop q.col buf ++ pending (consume q)
    pending_next = pending_split ∙ ap (λ k. drop q.col buf ++ k) (sym pending-consume)

    pub consume-IsValid : IsValid (consume q)
    unfolding consume
    consume-IsValid = record {
      line_le = omega (arith, length-set q.buffer q.line none, get_elem?_lt q.buffer q.line here);
      col_le = omega arith;
      present =
          subst (All IsPresent) (sym drop-consume)
            (rw (drop-get_elem? q.buffer q.line here) at v.present).1;
    }

-- The size left after a covered chunk, and what it takes of the rest.
up_to-append :
    (size : Option ℕ) (d p : Bytes)
    → covers size (length d) ≡ true
    → up_to size (d ++ p) ≡ d ++ up_to (reduce size (length d)) p
unfolding covers reduce
up_to-append none d p h = refl
up_to-append (some n) d p h = take-append_le n d p (ground arith)

beyond-append :
    (size : Option ℕ) (d p : Bytes)
    → covers size (length d) ≡ true
    → beyond size (d ++ p) ≡ beyond (reduce size (length d)) p
unfolding covers reduce
beyond-append none d p h = refl
beyond-append (some n) d p h = drop-append_le n d p (ground arith)

Covered-append :
    (size : Option ℕ) (d p : Bytes)
    → covers size (length d) ≡ true
    → Covered (reduce size (length d)) (length p)
    → Covered size (length (d ++ p))
unfolding covers reduce
Covered-append none d p h c = c
Covered-append (some n) d p h c = rw (length-append d p) (omega arith)

Short-append :
    (size : Option ℕ) (d p : Bytes)
    → covers size (length d) ≡ true
    → Short (reduce size (length d)) (length p)
    → Short size (length (d ++ p))
unfolding covers reduce
Short-append none d p h c = tt
Short-append (some n) d p h c = rw (length-append d p) (omega arith)

reduce-append :
    (size : Option ℕ) (d p : Bytes)
    → covers size (length d) ≡ true
    → reduce (reduce size (length d)) (length p) ≡ reduce size (length (d ++ p))
unfolding reduce
reduce-append none d p h = refl
reduce-append (some n) d p h = ap some (omega (arith, length-append {0} d p))

module _ (size : Option ℕ) (out : Bytes) (q : Queue) (d : Bytes)
    (split : pending q ≡ d ++ pending (consume q)) (covered : covers size (length d) ≡ true) where
  pub Reads-consume :
      (o : Outcome) → Reads (reduce size (length d)) (out ++ d) (consume q) o → Reads size out q o
  unfolding consume
  Reads-consume (returned o r) h = rw split (
    h.0 ∙ append_assoc out d _ ∙ ap (λ k. out ++ k) (sym (up_to-append size d _ covered)),
    h.1 ∙ sym (beyond-append size d _ covered),
    h.2,
    elim h.3 [ inl c ↦ inl c | inr c ↦ inr (Covered-append size d _ covered c) ],
  )
  Reads-consume (waits more o r) h = rw split (
    h.0 ∙ append_assoc out d _,
    h.1,
    h.2,
    h.3,
    h.4 ∙ reduce-append size d _ covered,
    Short-append size d _ covered h.5,
  )
  Reads-consume (failed e) h = h
