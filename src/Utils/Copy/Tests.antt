-- ===== src/Utils/Copy/Tests.antt =====
-- A stream and a sink in memory, and the copy between them.
use pydatatask.Base.{
  ℕ, zero, suc, ◌≤◌, ◌<◌, sym, length, take-append-drop, ◌≡◌, refl, some, List, [], ◌∷◌, ◌++◌, take,
  drop, arith,
}
use pydatatask.Utils.Copy.{Source, Sink, copy}
use pydatatask.Utils.Copy.Whole.{Copies, copy-Copies}

pub none_taken : (n : ℕ) (xs : List ℕ) → 0 < n → take n xs ≡ [] → xs ≡ []
none_taken zero xs h e = absurd (omega arith)
none_taken (suc n) [] h e = refl
none_taken (suc n) (x ∷ xs) h e = absurd (cc e)

pub length-take_le : (n : ℕ) (xs : List ℕ) → length (take n xs) ≤ n
length-take_le zero xs = omega arith
length-take_le (suc n) [] = omega arith
length-take_le (suc n) (x ∷ xs) = omega (arith, length-take_le n xs)

-- It gives as many items as it is asked for, or all.
abbrev pub in_memory : Source ℕ
in_memory = record {
  State = List ℕ;
  read = λ n s. (take n s, drop n s);
  contents = λ s. s;
  read_front = λ n s. sym (take-append-drop n s);
  read_up_to = length-take_le;
  read_end = none_taken;
}

abbrev one_at_most : ℕ → ℕ
one_at_most zero = 0
one_at_most (suc n) = 1

one_at_most_le : (n : ℕ) → one_at_most n ≤ n
one_at_most_le zero = omega arith
one_at_most_le (suc n) = omega arith

one_at_most_pos : (n : ℕ) → 0 < n → 0 < one_at_most n
one_at_most_pos zero h = h
one_at_most_pos (suc n) h = omega arith

-- A slow stream: an item at a time, whatever it is asked for.
abbrev dribble : Source ℕ
dribble = record {
  State = List ℕ;
  read = λ n s. (take (one_at_most n) s, drop (one_at_most n) s);
  contents = λ s. s;
  read_front = λ n s. sym (take-append-drop (one_at_most n) s);
  read_up_to = λ n s. omega (arith, length-take_le (one_at_most n) s, one_at_most_le n);
  read_end = λ n s h e. none_taken (one_at_most n) s (one_at_most_pos n h) e;
}

abbrev collected : Sink ℕ
collected = record {
  State = List ℕ;
  write = λ xs s. s ++ xs;
  received = λ s. s;
  write_appends = λ xs s. refl;
}

copied : copy in_memory collected 4 2 (1 ∷ 2 ∷ 3 ∷ []) [] ≡ some ([], 1 ∷ 2 ∷ 3 ∷ [])
unfolding copy
copied = refl

copy-Copies_example : Copies dribble collected 4 2 (1 ∷ 2 ∷ 3 ∷ []) (9 ∷ [])
copy-Copies_example =
    copy-Copies dribble collected 4 2 (1 ∷ 2 ∷ 3 ∷ []) (9 ∷ []) (omega arith) (omega arith)
