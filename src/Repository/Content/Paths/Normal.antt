-- ===== src/Repository/Content/Paths/Normal.antt =====
-- The loop of `_splitpath` against one pass with a stack.
use Prim.Native.Char.{Char}
use pydatatask.Base.{
  ℕ, zero, suc, ◌<◌, ◌≤◌, ◌≡◌, refl, sym, ap, ◌∙◌, inl, inr, Bool, true, false, Option, none, some,
  List, [], ◌∷◌, ◌++◌, append_assoc, append-nil, length, String, arith, if◌then◌else◌, Option-cases,
}
use pydatatask.Base.Keys.{same}
use pydatatask.Repository.Content.Paths.{
  index_of, pop, pop_parent, resolve, parts, joined, splitpath,
}

abbrev pub tail : List String → List String
tail [] = []
tail (x ∷ xs) = xs

abbrev pub backwards : List String → List String
backwards [] = []
backwards (x ∷ xs) = backwards xs ++ x ∷ []

-- One pass over the parts: `..` takes the last part off, if there is one.
unfoldable pub normal : List String → List String → List String
normal stack [] = backwards stack
normal stack (x ∷ xs) = normal (if same x ".." then tail stack else x ∷ stack) xs

-- Where there is no `..`, nothing is taken off.
normal_plain :
    (stack xs : List String) → index_of ".." xs ≡ none → normal stack xs ≡ backwards stack ++ xs
unfolding normal index_of
normal_plain stack [] h = sym (append-nil (backwards stack))
normal_plain stack (x ∷ xs) h =
    go (same x "..") refl (index_of ".." xs) refl (normal_plain (x ∷ stack) xs)
  where
    go :
        (b : Bool)
        → same x ".." ≡ b
        → (o : Option ℕ) → index_of ".." xs ≡ o
        → (index_of ".." xs ≡ none → normal (x ∷ stack) xs ≡ backwards (x ∷ stack) ++ xs)
        → normal (if same x ".." then tail stack else x ∷ stack) xs ≡ backwards stack ++ x ∷ xs
    go true e o q ih = absurd (ground (arith, h, e))
    go false e none q ih = rw e (ih q ∙ append_assoc (backwards stack) (x ∷ []) xs)
    go false e (some i) q ih = absurd (ground (arith, h, e, q))

-- A part that is not `..` is put on the stack.
normal-keep :
    (stack : List String) (x : String) (xs : List String)
    → same x ".." ≡ false
    → normal stack (x ∷ xs) ≡ normal (x ∷ stack) xs
unfolding normal
normal-keep stack x xs e = rw e refl

index_zero : (x : String) (xs : List String) → index_of ".." (x ∷ xs) ≡ some 0 → same x ".." ≡ true
unfolding index_of
index_zero x xs h = go (same x "..") refl (index_of ".." xs) refl
  where
    go : (b : Bool) → same x ".." ≡ b → (o : Option ℕ) → index_of ".." xs ≡ o → same x ".." ≡ true
    go true e o q = e
    go false e none q = absurd (ground (arith, h, e, q))
    go false e (some i) q = absurd (ground (arith, h, e, q))

index_suc :
    (i : ℕ) (x : String) (xs : List String)
    → index_of ".." (x ∷ xs) ≡ some (suc i)
    → (same x ".." ≡ false) × (index_of ".." xs ≡ some i)
unfolding index_of
index_suc i x xs h = go (same x "..") refl (index_of ".." xs) refl
  where
    go :
        (b : Bool)
        → same x ".." ≡ b
        → (o : Option ℕ) → index_of ".." xs ≡ o
        → (same x ".." ≡ false) × (index_of ".." xs ≡ some i)
    go true e o q = absurd (ground (arith, h, e))
    go false e none q = absurd (ground (arith, h, e, q))
    go false e (some j) q = (e, ground (arith, h, e, q))

-- A round of the loop does not change the result.
normal-pop :
    (i : ℕ) (stack xs : List String)
    → index_of ".." xs ≡ some (suc i)
    → normal stack (pop i (pop i xs)) ≡ normal stack xs
unfolding normal pop
normal-pop i stack [] h = refl
normal-pop zero stack (x ∷ []) h = absurd (unfold index_of in cc ((index_suc 0 x [] h).1))
normal-pop zero stack (x ∷ y ∷ ys) h =
    let (plain, here) = index_suc 0 x (y ∷ ys) h in rw (plain, index_zero y ys here) refl
normal-pop (suc i) stack (x ∷ []) h = absurd (unfold index_of in cc ((index_suc (suc i) x [] h).1))
normal-pop (suc i) stack (x ∷ y ∷ ys) h =
    let (plain, later) = index_suc (suc i) x (y ∷ ys) h in
    normal-keep stack x (pop i (pop i (y ∷ ys))) plain
    ∙ normal-pop i (x ∷ stack) (y ∷ ys) later
    ∙ sym (normal-keep stack x (y ∷ ys) plain)

normal-pop_parent :
    (i : ℕ) (xs : List String)
    → index_of ".." xs ≡ some i
    → normal [] (pop_parent i xs) ≡ normal [] xs
unfolding pop_parent
normal-pop_parent zero [] h = refl
normal-pop_parent zero (x ∷ xs) h = unfold normal pop in rw (index_zero x xs h) refl
normal-pop_parent (suc i) xs h = normal-pop i [] xs h

length-pop : (i : ℕ) (xs : List String) → length (pop i xs) ≤ length xs
unfolding pop
length-pop i [] = omega arith
length-pop zero (x ∷ xs) = omega arith
length-pop (suc i) (x ∷ xs) = omega (arith, length-pop i xs)

length-pop_found :
    (i j : ℕ) (xs : List String) → index_of ".." xs ≡ some i → j ≤ i → length (pop j xs) < length xs
unfolding pop
length-pop_found i j [] h le = absurd (unfold index_of in cc h)
length-pop_found i zero (x ∷ xs) h le = omega arith
length-pop_found zero (suc j) (x ∷ xs) h le = absurd (omega arith)
length-pop_found (suc i) (suc j) (x ∷ xs) h le =
    omega (arith, length-pop_found i j xs (index_suc i x xs h).1)

length-pop_parent :
    (i : ℕ) (xs : List String) → index_of ".." xs ≡ some i → length (pop_parent i xs) < length xs
unfolding pop_parent
length-pop_parent i [] h = absurd (unfold index_of in cc h)
length-pop_parent zero (x ∷ xs) h = unfold pop in omega arith
length-pop_parent (suc zero) (x ∷ xs) h = unfold pop in omega (arith, length-pop 0 xs)
length-pop_parent (suc (suc i)) (x ∷ xs) h =
    let found = length-pop_found (suc i) i xs (index_suc (suc i) x xs h).1 (omega arith) in
    unfold pop in omega (arith, length-pop i (pop i xs), found)

resolve-normal :
    (fuel : ℕ) (xs : List String) → length xs < fuel → resolve fuel xs ≡ some (normal [] xs)
unfolding resolve
resolve-normal zero xs h = absurd (omega arith)
resolve-normal (suc fuel) xs h = elim (Option-cases (index_of ".." xs)) [
  | inl e ↦ rw (e, resolve) (ap some (sym (normal_plain [] xs e)))
  | inr (i, e) ↦
      rw (e, resolve)
        (resolve-normal fuel (pop_parent i xs) (omega (arith, length-pop_parent i xs e, h))
          ∙ ap some (normal-pop_parent i xs e))
]

-- A path resolves to its parts, after those of the directory it is relative to, each `..` having
-- taken off the part before it, if there is one: the loop ends for every path, and has the result of
-- one pass with a stack.
pub splitpath-normal :
    (sep : Char) (path : String) (relative_to : Option (List String))
    → splitpath sep path relative_to ≡ some (normal [] (joined relative_to (parts sep path)))
unfolding splitpath
splitpath-normal sep path relative_to =
    let xs = joined relative_to (parts sep path) in
    resolve-normal (suc (length xs)) xs (omega arith)
