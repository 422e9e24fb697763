-- ===== src/Utils/RoundRobin/Counts.antt =====
-- Every item of every iterator is yielded, as often as it is there.
use pydatatask.Base.{
  ℕ, zero, suc, ◌+◌, ◌%◌, ◌<◌, ◌≡◌, refl, ap, ◌∙◌, Bool, Option, some, List, [], ◌∷◌, length,
  get_elem?, set, arith, if◌then◌else◌,
}
use pydatatask.Utils.RoundRobin.{pop, turns, total_length, roundrobin, tally, tally_all}

module _ {A : Type 0} where
  pop-length :
      (j : ℕ) (ls : List (List A)) {l : List A}
      → get_elem? ls j ≡ some l
      → suc (length (pop j ls)) ≡ length ls
  unfolding pop
  pop-length j [] h = cc
  pop-length zero (l ∷ ls) h = refl
  pop-length (suc j) (l ∷ ls) h = ap suc (pop-length j ls h)

  pop_total :
      (j : ℕ) (ls : List (List A))
      → get_elem? ls j ≡ some []
      → total_length (pop j ls) ≡ total_length ls
  unfolding pop total_length
  pop_total j [] h = cc
  pop_total zero (l ∷ ls) h = ground arith
  pop_total (suc j) (l ∷ ls) h = ap (λ k. length l + k) (pop_total j ls h)

  pop_tally :
      (p : A → Bool) (j : ℕ) (ls : List (List A))
      → get_elem? ls j ≡ some []
      → tally_all p (pop j ls) ≡ tally_all p ls
  unfolding pop tally_all
  pop_tally p j [] h = cc
  pop_tally p zero (l ∷ ls) h = ground arith
  pop_tally p (suc j) (l ∷ ls) h = ap (λ k. tally p l + k) (pop_tally p j ls h)

  length-set : (j : ℕ) (ls : List (List A)) (v : List A) → length (set ls j v) ≡ length ls
  length-set j [] v = refl
  length-set zero (l ∷ ls) v = refl
  length-set (suc j) (l ∷ ls) v = ap suc (length-set j ls v)

  set_total :
      (j : ℕ) (ls : List (List A)) (x : A) (xs : List A)
      → get_elem? ls j ≡ some (x ∷ xs)
      → suc (total_length (set ls j xs)) ≡ total_length ls
  unfolding total_length
  set_total j [] x xs h = cc
  set_total zero (l ∷ ls) x xs h = ground arith
  set_total (suc j) (l ∷ ls) x xs h = omega (arith, set_total j ls x xs h)

  set_tally :
      (p : A → Bool) (j : ℕ) (ls : List (List A)) (x : A) (xs : List A)
      → get_elem? ls j ≡ some (x ∷ xs)
      → (if p x then 1 else 0) + tally_all p (set ls j xs) ≡ tally_all p ls
  unfolding tally_all
  set_tally p j [] x xs h = cc
  set_tally p zero (l ∷ ls) x xs h = ground arith
  set_tally p (suc j) (l ∷ ls) x xs h = omega (arith, set_tally p j ls x xs h)

  get_elem?_in_range :
      (j : ℕ) (ls : List (List A)) → j < length ls → (l : List A) × (get_elem? ls j ≡ some l)
  get_elem?_in_range j [] h = absurd (omega arith)
  get_elem?_in_range zero (l ∷ ls) h = (l, refl)
  get_elem?_in_range (suc j) (l ∷ ls) h = get_elem?_in_range j ls (omega arith)

  abbrev pub Yields : Option (List A) → List (List A) → Type 0
  Yields r ls = (out : List A) × (r ≡ some out) × ((p : A → Bool) → tally p out ≡ tally_all p ls)

  module _ (fuel i : ℕ) (l : List A) (ls : List (List A)) where
    abbrev j : ℕ
    j = i % length (l ∷ ls)

    turn :
        (c : List A)
        → get_elem? (l ∷ ls) j ≡ some c
        → (c ≡ [] → Yields (turns fuel j (pop j (l ∷ ls))) (pop j (l ∷ ls)))
        → ((x : A) (xs : List A)
            → c ≡ x ∷ xs
            → Yields (turns fuel (j + 1) (set (l ∷ ls) j xs)) (set (l ∷ ls) j xs))
        → Yields (turns (suc fuel) i (l ∷ ls)) (l ∷ ls)
    unfolding turns
    turn [] h shorter next =
        let (out, e, t) = shorter refl in
        (out, rw (h, turns) e, λ p. t p ∙ pop_tally p j (l ∷ ls) h)
    turn (x ∷ xs) h shorter next =
        let (out, e, t) = next x xs refl in
        (
          x ∷ out,
          rw (h, turns, e) refl,
          λ p.
              unfold tally in
              (ap (λ k. (if p x then 1 else 0) + k) (t p) ∙ set_tally p j (l ∷ ls) x xs h),
        )

  turns-Yields :
      (fuel i : ℕ) (ls : List (List A))
      → total_length ls + length ls < fuel
      → Yields (turns fuel i ls) ls
  turns-Yields zero i ls h = absurd (omega arith)
  turns-Yields (suc fuel) i [] h = ([], unfold turns in refl, λ p. unfold tally tally_all in refl)
  turns-Yields (suc fuel) i (l ∷ ls) h =
      let j' = i % length (l ∷ ls) in
      let (c, e) = get_elem?_in_range j' (l ∷ ls) (grind arith) in
      turn fuel i l ls c e
        (λ q.
          turns-Yields fuel j' (pop j' (l ∷ ls))
            (omega (arith, pop-length j' (l ∷ ls) e, pop_total j' (l ∷ ls) (e ∙ ap some q))))
        (λ x xs q.
          turns-Yields fuel (j' + 1) (set (l ∷ ls) j' xs)
            (omega (arith, length-set j' (l ∷ ls) xs, set_total j' (l ∷ ls) x xs (e ∙ ap some q))))

  -- The iteration ends, and for every test the items that pass it are yielded as often as they
  -- stand in the iterators together: nothing is lost, added or doubled.
  pub roundrobin-Yields : (ls : List (List A)) → Yields (roundrobin ls) ls
  unfolding roundrobin
  roundrobin-Yields ls = turns-Yields _ 0 ls (omega arith)
