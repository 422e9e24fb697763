-- ===== src/Utils/Copy/Whole.antt =====
-- The copy is complete.
use pydatatask.Base.{
  ℕ, zero, suc, ◌<◌, ◌≡◌, refl, sym, ap, ◌∙◌, some, List, [], ◌∷◌, ◌++◌, length, arith, append-nil,
  append_assoc, length-append,
}
use pydatatask.Utils.Copy.{Source, Sink, copy}

module _ {A : Type 0} (from : Source A) (to : Sink A) where
  abbrev pub Copies : ℕ → ℕ → from.State → to.State → Type 0
  Copies fuel n s t =
      (s' : from.State) × (t' : to.State) × (copy from to fuel n s t ≡ some (s', t'))
      × (from.contents s' ≡ [])
      × (to.received t' ≡ to.received t ++ from.contents s)

  -- With blocks of at least one byte and at least one more round than there are bytes, the loop ends: the source is then
  -- empty, and the sink has received all of what was in it, in order, behind what it had. A read of the source gives up to
  -- as many bytes as it is asked for, and none only at the end.
  pub copy-Copies :
      (fuel n : ℕ) (s : from.State) (t : to.State)
      → 0 < n
      → length (from.contents s) < fuel
      → Copies fuel n s t
  unfolding copy
  copy-Copies zero n s t h k = absurd (omega arith)
  copy-Copies (suc fuel) n s t h k =
      block (from.read n s).0 refl (λ b. copy-Copies fuel n (from.read n s).1 (to.write b t) h)
    where
      joined : (from.read n s).0 ++ from.contents (from.read n s).1 ≡ from.contents s
      joined = sym (from.read_front n s)

      block :
          (b : List A)
          → (from.read n s).0 ≡ b
          → ((b' : List A)
              → length (from.contents (from.read n s).1) < fuel
              → Copies fuel n (from.read n s).1 (to.write b' t))
          → Copies (suc fuel) n s t
      block [] e ih =
          let gone : from.contents s ≡ [] = from.read_end n s h e in
          (
            (from.read n s).1,
            t,
            ground arith,
            ap (λ b. b ++ from.contents (from.read n s).1) (sym e) ∙ joined ∙ gone,
            rw gone (sym (append-nil (to.received t))),
          )
      block (x ∷ xs) e ih =
          let whole : (x ∷ xs) ++ from.contents (from.read n s).1 ≡ from.contents s =
            ap (λ b. b ++ from.contents (from.read n s).1) (sym e) ∙ joined in
          let (s', t', ran, ended, got) = ih (x ∷ xs) (
            omega (
              arith,
              ap length whole,
              length-append {0} (x ∷ xs) (from.contents (from.read n s).1),
            )) in
          (
            s',
            t',
            ground arith,
            ended,
            got
                ∙ ap (λ k. k ++ from.contents (from.read n s).1) (to.write_appends (x ∷ xs) t)
                ∙ append_assoc (to.received t) (x ∷ xs) (from.contents (from.read n s).1)
                ∙ ap (λ k. to.received t ++ k) whole,
          )
