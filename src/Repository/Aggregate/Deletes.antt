-- ===== src/Repository/Aggregate/Deletes.antt =====
-- Deleting a job from an aggregate.
use pydatatask.Base.{◌≡◌, refl, sym, ap, ◌∙◌, false, [], ◌∷◌, All, String}
use pydatatask.Base.Results.{Result, ok, err}
use pydatatask.Base.Keys.{Job}
use pydatatask.Repository.{Repository}
use pydatatask.Repository.Aggregate.{Children, or_contains, delete_all, aggregate_or}

module _ {S : Type 0} (job : Job) where
  abbrev pub Absent : Repository S → S → Type 0
  Absent r s = r.contains s job ≡ ok false

  -- A delete that does not raise removes the job from its own child.
  abbrev pub Removes : Repository S → Type 0
  Removes r = (s : S) → (r.delete job s).0 ≡ ok tt → Absent r (r.delete job s).1

  -- A delete of `other` does not bring the job back to `r`.
  abbrev pub Spares : Repository S → Repository S → Type 0
  Spares r other = (s : S) → Absent r s → Absent r (other.delete job s).1

  -- Every child removes, and no later child brings the job back to an earlier one.
  abbrev pub Removable : Children S → Type 0
  Removable [] = Unit
  Removable ((name, child) ∷ children) =
      Removes child × All (λ c. Spares child c.1) children × Removable children

  spared :
      (r : Repository S) (children : Children S) (s : S)
      → All (λ c. Spares r c.1) children
      → Absent r s
      → Absent r (delete_all children job s).1
  unfolding delete_all
  spared r [] s h a = a
  spared r ((name, child) ∷ children) s h a =
      go (child.delete job s).0 refl (spared r children (child.delete job s).1 h.1 (h.0 s a))
    where
      go :
          (o : Result (Unit {0}))
          → (child.delete job s).0 ≡ o
          → Absent r (delete_all children job (child.delete job s).1).1
          → Absent r (delete_all ((name, child) ∷ children) job s).1
      go (ok tt) e k = rw (e, delete_all) k
      go (err x) e k = rw (e, delete_all) (h.0 s a)

  first_ok :
      (name : String) (child : Repository S) (children : Children S) (s : S)
      → (delete_all ((name, child) ∷ children) job s).0 ≡ ok tt
      → ((child.delete job s).0 ≡ ok tt)
        × (delete_all ((name, child) ∷ children) job s
            ≡ delete_all children job (child.delete job s).1)
  unfolding delete_all
  first_ok name child children s h = go (child.delete job s).0 refl h
    where
      go :
          (o : Result (Unit {0}))
          → (child.delete job s).0 ≡ o
          → (delete_all ((name, child) ∷ children) job s).0 ≡ ok tt
          → ((child.delete job s).0 ≡ ok tt)
            × (delete_all ((name, child) ∷ children) job s
                ≡ delete_all children job (child.delete job s).1)
      go (ok tt) e k = (e, rw (e, delete_all) refl)
      go (err x) e k = absurd (raises (rw (e, delete_all) at k))
        where
          raises : ◌≡◌ {A = Result (Unit {0})} (err x) (ok tt) → ⊥
          raises q = cc

  or_step :
      (name : String) (child : Repository S) (children : Children S) (s : S)
      → Absent child s
      → or_contains children s job ≡ ok false
      → or_contains ((name, child) ∷ children) s job ≡ ok false
  unfolding or_contains
  or_step name child children s a h = rw a h

  none_contains :
      (children : Children S) (s : S)
      → Removable children
      → (delete_all children job s).0 ≡ ok tt
      → or_contains children (delete_all children job s).1 job ≡ ok false
  none_contains [] s r h = unfold or_contains in refl
  none_contains ((name, child) ∷ children) s r h =
      let (one, more) = first_ok name child children s h in
      let s' = (child.delete job s).1 in
      rw more (
        or_step name child children _ (spared child children s' r.1 (r.0 s one))
          (none_contains children s' r.2 (sym (ap (λ p. p.0) more) ∙ h)))

  -- Where a delete from a child, when it does not raise, removes the job from it, and one from a later child does
  -- not bring it back: after a delete from an aggregate that does not raise, no child holds the job, so that neither does
  -- the or-aggregate of them.
  pub delete-Absent :
      (children : Children S) (s : S)
      → Removable children
      → ((aggregate_or children).delete job s).0 ≡ ok tt
      → Absent (aggregate_or children) ((aggregate_or children).delete job s).1
  delete-Absent children s r h =
      unfold aggregate_or in none_contains children s r (unfold aggregate_or in h)
