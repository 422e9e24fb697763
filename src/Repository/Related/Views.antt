-- ===== src/Repository/Related/Views.antt =====
-- What a related repository holds.
use pydatatask.Base.{
  ◌≡◌, refl, sym, ap, ◌∙◌, ◌⊎◌, Bool, true, false, ◌&&◌, Option, none, some, List, [], ◌∷◌, arith,
  inl, inr,
}
use pydatatask.Base.Results.{ok}
use pydatatask.Base.Keys.{Job, Dict, get, mem, mem-select, select}
use pydatatask.Repository.{Repository, MetadataRepository, IsView, filter_ok}
use pydatatask.Repository.JobId.{filter_jobs, iter}
use pydatatask.Repository.Related.{
  Table, is_nonempty, get_or_none, prefetched, consult, lookup, contains, related_in, related_iter,
  related,
}

-- `_lookup` reads a dictionary that it holds, or `info` of the translator where the dictionary is empty.
abbrev pub Reads :
    {S : Type 0}
    → MetadataRepository S (Option Job)
    → S
    → (Job → Option Job)
    → Dict (Option Job)
    → Type 0
Reads translator s f d =
    ((is_nonempty d ≡ true) × ((x : Job) → get_or_none (get x d) ≡ f x))
    ⊎ ((is_nonempty d ≡ false) × ((x : Job) → translator.info s x ≡ ok (f x)))

-- Lookups of an object with this setting and table give `f`. A table that was filled before is read, however old it is; one
-- that is not is filled with what `info_all` gives now, if lookups are prefetched.
abbrev pub Translates :
    {S : Type 0}
    → MetadataRepository S (Option Job)
    → S
    → (Job → Option Job)
    → Bool
    → Table
    → Type 0
Translates translator s f prefetch (some d) = Reads translator s f d
Translates translator s f true none =
    (d : Dict (Option Job)) × (translator.info_all s ≡ ok d) × Reads translator s f d
Translates translator s f false none = (x : Job) → translator.info s x ≡ ok (f x)

module _ {S : Type 0} (base : Repository S) (translator : MetadataRepository S (Option Job))
    (allow_deletes : Bool) (s : S) (f : Job → Option Job) where
  consult-Reads :
      (b : Bool) (d : Dict (Option Job))
      → Reads translator s f d
      → (x : Job) → consult base translator allow_deletes b (some d) s x ≡ ok (f x)
  unfolding consult
  consult-Reads b d (inl (full, entries)) x = rw (full, consult) (ap ok (entries x))
  consult-Reads b d (inr (bare, infos)) x = rw (bare, consult) (infos x)

  pub lookup_lem :
      (prefetch : Bool) (table : Table)
      → Translates translator s f prefetch table
      → (x : Job) → lookup base translator allow_deletes prefetch table s x ≡ ok (f x)
  unfolding lookup prefetched consult
  lookup_lem prefetch (some d) t x = consult-Reads prefetch d t x
  lookup_lem true none (d, tabled, t) x = rw tabled (consult-Reads true d t x)
  lookup_lem false none t x = t x

-- The job is translated, and to a job of the list.
abbrev pub held_by : (Job → Option Job) → List Job → Job → Bool
held_by f items x = elim (f x) [ none ↦ false | some b ↦ mem b items ]

module _ {S : Type 0} (base : Repository S) (translator : MetadataRepository S (Option Job))
    (allow_deletes prefetch : Bool) (table : Table) (s : S) (f : Job → Option Job)
    (t : Translates translator s f prefetch table) (items jobs : List Job)
    (v : IsView base s items) where
  contains-held_by :
      (x : Job) → contains base translator allow_deletes prefetch table s x ≡ ok (held_by f items x)
  unfolding contains
  contains-held_by x =
      rw (lookup_lem base translator allow_deletes s f prefetch table t x) (go (f x))
    where
      go :
          (o : Option Job)
          → (elim o [ none ↦ ok false | some b ↦ base.contains s b ])
            ≡ ok (elim o [ none ↦ false | some b ↦ mem b items ])
      go none = refl
      go (some b) = v.decides b

  related_in-held_by :
      (x : Job)
      → related_in base translator allow_deletes prefetch table s items x ≡ ok (held_by f items x)
  unfolding related_in
  related_in-held_by x =
      rw (lookup_lem base translator allow_deletes s f prefetch table t x) (go (f x))
    where
      go :
          (o : Option Job)
          → (elim o [ none ↦ ok false | some b ↦ ok (mem b items) ])
            ≡ ok (elim o [ none ↦ false | some b ↦ mem b items ])
      go none = refl
      go (some b) = refl

  filter_ok-held_by :
      (xs : List Job)
      → filter_ok (related_in base translator allow_deletes prefetch table s items) xs
        ≡ ok (select (held_by f items) xs)
  unfolding filter_ok select
  filter_ok-held_by [] = refl
  filter_ok-held_by (x ∷ xs) = rw (related_in-held_by x, filter_ok-held_by xs) (ground arith)

  -- A related repository whose lookups all give an answer holds the jobs that its translator lists and that a lookup translates
  -- to a job of the base, in the iteration and in the test of membership alike. A lookup reads the table that the
  -- object holds, which is what the translator held when it was filled and is not refreshed; where there is none yet, what
  -- `info_all` gives now, if lookups are prefetched; and `info` of the translator, if they are not or the table is empty. That is so
  -- where lookups translate no job that the translator does not list now, and the base and the translator
  -- hold given jobs, all of them valid identifiers.
  pub related-IsView :
      translator.repository.unfiltered_iter s ≡ ok jobs
      → ((x : Job) → mem x jobs ≡ false → f x ≡ none)
      → filter_jobs items ≡ items
      → filter_jobs jobs ≡ jobs
      → IsView
          (related base translator allow_deletes prefetch table)
          s
          (select (held_by f items) jobs)
  unfolding related related_iter iter
  related-IsView listed untranslated vi vj = record {
    iterates = rw (v.iterates, listed, vi, vj) (filter_ok-held_by jobs);
    decides = λ x. contains-held_by x ∙ ap ok (sym (mem-select (held_by f items) x jobs ∙ go x));
  }
    where
      go : (x : Job) → (held_by f items x && mem x jobs) ≡ held_by f items x
      go x = ground (arith, untranslated x)
