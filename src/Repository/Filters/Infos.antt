-- ===== src/Repository/Filters/Infos.antt =====
-- What `info_all` of the filtering classes gives for each key.
use pydatatask.Base.{
  ◌≡◌, refl, Bool, Option, none, some, [], ◌∷◌, arith, if◌then◌else◌, Bool-cases, inl, inr,
}
use pydatatask.Base.Results.{Result, ok}
use pydatatask.Base.Keys.{Job, Dict, get, same_iff}
use mathlib.Core.Option
use pydatatask.Repository.{MetadataRepository}
use pydatatask.Repository.Filters.{
  Filt, passes, map_entries, pop_entries, map_repository, filter_metadata_repository,
}
use pydatatask.Repository.Filters.Views.{Decides}

abbrev pub Found : {V : Type 0} → Result (Dict V) → (Job → Option V) → Type 0
Found {V} r f = (d : Dict V) × (r ≡ ok d) × ((k : Job) → get k d ≡ f k)

module _ {S V U : Type 0} (filt : Filt S) (s : S) (p : Job → Bool) (h : Decides filt s p)
    (func : S → V → Result U) (g : V → U) (total : (v : V) → func s v ≡ ok (g v)) where
  map_entries-Found :
      (d : Dict V)
      → Found (map_entries filt func s d) (λ k. if p k then Option.map g (get k d) else none)
  unfolding map_entries get
  map_entries-Found [] = ([], refl, λ k. ground arith)
  map_entries-Found ((j, v) ∷ d) =
      let (rest, e, f) = map_entries-Found d in
      elim (Bool-cases (p j)) [
        | inl pj ↦
            ((j, g v) ∷ rest, rw (h j, pj, total v, e) refl, λ k. ground (arith, f k, same_iff j k))
        | inr pj ↦ (rest, rw (h j, pj, e) refl, λ k. ground (arith, f k, same_iff j k))
      ]

module _ {S V : Type 0} (s : S) (f : S → Job → Result Bool) (p : Job → Bool)
    (h : Decides (some f) s p) where
  pop_entries-Found :
      (d : Dict V) → Found (pop_entries (some f) s d) (λ k. if p k then none else get k d)
  unfolding pop_entries get passes
  pop_entries-Found [] = ([], refl, λ k. ground arith)
  pop_entries-Found ((j, v) ∷ d) =
      let (rest, e, q) = pop_entries-Found d in
      elim (Bool-cases (p j)) [
        | inl pj ↦ (rest, rw (h j, pj, e) refl, λ k. ground (arith, q k, same_iff j k))
        | inr pj ↦ ((j, v) ∷ rest, rw (h j, pj, e) refl, λ k. ground (arith, q k, same_iff j k))
      ]

-- `info_all` of a mapped repository has, for each key that passes the filter, the image of what the base has, and
-- for each other key nothing; where the filter and the function answer.
pub map_repository-info_all :
    {S V U : Type 0} (base : MetadataRepository S V) (filt : Filt S) (func : S → V → Result U)
    (allow_deletes : Bool) (s : S) (p : Job → Bool) (g : V → U) (d : Dict V)
    → Decides filt s p
    → ((v : V) → func s v ≡ ok (g v))
    → base.info_all s ≡ ok d
    → Found
        ((map_repository base func filt allow_deletes).info_all s)
        (λ k. if p k then Option.map g (get k d) else none)
unfolding map_repository
map_repository-info_all base filt func allow_deletes s p g d h total e =
    rw e (map_entries-Found filt s p h func g total d)

-- `info_all` of a filtered metadata repository has what the base has for the keys that the filter does
-- not pass, and nothing for those that it passes.
pub filter_metadata_repository-info_all :
    {S V : Type 0} (base : MetadataRepository S V) (f : S → Job → Result Bool)
    (allow_deletes : Bool) (s : S) (p : Job → Bool) (d : Dict V)
    → Decides (some f) s p
    → base.info_all s ≡ ok d
    → Found
        ((filter_metadata_repository base (some f) allow_deletes).info_all s)
        (λ k. if p k then none else get k d)
unfolding filter_metadata_repository
filter_metadata_repository-info_all base f allow_deletes s p d h e =
    rw e (pop_entries-Found s f p h d)
