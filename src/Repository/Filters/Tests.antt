-- ===== src/Repository/Filters/Tests.antt =====
-- Filtered repositories over a listing, and the theorems at concrete inputs.
use pydatatask.Base.{ℕ, refl, Bool, false, none, some, [], ◌∷◌, if◌then◌else◌}
use pydatatask.Base.Results.{Result, ok, err, Error}
use pydatatask.Base.Keys.{Job, Dict, mem, same, get, keys}
use pydatatask.Repository.{Repository, MetadataRepository}
use pydatatask.Repository.Filters.{refuse, passes, filter_metadata_repository}
use pydatatask.Repository.Filters.Infos.{Found, filter_metadata_repository-info_all}

abbrev Infos : Type 0
Infos = Dict ℕ

abbrev pub listing : Repository Infos
listing = record {
  unfiltered_iter = λ s. ok (keys s);
  contains = λ s x. ok (mem x (keys s));
  delete = λ x s. (err Error.key_error, s);
}

abbrev numbers : MetadataRepository Infos ℕ
numbers = record {
  repository = listing;
  info = λ s x. (elim (get x s) [ none ↦ err Error.key_error | some n ↦ ok n ]);
  info_all = λ s. ok s;
  dump = λ x n. refuse;
}

abbrev stored : Infos
stored = ("a", 1) ∷ ("b", 2) ∷ []

abbrev is_b : Job → Bool
is_b x = same x "b"

abbrev only_b : Infos → Job → Result Bool
only_b s x = ok (is_b x)

abbrev bumped : Infos → ℕ → Result ℕ
bumped s n = ok (ℕ.suc n)

filter_metadata_repository-info_all_example :
    Found
      ((filter_metadata_repository numbers (some only_b) false).info_all stored)
      (λ k. if is_b k then none else get k stored)
unfolding passes
filter_metadata_repository-info_all_example =
    filter_metadata_repository-info_all numbers only_b false stored is_b stored (λ x. refl) refl
