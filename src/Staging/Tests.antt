-- ===== src/Staging/Tests.antt =====
-- A pipeline that lacks a repository and imports one that lacks another, and files that import one another.
use pydatatask.Base.{ℕ, ◌+◌, ◌<◌, Bool, ◌≡◌, refl, true, false, some, [], ◌∷◌, String, arith}
use pydatatask.Base.Results.{Result, ok, Exec}
use pydatatask.Base.Exec.{◌>>=◌}
use pydatatask.Base.Keys.{Dict, get, insert, same}
use pydatatask.Staging.{Tree, tree, nil, cons, ChildArgs, Missing, specify, allocate}
use pydatatask.Staging.Specs.{reprocess}
use pydatatask.Staging.Answers.{Supplied, reprocess-allocate}
use pydatatask.Staging.Files.{PipelineSpec, Loaded, load}
use pydatatask.Staging.Files.Loads.{Below, load_total}

abbrev lacking : Tree Missing
lacking =
    tree (record { repos = ("in", "Blob") ∷ []; executors = "work" ∷ [] })
      (cons "sub" (tree (record { repos = ("out", "Blob") ∷ []; executors = [] }) nil)
        (cons "done" (tree (record { repos = []; executors = [] }) nil) nil))

-- Dispatchers are numbers, and the allocator counts them.
abbrev counting : Dict (Exec ℕ ℕ)
counting = ("Blob", λ n. (ok n, n + 1)) ∷ []

abbrev args : Tree (ChildArgs ℕ)
args =
    tree (record { repos = ("in", some 5) ∷ []; executors = ("work", some 9) ∷ [] })
      (cons "sub" (tree (record { repos = ("out", some 6) ∷ []; executors = [] }) nil) nil)

allocated : (allocate counting (some 9) lacking 5).0 ≡ ok args
unfolding allocate get ◌>>=◌
allocated = refl

names : (specify "" args).repos ≡ ("in", 5) ∷ ("sub_out", 6) ∷ []
unfolding specify insert
names = refl

reprocess-allocate_example : Supplied lacking (
    reprocess
      (λ k. get k (specify "" args).repos)
      (λ k. get k (specify "" args).executors)
      (specify "" args).result)
reprocess-allocate_example = reprocess-allocate counting (some 9) lacking 5 args allocated

-- Without parameters.
abbrev no_args : Tree (ChildArgs ℕ)
no_args = tree (record { repos = []; executors = [] }) nil

abbrev no_imports : PipelineSpec ℕ
no_imports = record {
  tasks = [];
  executors = [];
  repos = ("r", 1) ∷ [];
  repo_classes = [];
  priorities = [];
  imports = nil;
}

abbrev main_file : PipelineSpec ℕ
main_file = record no_imports {
  imports = cons "sub" (tree (record { path = some "sub"; repos = []; executors = [] }) nil) nil;
}

abbrev file_of : Bool → Result (PipelineSpec ℕ)
file_of true = ok main_file
file_of false = ok no_imports

abbrev files : String → Result (PipelineSpec ℕ)
files path = file_of (same path "main")

abbrev rank_of : Bool → ℕ
rank_of true = 1
rank_of false = 0

abbrev rank : String → ℕ
rank path = rank_of (same path "main")

-- Both files stand in one directory.
abbrev beside : String → String → String
beside path name = name

acyclic :
    (path : String) (spec : PipelineSpec ℕ)
    → files path ≡ ok spec
    → Below (λ p. rank (beside path p) < rank path) spec.imports
acyclic path spec h = go (same path "main") h
  where
    go :
        (b : Bool)
        → file_of b ≡ ok spec
        → Below (λ p. rank (beside path p) < rank_of b) spec.imports
    go true e = let q : spec ≡ main_file = cc in rw q (omega arith, tt)
    go false e = let q : spec ≡ no_imports = cc in rw q tt

load_total_example : (r : Result (Tree (Loaded ℕ))) × (load files beside 2 "main" no_args ≡ some r)
load_total_example = load_total files beside rank acyclic 2 "main" no_args (omega arith)
