-- ===== src/Staging.antt =====
-- pydatatask/staging.py: pipeline files, what they lack, and the lock file that supplies it. A tree has a record for
-- each pipeline file and the trees of its imports by name. Dispatchers, the descriptions of objects that
-- are built later, are any type `D`.
pub mod Specs
pub mod Files
pub mod Answers
mod Tests
use Prim.Native.String.{◌++◌ as append}
use pydatatask.Base.{
  ℕ, Bool, true, false, ◌&&◌, Option, none, some, List, [], ◌∷◌, String, if◌then◌else◌,
}
use pydatatask.Base.Results.{Result, ok, err, value_error, Exec}
use pydatatask.Base.Exec.{◌>>=◌}
use pydatatask.Base.Keys.{Job, Dict, get, insert}

mutual
  pub data Tree (A : Type 0) : Type 0 where
    tree : A → Forest A → Tree A

  pub data Forest (A : Type 0) : Type 0 where
    nil : Forest A
    cons : String → Tree A → Forest A → Forest A

abbrev pub root : {A : Type 0} → Tree A → A
root (tree a imports) = a

abbrev pub imports_of : {A : Type 0} → Tree A → Forest A
imports_of (tree a imports) = imports

pub record ChildSpec : Type 0 where
  pub path : Option String
  pub repos : Dict String
  pub executors : Dict String

-- None is a promise of a value.
pub record ChildArgs (D : Type 0) : Type 0 where
  pub repos : Dict (Option D)
  pub executors : Dict (Option D)

pub record Missing : Type 0 where
  pub repos : Dict String
  pub executors : List String

abbrev pub is_empty {ℓ} : {A : Type ℓ} → List A → Bool
is_empty [] = true
is_empty (x ∷ xs) = false

-- `d.update(e)`
unfoldable pub update : {V : Type 0} → Dict V → Dict V → Dict V
update d [] = d
update d ((k, v) ∷ e) = update (insert k v d) e

unfoldable mutual
  pub ready : Tree Missing → Bool
  ready (tree m imports) = is_empty m.repos && (is_empty m.executors && ready_all imports)

  pub ready_all : Forest Missing → Bool
  ready_all nil = true
  ready_all (cons name child imports) = ready child && ready_all imports

-- Each name with the prefix before it, where there is a value.
abbrev pub prefixed : {D : Type 0} → String → Dict (Option D) → Dict D
prefixed prefix [] = []
prefixed prefix ((name, none) ∷ d) = prefixed prefix d
prefixed prefix ((name, some v) ∷ d) = (append prefix name, v) ∷ prefixed prefix d

abbrev pub renamed : {V : Type 0} → String → Dict V → Dict String
renamed prefix [] = []
renamed prefix ((name, v) ∷ d) = (name, append prefix name) ∷ renamed prefix d

-- The spec of a child and of its imports, and the dispatchers of repositories and executors.
pub record Specified (D R : Type 0) : Type 0 where
  pub result : R
  pub repos : Dict D
  pub executors : Dict D

module _ {D : Type 0} where
  abbrev pub empty_spec : Specified D (Forest ChildSpec)
  empty_spec = record { result = nil; repos = []; executors = [] }

  -- The dispatchers of the level, and then those of the imports over them.
  abbrev pub specified :
      String → ChildArgs D → Specified D (Forest ChildSpec) → Specified D (Tree ChildSpec)
  specified prefix a subs = record {
    result =
        tree
          (record {
            path = none;
            repos = renamed prefix a.repos;
            executors = renamed prefix a.executors;
          })
          subs.result;
    repos = update (prefixed prefix a.repos) subs.repos;
    executors = update (prefixed prefix a.executors) subs.executors;
  }

  abbrev pub add_import :
      String
      → Specified D (Tree ChildSpec)
      → Specified D (Forest ChildSpec)
      → Specified D (Forest ChildSpec)
  add_import name sub rest = record {
    result = cons name sub.result rest.result;
    repos = update sub.repos rest.repos;
    executors = update sub.executors rest.executors;
  }

  unfoldable mutual
    unfolding update

    pub specify : String → Tree (ChildArgs D) → Specified D (Tree ChildSpec)
    specify prefix (tree a imports) = specified prefix a (specify_all prefix imports)

    pub specify_all : String → Forest (ChildArgs D) → Specified D (Forest ChildSpec)
    specify_all prefix nil = empty_spec
    specify_all prefix (cons name child imports) =
        add_import name (specify (append name (append "_" prefix)) child)
          (specify_all prefix imports)

abbrev pub pure : {S A : Type 0} → A → Exec S A
pure a s = (ok a, s)

abbrev pub fail : {S A : Type 0} → Exec S A
fail s = (err value_error, s)

-- An allocator may raise, and its state is that of all allocators: a source of random names, say.
module _ {S D : Type 0} (allocators : Dict (Exec S D)) (default_executor : Option D) where
  abbrev pub allocator : Option (Exec S D) → Exec S D
  allocator none = fail
  allocator (some make) = make

  unfoldable pub allocate_repos : Dict String → Exec S (Dict (Option D))
  allocate_repos [] = pure []
  allocate_repos ((name, class) ∷ d) = do
    v ← allocator (get class allocators)
    rest ← allocate_repos d
    pure ((name, some v) ∷ rest)

  abbrev pub given : Option D → Exec S D
  given none = fail
  given (some v) = pure v

  unfoldable pub allocate_executors : List String → Exec S (Dict (Option D))
  allocate_executors [] = pure []
  allocate_executors (name ∷ names) = do
    v ← given default_executor
    rest ← allocate_executors names
    pure ((name, some v) ∷ rest)

  abbrev pub skip_ready :
      Bool
      → Exec S (Forest (ChildArgs D))
      → Exec S (Forest (ChildArgs D))
      → Exec S (Forest (ChildArgs D))
  skip_ready true rest more = rest
  skip_ready false rest more = more

  -- An import that is ready gets no arguments.
  unfoldable mutual
    unfolding ready allocate_repos allocate_executors

    pub allocate : Tree Missing → Exec S (Tree (ChildArgs D))
    allocate (tree m imports) = do
      repos ← allocate_repos m.repos
      executors ← allocate_executors m.executors
      subs ← allocate_all imports
      pure (tree (record { repos = repos; executors = executors }) subs)

    pub allocate_all : Forest Missing → Exec S (Forest (ChildArgs D))
    allocate_all nil = pure nil
    allocate_all (cons name t imports) =
        skip_ready (ready t) (allocate_all imports)
          (do sub ← allocate t; rest ← allocate_all imports; pure (cons name sub rest))
