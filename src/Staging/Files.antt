-- ===== src/Staging/Files.antt =====
-- `PipelineStaging`: a pipeline file with the files that it imports. What a path leads to and how paths are joined are
-- the file system's; reading a file may raise.
pub mod Loads
use pydatatask.Base.{
  ℕ, zero, suc, Bool, true, false, not, ◌&&◌, ◌||◌, Option, none, some, List, [], ◌∷◌, ◌++◌, String,
  if◌then◌else◌,
}
use pydatatask.Base.Int.{ℤ, pos, ◌+ℤ◌}
use pydatatask.Base.Results.{Result, ok, err, Error, type_error, value_error}
use pydatatask.Base.Keys.{Dict, get, insert, has, keys, mem, select, same, is_some}
use pydatatask.Staging.{
  Tree, tree, Forest, nil, cons, root, ChildSpec, ChildArgs, Missing, is_empty, update,
}
use pydatatask.Staging.Specs.{reprocess}

pub record PriorityEntry : Type 0 where
  pub priority : ℤ
  pub task : Option String
  pub job : Option String

-- A task's executor, by name. The fields that only the built pipeline reads are left out.
pub record PipelineSpec (D : Type 0) : Type 0 where
  pub tasks : Dict (Option String)
  pub executors : Dict D
  pub repos : Dict D
  pub repo_classes : Dict String
  pub priorities : List PriorityEntry
  pub imports : Forest ChildSpec

pub record Loaded (D : Type 0) : Type 0 where
  pub spec : PipelineSpec D
  pub repos_fulfilled : Dict D
  pub repos_promised : List String
  pub executors_fulfilled : Dict D
  pub executors_promised : List String

abbrev pub applies : Option String → String → Bool
applies none name = true
applies (some x) name = same x name

abbrev pub sum_priorities : String → String → List PriorityEntry → ℤ → ℤ
sum_priorities task job [] result = result
sum_priorities task job (e ∷ es) result =
    let rest = sum_priorities task job es in
    if applies e.job job && applies e.task task then rest (result +ℤ e.priority) else rest result

abbrev pub find_tree : {A : Type 0} → String → Forest A → Option (Tree A)
find_tree name nil = none
find_tree name (cons k t ts) = if same k name then some t else find_tree name ts

abbrev pub put_tree : {A : Type 0} → String → Tree A → Forest A → Forest A
put_tree name t nil = cons name t nil
put_tree name t (cons k u ts) = if same k name then cons k t ts else cons k u (put_tree name t ts)

abbrev pub put_trees : {A : Type 0} → Forest A → Forest A → Forest A
put_trees d nil = d
put_trees d (cons k t ts) = put_trees (put_tree k t d) ts

abbrev pub restrict : {V : Type 0} → (String → Bool) → Dict V → Dict V
restrict p [] = []
restrict p ((k, v) ∷ d) = let rest = restrict p d in if p k then (k, v) ∷ rest else rest

abbrev pub is_bare : Option String → Bool
is_bare none = true
is_bare (some executor) = false

module _ {D : Type 0} where
  -- The parameters with a value, and the names of those without.
  abbrev pub fulfilled : Dict (Option D) → Dict D
  fulfilled [] = []
  fulfilled ((k, none) ∷ d) = fulfilled d
  fulfilled ((k, some v) ∷ d) = (k, v) ∷ fulfilled d

  abbrev pub promised : Dict (Option D) → List String
  promised [] = []
  promised ((k, none) ∷ d) = k ∷ promised d
  promised ((k, some v) ∷ d) = promised d

  unfoldable pub loaded : PipelineSpec D → ChildArgs D → Loaded D
  loaded spec params = record {
    spec = spec;
    repos_fulfilled = fulfilled params.repos;
    repos_promised = promised params.repos;
    executors_fulfilled = fulfilled params.executors;
    executors_promised = promised params.executors;
  }

  abbrev pub first_of : Option D → Option D → Option D
  first_of none o = o
  first_of (some v) o = some v

  unfoldable pub get_repo : Loaded D → String → Option D
  get_repo l name = first_of (get name l.repos_fulfilled) (get name l.spec.repos)

  unfoldable pub get_executor : Loaded D → String → Option D
  get_executor l name = first_of (get name l.executors_fulfilled) (get name l.spec.executors)

  unfoldable pub get_priority : Loaded D → String → String → ℤ
  get_priority l task job = sum_priorities task job l.spec.priorities (pos 0)

  -- Parameters that the file has no use for, and names that it both defines and lacks.
  unfoldable pub unused : Loaded D → List String
  unused l =
      select (λ k. not (has k l.spec.repos) && not (has k l.spec.repo_classes))
        (keys l.repos_fulfilled ++ l.repos_promised)

  unfoldable pub overlap : Loaded D → List String
  overlap l = select (λ k. has k l.spec.repo_classes) (keys l.spec.repos)

  unfoldable pub checked : Loaded D → Result (Loaded D)
  unfolding unused overlap
  checked l =
      if is_empty (unused l)
      then (if is_empty (overlap l) then ok l else err value_error)
      else err value_error

  -- The parameters of an import, updated by those that are given for it.
  unfoldable pub merge : Tree (ChildArgs D) → Option (Tree (ChildArgs D)) → Tree (ChildArgs D)
  unfolding update
  merge t none = t
  merge (tree a imports) (some (tree b more)) =
      tree (record { repos = update a.repos b.repos; executors = update a.executors b.executors })
        (put_trees imports more)

  unfoldable pub child_params :
      Loaded D → Forest (ChildArgs D) → String → Tree ChildSpec → Tree (ChildArgs D)
  unfolding merge get_repo get_executor reprocess
  child_params l given name imp =
      merge (reprocess (get_repo l) (get_executor l) imp) (find_tree name given)

  abbrev pub both_loaded :
      String
      → Option (Result (Tree (Loaded D)))
      → Option (Result (Forest (Loaded D)))
      → Option (Result (Forest (Loaded D)))
  both_loaded name none rest = none
  both_loaded name (some (err e)) rest = some (err e)
  both_loaded name (some (ok t)) none = none
  both_loaded name (some (ok t)) (some (err e)) = some (err e)
  both_loaded name (some (ok t)) (some (ok ts)) = some (ok (cons name t ts))

  -- The children, one after the other; `load` is the call of the constructor with a path.
  abbrev pub load_child :
      (String → Tree (ChildArgs D) → Option (Result (Tree (Loaded D))))
      → Option String
      → Tree (ChildArgs D)
      → Option (Result (Tree (Loaded D)))
  load_child load none params = some (err type_error)
  load_child load (some path) params = load path params

  unfoldable pub load_children :
      (String → Tree (ChildArgs D) → Option (Result (Tree (Loaded D))))
      → Loaded D
      → Forest (ChildArgs D)
      → Forest ChildSpec
      → Option (Result (Forest (Loaded D)))
  unfolding child_params
  load_children load l given nil = some (ok nil)
  load_children load l given (cons name imp imports) =
      both_loaded name (load_child load (root imp).path (child_params l given name imp))
        (load_children load l given imports)

  abbrev pub with_children :
      Loaded D → Option (Result (Forest (Loaded D))) → Option (Result (Tree (Loaded D)))
  with_children l none = none
  with_children l (some (err e)) = some (err e)
  with_children l (some (ok ts)) = some (ok (tree l ts))

module _ {D : Type 0} (files : String → Result (PipelineSpec D))
    (join : String → String → String) where
  abbrev pub continue :
      (Loaded D → Option (Result (Tree (Loaded D))))
      → Result (Loaded D)
      → Option (Result (Tree (Loaded D)))
  continue f (err e) = some (err e)
  continue f (ok l) = f l

  abbrev pub read_spec : Result (PipelineSpec D) → ChildArgs D → Result (Loaded D)
  read_spec (err e) params = err e
  read_spec (ok spec) params = checked (loaded spec params)

  -- `PipelineStaging(filepath, params=params)`, with imports so many deep. `join` puts a path behind the directory of another.
  unfoldable pub load : ℕ → String → Tree (ChildArgs D) → Option (Result (Tree (Loaded D)))
  unfolding loaded checked load_children
  load zero path params = none
  load (suc fuel) path (tree params given) =
      continue
        (λ l.
          with_children l (load_children (λ p t. load fuel (join path p) t) l given l.spec.imports))
        (read_spec (files path) params)

module _ {D : Type 0} where
  abbrev pub unsupplied : Loaded D → Dict String → Dict String
  unsupplied l d =
      restrict (λ name. not (has name l.repos_fulfilled) && not (mem name l.repos_promised)) d

  abbrev pub unsupplied_tasks : Loaded D → Dict (Option String) → List String
  unsupplied_tasks l [] = []
  unsupplied_tasks l ((name, executor) ∷ d) =
      let rest = unsupplied_tasks l d in
      if is_bare executor
        && (not (has name l.executors_fulfilled) && not (mem name l.executors_promised))
      then name ∷ rest
      else rest

  unfoldable pub missing_here : Loaded D → Missing
  missing_here l = record {
    repos = unsupplied l l.spec.repo_classes;
    executors = unsupplied_tasks l l.spec.tasks;
  }

  unfoldable mutual
    unfolding missing_here

    pub missing : Tree (Loaded D) → Tree Missing
    missing (tree l children) = tree (missing_here l) (missing_all children)

    pub missing_all : Forest (Loaded D) → Forest Missing
    missing_all nil = nil
    missing_all (cons name t ts) = cons name (missing t) (missing_all ts)

  -- `_iter_children`
  unfoldable mutual
    pub iter_children : Tree (Loaded D) → List (Loaded D)
    iter_children (tree l children) = l ∷ iter_all children

    pub iter_all : Forest (Loaded D) → List (Loaded D)
    iter_all nil = []
    iter_all (cons name t ts) = iter_children t ++ iter_all ts
