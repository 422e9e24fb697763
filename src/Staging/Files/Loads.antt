-- ===== src/Staging/Files/Loads.antt =====
-- Loading a pipeline file ends, and what is missing of a file that is loaded.
use pydatatask.Base.{
  ℕ, zero, suc, ◌<◌, ◌≡◌, refl, sym, ap, ◌∙◌, Bool, true, false, not, ◌&&◌, ◌||◌, Option, none,
  some, [], ◌∷◌, String, arith, if◌then◌else◌,
}
use pydatatask.Base.Results.{Result, ok, err, value_error}
use pydatatask.Base.Keys.{Dict, has, keys, mem, same, same_iff}
use pydatatask.Staging.{Tree, tree, Forest, nil, cons, root, ChildSpec, ChildArgs, is_empty}
use pydatatask.Staging.Files.{
  PipelineSpec, Loaded, fulfilled, promised, loaded, unused, overlap, checked, both_loaded,
  load_child, load_children, with_children, continue, read_spec, load, child_params, missing_here,
  restrict,
}

abbrev pub Leads : (String → Type 0) → Option String → Type 0
Leads P none = Unit
Leads P (some path) = P path

-- The paths of the imports.
abbrev pub Below : (String → Type 0) → Forest ChildSpec → Type 0
Below P nil = Unit
Below P (cons name imp imports) = Leads P (root imp).path × Below P imports

abbrev Ends : {A : Type 0} → Option A → Type 0
Ends {A} o = (a : A) × (o ≡ some a)

Below-mono :
    (P Q : String → Type 0)
    → ((p : String) → P p → Q p)
    → (imports : Forest ChildSpec) → Below P imports
    → Below Q imports
Below-mono P Q f nil h = tt
Below-mono P Q f (cons name imp imports) (h, hs) =
    (one (root imp).path h, Below-mono P Q f imports hs)
  where
    one : (p : Option String) → Leads P p → Leads Q p
    one none h = tt
    one (some p) h = f p h

module _ {D : Type 0} where
  both_loaded_total :
      (name : String) (t : Option (Result (Tree (Loaded D))))
      (rest : Option (Result (Forest (Loaded D))))
      → Ends t
      → Ends rest
      → Ends (both_loaded name t rest)
  both_loaded_total name t rest (err x, e) (r, q) = rw e (err x, refl)
  both_loaded_total name t rest (ok a, e) (err x, q) = rw (e, q) (err x, refl)
  both_loaded_total name t rest (ok a, e) (ok as', q) = rw (e, q) (ok (cons name a as'), refl)

  load_children_total :
      (again : String → Tree (ChildArgs D) → Option (Result (Tree (Loaded D)))) (l : Loaded D)
      (given : Forest (ChildArgs D)) (imports : Forest ChildSpec)
      → Below (λ p. (t : Tree (ChildArgs D)) → Ends (again p t)) imports
      → Ends (load_children again l given imports)
  unfolding load_children
  load_children_total again l given nil h = (ok nil, refl)
  load_children_total again l given (cons name imp imports) (h, hs) =
      both_loaded_total name (load_child again (root imp).path (child_params l given name imp))
        (load_children again l given imports) (child (root imp).path h)
        (load_children_total again l given imports hs)
    where
      child :
          (p : Option String)
          → Leads (λ p. (t : Tree (ChildArgs D)) → Ends (again p t)) p
          → Ends (load_child again p (child_params l given name imp))
      child none h = (_, refl)
      child (some path) h = h (child_params l given name imp)

  with_children_total :
      (l : Loaded D) (o : Option (Result (Forest (Loaded D)))) → Ends o → Ends (with_children l o)
  with_children_total l o (err x, e) = rw e (err x, refl)
  with_children_total l o (ok ts, e) = rw e (ok (tree l ts), refl)

  checked_lem : (l m : Loaded D) → checked l ≡ ok m → m ≡ l
  unfolding checked
  checked_lem l m h = go (is_empty (unused l)) (is_empty (overlap l)) h
    where
      go :
          (a b : Bool)
          → (if a then (if b then ok l else err value_error) else err value_error) ≡ ok m
          → m ≡ l
      go true true h = cc
      go true false h = absurd (cc h)
      go false b h = absurd (cc h)

-- Loading a pipeline file ends, if the files that it imports do not import one another in a circle: if a number can be given to each
-- path so that it falls along every import, then as many nested calls as that number of the file and one more are enough.
pub load_total :
    {D : Type 0} (files : String → Result (PipelineSpec D)) (join : String → String → String)
    (rank : String → ℕ)
    (acyclic : (path : String) (spec : PipelineSpec D)
      → files path ≡ ok spec
      → Below (λ p. rank (join path p) < rank path) spec.imports)
    (fuel : ℕ) (path : String) (params : Tree (ChildArgs D))
    → rank path < fuel
    → (r : Result (Tree (Loaded D))) × (load files join fuel path params ≡ some r)
unfolding load
load_total files join rank acyclic zero path params h = absurd (omega arith)
load_total {D} files join rank acyclic (suc fuel) path (tree params given) h =
    go (files path) refl
      (λ p t below. load_total files join rank acyclic fuel (join path p) t (omega arith))
  where
    again : String → Tree (ChildArgs D) → Option (Result (Tree (Loaded D)))
    again p t = load files join fuel (join path p) t

    go :
        (o : Result (PipelineSpec D))
        → files path ≡ o
        → ((p : String) (t : Tree (ChildArgs D))
            → rank (join path p) < rank path
            → Ends (again p t))
        → Ends (
            continue files join
              (λ l. with_children l (load_children again l given l.spec.imports))
              (read_spec files join o params))
    go (err x) e ih = (err x, refl)
    go (ok spec) e ih = step (checked (loaded spec params)) refl
      where
        step :
            (c : Result (Loaded D))
            → checked (loaded spec params) ≡ c
            → Ends (
                continue files join
                  (λ l. with_children l (load_children again l given l.spec.imports))
                  c)
        step (err x) q = (err x, refl)
        step (ok l) q =
            let same_spec : l.spec ≡ spec =
              ap (λ m. m.spec) (checked_lem (loaded spec params) l q) ∙ unfold loaded in refl in
            with_children_total l (load_children again l given l.spec.imports) (
              load_children_total again l given l.spec.imports (
                rw same_spec
                  (Below-mono _ _ (λ p below t. ih p t below) spec.imports (acyclic path spec e))))

has-params :
    {D : Type 0} (x : String) (d : Dict (Option D))
    → has x d ≡ (has x (fulfilled d) || mem x (promised d))
unfolding has mem keys
has-params x [] = refl
has-params x ((k, none) ∷ d) = ground (arith, has-params x d)
has-params x ((k, some v) ∷ d) = ground (arith, has-params x d)

has-restrict :
    {V : Type 0} (p : String → Bool) (x : String) (d : Dict V)
    → has x (restrict p d) ≡ (has x d && p x)
unfolding has mem keys
has-restrict p x [] = refl
has-restrict p x ((k, c) ∷ d) = go (has-restrict p x d) (p k) refl (same x k) refl
  where
    go :
        has x (restrict p d) ≡ (has x d && p x)
        → (here : Bool) → p k ≡ here
        → (b : Bool) → same x k ≡ b
        → has x (if here then (k, c) ∷ restrict p d else restrict p d)
          ≡ ((same x k || has x d) && p x)
    go ih true h true e = let q : x ≡ k = (same_iff x k).0 e in rw (e, q) (sym h)
    go ih false h true e =
        let off : p x ≡ false = ap p ((same_iff x k).0 e) ∙ h in ground (arith, ih, off)
    go ih true h false e = rw e ih
    go ih false h false e = rw e ih

-- What a loaded file itself lacks are its `repo_classes` for which it has no parameter, with or without a value.
pub missing-loaded :
    {D : Type 0} (spec : PipelineSpec D) (params : ChildArgs D) (name : String)
    → has name (missing_here (loaded spec params)).repos
      ≡ (has name spec.repo_classes && not (has name params.repos))
unfolding missing_here loaded
missing-loaded spec params name = ground (
  arith,
  has-restrict (λ k. not (has k (fulfilled params.repos)) && not (mem k (promised params.repos)))
      name spec.repo_classes,
  has-params name params.repos,
)
