-- ===== src/Staging/Specs.antt =====
-- `specify`, `_reprocess_subimports`, and what the names of a spec stand for.
use Prim.Native.String.{◌++◌ as append}
use text.Mathlib.TextLemmas
use text.Mathlib.TextLemmas.{append_assoc}
use pydatatask.Base.{◌≡◌, refl, true, Option, none, some, [], ◌∷◌, String, arith}
use pydatatask.Base.Keys.{Dict, get, insert, same_refl, is_some, get-insert}
use pydatatask.Staging.{
  Tree, tree, Forest, nil, cons, ChildSpec, ChildArgs, update, prefixed, renamed, specify,
  specify_all,
}

abbrev pub satisfied : {D : Type 0} → (String → Option D) → Dict String → Dict (Option D)
satisfied lookup [] = []
satisfied lookup ((param, name) ∷ d) = (param, lookup name) ∷ satisfied lookup d

module _ {D : Type 0} (get_repo get_executor : String → Option D) where
  unfoldable mutual
    pub reprocess : Tree ChildSpec → Tree (ChildArgs D)
    reprocess (tree s imports) =
        tree
          (record {
            repos = satisfied get_repo s.repos;
            executors = satisfied get_executor s.executors;
          })
          (reprocess_all imports)

    pub reprocess_all : Forest ChildSpec → Forest (ChildArgs D)
    reprocess_all nil = nil
    reprocess_all (cons name spec imports) = cons name (reprocess spec) (reprocess_all imports)

-- The same names, and a value wherever there was one.
abbrev pub Answered : {D : Type 0} → Dict (Option D) → Dict (Option D) → Type 0
Answered [] [] = Unit
Answered ((k, v) ∷ d) ((j, w) ∷ e) = (k ≡ j) × (is_some v ≡ true → is_some w ≡ true) × Answered d e
Answered _ _ = ⊥

-- Trees with the same imports, and the relation at every level.
module _ {A B : Type 0} (R : A → B → Type 0) where
  abbrev mutual
    pub Everywhere : Tree A → Tree B → Type 0
    Everywhere (tree a imports) (tree b imports') = R a b × EverywhereAll imports imports'

    pub EverywhereAll : Forest A → Forest B → Type 0
    EverywhereAll nil nil = Unit
    EverywhereAll (cons k a as') (cons j b bs) = (k ≡ j) × Everywhere a b × EverywhereAll as' bs
    EverywhereAll _ _ = ⊥

abbrev pub Answers : {D : Type 0} → ChildArgs D → ChildArgs D → Type 0
Answers a b = Answered a.repos b.repos × Answered a.executors b.executors

-- Every name of the dictionary is known.
abbrev Knows : {D : Type 0} → (String → Option D) → Dict D → Type 0
Knows lookup d = (k : String) → is_some (get k d) ≡ true → is_some (lookup k) ≡ true

module _ {D : Type 0} where
  get-update :
      (k : String) (d e : Dict D)
      → (is_some (get k d) ≡ true → is_some (get k (update d e)) ≡ true)
        × (is_some (get k e) ≡ true → is_some (get k (update d e)) ≡ true)
  unfolding update get
  get-update k d [] = (λ h. h, λ h. absurd (ground (arith, h)))
  get-update k d ((j, v) ∷ e) =
      let (left, right) = get-update k (insert j v d) e in
      (
        λ h. left (ground (arith, h, get-insert j k v d)),
        λ h. ground (arith, h, left, right, get-insert j k v d),
      )

  satisfied-renamed :
      (lookup : String → Option D) (prefix : String) (d : Dict (Option D))
      → Knows lookup (prefixed prefix d)
      → Answered d (satisfied lookup (renamed prefix d))
  satisfied-renamed lookup prefix [] h = tt
  satisfied-renamed lookup prefix ((name, none) ∷ d) h =
      (refl, λ e. absurd (cc e), satisfied-renamed lookup prefix d h)
  satisfied-renamed lookup prefix ((name, some v) ∷ d) h = (
    refl,
    λ _. h (append prefix name) (unfold get in rw (same_refl (append prefix name)) refl),
    satisfied-renamed lookup prefix d (λ k e. h k (unfold get in ground (arith, e))),
  )

module _ {D : Type 0} (get_repo get_executor : String → Option D) where
  mutual
    unfolding specify reprocess

    specify-Answers :
        (prefix : String) (t : Tree (ChildArgs D))
        → Knows get_repo (specify prefix t).repos
        → Knows get_executor (specify prefix t).executors
        → Everywhere Answers t (reprocess get_repo get_executor (specify prefix t).result)
    specify-Answers prefix (tree a imports) r x =
        let subs = specify_all prefix imports in
        (
          (
            satisfied-renamed get_repo prefix a.repos
                (λ k h. r k ((get-update k (prefixed prefix a.repos) subs.repos).0 h)),
            satisfied-renamed get_executor prefix a.executors
                (λ k h. x k ((get-update k (prefixed prefix a.executors) subs.executors).0 h)),
          ),
          specify_all-Answers prefix imports
              (λ k h. r k ((get-update k (prefixed prefix a.repos) subs.repos).1 h))
              (λ k h. x k ((get-update k (prefixed prefix a.executors) subs.executors).1 h)),
        )

    specify_all-Answers :
        (prefix : String) (ts : Forest (ChildArgs D))
        → Knows get_repo (specify_all prefix ts).repos
        → Knows get_executor (specify_all prefix ts).executors
        → EverywhereAll Answers ts
            (reprocess_all get_repo get_executor (specify_all prefix ts).result)
    specify_all-Answers prefix nil r x = tt
    specify_all-Answers prefix (cons name t ts) r x =
        let sub = specify (append name (append "_" prefix)) t in
        let rest = specify_all prefix ts in
        (
          refl,
          specify-Answers (append name (append "_" prefix)) t
              (λ k h. r k ((get-update k sub.repos rest.repos).0 h))
              (λ k h. x k ((get-update k sub.executors rest.executors).0 h)),
          specify_all-Answers prefix ts (λ k h. r k ((get-update k sub.repos rest.repos).1 h))
              (λ k h. x k ((get-update k sub.executors rest.executors).1 h)),
        )

-- What `specify` gives is complete: each name of the arguments, at every level of the imports, is a name of the spec,
-- and if it has a dispatcher, then the name that the spec gives for it is that of a dispatcher among those that
-- `specify` gives beside the spec.
pub reprocess-specify :
    {D : Type 0} (prefix : String) (t : Tree (ChildArgs D))
    → Everywhere Answers t (
        reprocess
          (λ k. get k (specify prefix t).repos)
          (λ k. get k (specify prefix t).executors)
          (specify prefix t).result)
reprocess-specify prefix t =
    specify-Answers (λ k. get k (specify prefix t).repos) (λ k. get k (specify prefix t).executors)
      prefix t (λ k h. h) (λ k h. h)

-- Names of different levels can collide, and then share a dispatcher: where a pipeline lacks a repository whose name is
-- that of an import, an underscore and a name that the import lacks, it gets the import's dispatcher in
-- place of its own.
pub specify_collision :
    {D : Type 0} (import name : String) (own other : D)
    → (specify "" (
        tree
          (record { repos = (append import (append "_" name), some own) ∷ []; executors = [] })
          (cons import
            (tree (record { repos = (name, some other) ∷ []; executors = [] }) nil)
            nil))).repos
      ≡ (append import (append "_" name), other) ∷ []
unfolding specify update
specify_collision import name own other =
    let same_name : append "" (append import (append "_" name)) ≡ append (append import "_") name =
      simp (TextLemmas.nil-append, TextLemmas.append_assoc) in
    rw (same_name, append_assoc import "_" name)
      (unfold insert in rw (same_refl (append import (append "_" name))) refl)
