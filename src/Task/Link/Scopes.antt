-- ===== src/Task/Link/Scopes.antt =====
-- The repositories that are required under a named scope.
use pydatatask.Base.{
  ◌≡◌, refl, ap, ◌∙◌, ◌⊎◌, inl, inr, Bool, true, false, some, List, [], ◌∷◌, ◌++◌, String, arith,
  if◌then◌else◌, Bool-cases,
}
use pydatatask.Base.Keys.{Dict, insert, get, get-insert, same, same_iff, same_refl}
use pydatatask.Repository.{Repository}
use pydatatask.Repository.Aggregate.{Children}
use pydatatask.Task.Link.{
  Scope, flag, scope, or_else, append_to, base_listing, scoped_listing, scope_entry, scope_entries,
  make_ready,
}

abbrev Required : Type 0 → Type 0
Required S = List (String × Repository S × Scope)

module _ {S : Type 0} where
  -- Lists of a scope that are equal, or have the same first of at least two entries.
  abbrev AlikeChildren : Children S → Children S → Type 0
  AlikeChildren c c' =
      (c ≡ c')
      ⊎ ((first : String × Repository S) × (a : String × Repository S) × (xs : Children S)
          × (b : String × Repository S) × (ys : Children S) × (c ≡ first ∷ a ∷ xs)
          × (c' ≡ first ∷ b ∷ ys))

  abbrev Alike : Dict (Children S) → Dict (Children S) → Type 0
  Alike [] [] = Unit
  Alike ((s, c) ∷ d) ((s', c') ∷ d') = (s ≡ s') × AlikeChildren c c' × Alike d d'
  Alike _ _ = ⊥

  Alike-refl : (d : Dict (Children S)) → Alike d d
  Alike-refl [] = tt
  Alike-refl ((s, c) ∷ d) = (refl, inl refl, Alike-refl d)

  append-Alike :
      (e : String × Repository S) (c c' : Children S)
      → AlikeChildren c c'
      → AlikeChildren (c ++ e ∷ []) (c' ++ e ∷ [])
  append-Alike e c c' (inl h) = inl (ap (λ l. l ++ e ∷ []) h)
  append-Alike e c c' (inr (first, a, xs, b, ys, h, h')) =
      inr (first, a, xs ++ e ∷ [], b, ys ++ e ∷ [], rw h refl, rw h' refl)

  append_to-cons :
      (t s : String) (e : String × Repository S) (c : Children S) (d : Dict (Children S))
      → append_to t e ((s, c) ∷ d)
        ≡ (if same s t then (s, c ++ e ∷ []) ∷ d else (s, c) ∷ append_to t e d)
  unfolding insert get
  append_to-cons t s e c d = ground arith

  append_to-Alike :
      (t : String) (e : String × Repository S) (d d' : Dict (Children S))
      → Alike d d'
      → Alike (append_to t e d) (append_to t e d')
  append_to-Alike t e [] [] h = Alike-refl _
  append_to-Alike t e [] (_ ∷ d') h = elim h [ ]
  append_to-Alike t e ((s, c) ∷ d) [] h = elim h [ ]
  append_to-Alike t e ((s, c) ∷ d) ((s', c') ∷ d') (is, cs, h) =
      rw (append_to-cons t s e c d, append_to-cons t s' e c' d', ← is)
        (go (same s t) (append_to-Alike t e d d' h))
    where
      go :
          (b : Bool)
          → Alike (append_to t e d) (append_to t e d')
          → Alike
              (if b then (s, c ++ e ∷ []) ∷ d else (s, c) ∷ append_to t e d)
              (if b then (s, c' ++ e ∷ []) ∷ d' else (s, c') ∷ append_to t e d')
      go true ih = (refl, append-Alike e c c' cs, h)
      go false ih = (refl, cs, ih)

  scoped_listing-Alike :
      (r : Required S) (d d' : Dict (Children S))
      → Alike d d'
      → Alike (scoped_listing r d) (scoped_listing r d')
  unfolding scoped_listing
  scoped_listing-Alike [] d d' h = h
  scoped_listing-Alike ((name, repo, flag b) ∷ r) d d' h = scoped_listing-Alike r d d' h
  scoped_listing-Alike ((name, repo, scope t) ∷ r) d d' h =
      scoped_listing-Alike r _ _ (append_to-Alike t (name, repo) d d' h)

  -- The scope has an entry.
  abbrev Stands : String → Dict (Children S) → Type 0
  Stands t d =
      (first : String × Repository S) × (rest : Children S) × (get t d ≡ some (first ∷ rest))

  more-Alike :
      (a b : String × Repository S) (first : String × Repository S) (rest : Children S)
      → AlikeChildren ((first ∷ rest) ++ a ∷ []) ((first ∷ rest) ++ b ∷ [])
  more-Alike a b first [] = inr (first, a, [], b, [], refl, refl)
  more-Alike a b first (c ∷ rest) = inr (first, c, rest ++ a ∷ [], c, rest ++ b ∷ [], refl, refl)

  -- Behind an entry of its scope, one entry is like another.
  append_to-other :
      (t : String) (a b : String × Repository S) (d : Dict (Children S))
      → Stands t d
      → Alike (append_to t a d) (append_to t b d)
  unfolding get
  append_to-other t a b [] (first, rest, h) = absurd (cc h)
  append_to-other t a b ((s, c) ∷ d) (first, rest, h) =
      rw (append_to-cons t s a c d, append_to-cons t s b c d)
        (go (same s t) h (λ k. append_to-other t a b d (first, rest, k)))
    where
      go :
          (q : Bool)
          → (if q then some c else get t d) ≡ some (first ∷ rest)
          → (get t d ≡ some (first ∷ rest) → Alike (append_to t a d) (append_to t b d))
          → Alike
              (if q then (s, c ++ a ∷ []) ∷ d else (s, c) ∷ append_to t a d)
              (if q then (s, c ++ b ∷ []) ∷ d else (s, c) ∷ append_to t b d)
      go true k ih =
          let is : c ≡ first ∷ rest = cc in (refl, rw is (more-Alike a b first rest), Alike-refl d)
      go false k ih = (refl, inl refl, ih k)

  append-cons :
      (c : Children S) (e : String × Repository S)
      → (first : String × Repository S) × (rest : Children S) × (c ++ e ∷ [] ≡ first ∷ rest)
  append-cons [] e = (e, [], refl)
  append-cons (a ∷ c) e = (a, c ++ e ∷ [], refl)

  append_to-Stands :
      (t : String) (e : String × Repository S) (d : Dict (Children S)) → Stands t (append_to t e d)
  append_to-Stands t e d =
      let (first, rest, h) = append-cons (or_else [] (get t d)) e in
      (first, rest, get-insert t t _ d ∙ rw (same_refl t, h) refl)

  append_to-keeps :
      (s t : String) (e : String × Repository S) (d : Dict (Children S))
      → Stands t d
      → Stands t (append_to s e d)
  append_to-keeps s t e d (first, rest, h) = elim (Bool-cases (same s t)) [
    | inl k ↦ (let is : s ≡ t = (same_iff s t).0 k in rw is (append_to-Stands t e d))
    | inr k ↦ (first, rest, get-insert s t _ d ∙ rw k h)
  ]

  scoped_listing-keeps :
      (r : Required S) (t : String) (d : Dict (Children S))
      → Stands t d
      → Stands t (scoped_listing r d)
  unfolding scoped_listing
  scoped_listing-keeps [] t d h = h
  scoped_listing-keeps ((name, repo, flag b) ∷ r) t d h = scoped_listing-keeps r t d h
  scoped_listing-keeps ((name, repo, scope s) ∷ r) t d h =
      scoped_listing-keeps r t _ (append_to-keeps s t (name, repo) d h)

  scoped_listing-append :
      (r q : Required S) (d : Dict (Children S))
      → scoped_listing (r ++ q) d ≡ scoped_listing q (scoped_listing r d)
  unfolding scoped_listing
  scoped_listing-append [] q d = refl
  scoped_listing-append ((name, repo, flag b) ∷ r) q d = scoped_listing-append r q d
  scoped_listing-append ((name, repo, scope s) ∷ r) q d = scoped_listing-append r q _

  base_listing-skips :
      (r q : Required S) (name name' : String) (repo repo' : Repository S) (t : String)
      → base_listing (r ++ (name, repo, scope t) ∷ q)
        ≡ base_listing (r ++ (name', repo', scope t) ∷ q)
  unfolding base_listing
  base_listing-skips [] q name name' repo repo' t = refl
  base_listing-skips ((n, p, flag true) ∷ r) q name name' repo repo' t =
      ap (λ l. (n, p) ∷ l) (base_listing-skips r q name name' repo repo' t)
  base_listing-skips ((n, p, flag false) ∷ r) q name name' repo repo' t =
      base_listing-skips r q name name' repo repo' t
  base_listing-skips ((n, p, scope s) ∷ r) q name name' repo repo' t =
      base_listing-skips r q name name' repo repo' t

  scope_entries-Alike : (d d' : Dict (Children S)) → Alike d d' → scope_entries d ≡ scope_entries d'
  unfolding scope_entries scope_entry
  scope_entries-Alike [] [] h = refl
  scope_entries-Alike [] (_ ∷ d') h = elim h [ ]
  scope_entries-Alike ((s, c) ∷ d) [] h = elim h [ ]
  scope_entries-Alike ((s, c) ∷ d) ((s', c') ∷ d') (is, inl h, rest) =
      rw (is, h, scope_entries-Alike d d' rest) refl
  scope_entries-Alike ((s, c) ∷ d) ((s', c') ∷ d') (is, inr (first, a, xs, b, ys, h, h'), rest) =
      rw (h, h', scope_entries-Alike d d' rest) refl

  behind_another :
      (front behind : Required S) (group other other' : String) (second second' : Repository S)
      (inhibits : Children S)
      → Stands group (scoped_listing front [])
      → make_ready (front ++ (other, second, scope group) ∷ behind) inhibits
        ≡ make_ready (front ++ (other', second', scope group) ∷ behind) inhibits
  unfolding make_ready scoped_listing
  behind_another front behind group other other' second second' inhibits stands =
      let alike = scoped_listing-Alike behind _ _ (
        append_to-other group (other, second) (other', second') (scoped_listing front []) stands) in
      rw
        (
          base_listing-skips front behind other other' second second' group,
          scoped_listing-append front ((other, second, scope group) ∷ behind) [],
          scoped_listing-append front ((other', second', scope group) ∷ behind) [],
          scope_entries-Alike _ _ alike,
        )
        refl

  front-Stands :
      (before between : Required S) (group name : String) (repo : Repository S)
      → Stands group (scoped_listing (before ++ (name, repo, scope group) ∷ between) [])
  unfolding scoped_listing
  front-Stands before between group name repo =
      rw (scoped_listing-append before ((name, repo, scope group) ∷ between) []) (
        scoped_listing-keeps between group _
          (append_to-Stands group (name, repo) (scoped_listing before [])))

  -- A repository that is required under a named scope behind another one of the same scope makes no
  -- difference to the repository of ready jobs: any other repository in its place, under any name, gives the same, whatever
  -- else is required, under this or other scopes, before, between and behind the two, and whatever inhibits.
  pub ready_named_scope :
      (before between behind : Required S) (group name other other' : String)
      (repo second second' : Repository S) (inhibits : Children S)
      → make_ready
          (before ++ (name, repo, scope group) ∷ between ++ (other, second, scope group) ∷ behind)
          inhibits
        ≡ make_ready
            (before
              ++ (name, repo, scope group) ∷ between
              ++ (other', second', scope group) ∷ behind)
            inhibits
  ready_named_scope before between behind group name other other' repo second second' inhibits =
      behind_another (before ++ (name, repo, scope group) ∷ between) behind group other other'
        second second' inhibits (front-Stands before between group name repo)
