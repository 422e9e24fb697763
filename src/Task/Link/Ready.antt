-- ===== src/Task/Link/Ready.antt =====
-- Which jobs the default repository of ready jobs holds, and what the defaults of a link are.
use pydatatask.Base.{
  ◌<◌, ◌≡◌, refl, sym, ap, ◌∙◌, true, false, ◌&&◌, not, Option, none, some, List, [], ◌∷◌, ◌++◌,
  length, String, all, any, All, append_assoc, append-nil, arith,
}
use pydatatask.Base.Results.{ok}
use pydatatask.Base.Keys.{Job, has, keys, insert, mem, same_iff, select, mem-select}
use pydatatask.Repository.{Repository, IsView}
use pydatatask.Repository.Aggregate.{Children, aggregate_and, aggregate_or, construct, blocking}
use pydatatask.Repository.Aggregate.Any.{Views, NoRepeat, aggregate_or-IsView}
use pydatatask.Repository.Aggregate.Every.{aggregate_and-IsView}
use pydatatask.Repository.Aggregate.Block.{blocking-IsView}
use pydatatask.Task.Link.{
  LinkKind, Scope, flag, Options, in_input_kinds, in_output_kinds, is_streaming_input, make_link,
  base_listing, scoped_listing, dict_of, scope_entries, make_ready,
}

abbrev pub nothing_given : {S : Type 0} → Options S
nothing_given = record {
  key = none;
  multi_meta = none;
  is_input = none;
  is_output = none;
  is_status = false;
  inhibits_start = none;
  required_for_start = none;
  inhibits_output = none;
  required_for_output = none;
}

module _ {S : Type 0} where
  -- Repositories that are required whatever the scope.
  abbrev pub always : Children S → List (String × Repository S × Scope)
  always [] = []
  always ((name, repo) ∷ rest) = (name, repo, flag true) ∷ always rest

  -- No name of `children` stands in `d` or is that of another child.
  abbrev pub Fresh : Children S → Children S → Type 0
  Fresh [] d = Unit
  Fresh ((name, repo) ∷ rest) d = (has name d ≡ false) × Fresh rest (d ++ (name, repo) ∷ [])

  insert-absent :
      (k : Job) (r : Repository S) (d : Children S)
      → has k d ≡ false
      → insert k r d ≡ d ++ (k, r) ∷ []
  unfolding insert has keys mem
  insert-absent k r [] h = refl
  insert-absent k r ((j, q) ∷ d) h =
      ground (arith, h, insert-absent k r d, same_iff j k, same_iff k j)

  dict_of-append : (c d : Children S) → Fresh c d → dict_of c d ≡ d ++ c
  unfolding dict_of
  dict_of-append [] d f = sym (append-nil d)
  dict_of-append ((name, repo) ∷ c) d f =
      rw (insert-absent name repo d f.0)
        (dict_of-append c (d ++ (name, repo) ∷ []) f.1 ∙ append_assoc d ((name, repo) ∷ []) c)

  base_listing-always : (c : Children S) → base_listing (always c) ≡ c
  unfolding base_listing
  base_listing-always [] = refl
  base_listing-always ((name, repo) ∷ c) = ap (λ l. (name, repo) ∷ l) (base_listing-always c)

  scoped_listing-always : (c : Children S) (d : _) → scoped_listing (always c) d ≡ d
  unfolding scoped_listing
  scoped_listing-always [] d = refl
  scoped_listing-always ((name, repo) ∷ c) d = scoped_listing-always c d

  -- Where every required repository is required whatever the scope, under a name of its own, and holds given
  -- jobs, none of them twice, where the inhibiting repositories hold given jobs, and there is at least
  -- one repository of either sort, the repository of ready jobs holds the jobs that every required
  -- repository holds and no inhibiting one does, in the iteration and in the test of membership alike.
  pub ready-IsView :
      (s : S) (children inhibits : Children S) (ls bs : List (List Job))
      → Fresh children []
      → Views s children ls
      → All NoRepeat ls
      → Views s inhibits bs
      → 0 < length children
      → 0 < length inhibits
      → (r : Repository S) × (make_ready (always children) inhibits ≡ ok r)
        × ((items : List Job) × IsView r s items
            × ((x : Job) → mem x items ≡ (all (mem x) ls && not (any (mem x) bs))))
  unfolding make_ready scope_entries
  ready-IsView s children inhibits ls bs f v once w some_child some_inhibit =
      let (items, source, inside) = aggregate_and-IsView s children ls v once some_child in
      let (blocked, unless, outside, _) = aggregate_or-IsView s inhibits bs w in
      (
        blocking (aggregate_and children) (aggregate_or inhibits) true,
        made,
        (
          select (λ x. not (mem x blocked)) items,
          blocking-IsView (aggregate_and children) (aggregate_or inhibits) s items blocked source
              unless,
          λ x. ground (arith, mem-select (λ x. not (mem x blocked)) x items, inside x, outside x),
        ),
      )
    where
      constructs :
          (class : Children S → Repository S) (c : Children S)
          → 0 < length c
          → construct class c ≡ ok (class c)
      constructs class [] h = absurd (omega arith)
      constructs class (x ∷ c) h = unfold construct in refl

      made :
          make_ready (always children) inhibits
          ≡ ok (blocking (aggregate_and children) (aggregate_or inhibits) true)
      made =
          rw
            (
              make_ready,
              base_listing-always children,
              scoped_listing-always children [],
              append-nil children,
              dict_of-append children [] f,
              constructs aggregate_and children some_child,
              constructs aggregate_or inhibits some_inhibit,
            )
            refl

-- With nothing given but a repository and a kind, a link is an input or an output as its kind says, never
-- both; it is required for the start if it is an input that is not streamed; it inhibits nothing, and it
-- is not required for the output, even where it is an output.
pub link_defaults :
    {S : Type 0} (repo : Repository S) (kind : Option LinkKind)
    → let l = make_link repo kind nothing_given in
      (l.is_input ≡ in_input_kinds kind)
      × (l.is_output ≡ in_output_kinds kind)
      × ((l.is_input && l.is_output) ≡ false)
      × (l.required_for_start ≡ flag (l.is_input && not (is_streaming_input kind)))
      × (l.inhibits_start ≡ false)
      × (l.inhibits_output ≡ false)
      × (l.required_for_output ≡ false)
unfolding make_link
link_defaults repo none = (refl, refl, refl, refl, refl, refl, refl)
link_defaults repo (some k) = ground arith
