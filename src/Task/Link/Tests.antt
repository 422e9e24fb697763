-- ===== src/Task/Link/Tests.antt =====
-- A task with two required repositories and one that inhibits its start.
use pydatatask.Base.{◌≡◌, refl, true, ◌&&◌, not, none, some, List, [], ◌∷◌, ◌++◌, all, any, arith}
use pydatatask.Base.Results.{ok, err, key_error, value_error}
use pydatatask.Base.Keys.{Job, Dict, mem, has, keys, same_iff}
use pydatatask.Utils.RoundRobin.{tally}
use pydatatask.Repository.{Repository, IsView}
use pydatatask.Repository.Aggregate.{Children}
use pydatatask.Repository.Aggregate.Any.{NoRepeat}
use pydatatask.Task.Link.{
  LinkKind, Scope, flag, scope, text, Link, make_link, link, required_for_start, inhibits_start,
  make_ready,
}
use pydatatask.Task.Link.Ready.{always, Fresh, nothing_given, ready-IsView}
use pydatatask.Task.Link.Scopes.{ready_named_scope}

abbrev fixed : List Job → Repository (Unit {0})
fixed jobs = record {
  unfiltered_iter = λ s. ok jobs;
  contains = λ s x. ok (mem x jobs);
  delete = λ job s. (err key_error, s);
}

fixed-IsView : (jobs : List Job) → IsView (fixed jobs) tt jobs
fixed-IsView jobs = record { iterates = refl; decides = λ x. refl }

abbrev first : Repository (Unit {0})
first = fixed ("a" ∷ "b" ∷ [])

abbrev second : Repository (Unit {0})
second = fixed ("b" ∷ "c" ∷ [])

abbrev live : Repository (Unit {0})
live = fixed ("c" ∷ [])

abbrev required : Children (Unit {0})
required = ("in", first) ∷ ("more", second) ∷ []

abbrev inhibiting : Children (Unit {0})
inhibiting = ("live", live) ∷ []

abbrev required_jobs : List (List Job)
required_jobs = ("a" ∷ "b" ∷ []) ∷ ("b" ∷ "c" ∷ []) ∷ []

abbrev inhibited_jobs : List (List Job)
inhibited_jobs = ("c" ∷ []) ∷ []

names_differ : Fresh required []
unfolding has keys mem
names_differ = (refl, (refl, tt))

first_once : NoRepeat ("a" ∷ "b" ∷ [])
unfolding tally
first_once x = ground (arith, same_iff x "a", same_iff x "b", same_iff "a" "b")

second_once : NoRepeat ("b" ∷ "c" ∷ [])
unfolding tally
second_once x = ground (arith, same_iff x "b", same_iff x "c", same_iff "b" "c")

ready-IsView_example :
    (r : Repository (Unit {0})) × (make_ready (always required) inhibiting ≡ ok r)
    × ((items : List Job) × IsView r tt items
        × ((x : Job)
            → mem x items ≡ (all (mem x) required_jobs && not (any (mem x) inhibited_jobs))))
ready-IsView_example =
    ready-IsView tt required inhibiting required_jobs inhibited_jobs names_differ
      (fixed-IsView _, (fixed-IsView _, tt)) (first_once, (second_once, tt)) (fixed-IsView _, tt)
      (omega arith) (omega arith)

-- Three repositories of a scope, with one of another scope and one of none between them.
abbrev grouped : Job → Repository (Unit {0}) → List (Job × Repository (Unit {0}) × Scope)
grouped name repo =
    (("in", first, scope "either") ∷ [])
    ++ ("more", second, scope "either")
      ∷ (("always", first, flag true) ∷ ("once", live, scope "other") ∷ [])
    ++ (name, repo, scope "either") ∷ []

ready_named_scope_example :
    make_ready (grouped "third" second) inhibiting ≡ make_ready (grouped "fourth" live) inhibiting
ready_named_scope_example =
    ready_named_scope (("in", first, scope "either") ∷ [])
      (("always", first, flag true) ∷ ("once", live, scope "other") ∷ []) [] "either" "more" "third"
      "fourth" second second live inhibiting

refused :
    link "in" first (some LinkKind.input_id) (record nothing_given { key = some (text "ALLOC") }) []
    ≡ err value_error
unfolding link make_link
refused = refl

abbrev linked : Dict (Link (Unit {0}))
linked =
    ("in", make_link first (some LinkKind.input_id) nothing_given)
    ∷ ("live", make_link live none (record nothing_given { inhibits_start = some true }))
    ∷ []

collected :
    (required_for_start (λ name. first) linked ≡ ("in", first, flag true) ∷ [])
    × (inhibits_start (λ name. live) linked ≡ ("live", live) ∷ [])
unfolding required_for_start inhibits_start make_link
collected = (refl, refl)
