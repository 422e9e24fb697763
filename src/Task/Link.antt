-- ===== src/Task/Link.antt =====
-- The links of a task, in pydatatask/task.py: the defaults that `Task.link` picks, and the repository of ready jobs that
-- `_make_ready` builds from the links. A key that is a text is kept as it is; one that is a function is
-- a function of the state and the job.
pub mod Ready
pub mod Scopes
mod Tests
use pydatatask.Base.{
  Bool, true, false, ◌&&◌, not, Option, none, some, List, [], ◌∷◌, ◌++◌, String, if◌then◌else◌,
}
use pydatatask.Base.Results.{Result, ok, err, value_error, ◌>>=◌}
use pydatatask.Base.Keys.{Job, Dict, get, insert, same}
use pydatatask.Repository.{Repository}
use pydatatask.Repository.Aggregate.{Children, aggregate_and, aggregate_or, construct, blocking}

pub data LinkKind : Type 0 where
  input_repo input_id input_metadata input_filepath output_repo output_id : LinkKind
  output_yaml_metadata_filepath output_filepath : LinkKind
  streaming_output_filepath streaming_input_filepath : LinkKind

-- `kind in INPUT_KINDS`
abbrev pub in_input_kinds : Option LinkKind → Bool
in_input_kinds (some LinkKind.input_repo) = true
in_input_kinds (some LinkKind.input_id) = true
in_input_kinds (some LinkKind.input_metadata) = true
in_input_kinds (some LinkKind.input_filepath) = true
in_input_kinds (some LinkKind.streaming_input_filepath) = true
in_input_kinds _ = false

-- `kind in OUTPUT_KINDS`
abbrev pub in_output_kinds : Option LinkKind → Bool
in_output_kinds (some LinkKind.output_repo) = true
in_output_kinds (some LinkKind.output_id) = true
in_output_kinds (some LinkKind.output_yaml_metadata_filepath) = true
in_output_kinds (some LinkKind.output_filepath) = true
in_output_kinds (some LinkKind.streaming_output_filepath) = true
in_output_kinds _ = false

abbrev pub is_streaming_input : Option LinkKind → Bool
is_streaming_input (some LinkKind.streaming_input_filepath) = true
is_streaming_input _ = false

-- `Union[bool, str]`
pub data Scope : Type 0 where
  flag : Bool → Scope
  scope : String → Scope

pub data Key (S : Type 0) : Type 0 where
  text : String → Key S
  call : (S → Job → Result Job) → Key S

pub record Link (S : Type 0) : Type 0 where
  pub repo : Repository S
  pub kind : Option LinkKind
  pub key : Option (Key S)
  pub multi_meta : Option String
  pub is_input : Bool
  pub is_output : Bool
  pub is_status : Bool
  pub inhibits_start : Bool
  pub required_for_start : Scope
  pub inhibits_output : Bool
  pub required_for_output : Bool

abbrev pub or_else : {A : Type 0} → A → Option A → A
or_else d none = d
or_else d (some a) = a

-- `required_for_start` after the first test of `link`.
abbrev pub streaming_default : Option Bool → Option LinkKind → Option Scope → Option Scope
streaming_default (some given) kind required = required
streaming_default none kind (some required) = some required
streaming_default none kind none = if is_streaming_input kind then some (flag false) else none

-- The arguments of `link` that may be None, and `is_status`.
pub record Options (S : Type 0) : Type 0 where
  pub key : Option (Key S)
  pub multi_meta : Option String
  pub is_input : Option Bool
  pub is_output : Option Bool
  pub is_status : Bool
  pub inhibits_start : Option Bool
  pub required_for_start : Option Scope
  pub inhibits_output : Option Bool
  pub required_for_output : Option Bool

abbrev pub is_required : Scope → Bool
is_required (flag b) = b
is_required (scope t) = not (same t "")

module _ {S : Type 0} where
  -- `key == "ALLOC"`
  abbrev pub is_alloc : Option (Key S) → Bool
  is_alloc (some (text t)) = same t "ALLOC"
  is_alloc _ = false

  unfoldable pub make_link : Repository S → Option LinkKind → Options S → Link S
  make_link repo kind o =
      let is_input = or_else (in_input_kinds kind) o.is_input in
      record {
        repo = repo;
        kind = kind;
        key = o.key;
        multi_meta = o.multi_meta;
        is_input = is_input;
        is_output = or_else (in_output_kinds kind) o.is_output;
        is_status = o.is_status;
        inhibits_start = or_else false o.inhibits_start;
        required_for_start =
            or_else (flag is_input) (streaming_default o.is_input kind o.required_for_start);
        inhibits_output = or_else false o.inhibits_output;
        required_for_output = or_else false o.required_for_output;
      }

  unfoldable pub link :
      String → Repository S → Option LinkKind → Options S → Dict (Link S) → Result (Dict (Link S))
  unfolding make_link
  link name repo kind o links =
      let made = make_link repo kind o in
      if is_alloc o.key && made.is_input then err value_error else ok (insert name made links)
      -- The properties `required_for_start` and `inhibits_start` of a task; `related` is what `_repo_related` gives

  -- for the name of a link.
  unfoldable pub required_for_start :
      (String → Repository S) → Dict (Link S) → List (String × Repository S × Scope)
  required_for_start related [] = []
  required_for_start related ((name, l) ∷ links) =
      let rest = required_for_start related links in
      if is_required l.required_for_start
      then (name, related name, l.required_for_start) ∷ rest
      else rest

  unfoldable pub inhibits_start : (String → Repository S) → Dict (Link S) → Children S
  inhibits_start related [] = []
  inhibits_start related ((name, l) ∷ links) =
      let rest = inhibits_start related links in
      if l.inhibits_start then (name, related name) ∷ rest else rest

  -- `base_listing` after the first loop of `_make_ready`.
  unfoldable pub base_listing : List (String × Repository S × Scope) → Children S
  base_listing [] = []
  base_listing ((name, repo, s) ∷ rest) =
      let more = base_listing rest in elim s [ flag true ↦ (name, repo) ∷ more | _ ↦ more ]

  -- `scoped_listing[scope].append(...)`
  abbrev pub append_to : String → String × Repository S → Dict (Children S) → Dict (Children S)
  append_to s entry d = insert s (or_else [] (get s d) ++ entry ∷ []) d

  -- `scoped_listing` after that loop; a scope that is False does not come from `required_for_start`.
  unfoldable pub scoped_listing :
      List (String × Repository S × Scope) → Dict (Children S) → Dict (Children S)
  scoped_listing [] d = d
  scoped_listing ((name, repo, s) ∷ rest) d =
      scoped_listing rest (elim s [ scope t ↦ append_to t (name, repo) d | _ ↦ d ])

  -- `dict(...)` of a list of pairs.
  unfoldable pub dict_of : Children S → Dict (Repository S) → Children S
  dict_of [] d = d
  dict_of ((name, repo) ∷ rest) d = dict_of rest (insert name repo d)

  -- What the second loop appends for a scope.
  unfoldable pub scope_entry : String → Children S → String × Repository S
  unfolding dict_of
  scope_entry s (first ∷ second ∷ rest) = first
  scope_entry s listing = (s, aggregate_or (dict_of listing []))

  unfoldable pub scope_entries : Dict (Children S) → Children S
  unfolding scope_entry
  scope_entries [] = []
  scope_entries ((s, listing) ∷ rest) = scope_entry s listing ∷ scope_entries rest

  unfoldable pub make_ready :
      List (String × Repository S × Scope) → Children S → Result (Repository S)
  unfolding base_listing scoped_listing scope_entries
  make_ready required inhibits = do
    source ←
        construct aggregate_and
          (dict_of (base_listing required ++ scope_entries (scoped_listing required [])) [])
    unless ← construct aggregate_or inhibits
    ok (blocking source unless true)
