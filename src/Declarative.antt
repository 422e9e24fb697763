-- ===== src/Declarative.antt =====
-- The parsers that pydatatask/declarative.py is built from: what they accept of a value that was read from YAML, and what
-- they raise. `V` is what the parsers of arguments give, `lower` is Python's `str.lower`.
pub mod Schemas
mod Tests
use pydatatask.Base.{
  zero, suc, Bool, true, false, not, Option, none, some, List, [], ◌∷◌, String, if◌then◌else◌,
}
use pydatatask.Base.Int.{ℤ, pos, negsuc}
use pydatatask.Base.Results.{Result, ok, err, Error, type_error, value_error, raised, ◌>>=◌}
use pydatatask.Base.Keys.{Dict, get, insert, remove, mem, same}

mutual
  pub data Value : Type 0 where
    null : Value
    bool : Bool → Value
    int : ℤ → Value
    text : String → Value
    list : Values → Value
    dict : Fields → Value

  pub data Values : Type 0 where
    nil : Values
    cons : Value → Values → Values

  pub data Fields : Type 0 where
    end : Fields
    field : String → Value → Fields → Fields

unfoldable pub find : String → Fields → Option Value
find k end = none
find k (field j v fs) = if same j k then some v else find k fs

abbrev pub is_zero : ℤ → Bool
is_zero (pos zero) = true
is_zero (pos (suc n)) = false
is_zero (negsuc n) = false

abbrev pub true_words : List String
true_words = "yes" ∷ "y" ∷ "1" ∷ "true" ∷ []

abbrev pub false_words : List String
false_words = "no" ∷ "n" ∷ "0" ∷ "false" ∷ []

unfoldable pub parse_bool : (String → String) → Value → Result Bool
parse_bool lower (bool b) = ok b
parse_bool lower (int n) = ok (not (is_zero n))
parse_bool lower (text s) =
    if mem (lower s) true_words
    then ok true
    else if mem (lower s) false_words
    then ok false
    else err value_error
parse_bool lower _ = err value_error

-- `getattr(cls, thing)` raises AttributeError where there is no such member.
abbrev pub member : {E : Type 0} → Option E → Result (Option E)
member none = err (raised 0)
member (some e) = ok (some e)

unfoldable pub make_enum_constructor : {E : Type 0} → Dict E → Value → Result (Option E)
make_enum_constructor cls null = ok none
make_enum_constructor cls (text s) = member (get s cls)
make_enum_constructor cls _ = err value_error

module _ {V : Type 0} where
  abbrev pub parse_with : Option (Value → Result V) → Value → Result V
  parse_with none v = err value_error
  parse_with (some p) v = p v

  -- The loop over the items.
  unfoldable pub parse_fields : Dict (Value → Result V) → Fields → Result (Dict V)
  parse_fields schema end = ok []
  parse_fields schema (field k v fs) = do
    x ← parse_with (get k schema) v
    rest ← parse_fields schema fs
    ok ((k, x) ∷ rest)

  unfoldable pub make_typeddict_constructor : Dict (Value → Result V) → Value → Result (Dict V)
  unfolding parse_fields
  make_typeddict_constructor schema (dict fs) = parse_fields schema fs
  make_typeddict_constructor schema _ = err value_error

  unfoldable pub make_constructor :
      {A : Type 0} → (Dict V → Result A) → Dict (Value → Result V) → Value → Result A
  unfolding make_typeddict_constructor
  make_constructor constructor schema thing = do
    kwargs ← make_typeddict_constructor schema thing
    constructor kwargs

  -- `schema["annotations"]` lets every value through, as `any` does; `annotate` updates the annotations of the result.
  unfoldable pub make_annotated_constructor :
      {A : Type 0}
      → (Value → Result V)
      → (Option V → A → Result A)
      → (Dict V → Result A)
      → Dict (Value → Result V)
      → Value
      → Result A
  unfolding make_constructor
  make_annotated_constructor any annotate constructor schema =
      make_constructor
        (λ kwargs. do
          result ← constructor (remove "annotations" kwargs)
          annotate (get "annotations" kwargs) result)
        (("annotations", any) ∷ remove "annotations" schema)

  -- The dictionary comprehension: of two keys that are parsed to the same one, the later gives the value.
  unfoldable pub parse_entries :
      (String → Result String) → (Value → Result V) → Dict V → Fields → Result (Dict V)
  parse_entries key_parser value_parser d end = ok d
  parse_entries key_parser value_parser d (field k v fs) = do
    key ← key_parser k
    x ← value_parser v
    parse_entries key_parser value_parser (insert key x d) fs

  unfoldable pub make_dict_parser :
      (String → Result String) → (Value → Result V) → Value → Result (Dict V)
  unfolding parse_entries
  make_dict_parser key_parser value_parser (dict fs) = parse_entries key_parser value_parser [] fs
  make_dict_parser key_parser value_parser _ = err value_error

  unfoldable pub parse_values : (Value → Result V) → Values → Result (List V)
  parse_values p nil = ok []
  parse_values p (cons v vs) = do x ← p v; rest ← parse_values p vs; ok (x ∷ rest)

  unfoldable pub make_list_parser : (Value → Result V) → Value → Result (List V)
  unfolding parse_values
  make_list_parser p (list vs) = parse_values p vs
  make_list_parser p _ = err value_error

-- A mapping's key that is a list or a dictionary cannot be looked up: TypeError.
abbrev pub key_of : Value → Result (Option String)
key_of (text s) = ok (some s)
key_of (list vs) = err type_error
key_of (dict fs) = err type_error
key_of _ = ok none

abbrev pub args_of : Option Value → Value
args_of none = dict end
args_of (some v) = v

abbrev pub chosen : {A B : Type 0} → Dict A → Option B → (B → Option A) → Result A
chosen options none f = err value_error
chosen options (some k) f = elim (f k) [ none ↦ err value_error | some a ↦ ok a ]

unfoldable pub make_dispatcher : {A : Type 0} → Dict (Value → Result A) → Value → Result A
unfolding find
make_dispatcher mapping (dict fs) = elim (find "cls" fs) [
  | none ↦ err value_error
  | some cls ↦ do
    key ← key_of cls
    constructor ← chosen mapping key (λ k. get k mapping)
    constructor (args_of (find "args" fs))
]
make_dispatcher mapping _ = err value_error

unfoldable pub make_picker : {A : Type 0} → Dict A → Value → Result (Option A)
make_picker options null = ok none
make_picker [] _ = err value_error
make_picker (o ∷ options) (text s) =
    chosen (o ∷ options) (some s) (λ k. get k (o ∷ options)) >>= λ a. ok (some a)
make_picker (o ∷ options) _ = err value_error
