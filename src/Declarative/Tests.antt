-- ===== src/Declarative/Tests.antt =====
-- A schema of two arguments.
use pydatatask.Base.{◌≡◌, ◌⊎◌, refl, Bool, true, none, [], ◌∷◌, String}
use pydatatask.Base.Int.{pos}
use pydatatask.Base.Results.{Result, ok, err, Error, value_error}
use pydatatask.Base.Keys.{Dict, get, mem}
use pydatatask.Declarative.{
  Value, Fields, null, int, text, dict, end, field, find, parse_bool, make_typeddict_constructor,
  make_dispatcher, make_picker,
}
use pydatatask.Declarative.Schemas.{Parsed, Refused, make_typeddict_constructor-Parsed}

-- Lower case is left as it is.
abbrev flag : Value → Result Bool
flag v = parse_bool (λ s. s) v

abbrev schema : Dict (Value → Result Bool)
schema = ("tty", flag) ∷ ("privileged", flag) ∷ []

accepted :
    make_typeddict_constructor schema (dict (field "tty" (text "yes") end))
    ≡ ok (("tty", true) ∷ [])
unfolding make_typeddict_constructor parse_bool mem get
accepted = refl

unknown_key :
    make_typeddict_constructor schema (dict (field "image" (text "yes") end)) ≡ err value_error
unfolding make_typeddict_constructor get
unknown_key = refl

dispatched :
    make_dispatcher
      (("Flag", flag) ∷ [])
      (dict (field "cls" (text "Flag") (field "args" (int (pos 3)) end)))
    ≡ ok true
unfolding make_dispatcher get parse_bool
dispatched = refl

no_class : make_dispatcher (("Flag", flag) ∷ []) (dict end) ≡ err value_error
unfolding make_dispatcher
no_class = refl

nothing_picked : make_picker schema null ≡ ok none
unfolding make_picker
nothing_picked = refl

make_typeddict_constructor-Parsed_example :
    ((d : Dict Bool) × (fs : Fields) × (make_typeddict_constructor schema
          (dict (field "tty" (text "yes") end))
        ≡ ok d)
      × (dict (field "tty" (text "yes") end) ≡ dict fs)
      × ((k : String) → Parsed (find k fs) (get k schema) (get k d)))
    ⊎ ((e : Error) × (make_typeddict_constructor schema (dict (field "tty" (text "yes") end))
          ≡ err e)
        × Refused schema (dict (field "tty" (text "yes") end)) e)
make_typeddict_constructor-Parsed_example =
    make_typeddict_constructor-Parsed schema (dict (field "tty" (text "yes") end))
