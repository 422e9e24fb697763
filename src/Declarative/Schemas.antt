-- ===== src/Declarative/Schemas.antt =====
-- What `make_typeddict_constructor` accepts and gives.
use pydatatask.Base.{
  ◌⊎◌, inl, inr, ◌≡◌, refl, sym, ap, ◌∙◌, Bool, true, false, Option, none, some, [], ◌∷◌, String,
  if◌then◌else◌,
}
use pydatatask.Base.Results.{Result, ok, err, Error, value_error, >>=-ok, >>=-err}
use pydatatask.Base.Keys.{Dict, get, same, same_iff}
use pydatatask.Declarative.{
  Value, Fields, null, dict, bool, int, text, list, end, field, find, parse_with, parse_fields,
  make_typeddict_constructor,
}

module _ {V : Type 0} where
  -- A key of the value has a parser, which accepts what stands there, and the result has what it gives; other keys
  -- are not in the result.
  abbrev pub Parsed : Option Value → Option (Value → Result V) → Option V → Type 0
  Parsed none p r = r ≡ none
  Parsed (some v) none r = ⊥
  Parsed (some v) (some p) r = (x : V) × (p v ≡ ok x) × (r ≡ some x)

  parse_with-ok :
      (o : Option (Value → Result V)) (v : Value) (x : V)
      → parse_with o v ≡ ok x
      → (p : Value → Result V) × (o ≡ some p) × (p v ≡ ok x)
  parse_with-ok none v x h = absurd (cc h)
  parse_with-ok (some p) v x h = (p, refl, h)

  parse_fields-Parsed :
      (schema : Dict (Value → Result V)) (fs : Fields) (d : Dict V)
      → parse_fields schema fs ≡ ok d
      → (k : String) → Parsed (find k fs) (get k schema) (get k d)
  unfolding parse_fields find get
  parse_fields-Parsed schema end d h k = let q : d ≡ [] = cc in rw q refl
  parse_fields-Parsed schema (field j v fs) d h k =
      let (x, e1, h1) = >>=-ok (parse_with (get j schema) v) _ d h in
      let (rest, e2, h2) = >>=-ok (parse_fields schema fs) _ d h1 in
      let q : d ≡ (j, x) ∷ rest = cc in
      let (p, is_p, accepts) = parse_with-ok (get j schema) v x e1 in
      rw q (go x rest p is_p accepts (same j k) refl (parse_fields-Parsed schema fs rest e2 k))
    where
      go :
          (x : V) (rest : Dict V) (p : Value → Result V)
          → get j schema ≡ some p
          → p v ≡ ok x
          → (b : Bool) → same j k ≡ b
          → Parsed (find k fs) (get k schema) (get k rest)
          → Parsed
              (if b then some v else find k fs)
              (get k schema)
              (if b then some x else get k rest)
      go x rest p is_p accepts true e ih =
          let here : get k schema ≡ some p =
            sym (ap (λ i. get i schema) ((same_iff j k).0 e)) ∙ is_p in
          rw here (x, accepts, refl)
      go x rest p is_p accepts false e ih = ih

  -- The first item that is not accepted decides on the exception: its key has no parser, or its parser raises.
  abbrev pub RefusedFields : Dict (Value → Result V) → Fields → Error → Type 0
  RefusedFields schema end e = ⊥
  RefusedFields schema (field k v fs) e =
      (parse_with (get k schema) v ≡ err e)
      ⊎ ((x : V) × (parse_with (get k schema) v ≡ ok x) × RefusedFields schema fs e)

  abbrev pub Refused : Dict (Value → Result V) → Value → Error → Type 0
  Refused schema (dict fs) e = RefusedFields schema fs e
  Refused schema _ e = e ≡ value_error

  parse_fields-Refused :
      (schema : Dict (Value → Result V)) (fs : Fields) (e : Error)
      → parse_fields schema fs ≡ err e
      → RefusedFields schema fs e
  unfolding parse_fields
  parse_fields-Refused schema end e h = absurd (cc h)
  parse_fields-Refused schema (field k v fs) e h =
      elim (>>=-err (parse_with (get k schema) v) _ e h) [
        | inl q ↦ inl q
        | inr (x, accepts, h1) ↦ inr (
          x,
          accepts,
          elim (>>=-err (parse_fields schema fs) _ e h1) [
            | inl q ↦ parse_fields-Refused schema fs e q
            | inr (rest, a, b) ↦ absurd (cc b)
          ],
        )
      ]

  -- The result of a constructor's schema, for every value. Either the value is a mapping; each of its keys has a parser in
  -- the schema, which accepts what stands there; and the result has under that key what the parser gives and no other key. Or
  -- the constructor raises: ValueError if the value is no mapping, and otherwise what the first item that is not accepted
  -- leads to, where a key without a parser leads to ValueError.
  pub make_typeddict_constructor-Parsed :
      (schema : Dict (Value → Result V)) (thing : Value)
      → ((d : Dict V) × (fs : Fields) × (make_typeddict_constructor schema thing ≡ ok d)
          × (thing ≡ dict fs)
          × ((k : String) → Parsed (find k fs) (get k schema) (get k d)))
        ⊎ ((e : Error) × (make_typeddict_constructor schema thing ≡ err e) × Refused schema thing e)
  unfolding make_typeddict_constructor
  make_typeddict_constructor-Parsed schema thing = go (make_typeddict_constructor schema thing) refl
    where
      inverse :
          (thing : Value) (d : Dict V)
          → make_typeddict_constructor schema thing ≡ ok d
          → (fs : Fields) × (thing ≡ dict fs)
            × ((k : String) → Parsed (find k fs) (get k schema) (get k d))
      inverse (dict fs) d h = (fs, refl, parse_fields-Parsed schema fs d h)
      inverse null d h = absurd (cc h)
      inverse (bool b) d h = absurd (cc h)
      inverse (int n) d h = absurd (cc h)
      inverse (text s) d h = absurd (cc h)
      inverse (list vs) d h = absurd (cc h)

      refusal :
          (thing : Value) (e : Error)
          → make_typeddict_constructor schema thing ≡ err e
          → Refused schema thing e
      refusal (dict fs) e h = parse_fields-Refused schema fs e h
      refusal null e h = cc
      refusal (bool b) e h = cc
      refusal (int n) e h = cc
      refusal (text s) e h = cc
      refusal (list vs) e h = cc

      go :
          (r : Result (Dict V))
          → make_typeddict_constructor schema thing ≡ r
          → ((d : Dict V) × (fs : Fields) × (make_typeddict_constructor schema thing ≡ ok d)
              × (thing ≡ dict fs)
              × ((k : String) → Parsed (find k fs) (get k schema) (get k d)))
            ⊎ ((e : Error) × (make_typeddict_constructor schema thing ≡ err e)
                × Refused schema thing e)
      go (ok d) h = let (fs, q, parsed) = inverse thing d h in inl (d, fs, h, q, parsed)
      go (err e) h = inr (e, h, refusal thing e h)
