-- ===== src/Repository/Content/Paths.antt =====
-- `_splitpath`: a path's parts, without `.` and with each `..` resolved. The separator is one character.
pub mod Normal
mod Tests
use Prim.Native.Char.{Char, code}
use pydatatask.Base.{
  ℕ, zero, suc, ◌+◌, Bool, true, false, not, Option, none, some, List, [], ◌∷◌, ◌++◌, ◌==◌, length,
  String, if◌then◌else◌,
}
use pydatatask.Base.Keys.{same, select, mem}

abbrev pub is_empty : String → Bool
is_empty String.[] = true
is_empty (String.◌∷◌ c s) = false

-- `str.strip` of one character.
unfoldable pub strip_left : Char → String → String
strip_left sep String.[] = String.[]
strip_left sep (String.◌∷◌ c s) =
    let rest = strip_left sep s in if code c == code sep then rest else String.◌∷◌ c s

unfoldable pub strip_right : Char → String → String
strip_right sep String.[] = String.[]
strip_right sep (String.◌∷◌ c s) =
    let rest = strip_right sep s in
    if code c == code sep
    then (if is_empty rest then String.[] else String.◌∷◌ c rest)
    else String.◌∷◌ c rest

abbrev pub in_first : Char → List String → List String
in_first c [] = String.◌∷◌ c String.[] ∷ []
in_first c (word ∷ words) = String.◌∷◌ c word ∷ words

-- `str.split` at one character.
unfoldable pub split : Char → String → List String
split sep String.[] = String.[] ∷ []
split sep (String.◌∷◌ c s) =
    let rest = split sep s in if code c == code sep then String.[] ∷ rest else in_first c rest

-- The parts that are not `.`.
unfoldable pub parts : Char → String → List String
unfolding strip_left strip_right split
parts sep path = select (λ x. not (same x ".")) (split sep (strip_right sep (strip_left sep path)))

-- `split.index(x)`, where there is one.
unfoldable pub index_of : String → List String → Option ℕ
index_of x [] = none
index_of x (y ∷ ys) =
    if same y x then some 0 else elim (index_of x ys) [ none ↦ none | some i ↦ some (suc i) ]

-- `split.pop(i)`
unfoldable pub pop : ℕ → List String → List String
pop i [] = []
pop zero (x ∷ xs) = xs
pop (suc i) (x ∷ xs) = x ∷ pop i xs

unfoldable pub pop_parent : ℕ → List String → List String
unfolding pop
pop_parent zero xs = pop 0 xs
pop_parent (suc i) xs = pop i (pop i xs)

-- The `while` loop, on fuel.
unfoldable pub resolve : ℕ → List String → Option (List String)
unfolding index_of pop_parent
resolve zero xs = none
resolve (suc fuel) xs = elim (index_of ".." xs) [
  | none ↦ some xs
  | some i ↦ resolve fuel (pop_parent i xs)
]

abbrev pub joined : Option (List String) → List String → List String
joined none xs = xs
joined (some base) xs = base ++ xs

-- Each round takes at least one part away.
unfoldable pub splitpath : Char → String → Option (List String) → Option (List String)
unfolding parts resolve
splitpath sep path relative_to =
    let split = joined relative_to (parts sep path) in resolve (suc (length split)) split
