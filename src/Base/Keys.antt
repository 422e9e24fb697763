-- ===== src/Base/Keys.antt =====
-- Job identifiers and dictionaries keyed by them.
use Prim.Native.Nat.{ℕ}
use Prim.Native.Char.{code}
use Prim.Native.String.{String}
use mathlib.Core.Path.{◌≡◌, refl}
use mathlib.Core.Bool.{Bool, true, false, ◌&&◌, ◌||◌}
use mathlib.Core.Option.{Option, none, some}
use mathlib.Core.List.{List, [], ◌∷◌, ◌++◌}
use native.Mathlib.Omega.{arith}
use text.Mathlib.Text.{◌==◌}
use text.Mathlib.TextEquality.{eq_iff}
use pydatatask.Base.Tests.{if◌then◌else◌}

abbrev pub Job : Type 0
Job = String

abbrev pub same : Job → Job → Bool
same a b = a == b

pub same_iff : (a b : Job) → (same a b ≡ true → a ≡ b) × (a ≡ b → same a b ≡ true)
same_iff a b = eq_iff a b

pub same_refl : (a : Job) → same a a ≡ true
same_refl a = (same_iff a a).1 refl

-- The code points of a text.
abbrev pub codes : String → List ℕ
codes String.[] = []
codes (String.◌∷◌ c s) = code c ∷ codes s

-- `x in xs`
unfoldable pub mem : Job → List Job → Bool
mem x [] = false
mem x (y ∷ ys) = same x y || mem x ys

pub mem-append : (x : Job) (ys zs : List Job) → mem x (ys ++ zs) ≡ mem x ys || mem x zs
unfolding mem
mem-append x [] zs = refl
mem-append x (y ∷ ys) zs = ground (arith, mem-append x ys zs)

unfoldable pub select : (Job → Bool) → List Job → List Job
select p [] = []
select p (x ∷ xs) = if p x then x ∷ select p xs else select p xs

pub mem-select :
    (p : Job → Bool) (x : Job) (ys : List Job) → mem x (select p ys) ≡ (p x && mem x ys)
unfolding mem select
mem-select p x [] = ground arith
mem-select p x (y ∷ ys) = go (mem-select p x ys) (same x y) refl
  where
    go :
        mem x (select p ys) ≡ (p x && mem x ys)
        → (b : Bool) → same x y ≡ b
        → mem x (select p (y ∷ ys)) ≡ (p x && mem x (y ∷ ys))
    go ih true e = let q : x ≡ y = (same_iff x y).0 e in rw (← q) (ground (arith, same_refl x))
    go ih false e = ground arith

abbrev pub is_some {κ} : {A : Type κ} → Option A → Bool
is_some none = false
is_some (some a) = true

-- A dictionary in the order of insertion, each key once.
abbrev pub Dict {ℓ} : Type ℓ → Type ℓ
Dict V = List (Job × V)

module _ {ℓ} {V : Type ℓ} where
  -- `d.get(k)`
  unfoldable pub get : Job → Dict V → Option V
  get k [] = none
  get k ((j, v) ∷ d) = if same j k then some v else get k d

  -- `d[k] = v`: a key that is there keeps its place.
  unfoldable pub insert : Job → V → Dict V → Dict V
  insert k v [] = (k, v) ∷ []
  insert k v ((j, w) ∷ d) = if same j k then (j, v) ∷ d else (j, w) ∷ insert k v d

  -- `del d[k]`, where the key is there.
  unfoldable pub remove : Job → Dict V → Dict V
  remove k [] = []
  remove k ((j, w) ∷ d) = let rest = remove k d in if same j k then rest else (j, w) ∷ rest

  unfoldable pub keys : Dict V → List Job
  keys [] = []
  keys ((j, w) ∷ d) = j ∷ keys d

  unfoldable pub has : Job → Dict V → Bool
  unfolding mem keys
  has k d = mem k (keys d)

  pub get-insert :
      (k j : Job) (v : V) (d : Dict V)
      → get j (insert k v d) ≡ (if same k j then some v else get j d)
  unfolding get insert
  get-insert k j v [] = refl
  get-insert k j v ((i, w) ∷ d) =
      ground (arith, same_iff i k, same_iff i j, same_iff k j, get-insert k j v d)

  pub get-remove :
      (k j : Job) (d : Dict V) → get j (remove k d) ≡ (if same k j then none else get j d)
  unfolding get remove
  get-remove k j [] = ground arith
  get-remove k j ((i, w) ∷ d) =
      ground (arith, same_iff i k, same_iff i j, same_iff k j, get-remove k j d)

  pub has-get : (k : Job) (d : Dict V) → has k d ≡ is_some (get k d)
  unfolding has mem keys get
  has-get k [] = refl
  has-get k ((j, w) ∷ d) = ground (arith, has-get k d, same_iff k j, same_iff j k)
