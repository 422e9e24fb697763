-- ===== src/Utils/Text/Tests.antt =====
-- A reader of ASCII text in memory.
use pydatatask.Base.{ℕ, ◌≡◌, refl, none, some, List, [], ◌∷◌}
use pydatatask.Base.Results.{ok}
use pydatatask.Utils.Copy.Tests.{in_memory}
use pydatatask.Utils.Text.{Codec, AReadText, wants_more, fill, cut, read}
use pydatatask.Utils.Text.Again.{read-read}

abbrev ascii : Codec
ascii = record { State = Unit {0}; decode = λ bytes final d. ok (bytes, d) }

abbrev reader : List ℕ → List ℕ → AReadText in_memory ascii
reader stream buffer = record { stream = stream; decoder = tt; buffer = buffer; chunksize = 2 }

first :
    read in_memory ascii 5 (some 3) (reader (1 ∷ 2 ∷ 3 ∷ 4 ∷ 5 ∷ []) [])
    ≡ some (ok (1 ∷ 2 ∷ 3 ∷ [], reader (5 ∷ []) (1 ∷ 2 ∷ 3 ∷ [])))
unfolding wants_more fill cut read
first = refl

whole :
    read in_memory ascii 5 none (reader (1 ∷ 2 ∷ 3 ∷ []) [])
    ≡ some (ok (1 ∷ 2 ∷ 3 ∷ [], reader [] []))
unfolding wants_more fill cut read
whole = refl

read-read_example :
    read in_memory ascii 1 (some 3) (reader (5 ∷ []) (1 ∷ 2 ∷ 3 ∷ []))
    ≡ some (ok (1 ∷ 2 ∷ 3 ∷ [], reader (5 ∷ []) (1 ∷ 2 ∷ 3 ∷ [])))
read-read_example =
    read-read in_memory ascii 5 0 3 (reader (1 ∷ 2 ∷ 3 ∷ 4 ∷ 5 ∷ []) [])
      (reader (5 ∷ []) (1 ∷ 2 ∷ 3 ∷ [])) (1 ∷ 2 ∷ 3 ∷ []) first refl
