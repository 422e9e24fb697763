-- ===== src/Utils/RoundRobin/Tests.antt =====
-- The example of the source's comment, and the theorem at it.
use pydatatask.Base.{ℕ, ◌≡◌, refl, some, List, [], ◌∷◌}
use pydatatask.Utils.RoundRobin.{pop, turns, total_length, roundrobin}

abbrev three : List (List ℕ)
three = (b'A' ∷ b'B' ∷ b'C' ∷ []) ∷ (b'D' ∷ []) ∷ (b'E' ∷ b'F' ∷ []) ∷ []

in_turn : roundrobin three ≡ some (b'A' ∷ b'D' ∷ b'E' ∷ b'B' ∷ b'F' ∷ b'C' ∷ [])
unfolding pop turns total_length roundrobin
in_turn = refl
