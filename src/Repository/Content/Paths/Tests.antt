-- ===== src/Repository/Content/Paths/Tests.antt =====
-- Paths with `.` and `..` in them.
use pydatatask.Base.{◌≡◌, refl, none, some, [], ◌∷◌}
use pydatatask.Base.Keys.{select}
use pydatatask.Repository.Content.Paths.{splitpath, joined, parts}
use pydatatask.Repository.Content.Paths.Normal.{normal, splitpath-normal}

plain : splitpath "/" "/a/./b/../c/" none ≡ some ("a" ∷ "c" ∷ [])
unfolding splitpath select
plain = refl

above_the_root : splitpath "/" "../../a" (some ("d" ∷ [])) ≡ some ("a" ∷ [])
unfolding splitpath select
above_the_root = refl

only_a_dot : splitpath "/" "." none ≡ some []
unfolding splitpath select
only_a_dot = refl

splitpath-normal_example :
    splitpath "/" "../x" (some ("d" ∷ []))
    ≡ some (normal [] (joined (some ("d" ∷ [])) (parts "/" "../x")))
splitpath-normal_example = splitpath-normal "/" "../x" (some ("d" ∷ []))
