-- ===== src/Repository/Content/Nodes/Tests.antt =====
-- A listing with a directory.
use pydatatask.Base.{◌≡◌, refl, [], ◌∷◌, some}
use pydatatask.Base.Results.{ok, err, lookup_error}
use pydatatask.Repository.Content.Nodes.{
  Nodes, Node, blank, fresh_directory, node, nil, cons, place, keys_of,
}

abbrev target : Node → Node
target (node k ns) = node (record k { link_target = some "t" }) ns

placed :
    place ("a" ∷ "b" ∷ []) target nil
    ≡ ok (cons "a" (node (keys_of fresh_directory) (cons "b" (target blank) nil)) nil)
unfolding place
placed = refl

-- The path `.` has no parts: `path[-1]` raises IndexError.
no_parts : place [] target nil ≡ err lookup_error
unfolding place
no_parts = refl

abbrev in_a : Nodes
in_a = cons "b" (target blank) nil

abbrev tree : Nodes
tree = cons "a" (node (keys_of fresh_directory) in_a) nil
