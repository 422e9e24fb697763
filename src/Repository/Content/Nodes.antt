-- ===== src/Repository/Content/Nodes.antt =====
-- The metadata of a filesystem, and `_follow_path`. A listing is a list of dictionaries, each with its `name`;
-- the other keys are those that `dump` writes, and `children` is read only where the type is DIRECTORY.
pub mod Follow
mod Tests
use pydatatask.Base.{ℕ, Bool, true, false, Option, none, some, List, [], ◌∷◌, String, if◌then◌else◌}
use pydatatask.Base.Results.{Result, ok, err, key_error, lookup_error, value_error, ◌>>=◌}
use pydatatask.Base.Keys.{same}

pub data FilesystemType : Type 0 where
  file directory symlink : FilesystemType

pub record Keys : Type 0 where
  pub type : Option FilesystemType
  pub link_target : Option String
  pub content : Option String
  pub size : Option ℕ

mutual
  pub data Node : Type 0 where
    node : Keys → Nodes → Node

  pub data Nodes : Type 0 where
    nil : Nodes
    cons : String → Node → Nodes → Nodes

abbrev pub keys_of : Node → Keys
keys_of (node k children) = k

abbrev pub children_of : Node → Nodes
children_of (node k children) = children

-- `{"name": name}`
abbrev pub blank : Node
blank = node (record { type = none; link_target = none; content = none; size = none }) nil

-- `{"name": key, "type": "DIRECTORY", "children": []}`
abbrev pub fresh_directory : Node
fresh_directory =
    node (record { type = some directory; link_target = none; content = none; size = none }) nil

-- The first child of that name.
unfoldable pub find : String → Nodes → Option Node
find x nil = none
find x (cons name n ns) = if same name x then some n else find x ns

-- `child["type"] != "DIRECTORY"`, and then `child["children"]`.
abbrev pub enter : Node → Result Nodes
enter (node k children) = elim k.type [
  | none ↦ err key_error
  | some directory ↦ ok children
  | some file ↦ err value_error
  | some symlink ↦ err value_error
]

-- `raise KeyError` where there is no such child.
abbrev pub required : Option Node → Result Node
required none = err key_error
required (some n) = ok n

-- Without `insert`.
unfoldable pub follow : List String → Nodes → Result Node
unfolding find
follow [] nil = err key_error
follow [] (cons name n ns) = err lookup_error
follow (x ∷ []) ns = required (find x ns)
follow (x ∷ y ∷ path) ns = do
  n ← required (find x ns)
  children ← enter n
  follow (y ∷ path) children

-- What `f` makes of the first child of that name, in its place; where there is none, what it makes
-- of `new`, at the end.
unfoldable pub change : String → Node → (Node → Result Node) → Nodes → Result Nodes
change x new f nil = do n ← f new; ok (cons x n nil)
change x new f (cons name n ns) =
    let here = (do m ← f n; ok (cons name m ns)) in
    let later = (do ms ← change x new f ns; ok (cons name n ms)) in
    if same name x then here else later

abbrev pub within : (Nodes → Result Nodes) → Node → Result Node
within f n = do children ← enter n; ms ← f children; ok (node (keys_of n) ms)

-- With `insert`: the listing after `f` has written to the child that is returned.
unfoldable pub place : List String → (Node → Node) → Nodes → Result Nodes
unfolding change
place [] f ns = err lookup_error
place (x ∷ []) f ns = change x blank (λ n. ok (f n)) ns
place (x ∷ y ∷ path) f ns =
    change x fresh_directory (within (λ children. place (y ∷ path) f children)) ns
