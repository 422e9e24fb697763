-- ===== src/Repository/Content/Open.antt =====
-- What `ContentAddressedBlobRepository` reads back: `get_type`, `readlink`, `get_regular_meta` and `open`.
pub mod BadHash
pub mod Links
pub mod RoundTrip
mod Tests
use Prim.Native.Char.{Char, code}
use pydatatask.Base.{
  ℕ, zero, suc, Bool, true, false, Option, none, some, List, [], ◌∷◌, ◌==◌, String, ltb,
  if◌then◌else◌,
}
use pydatatask.Base.Results.{
  Result, ok, err, Error, key_error, type_error, value_error, raised, ◌>>=◌,
}
use pydatatask.Base.Keys.{Job}
use pydatatask.Repository.{MetadataRepository}
use pydatatask.Repository.Blob.{Bytes}
use pydatatask.Repository.Content.Nodes.{
  Keys, FilesystemType, file, directory, symlink, Node, Nodes, keys_of, follow,
}
use pydatatask.Repository.Content.Store.{BlobStore, parts_of}

-- A listing that is None has no children to look at.
abbrev pub listing : Option Nodes → Result Nodes
listing none = err type_error
listing (some ns) = ok ns

abbrev pub required_key {ℓ} : {A : Type ℓ} → Option A → Result A
required_key none = err key_error
required_key (some a) = ok a

unfoldable pub child_at :
    {M : Type 0} → MetadataRepository M (Option Nodes) → M → Job → List String → Result Node
child_at meta m job path = do found ← meta.info m job; ns ← listing found; follow path ns

abbrev pub is_type : FilesystemType → FilesystemType → Bool
is_type file file = true
is_type directory directory = true
is_type symlink symlink = true
is_type a b = false

abbrev pub size_and_content : Keys → Result (ℕ × String)
size_and_content k = do
  size ← required_key k.size
  content ← required_key k.content
  ok (size, content)

module _ {M : Type 0} (sep : Char) (meta : MetadataRepository M (Option Nodes)) where
  -- `except (ValueError, KeyError): return None`
  abbrev pub type_of : Result Node → Result (Option FilesystemType)
  type_of (ok n) = do t ← required_key (keys_of n).type; ok (some t)
  type_of (err key_error) = ok none
  type_of (err value_error) = ok none
  type_of (err e) = err e

  -- The metadata is asked for before the `try`.
  unfoldable pub get_type : M → Job → String → Result (Option FilesystemType)
  get_type m job path = do
    found ← meta.info m job
    type_of (do ns ← listing found; follow (parts_of sep path none) ns)

  unfoldable pub readlink : M → Job → String → Result (Option String)
  unfolding child_at
  readlink m job path = do
    n ← child_at meta m job (parts_of sep path none)
    t ← required_key (keys_of n).type
    if is_type t symlink then ok (keys_of n).link_target else err value_error

  unfoldable pub get_regular_meta : M → Job → String → Result (ℕ × String)
  unfolding child_at
  get_regular_meta m job path = do
    n ← child_at meta m job (parts_of sep path none)
    t ← required_key (keys_of n).type
    if is_type t file then size_and_content (keys_of n) else err value_error

-- `cpath.startswith("/")`
abbrev pub is_absolute : String → Bool
is_absolute String.[] = false
is_absolute (String.◌∷◌ c s) = code c == b'/'

-- `ppath[:-1]`
abbrev pub init : List String → List String
init [] = []
init (x ∷ []) = []
init (x ∷ y ∷ xs) = x ∷ init (y ∷ xs)

abbrev pub target_parts : Char → List String → String → List String
target_parts sep path target =
    if is_absolute target then parts_of sep target none else parts_of sep target (some (init path))

-- AttributeError, where the target is None.
abbrev pub no_attribute : Error
no_attribute = raised 0

module _ {M B : Type 0} (sep : Char) (meta : MetadataRepository M (Option Nodes))
    (blobs : BlobStore B) where
  -- What `_open` does with the child that it found, by its type, target and content; `again` is the
  -- call for the link's target.
  abbrev pub open_child :
      ℕ
      → List String
      → Option FilesystemType
      → Option String
      → Option String
      → (List String → Option (Result Bytes))
      → B
      → Option (Result Bytes)
  open_child level path none target content again b = some (err key_error)
  open_child level path (some directory) target content again b = some (err value_error)
  open_child level path (some file) target content again b =
      some (do hash ← required_key content; blobs.read hash b)
  open_child level path (some symlink) none content again b = some (err no_attribute)
  open_child level path (some symlink) (some target) content again b =
      if ltb 10 level then some (err value_error) else again (target_parts sep path target)

  unfoldable pub open_at : ℕ → ℕ → M → B → Job → List String → Option (Result Bytes)
  unfolding child_at
  open_at zero level m b job path = none
  open_at (suc fuel) level m b job path = elim (child_at meta m job path) [
    | err e ↦ some (err e)
    | ok n ↦
        let k = keys_of n in
        open_child level path k.type k.link_target k.content
          (λ p. open_at fuel (suc level) m b job p) b
  ]

  -- What is read from the stream that `open` gives. No more than twelve calls of `_open` are made.
  unfoldable pub open_file : M → B → Job → String → Option (Result Bytes)
  unfolding open_at
  open_file m b job path = open_at 12 0 m b job (parts_of sep path none)
