-- ===== src/Repository/Content/Store.antt =====
-- What `ContentAddressedBlobRepository` stores. The repository of metadata is any
-- `MetadataRepository`; of the one of blobs, what is written to an opened blob and then read from it. SHA-256 is
-- Python's `hashlib`'s. An entry's data is what is left in its stream: the reads of 16 KiB, put together.
pub mod Rounds
pub mod Kept
pub mod Errors
use Prim.Native.Char.{Char, code}
use pydatatask.Base.{
  ℕ, zero, suc, Bool, true, false, Option, none, some, List, [], ◌∷◌, ◌==◌, String, length, ltb,
  if◌then◌else◌,
}
use pydatatask.Base.Results.{
  Result, ok, err, Error, key_error, lookup_error, type_error, value_error, assertion_error, raised,
  Exec, ◌>>=◌,
}
use pydatatask.Base.Exec.{go_on}
use pydatatask.Base.Keys.{Job, same}
use pydatatask.Repository.{MetadataRepository}
use pydatatask.Repository.Blob.{Bytes}
use pydatatask.Repository.Content.Paths.{splitpath}
use pydatatask.Repository.Content.Nodes.{
  Keys, FilesystemType, file, directory, symlink, Node, Nodes, node, nil, keys_of, follow, place,
}

-- `async with await blobs.open(job, "wb") as fp: await fp.write(data)`, and the same blob read.
pub record BlobStore (B : Type 0) : Type 0 where
  pub write : Job → Bytes → Exec B (Unit {0})
  pub read : Job → B → Result Bytes

pub record FilesystemEntry : Type 0 where
  pub name : String
  pub type : FilesystemType
  pub bytes : Option Bytes
  pub link_target : Option String
  pub content_hash : Option String

abbrev pub as_directory : Node → Node
as_directory (node k ns) = node (record k { type = some directory }) nil

abbrev pub as_symlink : Option String → Node → Node
as_symlink target (node k ns) = node (record k { type = some symlink; link_target = target }) ns

abbrev pub as_file : String → ℕ → Node → Node
as_file hash size (node k ns) =
    node (record k { type = some file; content = some hash; size = some size }) ns

-- The parts of a path. The loop of `_splitpath` always ends.
abbrev pub parts_of : Char → String → Option (List String) → List String
parts_of sep path relative_to = elim (splitpath sep path relative_to) [
  | none ↦ []
  | some path ↦ path
]

module _ {B : Type 0} (sha256 : Bytes → String) (blobs : BlobStore B) where
  -- The hash under which a file's data is stored, and its size. A declared hash is checked behind
  -- the write.
  unfoldable pub store_data : Option Bytes → Option String → Exec B (String × ℕ)
  store_data none declared b = (err assertion_error, b)
  store_data (some bytes) none b =
      go_on (blobs.write (sha256 bytes) bytes b) (λ _ b'. (ok (sha256 bytes, length bytes), b'))
  store_data (some bytes) (some hash) b = go_on (blobs.write hash bytes b) (λ _ b'.
      if same (sha256 bytes) hash then (ok (hash, length bytes), b') else (err value_error, b'))

  unfoldable pub put_file : List String → Option Bytes → Option String → Nodes → Exec B Nodes
  unfolding store_data
  put_file path bytes declared meta b =
      go_on (place path (λ n. n) meta, b)
        λ _ b'.
          go_on (store_data bytes declared b')
            λ stored b''. (place path (as_file stored.0 stored.1) meta, b'')

  unfoldable pub put_at : FilesystemType → List String → FilesystemEntry → Nodes → Exec B Nodes
  unfolding put_file
  put_at directory path e meta b = (place path as_directory meta, b)
  put_at symlink path e meta b = (place path (as_symlink e.link_target) meta, b)
  put_at file path e meta b = put_file path e.bytes e.content_hash meta b

  -- A round of `dump`'s loop.
  unfoldable pub put : Char → FilesystemEntry → Nodes → Exec B Nodes
  unfolding put_at
  put sep e meta b = put_at e.type (parts_of sep e.name none) e meta b

  unfoldable pub put_all : Char → List FilesystemEntry → Nodes → Exec B Nodes
  unfolding put
  put_all sep [] meta b = (ok meta, b)
  put_all sep (e ∷ es) meta b = go_on (put sep e meta b) (put_all sep es)

module _ {M B : Type 0} (meta : MetadataRepository M (Option Nodes)) (job : Job) where
  -- `await self.meta.dump(job, meta)`, behind the loop.
  abbrev pub finish : M → Result Nodes × B → Result (Unit {0}) × (M × B)
  finish m (err e, b) = (err e, (m, b))
  finish m (ok ns, b) = let stored = meta.dump job (some ns) m in (stored.0, (stored.1, b))

  -- `dump`, for the entries that are sent to it: an exception ends it with no metadata stored.
  unfoldable pub dump :
      (Bytes → String) → BlobStore B → Char → List FilesystemEntry → Exec (M × B) (Unit {0})
  unfolding put_all
  dump sha256 blobs sep entries (m, b) = finish m (put_all sha256 blobs sep entries nil b)

  -- The blobs stay.
  unfoldable pub delete : Exec (M × B) (Unit {0})
  delete (m, b) = let deleted = meta.delete job m in (deleted.0, (deleted.1, b))
