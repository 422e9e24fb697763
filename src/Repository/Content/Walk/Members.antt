-- ===== src/Repository/Content/Walk/Members.antt =====
-- `FilesystemRepository.iter_members` over `walk`. `full` is pathlib's `str(rtopp / name)`.
use Prim.Native.Char.{Char}
use pydatatask.Base.{ℕ, ◌≡◌, refl, Option, none, some, List, [], ◌∷◌, ◌++◌, map, String, append-nil}
use pydatatask.Base.Results.{Result, ok, err, Error, value_error, ◌>>=◌}
use pydatatask.Base.Keys.{Job}
use pydatatask.Repository.{MetadataRepository}
use pydatatask.Repository.Blob.{Bytes}
use pydatatask.Repository.Content.Nodes.{file, directory, Node, node, Nodes}
use pydatatask.Repository.Content.Store.{BlobStore, as_file, parts_of}
use pydatatask.Repository.Content.Open.{child_at, readlink, get_regular_meta, open_file}
use pydatatask.Repository.Content.Walk.{Entry, entries, Row, prefixed, walk}
use pydatatask.Repository.Content.Walk.Rows.{Typed, of_type, walk-rows}

pub data Member : Type 0 where
  directory_member : String → Member
  symlink_member : String → Option String → Member
  -- With its size, its hash and what is read from its stream.
  file_member : String → ℕ → String → Bytes → Member

-- One iterator after another; an exception ends both.
abbrev pub both :
    {A : Type 0} → List A × Option Error → List A × Option Error → List A × Option Error
both (xs, some e) rest = (xs, some e)
both (xs, none) (ys, e) = (xs ++ ys, e)

unfoldable pub each : {A : Type 0} → (String → Result A) → List String → List A × Option Error
each f [] = ([], none)
each f (x ∷ xs) =
    let rest = each f xs in elim (f x) [ err e ↦ ([], some e) | ok a ↦ (a ∷ rest.0, rest.1) ]

module _ {M B : Type 0} (sep : Char) (full : String → String → String)
    (meta : MetadataRepository M (Option Nodes)) (blobs : BlobStore B) (m : M) (b : B)
    (job : Job) where
  abbrev pub link_member : String → Result Member
  link_member name = do target ← readlink sep meta m job name; ok (symlink_member name target)

  -- The stream's contents; `open` always ends.
  abbrev pub opened : Option (Result Bytes) → Result Bytes
  opened none = err value_error
  opened (some r) = r

  abbrev pub regular_member : String → Result Member
  regular_member name = do
    found ← get_regular_meta sep meta m job name
    bytes ← opened (open_file sep meta blobs m b job name)
    ok (file_member name found.0 found.1 bytes)

  unfoldable pub row_members : Row → List Member × Option Error
  unfolding each
  row_members row =
      let at = full row.top in
      both (each (λ x. ok (directory_member x)) (map at row.dirs))
        (both (each link_member (map at row.links)) (each regular_member (map at row.regs)))

  abbrev pub rows_members : List Row → Option Error → List Member × Option Error
  rows_members [] e = ([], e)
  rows_members (row ∷ rows) e = both (row_members row) (rows_members rows e)

  abbrev pub members_of : Option (List Row × Option Error) → Option (List Member × Option Error)
  members_of none = none
  members_of (some (rows, e)) = some (rows_members rows e)

  unfoldable pub iter_members : String → Option (List Member × Option Error)
  unfolding row_members
  iter_members top = members_of (walk top meta m job)

  directories_yield :
      (names : List String)
      → each (λ x. ok (directory_member x)) names ≡ (map directory_member names, none)
  unfolding each
  directories_yield [] = refl
  directories_yield (x ∷ xs) = rw (directories_yield xs) refl

  readlink-file :
      (path : String) (hash : String) (size : ℕ) (n : Node)
      → child_at meta m job (parts_of sep path none) ≡ ok (as_file hash size n)
      → readlink sep meta m job path ≡ err value_error
  unfolding readlink
  readlink-file path hash size (node k ns) h = rw h refl

  -- No filesystem with a file in its top directory can be iterated over: `iter_members` yields the directories
  -- of the top directory and then raises ValueError. That is so where every entry of the top directory has a
  -- type and the first file's path leads to it.
  pub iter_members-file :
      (top : String) (ns : Nodes) (e : Entry) (es : List Entry) (hash : String) (size : ℕ)
      (n : Node)
      → meta.info m job ≡ ok (some ns)
      → Typed (entries ns)
      → of_type file (entries ns) ≡ e ∷ es
      → child_at meta m job (parts_of sep (full top (prefixed top e)) none)
        ≡ ok (as_file hash size n)
      → iter_members top
        ≡ some (
          map directory_member
              (map (full top) (map (prefixed top) (of_type directory (entries ns)))),
          some value_error,
        )
  unfolding iter_members
  iter_members-file top ns e es hash size n info typed files leads =
      rw
        (
          walk-rows top meta m job ns info typed,
          directories_yield (map (full top) (map (prefixed top) (of_type directory (entries ns)))),
          files,
          each,
          readlink-file (full top (prefixed top e)) hash size n leads,
          append-nil (
              map directory_member
                (map (full top) (map (prefixed top) (of_type directory (entries ns))))),
        )
        refl
