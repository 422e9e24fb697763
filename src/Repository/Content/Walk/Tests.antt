-- ===== src/Repository/Content/Walk/Tests.antt =====
-- A filesystem with one directory and one file.
use Prim.Native.String.{◌++◌ as append}
use pydatatask.Base.{◌≡◌, refl, some, [], ◌∷◌, Option, map}
use pydatatask.Base.Results.{ok, value_error}
use pydatatask.Base.Keys.{Job, select, get}
use pydatatask.Repository.{MetadataRepository}
use pydatatask.Repository.InProcess.{Heap, in_process, info}
use pydatatask.Repository.Content.Paths.{splitpath}
use pydatatask.Repository.Content.Nodes.{
  Nodes, nil, cons, blank, fresh_directory, file, directory, follow,
}
use pydatatask.Repository.Content.Store.{BlobStore, as_file}
use pydatatask.Repository.Content.Open.{child_at}
use pydatatask.Repository.Content.Walk.Members.{directory_member, iter_members, iter_members-file}

abbrev tree : Nodes
tree = cons "d" fresh_directory (cons "f" (as_file "one" 1 blank) nil)

abbrev meta : MetadataRepository (Heap Nodes) (Option Nodes)
meta = in_process 0

abbrev heap : Heap Nodes
heap cell = ("job", some tree) ∷ []

-- Every blob is empty.
abbrev blobs : BlobStore (Unit {0})
blobs = record { write = λ k v b. (ok tt, b); read = λ k b. ok [] }

-- Both paths are absolute, so that the second is the result.
abbrev second : Job → Job → Job
second top name = name

iter_members-file_example :
    iter_members "/" second meta blobs heap tt "job" "/"
    ≡ some (map directory_member (map (second "/") (map (append "/") ("d" ∷ []))), some value_error)
unfolding in_process info get child_at splitpath select follow
iter_members-file_example =
    iter_members-file "/" second meta blobs heap tt "job" "/" tree ("f", as_file "one" 1 blank) []
      "one" 1 blank refl ((directory, refl), ((file, refl), tt)) refl refl
