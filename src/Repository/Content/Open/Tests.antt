-- ===== src/Repository/Content/Open/Tests.antt =====
-- A filesystem dumped into an in-process repository of metadata, with a dictionary of blobs, and read back. The hash
-- of the one file's contents is "one", and that of all other contents "other".
use pydatatask.Base.{
  suc, zero, ◌≡◌, refl, ◌∙◌, none, some, List, [], ◌∷◌, ◌++◌, Option, arith, if◌then◌else◌, leb,
}
use pydatatask.Base.Results.{Result, ok, err, key_error, value_error}
use pydatatask.Base.Keys.{Job, insert, get, get-insert, select, same_iff}
use pydatatask.Repository.{MetadataRepository}
use pydatatask.Repository.JobId.{is_valid_job_id, in_charset}
use pydatatask.Repository.InProcess.{Heap, in_process, store, info, dump as dump_meta}
use pydatatask.Repository.InProcess.Laws.{info-dump}
use pydatatask.Repository.Blob.{Bytes, Blobs}
use pydatatask.Repository.Content.Paths.{splitpath}
use pydatatask.Repository.Content.Nodes.{
  Nodes, nil, cons, blank, FilesystemType, file, directory, symlink, follow, place,
}
use pydatatask.Repository.Content.Store.{BlobStore, FilesystemEntry, dump}
use pydatatask.Repository.Content.Store.Rounds.{IsKeyed}
use pydatatask.Repository.Content.Open.{child_at, open_at, open_file, get_regular_meta}
use pydatatask.Repository.Content.Open.RoundTrip.{Stores, open_file-dump}
use pydatatask.Repository.Content.Open.Links.{IsLink, Chain, link, open_at-Chain}

abbrev hash : Bytes → Job
hash (suc zero ∷ []) = "one"
hash _ = "other"

only_one : (d : Bytes) → hash d ≡ "one" → d ≡ 1 ∷ []
only_one [] h = absurd (cc ((same_iff "other" "one").1 h))
only_one (zero ∷ d) h = absurd (cc ((same_iff "other" "one").1 h))
only_one (suc zero ∷ []) h = refl
only_one (suc zero ∷ x ∷ d) h = absurd (cc ((same_iff "other" "one").1 h))
only_one (suc (suc n) ∷ d) h = absurd (cc ((same_iff "other" "one").1 h))

abbrev read_blob : Option Bytes → Result Bytes
read_blob none = err key_error
read_blob (some c) = ok c

abbrev dict_blobs : BlobStore Blobs
dict_blobs = record { write = λ k v b. (ok tt, insert k v b); read = λ k b. read_blob (get k b) }

dict_blobs-IsKeyed : IsKeyed dict_blobs
dict_blobs-IsKeyed k v b h j = ground (arith, get-insert k j v b)

abbrev meta : MetadataRepository (Heap Nodes) (Option Nodes)
meta = in_process 0

meta-Stores : Stores meta "job"
unfolding in_process is_valid_job_id in_charset
meta-Stores v m h = (info-dump 0 "job" m v).1 0 "job" ∙ refl

abbrev entry : Job → FilesystemType → Option Bytes → Option Job → FilesystemEntry
entry name type bytes target = record {
  name = name;
  type = type;
  bytes = bytes;
  link_target = target;
  content_hash = none;
}

abbrev before : List FilesystemEntry
before = entry "d" directory none none ∷ []

abbrev a_file : FilesystemEntry
a_file = entry "d/x/../f" file (some (1 ∷ [])) none

abbrev later : List FilesystemEntry
later = entry "d/g" symlink none (some "f") ∷ []

abbrev empty : Heap Nodes × Blobs
empty = ((λ _. []), [])

dumped : (dump meta "job" hash dict_blobs "/" (before ++ a_file ∷ later) empty).0 ≡ ok tt
unfolding dump splitpath place insert in_process dump_meta is_valid_job_id in_charset select
dumped = refl

open_file-dump_example :
    (open_file "/" meta dict_blobs
        (dump meta "job" hash dict_blobs "/" (before ++ a_file ∷ later) empty).1.0
        (dump meta "job" hash dict_blobs "/" (before ++ a_file ∷ later) empty).1.1
        "job"
        "d/x/../f"
      ≡ some (ok (1 ∷ [])))
    × (get_regular_meta "/" meta
          (dump meta "job" hash dict_blobs "/" (before ++ a_file ∷ later) empty).1.0
          "job"
          "d/x/../f"
        ≡ ok (1, "one"))
unfolding splitpath select
open_file-dump_example =
    open_file-dump hash "/" meta dict_blobs "job" before later a_file (1 ∷ []) empty
      dict_blobs-IsKeyed meta-Stores only_one refl refl (refl, tt) dumped

abbrev full_state : Heap Nodes × Blobs
full_state = (dump meta "job" hash dict_blobs "/" (before ++ a_file ∷ later) empty).1

-- `d/g` is a link to `f` beside it.
linked : IsLink "/" meta full_state.0 "job" ("d" ∷ "g" ∷ []) ("d" ∷ "f" ∷ [])
unfolding dump splitpath place insert in_process dump_meta is_valid_job_id in_charset select
    child_at info get store follow
linked = record { text = "f"; child = blank; stands = refl; leads = refl }

open_at-Chain_example :
    open_at "/" meta dict_blobs 12 0 full_state.0 full_state.1 "job" ("d" ∷ "g" ∷ [])
    ≡ some (if leb 1 11 then dict_blobs.read "one" full_state.1 else err value_error)
unfolding dump splitpath place insert in_process dump_meta is_valid_job_id in_charset select
    child_at info get store follow
open_at-Chain_example =
    open_at-Chain "/" meta full_state.0 "job" dict_blobs full_state.1 "one" 1 blank
      (link linked Chain.here) refl

-- It says that its contents are those of the file in `job`.
abbrev bad_file : FilesystemEntry
bad_file = record (entry "g" file (some (7 ∷ [])) none) { content_hash = some "one" }

abbrev placed_nodes : Nodes
placed_nodes = cons "g" blank nil
