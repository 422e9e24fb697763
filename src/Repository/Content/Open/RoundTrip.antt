-- ===== src/Repository/Content/Open/RoundTrip.antt =====
-- `dump`, and then `open`.
use Prim.Native.Char.{Char}
use pydatatask.Base.{
  ℕ, suc, ◌≡◌, refl, ap, ◌∙◌, Option, none, some, List, ◌∷◌, ◌++◌, length, String,
}
use pydatatask.Base.Results.{Result, ok, err}
use pydatatask.Base.Keys.{Job}
use pydatatask.Repository.{MetadataRepository}
use pydatatask.Repository.Blob.{Bytes}
use pydatatask.Repository.Content.Nodes.{file, Node, node, Nodes, nil}
use pydatatask.Repository.Content.Store.{
  BlobStore, FilesystemEntry, as_file, parts_of, put_all, finish, dump,
}
use pydatatask.Repository.Content.Store.Rounds.{IsKeyed}
use pydatatask.Repository.Content.Store.Kept.{Others, put_all-keeps_file}
use pydatatask.Repository.Content.Open.{child_at, open_at, open_file, get_regular_meta}

-- The metadata that is stored is what is then found.
abbrev pub Stores : {M V : Type 0} → MetadataRepository M V → Job → Type 0
Stores {M} {V} meta job =
    (v : V) (m : M) → (meta.dump job v m).0 ≡ ok tt → meta.info (meta.dump job v m).1 job ≡ ok v

finish-ok :
    {M B : Type 0} (meta : MetadataRepository M (Option Nodes)) (job : Job) (m : M)
    (r : Result Nodes × B)
    → (finish meta job m r).0 ≡ ok tt
    → (ns : Nodes) × (r.0 ≡ ok ns)
      × ((meta.dump job (some ns) m).0 ≡ ok tt)
      × ((finish meta job m r).1 ≡ ((meta.dump job (some ns) m).1, r.1))
finish-ok meta job m (ok ns, b) h = (ns, refl, h, refl)
finish-ok meta job m (err e, b) h = cc

module _ {M : Type 0} (sep : Char) (meta : MetadataRepository M (Option Nodes)) (m : M) (job : Job)
    (hash : String) (size : ℕ) where
  pub open_at-file :
      {B : Type 0} (blobs : BlobStore B) (b : B) (path : List String) (n : Node)
      → child_at meta m job path ≡ ok (as_file hash size n)
      → (fuel level : ℕ)
      → open_at sep meta blobs (suc fuel) level m b job path ≡ some (blobs.read hash b)
  unfolding open_at
  open_at-file blobs b path (node k ns) h fuel level = rw (h, open_at) refl

  get_regular_meta-file :
      (path : String) (n : Node)
      → child_at meta m job (parts_of sep path none) ≡ ok (as_file hash size n)
      → get_regular_meta sep meta m job path ≡ ok (size, hash)
  unfolding get_regular_meta
  get_regular_meta-file path (node k ns) h = rw h refl

module _ {M B : Type 0} (sha256 : Bytes → String) (sep : Char)
    (meta : MetadataRepository M (Option Nodes)) (blobs : BlobStore B) (job : Job)
    (es later : List FilesystemEntry) (e : FilesystemEntry) (c : Bytes) (s : M × B)
    (keyed : IsKeyed blobs) (stores : Stores meta job)
    (no_collision : (d : Bytes) → sha256 d ≡ sha256 c → d ≡ c) (is_file : e.type ≡ file)
    (given : e.bytes ≡ some c) (others : Others sep (parts_of sep e.name none) later) where
  abbrev after : M × B
  after = (dump meta job sha256 blobs sep (es ++ e ∷ later) s).1

  -- A file that is dumped is read back. If the dump of a filesystem into a job ends without an exception, each
  -- blob that is written being read again as it was written, and the metadata that is stored being found, then
  -- opening the path of a file among its entries gives that file's contents, and `get_regular_meta` gives its
  -- size and hash, where no later entry has the same path, one above it or one below it, and no other contents have
  -- the same hash.
  pub open_file-dump :
      (dump meta job sha256 blobs sep (es ++ e ∷ later) s).0 ≡ ok tt
      → (open_file sep meta blobs after.0 after.1 job e.name ≡ some (ok c))
        × (get_regular_meta sep meta after.0 job e.name ≡ ok (length c, sha256 c))
  unfolding dump open_file
  open_file-dump h =
      let (ns, made, stored, is_after) =
        finish-ok meta job s.0 (put_all sha256 blobs sep (es ++ e ∷ later) nil s.1) h in
      let ((n, found), read) =
        put_all-keeps_file sha256 blobs sep keyed (parts_of sep e.name none) c no_collision es e
          later s.1 nil ns is_file given refl others made in
      let child : child_at meta after.0 job (parts_of sep e.name none)
          ≡ ok (as_file (sha256 c) (length c) n) =
        unfold child_at in rw (ap (λ x. x.0) is_after, stores (some ns) s.0 stored) found in
      let blob : blobs.read (sha256 c) after.1 ≡ ok c = rw (ap (λ x. x.1) is_after) read in
      (
        open_at-file sep meta after.0 job (sha256 c) (length c) blobs after.1
              (parts_of sep e.name none) n child 11 0
            ∙ ap some blob,
        get_regular_meta-file sep meta after.0 job (sha256 c) (length c) e.name n child,
      )
