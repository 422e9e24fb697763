-- ===== src/Repository/Content/Store/Rounds.antt =====
-- What a round of `dump` does.
use pydatatask.Base.{
  ℕ, ◌≡◌, refl, sym, ap, ◌∙◌, ◌⊎◌, inl, inr, Option, none, some, List, length, String, arith,
  if◌then◌else◌, Bool-cases,
}
use pydatatask.Base.Results.{Result, ok}
use pydatatask.Base.Exec.{go_on, go_on-ok}
use pydatatask.Base.Keys.{Job, same, same_iff}
use pydatatask.Repository.Blob.{Bytes}
use pydatatask.Repository.Content.Nodes.{
  FilesystemType, file, directory, symlink, Node, Nodes, place,
}
use pydatatask.Repository.Content.Store.{
  BlobStore, FilesystemEntry, as_directory, as_symlink, as_file, store_data, put_file, put_at,
}

-- A blob that is written is read again as it was written, and no other blob changes.
abbrev pub IsKeyed : {B : Type 0} → BlobStore B → Type 0
IsKeyed {B} blobs =
    (k : Job) (v : Bytes) (b : B)
    → (blobs.write k v b).0 ≡ ok tt
    → (j : Job) → blobs.read j (blobs.write k v b).1 ≡ (if same k j then ok v else blobs.read j b)

module _ {B : Type 0} (sha256 : Bytes → String) (blobs : BlobStore B) where
  -- A file's data is written under its hash, declared or not.
  record Stored (bytes : Option Bytes) (b : B) (r : Result (String × ℕ) × B) : Type 0 where
    contents : Bytes
    given : bytes ≡ some contents
    written : (blobs.write (sha256 contents) contents b).0 ≡ ok tt
    result :
        r ≡ (ok (sha256 contents, length contents), (blobs.write (sha256 contents) contents b).1)

  store_data-Stored :
      (bytes : Option Bytes) (declared : Option String) (b : B) (stored : String × ℕ)
      → (store_data sha256 blobs bytes declared b).0 ≡ ok stored
      → Stored bytes b (store_data sha256 blobs bytes declared b)
  unfolding store_data
  store_data-Stored none declared b stored h = cc
  store_data-Stored (some d) none b stored h =
      let (_, written, e) = go_on-ok (blobs.write (sha256 d) d b) _ stored h in
      record { contents = d; given = refl; written = written; result = e }
  store_data-Stored (some d) (some hash) b stored h =
      let (_, written, e) = go_on-ok (blobs.write hash d b) _ stored h in
      elim (Bool-cases (same (sha256 d) hash)) [
        | inl right ↦
            let hashed : sha256 d ≡ hash = (same_iff (sha256 d) hash).0 right in
            record {
              contents = d;
              given = refl;
              written = rw hashed written;
              result = e ∙ rw (right, hashed) refl;
            }
        | inr wrong ↦ absurd (let bad = sym (ap (λ r. r.0) e) ∙ h in ground (arith, bad, wrong))
      ]

  pub record Filed (path : List String) (bytes : Option Bytes) (meta : Nodes) (b : B)
      (r : Result Nodes × B) : Type 0 where
    pub contents : Bytes
    pub given : bytes ≡ some contents
    pub written : (blobs.write (sha256 contents) contents b).0 ≡ ok tt
    pub result : r ≡ (
      place path (as_file (sha256 contents) (length contents)) meta,
      (blobs.write (sha256 contents) contents b).1,
    )

  pub put_file-Filed :
      (path : List String) (bytes : Option Bytes) (declared : Option String) (meta : Nodes) (b : B)
      (ns : Nodes)
      → (put_file sha256 blobs path bytes declared meta b).0 ≡ ok ns
      → Filed path bytes meta b (put_file sha256 blobs path bytes declared meta b)
  unfolding put_file
  put_file-Filed path bytes declared meta b ns h =
      let (_, _, e1) = go_on-ok (place path (λ n. n) meta, b) _ ns h in
      let (stored, e2, e3) =
        go_on-ok (store_data sha256 blobs bytes declared b) _ ns (sym (ap (λ r. r.0) e1) ∙ h) in
      let s = store_data-Stored bytes declared b stored e2 in
      record {
        contents = s.contents;
        given = s.given;
        written = s.written;
        result = e1 ∙ ap (λ r. go_on r (λ x b'. (place path (as_file x.0 x.1) meta, b'))) s.result;
      }

  -- No blob is written, or one under its hash.
  abbrev pub Writes : B → B → Type 0
  Writes b b' =
      (b' ≡ b)
      ⊎ ((d : Bytes) × ((blobs.write (sha256 d) d b).0 ≡ ok tt)
          × (b' ≡ (blobs.write (sha256 d) d b).1))

  pub record Round (path : List String) (meta : Nodes) (b : B) (r : Result Nodes × B) : Type 0 where
    pub made : Node → Node
    pub placed : r.0 ≡ place path made meta
    pub writes : Writes b r.1

  pub put_at-Round :
      (t : FilesystemType) (path : List String) (e : FilesystemEntry) (meta : Nodes) (b : B)
      (ns : Nodes)
      → (put_at sha256 blobs t path e meta b).0 ≡ ok ns
      → Round path meta b (put_at sha256 blobs t path e meta b)
  unfolding put_at
  put_at-Round directory path e meta b ns h = record {
    made = as_directory;
    placed = refl;
    writes = inl refl;
  }
  put_at-Round symlink path e meta b ns h = record {
    made = as_symlink e.link_target;
    placed = refl;
    writes = inl refl;
  }
  put_at-Round file path e meta b ns h =
      let f = put_file-Filed path e.bytes e.content_hash meta b ns h in
      record {
        made = as_file (sha256 f.contents) (length f.contents);
        placed = ap (λ r. r.0) f.result;
        writes = inr (f.contents, f.written, ap (λ r. r.1) f.result);
      }
