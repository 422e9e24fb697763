-- ===== src/Repository/Content/Store/Errors.antt =====
-- A file that comes with a hash which is not its own.
use pydatatask.Base.{ℕ, ◌≡◌, refl, false, some, List, String, if◌then◌else◌, length}
use pydatatask.Base.Results.{Result, ok, err, value_error}
use pydatatask.Base.Exec.{go_on}
use pydatatask.Base.Keys.{same}
use pydatatask.Repository.Blob.{Bytes}
use pydatatask.Repository.Content.Nodes.{Nodes, place}
use pydatatask.Repository.Content.Store.{BlobStore, store_data, put_file}

module _ {B : Type 0} (sha256 : Bytes → String) (blobs : BlobStore B) where
  after_write :
      (hash : String) (d : Bytes) (b : B)
      → same (sha256 d) hash ≡ false
      → (blobs.write hash d b).0 ≡ ok tt
      → store_data sha256 blobs (some d) (some hash) b ≡ (err value_error, (blobs.write hash d b).1)
  unfolding store_data
  after_write hash d b wrong = go (blobs.write hash d b)
    where
      go :
          (r : Result (Unit {0}) × B)
          → r.0 ≡ ok tt
          → go_on {B = String × ℕ} r (λ _ b'.
            if same (sha256 d) hash then (ok (hash, length d), b') else (err value_error, b'))
            ≡ (err value_error, r.1)
      go (ok u, s) h = rw wrong refl
      go (err e, s) h = cc

  -- The blob of the declared hash is written before the round of the file raises.
  pub put_file_refused :
      (path : List String) (d : Bytes) (hash : String) (meta ns : Nodes) (b : B)
      → place path (λ n. n) meta ≡ ok ns
      → same (sha256 d) hash ≡ false
      → (blobs.write hash d b).0 ≡ ok tt
      → put_file sha256 blobs path (some d) (some hash) meta b
        ≡ (err value_error, (blobs.write hash d b).1)
  unfolding put_file
  put_file_refused path d hash meta ns b placed wrong written =
      rw (placed, after_write hash d b wrong written) refl
