-- ===== src/Repository/Blob.antt =====
-- `InProcessBlobRepository` and its streams, and `blobdump` and `blobinfo` of `BlobRepository`. A stream holds a
-- `BytesIO`, Python's in-memory file, whose position starts at 0; closing the stream writes all
-- of it back. (Text modes put `AReadText` and `AWriteText` around the same stream.)
pub mod RoundTrip
mod Tests
use pydatatask.Base.{
  ℕ, ◌+◌, ◌-◌, Bool, Option, none, some, List, [], ◌∷◌, ◌++◌, if◌then◌else◌, length, take, drop,
}
use pydatatask.Base.Results.{Result, ok, err, Error, key_error, Exec, ◌>>=◌}
use pydatatask.Base.Keys.{Job, Dict, get, insert, remove, keys, has}
use pydatatask.Repository.{Repository}
use pydatatask.Repository.JobId.{is_valid_job_id}

abbrev pub Bytes : Type 0
Bytes = List ℕ

abbrev pub Blobs : Type 0
Blobs = Dict Bytes

pub record Stream : Type 0 where
  pub job : Job
  pub contents : Bytes
  pub position : ℕ

abbrev pub get_or : Bytes → Option Bytes → Bytes
get_or d none = d
get_or d (some b) = b

-- `InProcessBlobStream(repo, job)`
unfoldable pub new_stream : Blobs → Job → Stream
new_stream blobs job = record { job = job; contents = get_or [] (get job blobs); position = 0 }

unfoldable pub open_stream : Blobs → Job → Result Stream
unfolding new_stream
open_stream blobs job = if is_valid_job_id job then ok (new_stream blobs job) else err key_error

-- A negative size is `none`.
unfoldable pub read : Option ℕ → Stream → Bytes × Stream
read size s =
    let left = drop s.position s.contents in
    let bytes : Bytes = elim size [ none ↦ left | some n ↦ take n left ] in
    (bytes, record s { position = s.position + length bytes })

-- Writes over what stands at the position, and on beyond the end.
unfoldable pub write : Bytes → Stream → Stream
write bytes s = record s {
  contents = take s.position s.contents ++ (bytes ++ drop (s.position + length bytes) s.contents);
  position = s.position + length bytes;
}

unfoldable pub close : Stream → Blobs → Blobs
close s blobs = insert s.job s.contents blobs

unfoldable pub blobdump : Job → Bytes → Blobs → Result Blobs
blobdump job value blobs = do s ← open_stream blobs job; ok (close (write value s) blobs)

-- The stream is closed, and so written back, behind a read too.
unfoldable pub blobinfo : Job → Blobs → Result (Bytes × Blobs)
blobinfo job blobs = do s ← open_stream blobs job; ok ((read none s).0, close (read none s).1 blobs)

unfoldable pub delete : Job → Exec Blobs (Unit {0})
delete job blobs = if has job blobs then (ok tt, remove job blobs) else (err key_error, blobs)

unfoldable pub in_process_blobs : Repository Blobs
unfolding delete
in_process_blobs = record {
  unfiltered_iter = λ blobs. ok (keys blobs);
  contains = λ blobs item. ok (has item blobs);
  delete = delete;
}
