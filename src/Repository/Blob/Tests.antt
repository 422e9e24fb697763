-- ===== src/Repository/Blob/Tests.antt =====
-- A blob that is written over, and the theorems at concrete inputs.
use pydatatask.Base.{◌≡◌, refl, true, some, [], ◌∷◌, ◌++◌, drop}
use pydatatask.Base.Results.{ok}
use pydatatask.Base.Keys.{get, insert}
use pydatatask.Repository.JobId.{is_valid_job_id, in_charset}
use pydatatask.Repository.Blob.{
  Blobs, get_or, new_stream, open_stream, write, close, blobdump, blobinfo,
}
use pydatatask.Repository.Blob.RoundTrip.{blobinfo-blobdump}

abbrev blobs : Blobs
blobs = ("a", 1 ∷ 2 ∷ 3 ∷ []) ∷ []

shorter : blobdump "a" (9 ∷ []) blobs ≡ ok (("a", 9 ∷ 2 ∷ 3 ∷ []) ∷ [])
unfolding blobdump open_stream new_stream write close get insert is_valid_job_id in_charset
shorter = refl

valid : is_valid_job_id "a" ≡ true
unfolding is_valid_job_id in_charset
valid = refl

blobinfo-blobdump_example :
    (after : Blobs) × (blobdump "a" (9 ∷ []) blobs ≡ ok after)
    × (get "a" after ≡ some (9 ∷ [] ++ drop 1 (get_or [] (get "a" blobs))))
    × ((later : Blobs) × (blobinfo "a" after
          ≡ ok (9 ∷ [] ++ drop 1 (get_or [] (get "a" blobs)), later)))
blobinfo-blobdump_example = blobinfo-blobdump "a" (9 ∷ []) blobs valid
