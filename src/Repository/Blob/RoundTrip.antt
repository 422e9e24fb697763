-- ===== src/Repository/Blob/RoundTrip.antt =====
-- Dumping a blob and reading it back.
use pydatatask.Base.{
  ◌≡◌, ◌≤◌, ◌+◌, refl, ap, true, none, some, [], ◌++◌, length, drop, drop_all, append-nil, arith,
}
use pydatatask.Base.Results.{ok}
use pydatatask.Base.Keys.{Job, get, insert, get-insert, same_refl}
use pydatatask.Repository.JobId.{is_valid_job_id}
use pydatatask.Repository.Blob.{
  Bytes, Blobs, get_or, new_stream, open_stream, read, write, close, blobdump, blobinfo,
}

-- After a dump, a read of the whole blob gives the dumped bytes, followed by what the old
-- blob had beyond their number: the stream is not emptied when it is opened for writing.
pub blobinfo-blobdump :
    (job : Job) (value : Bytes) (blobs : Blobs)
    → is_valid_job_id job ≡ true
    → (after : Blobs) × (blobdump job value blobs ≡ ok after)
      × (get job after ≡ some (value ++ drop (length value) (get_or [] (get job blobs))))
      × ((later : Blobs) × (blobinfo job after
            ≡ ok (value ++ drop (length value) (get_or [] (get job blobs)), later)))
unfolding blobdump blobinfo read open_stream close write new_stream
blobinfo-blobdump job value blobs h = (
  insert job (value ++ drop (length value) (get_or [] (get job blobs))) blobs,
  rw h (
      ap (λ k. ok (insert job (value ++ drop k (get_or [] (get job blobs))) blobs))
        {x = 0 + length value} {y = length value} (omega arith)),
  here,
  (close (read none (new_stream after job)).1 after, rw (h, here) refl),
)
  where
    after : Blobs
    after = insert job (value ++ drop (length value) (get_or [] (get job blobs))) blobs

    here :
        get job (insert job (value ++ drop (length value) (get_or [] (get job blobs))) blobs)
        ≡ some (value ++ drop (length value) (get_or [] (get job blobs)))
    here = rw (get-insert job job _ blobs, same_refl job) refl

-- A dump of at least as many bytes as the old blob had is read back as it was written.
pub blobinfo-blobdump_longer :
    (job : Job) (value : Bytes) (blobs : Blobs)
    → is_valid_job_id job ≡ true
    → length (get_or [] (get job blobs)) ≤ length value
    → (after : Blobs) × (blobdump job value blobs ≡ ok after)
      × ((later : Blobs) × (blobinfo job after ≡ ok (value, later)))
blobinfo-blobdump_longer job value blobs h longer =
    let (after, dumped, _, (later, got)) = blobinfo-blobdump job value blobs h in
    (after, dumped, (later, rw (drop_all (length value) _ longer, append-nil) at got))
