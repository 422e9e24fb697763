-- ===== src/Utils/Text/Again.antt =====
-- Reading a given number of characters twice.
use pydatatask.Base.{ℕ, suc, ◌≡◌, ap, ◌∙◌, some, List, length, take_all, arith}
use pydatatask.Base.Results.{ok}
use pydatatask.Utils.Copy.{Source}
use pydatatask.Utils.Text.{Codec, AReadText, wants_more, fill, cut, read}

module _ (base : Source ℕ) (codec : Codec) where
  -- What a successful read of `n` characters leaves in the buffer is what it returned.
  cut_buffer :
      (fuel n : ℕ) (r r' : AReadText base codec) (t : List ℕ)
      → read base codec fuel (some n) r ≡ some (ok (t, r'))
      → r'.buffer ≡ t
  unfolding read cut
  cut_buffer fuel n r r' t h = ground arith

  full_again :
      (fuel n : ℕ) (r : AReadText base codec)
      → length r.buffer ≡ n
      → read base codec (suc fuel) (some n) r ≡ some (ok (r.buffer, r))
  unfolding read fill cut wants_more
  full_again fuel n r h = ground (arith, take_all n r.buffer)

  -- After a read of `n` characters has returned `n` of them, every further read of `n` returns the same
  -- characters once more and changes nothing.
  pub read-read :
      (fuel more n : ℕ) (r r' : AReadText base codec) (t : List ℕ)
      → read base codec fuel (some n) r ≡ some (ok (t, r'))
      → length t ≡ n
      → read base codec (suc more) (some n) r' ≡ some (ok (t, r'))
  read-read fuel more n r r' t h full =
      let kept : r'.buffer ≡ t = cut_buffer fuel n r r' t h in
      full_again more n r' (ap length kept ∙ full) ∙ ap (λ k. some (ok (k, r'))) kept
