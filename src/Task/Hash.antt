-- ===== src/Task/Hash.antt =====
-- `Task.derived_hash` of pydatatask/task.py. `crypto_hash` of the link is a number; Python's own readings of texts
-- as numbers are parameters. Identifiers are ASCII, so that `int` reads every text that `isdigit` accepts.
pub mod Back
mod Tests
use Prim.Native.Char.{Char, code}
use pydatatask.Base.{
  leb, not, ◌||◌, ℕ, ◌+◌, ◌-◌, ◌*◌, ◌%◌, ◌^◌, ◌<◌, ◌≡◌, Bool, true, false, ◌&&◌, Option, none, some,
  String, ltb, if◌then◌else◌,
}
use pydatatask.Base.Results.{Result, ok, err, value_error}
use pydatatask.Base.Keys.{Job}

pub record Codecs : Type 0 where
  -- `str.isdigit`, `int` and `str`.
  pub isdigit : String → Bool
  pub int : String → ℕ
  pub str : ℕ → String
  -- `bytes.fromhex`, of an even number of hexadecimal digits: the number of bytes and `int.from_bytes` of them.
  pub fromhex : String → ℕ × ℕ
  -- `to_bytes(length, "big").hex()`
  pub hex : ℕ → ℕ → String

-- `c in string.hexdigits`
abbrev pub is_hexdigit : ℕ → Bool
is_hexdigit c =
    (leb b'0' c && leb c b'9') || (leb b'a' c && leb c b'f') || (leb b'A' c && leb c b'F')

abbrev pub all_hexdigits : String → Bool
all_hexdigits String.[] = true
all_hexdigits (String.◌∷◌ c s) = is_hexdigit (code c) && all_hexdigits s

-- `len(job) % 2 == 0`
abbrev pub is_even_length : String → Bool
is_even_length String.[] = true
is_even_length (String.◌∷◌ c s) = not (is_even_length s)

abbrev pub is_hex : Job → Bool
is_hex job = all_hexdigits job && is_even_length job

-- `(n + sign * hashed) % modulus`, which is never negative in Python.
unfoldable pub shift : ℕ → ℕ → Bool → ℕ → ℕ
shift modulus hashed true n = (n + hashed) % modulus
shift modulus hashed false n = (n + (modulus - hashed % modulus)) % modulus

module _ (c : Codecs) where
  abbrev pub is_decimal : Job → Bool
  is_decimal job = c.isdigit job && ltb (c.int job) (2 ^ 64)

  abbrev pub derive_hex : ℕ → Bool → ℕ × ℕ → Job
  derive_hex hashed along (length, n) = c.hex length (shift (2 ^ (length * 8)) hashed along n)

  unfoldable pub derived_hash : ℕ → Bool → Job → Result Job
  unfolding shift
  derived_hash hashed along job =
      if is_decimal job
      then ok (c.str (shift (2 ^ 64) hashed along (c.int job)))
      else if is_hex job
      then ok (derive_hex hashed along (c.fromhex job))
      else err value_error
