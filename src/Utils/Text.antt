-- ===== src/Utils/Text.antt =====
-- `AReadText` of pydatatask/utils.py: characters from a stream of bytes. The codec is a parameter.
pub mod Again
mod Tests
use pydatatask.Base.{
  ℕ, zero, suc, ◌≡◌, Bool, true, false, Option, none, some, List, [], ◌∷◌, ◌++◌, ltb, if◌then◌else◌,
  length, take,
}
use pydatatask.Base.Results.{Result, ok, err}
use pydatatask.Utils.Copy.{Source}

-- An incremental decoder. It raises on bytes that are no text in its encoding.
pub record Codec : Type 1 where
  pub State : Type 0
  pub decode : List ℕ → Bool → State → Result (List ℕ × State)

module _ (base : Source ℕ) (codec : Codec) where
  pub record AReadText : Type 0 where
    pub stream : base.State
    pub decoder : codec.State
    pub buffer : List ℕ
    pub chunksize : ℕ

  -- `n is None or len(self.buffer) < n`
  unfoldable pub wants_more : Option ℕ → List ℕ → Bool
  wants_more none buffer = true
  wants_more (some n) buffer = ltb (length buffer) n

  abbrev pub is_empty : List ℕ → Bool
  is_empty [] = true
  is_empty (b ∷ bs) = false

  -- The `while` loop; `none` is a loop that goes on beyond its fuel.
  unfoldable pub fill : ℕ → Option ℕ → AReadText → Option (Result AReadText)
  fill zero n r = none
  fill (suc fuel) n r =
      let (bytes, stream') = base.read r.chunksize r.stream in
      let more = λ (text : List ℕ) (decoder' : codec.State).
        fill fuel n
          (record r { stream = stream'; decoder = decoder'; buffer = r.buffer ++ text }) in
      elim (wants_more n r.buffer) [
        | false ↦ some (ok r)
        | true ↦ elim (codec.decode bytes (is_empty bytes) r.decoder) [
          | err e ↦ some (err e)
          | ok (text, decoder') ↦ elim (is_empty bytes) [
            | true ↦
                some (
                  ok (record r { stream = stream'; decoder = decoder'; buffer = r.buffer ++ text }))
            | false ↦ more text decoder'
          ]
        ]
      ]

  -- What stands behind the loop. With `n` given both sides of the assignment are `self.buffer[:n]`.
  unfoldable pub cut : Option ℕ → AReadText → List ℕ × AReadText
  cut none r = (r.buffer, record r { buffer = [] })
  cut (some n) r = (take n r.buffer, record r { buffer = take n r.buffer })

  unfoldable pub read : ℕ → Option ℕ → AReadText → Option (Result (List ℕ × AReadText))
  read fuel n r = elim (fill fuel n r) [
    | none ↦ none
    | some (err e) ↦ some (err e)
    | some (ok r') ↦ some (ok (cut n r'))
  ]
