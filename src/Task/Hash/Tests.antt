-- ===== src/Task/Hash/Tests.antt =====
-- Codecs in strokes: a number is so many strokes, and a text of bytes is a stroke for each byte, a b and the
-- number, each of them written twice.
use Prim.Native.Char.{code}
use pydatatask.Base.{
  ◌&&◌, ℕ, zero, suc, ◌+◌, ◌*◌, ◌^◌, ◌<◌, ◌≡◌, refl, ap, ◌∙◌, Bool, true, false, ◌==◌, String,
  arith, ltb, ltb→lt, if◌then◌else◌,
}
use pydatatask.Base.Results.{ok, err, value_error}
use pydatatask.Task.Hash.{Codecs, is_hex, shift, derived_hash}
use pydatatask.Task.Hash.Back.{IsCodec, canonical, derived_hash_back}

abbrev strokes : ℕ → String
strokes zero = String.[]
strokes (suc n) = String.◌∷◌ "1" (strokes n)

abbrev count : String → ℕ
count String.[] = 0
count (String.◌∷◌ c s) = suc (count s)

abbrev only_strokes : String → Bool
only_strokes String.[] = true
only_strokes (String.◌∷◌ c s) = code c == b'1' && only_strokes s

-- Each stroke twice.
abbrev double_strokes : ℕ → String
double_strokes zero = String.[]
double_strokes (suc n) = String.◌∷◌ "1" (String.◌∷◌ "1" (double_strokes n))

abbrev count_double : String → ℕ
count_double String.[] = 0
count_double (String.◌∷◌ c String.[]) = 0
count_double (String.◌∷◌ c (String.◌∷◌ d s)) = suc (count_double s)

abbrev in_range : ℕ → ℕ → ℕ × ℕ
in_range len n = if ltb n (2 ^ (len * 8)) then (len, n) else (0, 0)

abbrev read : ℕ → String → ℕ × ℕ
read len String.[] = (0, 0)
read len (String.◌∷◌ c String.[]) = (0, 0)
read len (String.◌∷◌ c (String.◌∷◌ d s)) =
    let rest = read (suc len) s in if code c == b'b' then in_range len (count_double s) else rest

abbrev write : ℕ → ℕ → String
write zero n = String.◌∷◌ "b" (String.◌∷◌ "b" (double_strokes n))
write (suc len) n = String.◌∷◌ "1" (String.◌∷◌ "1" (write len n))

abbrev codecs : Codecs
codecs = record {
  isdigit = only_strokes;
  int = count;
  str = strokes;
  fromhex = read 0;
  hex = write;
}

count-strokes : (n : ℕ) → count (strokes n) ≡ n
count-strokes zero = refl
count-strokes (suc n) = ap suc (count-strokes n)

only_strokes-strokes : (n : ℕ) → only_strokes (strokes n) ≡ true
only_strokes-strokes zero = refl
only_strokes-strokes (suc n) = ground (arith, only_strokes-strokes n)

count-double : (n : ℕ) → count_double (double_strokes n) ≡ n
count-double zero = refl
count-double (suc n) = ap suc (count-double n)

abbrev Fits : ℕ × ℕ → Type 0
Fits r = r.1 < 2 ^ (r.0 * 8)

in_range-Fits : (len n : ℕ) → Fits (in_range len n)
in_range-Fits len n = go (ltb n (2 ^ (len * 8))) refl
  where
    go : (b : Bool) → ltb n (2 ^ (len * 8)) ≡ b → Fits (if◌then◌else◌ {A = ℕ × ℕ} b (len, n) (0, 0))
    go true e = ltb→lt n (2 ^ (len * 8)) e
    go false e = omega arith

read-Fits : (len : ℕ) (s : String) → Fits (read len s)
read-Fits len String.[] = omega arith
read-Fits len (String.◌∷◌ c String.[]) = omega arith
read-Fits len (String.◌∷◌ c (String.◌∷◌ d s)) = go (code c == b'b') (read-Fits (suc len) s)
  where
    go :
        (b : Bool)
        → Fits (read (suc len) s)
        → Fits (if b then in_range len (count_double s) else read (suc len) s)
    go true ih = in_range-Fits len (count_double s)
    go false ih = ih

read-write : (k len n : ℕ) → read k (write len n) ≡ in_range (k + len) n
read-write k zero n = ap (λ x. in_range k x) (count-double n) ∙ ap (λ x. in_range x n) (omega arith)
read-write k (suc len) n = read-write (suc k) len n ∙ ap (λ x. in_range x n) (omega arith)

in_range-lt : (len n : ℕ) → n < 2 ^ (len * 8) → in_range (0 + len) n ≡ (len, n)
in_range-lt len n h =
    let plain : 0 + len ≡ len = omega arith in
    let small : ltb n (2 ^ (len * 8)) ≡ true = ground (arith, h) in
    ap (λ x. in_range x n) plain ∙ rw small refl

is_hex-strokes : (n : ℕ) → is_hex (double_strokes n) ≡ true
is_hex-strokes zero = refl
is_hex-strokes (suc n) = ground (arith, is_hex-strokes n)

is_hex-write : (len n : ℕ) → is_hex (write len n) ≡ true
is_hex-write zero n = ground (arith, is_hex-strokes n)
is_hex-write (suc len) n = ground (arith, is_hex-write len n)

codecs-IsCodec : IsCodec codecs
codecs-IsCodec = record {
  digits = only_strokes-strokes;
  int_str = count-strokes;
  range = λ job h. read-Fits 0 job;
  is_hex_hex = λ len n h. is_hex-write len n;
  fromhex_hex = λ len n h. read-write 0 len n ∙ in_range-lt len n h;
}

along : derived_hash codecs 3 true "11" ≡ ok "11111"
unfolding derived_hash
along = refl

derived_hash_back_example : derived_hash codecs 3 false "11111" ≡ ok (canonical codecs "11")
derived_hash_back_example = derived_hash_back codecs codecs-IsCodec 3 "11" "11111" along refl

-- One byte, 3.
by_bytes : derived_hash codecs 3 false "11bb111111" ≡ ok "11bb"
unfolding derived_hash shift
by_bytes = refl

odd_length : derived_hash codecs 3 false "a" ≡ err value_error
unfolding derived_hash
odd_length = refl
