-- ===== src/Task/Hash/Back.antt =====
-- Deriving along a link and back.
use native.Mathlib.Nat.{mod-add-mod, add-mul-mod_self_left, mod-eq_of_lt, mod-add-div, mod-lt}
use pydatatask.Base.{
  ℕ, suc, ◌+◌, ◌-◌, ◌*◌, ◌/◌, ◌%◌, ◌^◌, ◌<◌, ◌≡◌, refl, sym, ap, ◌∙◌, Bool, true, false, arith, ltb,
  if◌then◌else◌, Bool-cases, inl, inr, ltb→lt,
}
use pydatatask.Base.Results.{ok, err, value_error}
use pydatatask.Base.Keys.{Job}
use pydatatask.Task.Hash.{is_hex, derive_hex, Codecs, shift, is_decimal, derived_hash}

shift_back : (m h n : ℕ) → n < m → shift m h false (shift m h true n) ≡ n
unfolding shift
shift_back m h n lt =
    let whole : h % m + m * (h / m) ≡ h = mod-add-div h m in
    let small : h % m < m = mod-lt h (omega arith) in
    let one_more : m * suc (h / m) ≡ m * (h / m) + m = grind arith in
    let turns : n + h + (m - h % m) ≡ n + m * suc (h / m) = omega (arith, whole, small, one_more) in
    mod-add-mod (n + h) m (m - h % m)
    ∙ ap (λ x. x % m) turns
    ∙ add-mul-mod_self_left n m (suc (h / m))
    ∙ mod-eq_of_lt lt

shift-lt : (m h n : ℕ) → n < m → shift m h true n < m
unfolding shift
shift-lt m h n lt = mod-lt (n + h) (omega arith)

-- What Python's readings of texts do: printing a number and reading it again, and the range of bytes.
pub record IsCodec (c : Codecs) : Type 0 where
  pub digits : (n : ℕ) → c.isdigit (c.str n) ≡ true
  pub int_str : (n : ℕ) → c.int (c.str n) ≡ n
  pub range : (job : Job) → is_hex job ≡ true → (c.fromhex job).1 < 2 ^ ((c.fromhex job).0 * 8)
  pub is_hex_hex : (len n : ℕ) → n < 2 ^ (len * 8) → is_hex (c.hex len n) ≡ true
  pub fromhex_hex : (len n : ℕ) → n < 2 ^ (len * 8) → c.fromhex (c.hex len n) ≡ (len, n)

module _ (c : Codecs) where
  -- The usual text for what a job stands for: without zeros in front, in lower case.
  abbrev pub canonical : Job → Job
  canonical job =
      if is_decimal c job then c.str (c.int job) else c.hex (c.fromhex job).0 (c.fromhex job).1

  module _ (k : IsCodec c) (hashed : ℕ) where
    derived_decimal :
        (along : Bool) (n : ℕ)
        → n < 2 ^ 64
        → derived_hash c hashed along (c.str n) ≡ ok (c.str (shift (2 ^ 64) hashed along n))
    unfolding derived_hash
    derived_decimal along n h =
        let small : ltb n (2 ^ 64) ≡ true = ground arith in rw (k.digits n, k.int_str n, small) refl

    derived_hex :
        (along : Bool) (job : Job)
        → is_decimal c job ≡ false
        → is_hex job ≡ true
        → derived_hash c hashed along job ≡ ok (derive_hex c hashed along (c.fromhex job))
    unfolding derived_hash
    derived_hex along job d h = rw (d, h) refl

    back_decimal :
        (job job' : Job)
        → is_decimal c job ≡ true
        → derived_hash c hashed true job ≡ ok job'
        → derived_hash c hashed false job' ≡ ok (c.str (c.int job))
    back_decimal job job' d h =
        let small : c.int job < 2 ^ 64 = ltb→lt (c.int job) (2 ^ 64) (ground (arith, d)) in
        let m = shift (2 ^ 64) hashed true (c.int job) in
        let is : job' ≡ c.str m =
          (let e : ok (c.str m) ≡ ok job' = unfold derived_hash in rw d at h in cc) in
        ap (derived_hash c hashed false) is
        ∙ derived_decimal false m (shift-lt (2 ^ 64) hashed (c.int job) (omega arith))
        ∙ ap (λ x. ok (c.str x)) (shift_back (2 ^ 64) hashed (c.int job) small)

    back_hex :
        (job job' : Job)
        → is_decimal c job ≡ false
        → is_decimal c job' ≡ false
        → is_hex job ≡ true
        → derived_hash c hashed true job ≡ ok job'
        → derived_hash c hashed false job' ≡ ok (c.hex (c.fromhex job).0 (c.fromhex job).1)
    back_hex job job' d d' e h =
        let len = (c.fromhex job).0 in
        let n = (c.fromhex job).1 in
        let small : n < 2 ^ (len * 8) = k.range job e in
        let m = shift (2 ^ (len * 8)) hashed true n in
        let less : m < 2 ^ (len * 8) = shift-lt (2 ^ (len * 8)) hashed n small in
        let is : job' ≡ c.hex len m = (let q = sym (derived_hex true job d e) ∙ h in cc) in
        let e' : is_hex job' ≡ true = ap (λ (x : Job). is_hex x) is ∙ k.is_hex_hex len m less in
        let read : c.fromhex job' ≡ (len, m) = ap c.fromhex is ∙ k.fromhex_hex len m less in
        derived_hex false job' d' e'
        ∙ ap (λ x. ok (derive_hex c hashed false x)) read
        ∙ ap (λ x. ok (c.hex len x)) (shift_back (2 ^ (len * 8)) hashed n small)

    -- Deriving a job along a link and then back gives the usual text of the job, for every hash of the link, if the derived
    -- job is read like the job itself: both as a decimal below 2^64, or neither. The texts that are printed for numbers and for bytes
    -- are taken to be read back as what they were printed for.
    pub derived_hash_back :
        (job job' : Job)
        → derived_hash c hashed true job ≡ ok job'
        → is_decimal c job' ≡ is_decimal c job
        → derived_hash c hashed false job' ≡ ok (canonical job)
    derived_hash_back job job' h alike = elim (Bool-cases (is_decimal c job)) [
      | inl d ↦ rw d (back_decimal job job' d h)
      | inr d ↦ elim (Bool-cases (is_hex job)) [
        | inl e ↦ rw d (back_hex job job' d (alike ∙ d) e h)
        | inr e ↦ absurd (
            let no : derived_hash c hashed true job ≡ err value_error =
              unfold derived_hash in rw (d, e) refl in
            cc (sym no ∙ h))
      ]
    ]
