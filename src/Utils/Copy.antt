-- ===== src/Utils/Copy.antt =====
-- `async_copyfile` of pydatatask/utils.py: blocks are read from one stream and written to another until a
-- read gives no bytes. The streams are whatever the caller passes: an interface with the laws that
-- the loop relies on. (`async_copyfile_str` is the same loop over characters.)
pub mod Whole
pub mod Tests
use pydatatask.Base.{
  ℕ, zero, suc, ◌≡◌, Option, none, some, List, [], ◌∷◌, ◌++◌, ◌*◌, ◌≤◌, ◌<◌, length,
}

-- A source whose reads neither wait for ever nor fail. `contents` is what is still to be read; a read gives up to as
-- many items as it is asked for, off the front, and none only at the end.
pub record Source (A : Type 0) : Type 1 where
  pub State : Type 0
  pub read : ℕ → State → List A × State
  pub contents : State → List A
  pub read_front : (n : ℕ) (s : State) → contents s ≡ (read n s).0 ++ contents (read n s).1
  pub read_up_to : (n : ℕ) (s : State) → length (read n s).0 ≤ n
  pub read_end : (n : ℕ) (s : State) → 0 < n → (read n s).0 ≡ [] → contents s ≡ []

-- A sink. `received` is what was written so far.
pub record Sink (A : Type 0) : Type 1 where
  pub State : Type 0
  pub write : List A → State → State
  pub received : State → List A
  pub write_appends : (xs : List A) (s : State) → received (write xs s) ≡ received s ++ xs

abbrev pub blocksize : ℕ
blocksize = 1024 * 16

module _ {A : Type 0} (from : Source A) (to : Sink A) where
  open from use {State as From, read}
  open to use {State as To, write}

  -- The body behind the read: `if not data: break`, `await copyto.write(data)`. `none` is a loop
  -- that goes on beyond its fuel.
  unfoldable pub copy : ℕ → ℕ → From → To → Option (From × To)
  copy zero n s t = none
  copy (suc fuel) n s t =
      let (block, s') = read n s in
      elim block [ [] ↦ some (s', t) | x ∷ xs ↦ copy fuel n s' (write (x ∷ xs) t) ]
