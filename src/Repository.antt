-- ===== src/Repository.antt =====
-- pydatatask/repository/base.py: the repository classes and combinators. An object of a class is a record
-- of its methods, so that a combinator calls its parts as the code does, by dynamic dispatch. `S` is
-- the state that the objects share; a method that only reads is a function of it. An iterator is
-- the list of what it yields, and an error in the middle is an error of the whole.
pub mod JobId
pub mod Filters
pub mod Aggregate
pub mod Related
pub mod InProcess
pub mod Blob
pub mod Content
use pydatatask.Base.{Bool, true, false, Option, none, some, List, [], ◌∷◌, if◌then◌else◌, ◌≡◌}
use pydatatask.Base.Results.{Result, ok, err, Exec, ◌>>=◌}
use pydatatask.Base.Keys.{Job, Dict, mem, insert}

-- What every class implements.
pub record Repository (S : Type 0) : Type 0 where
  pub unfiltered_iter : S → Result (List Job)
  pub contains : S → Job → Result Bool
  pub delete : Job → Exec S (Unit {0})

pub record MetadataRepository (S V : Type 0) : Type 0 where
  pub repository : Repository S
  pub open repository use *
  pub info : S → Job → Result V
  pub info_all : S → Result (Dict V)
  pub dump : Job → V → Exec S (Unit {0})

-- What a repository holds in a state: the iteration and the membership test agree on it.
pub record IsView {S : Type 0} (r : Repository S) (s : S) (items : List Job) : Type 0 where
  pub iterates : r.unfiltered_iter s ≡ ok items
  pub decides : (x : Job) → r.contains s x ≡ ok (mem x items)

-- `all`, `any` and the loops over children, where a child may raise.
module _ {A : Type 0} where
  unfoldable pub filter_ok : (A → Result Bool) → List A → Result (List A)
  filter_ok f [] = ok []
  filter_ok f (x ∷ xs) = do keep ← f x; rest ← filter_ok f xs; ok (if keep then x ∷ rest else rest)
