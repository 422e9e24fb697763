-- ===== src/Repository/Content/Walk.antt =====
-- `walk`, and `iter_members` of `FilesystemRepository` over it. The queue has its last item first. `_splitdirs` and
-- `_splitlinks` are `partition`, which gives the entries where the test is false and then those where it is true.
pub mod Rows
pub mod Members
mod Tests
use Prim.Native.String.{◌++◌ as append}
use pydatatask.Base.{
  ℕ, zero, suc, Bool, true, false, not, Option, none, some, List, [], ◌∷◌, ◌++◌, map, String,
  if◌then◌else◌,
}
use pydatatask.Base.Results.{Result, ok, err, Error, key_error, type_error, value_error, ◌>>=◌}
use pydatatask.Base.Keys.{Job, Dict, get, insert}
use pydatatask.Repository.{MetadataRepository}
use pydatatask.Repository.Content.Nodes.{
  FilesystemType, file, directory, symlink, Node, Nodes, nil, cons, keys_of,
}
use pydatatask.Repository.Content.Open.{is_type, required_key, readlink, get_regular_meta}

abbrev pub Entry : Type 0
Entry = String × Node

abbrev pub entries : Nodes → List Entry
entries nil = []
entries (cons name n ns) = (name, n) ∷ entries ns

-- `elem["type"] == ...`
abbrev pub has_type : FilesystemType → Entry → Result Bool
has_type t e = do u ← required_key (keys_of e.1).type; ok (is_type u t)

abbrev pub split_entry : Bool → Entry → List Entry × List Entry → List Entry × List Entry
split_entry false e (others, hits) = (e ∷ others, hits)
split_entry true e (others, hits) = (others, e ∷ hits)

unfoldable pub partition : (Entry → Result Bool) → List Entry → Result (List Entry × List Entry)
partition pred [] = ok ([], [])
partition pred (e ∷ es) = do hit ← pred e; rest ← partition pred es; ok (split_entry hit e rest)

-- A listing, or the dictionary of a directory.
pub data Item : Type 0 where
  listing : Nodes → Item
  mapping : Node → Item

-- What the loops over `meta` go through: the keys of a dictionary are texts, which have no item
-- "type".
unfoldable pub iterate : Item → Result (List Entry)
iterate (listing ns) = ok (entries ns)
iterate (mapping n) = err type_error

pub record Row : Type 0 where
  pub top : String
  pub dirs : List String
  pub regs : List String
  pub links : List String

abbrev pub prefixed : String → Entry → String
prefixed path e = append path e.0

-- `dict(zip(names, dirs))`
abbrev pub dir_mapping : String → List Entry → Dict Node → Dict Node
dir_mapping path [] d = d
dir_mapping path (e ∷ es) d = dir_mapping path es (insert (prefixed path e) e.1 d)

abbrev pub pushed : List String → Dict Node → List (Item × String) → List (Item × String)
pushed [] d queue = queue
pushed (name ∷ names) d queue = elim (get name d) [
  | none ↦ pushed names d queue
  | some n ↦ pushed names d ((mapping n, name) ∷ queue)
]

-- A round of the loop: the row that it yields, and what it puts in the queue.
unfoldable pub visit : Item → String → List (Item × String) → Result (Row × List (Item × String))
unfolding partition iterate
visit item path queue = do
  es ← iterate item
  (nondirs, dirs) ← partition (has_type directory) es
  (links, regs) ← partition (has_type symlink) nondirs
  let dir_names = map (prefixed path) dirs
  ok (
    record {
      top = path;
      dirs = dir_names;
      regs = map (prefixed path) regs;
      links = map (prefixed path) links;
    },
    pushed dir_names (dir_mapping path dirs []) queue,
  )

module _ {M : Type 0} (sep : String) (meta : MetadataRepository M (Option Nodes)) where
  -- What has been yielded, and the exception that ends it.
  abbrev pub Yielded {ℓ} : Type ℓ → Type ℓ
  Yielded A = List A × Option Error

  abbrev pub yield_first : {A : Type 0} → A → Option (Yielded A) → Option (Yielded A)
  yield_first a none = none
  yield_first a (some (rows, e)) = some (a ∷ rows, e)

  abbrev pub after_visit :
      (List (Item × String) → Option (Yielded Row))
      → Result (Row × List (Item × String))
      → Option (Yielded Row)
  after_visit again (err e) = some ([], some e)
  after_visit again (ok (row, queue)) = yield_first row (again queue)

  unfoldable pub walk_loop : ℕ → List (Item × String) → Option (Yielded Row)
  unfolding visit
  walk_loop zero queue = none
  walk_loop (suc fuel) [] = some ([], none)
  walk_loop (suc fuel) ((item, path) ∷ queue) =
      after_visit (λ q. walk_loop fuel q) (visit item path queue)

  abbrev pub walk_from : Result (Option Nodes) → Option (Yielded Row)
  walk_from (err e) = some ([], some e)
  walk_from (ok none) = some ([], some value_error)
  walk_from (ok (some ns)) = walk_loop 3 ((listing ns, sep) ∷ [])

  -- A second round always raises, so there are at most two, and an empty queue behind them.
  unfoldable pub walk : M → Job → Option (Yielded Row)
  unfolding walk_loop
  walk m job = walk_from (meta.info m job)
