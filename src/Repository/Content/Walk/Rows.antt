-- ===== src/Repository/Content/Walk/Rows.antt =====
-- What `walk` yields, against the listing.
use pydatatask.Base.{
  ◌≡◌, refl, ◌∙◌, Bool, true, false, Option, none, some, List, [], ◌∷◌, map, String, if◌then◌else◌,
  All,
}
use pydatatask.Base.Results.{ok, Error, type_error}
use pydatatask.Base.Keys.{Job, Dict, get, insert, get-insert, same, same_refl}
use pydatatask.Repository.{MetadataRepository}
use pydatatask.Repository.Content.Nodes.{
  FilesystemType, file, directory, symlink, Node, Nodes, keys_of,
}
use pydatatask.Repository.Content.Open.{is_type}
use pydatatask.Repository.Content.Walk.{
  Entry, entries, has_type, partition, Item, listing, mapping, Row, prefixed, dir_mapping, pushed,
  visit, walk, walk_loop, iterate,
}

-- The entries of a type, and the others.
abbrev pub is_of : FilesystemType → Option FilesystemType → Bool
is_of t none = false
is_of t (some u) = is_type u t

abbrev pub of_type : FilesystemType → List Entry → List Entry
of_type t [] = []
of_type t (e ∷ es) = if is_of t (keys_of e.1).type then e ∷ of_type t es else of_type t es

abbrev pub others : FilesystemType → List Entry → List Entry
others t [] = []
others t (e ∷ es) = if is_of t (keys_of e.1).type then others t es else e ∷ others t es

abbrev pub Typed : List Entry → Type 0
Typed es = All (λ e. (t : FilesystemType) × ((keys_of e.1).type ≡ some t)) es

partition-Typed :
    (t : FilesystemType) (es : List Entry)
    → Typed es
    → partition (has_type t) es ≡ ok (others t es, of_type t es)
unfolding partition
partition-Typed t [] h = refl
partition-Typed t (e ∷ es) ((u, q), rest) = go (is_type u t) refl (partition-Typed t es rest)
  where
    go :
        (b : Bool)
        → is_type u t ≡ b
        → partition (has_type t) es ≡ ok (others t es, of_type t es)
        → partition (has_type t) (e ∷ es) ≡ ok (others t (e ∷ es), of_type t (e ∷ es))
    go true k ih = rw (q, k, ih) refl
    go false k ih = rw (q, k, ih) refl

others-Typed : (t : FilesystemType) (es : List Entry) → Typed es → Typed (others t es)
others-Typed t [] h = h
others-Typed t (e ∷ es) (h, rest) = go (is_of t (keys_of e.1).type) (others-Typed t es rest)
  where
    go : (b : Bool) → Typed (others t es) → Typed (if b then others t es else e ∷ others t es)
    go true ih = ih
    go false ih = (h, ih)

-- Behind the directories, what is not a link is a file.
links_left :
    (es : List Entry) → Typed es → of_type symlink (others directory es) ≡ of_type symlink es
links_left [] h = refl
links_left (e ∷ es) ((directory, q), h) = rw q (links_left es h)
links_left (e ∷ es) ((symlink, q), h) = rw (q, q, links_left es h) refl
links_left (e ∷ es) ((file, q), h) = rw (q, q, links_left es h) refl

files_left : (es : List Entry) → Typed es → others symlink (others directory es) ≡ of_type file es
files_left [] h = refl
files_left (e ∷ es) ((directory, q), h) = rw q (files_left es h)
files_left (e ∷ es) ((symlink, q), h) = rw (q, q, files_left es h) refl
files_left (e ∷ es) ((file, q), h) = rw (q, q, files_left es h) refl

abbrev GivenIn : String → Dict Node → Type 0
GivenIn k d = (n : Node) × (get k d ≡ some n)

given-insert : (k x : String) (n : Node) (d : Dict Node) → GivenIn k d → GivenIn k (insert x n d)
given-insert k x n d (m, h) = go (same x k) refl
  where
    go : (b : Bool) → same x k ≡ b → GivenIn k (insert x n d)
    go true e = (n, get-insert x k n d ∙ rw e refl)
    go false e = (m, get-insert x k n d ∙ rw e h)

given-mapping :
    (path : String) (es : List Entry) (k : String) (d : Dict Node)
    → GivenIn k d
    → GivenIn k (dir_mapping path es d)
given-mapping path [] k d h = h
given-mapping path (e ∷ es) k d h =
    given-mapping path es k (insert (prefixed path e) e.1 d)
      (given-insert k (prefixed path e) e.1 d h)

-- The queue has a dictionary on top, once it has one.
abbrev OnTop : List (Item × String) → Type 0
OnTop queue =
    (n : Node) × (x : String) × (rest : List (Item × String)) × (queue ≡ (mapping n, x) ∷ rest)

pushed-OnTop :
    (names : List String) (d : Dict Node) (queue : List (Item × String))
    → OnTop queue
    → OnTop (pushed names d queue)
pushed-OnTop [] d queue h = h
pushed-OnTop (name ∷ names) d queue h =
    go (get name d) refl (pushed-OnTop names d queue h)
      (λ n. pushed-OnTop names d ((mapping n, name) ∷ queue) (n, name, queue, refl))
  where
    go :
        (o : Option Node)
        → get name d ≡ o
        → OnTop (pushed names d queue)
        → ((n : Node) → OnTop (pushed names d ((mapping n, name) ∷ queue)))
        → OnTop (pushed (name ∷ names) d queue)
    go none e skip push = rw (e, pushed) skip
    go (some n) e skip push = rw (e, pushed) (push n)

pushed_dirs :
    (path : String) (e : Entry) (es : List Entry)
    → OnTop (pushed (map (prefixed path) (e ∷ es)) (dir_mapping path (e ∷ es) []) [])
pushed_dirs path e es =
    let (n, found) = given-mapping path es (prefixed path e) (insert (prefixed path e) e.1 []) (
      e.1,
      get-insert (prefixed path e) (prefixed path e) e.1 [] ∙ rw (same_refl (prefixed path e)) refl,
    ) in
    rw (found, pushed)
      (pushed-OnTop (map (prefixed path) es) (dir_mapping path (e ∷ es) [])
        ((mapping n, prefixed path e) ∷ []) (n, prefixed path e, [], refl))

abbrev row_of : String → List Entry → Row
row_of path es = record {
  top = path;
  dirs = map (prefixed path) (of_type directory es);
  regs = map (prefixed path) (of_type symlink es);
  links = map (prefixed path) (of_type file es);
}

abbrev error_of : List Entry → Option Error
error_of [] = none
error_of (e ∷ es) = some type_error

visit-listing :
    (path : String) (ns : Nodes)
    → Typed (entries ns)
    → visit (listing ns) path []
      ≡ ok (
        row_of path (entries ns),
        pushed
            (map (prefixed path) (of_type directory (entries ns)))
            (dir_mapping path (of_type directory (entries ns)) [])
            [],
      )
unfolding visit iterate
visit-listing path ns h =
    let es = entries ns in
    rw
      (
        partition-Typed directory es h,
        partition-Typed symlink (others directory es) (others-Typed directory es h),
        links_left es h,
        files_left es h,
      )
      refl

module _ {M : Type 0} (sep : String) (meta : MetadataRepository M (Option Nodes)) where
  second_round :
      (es : List Entry)
      → walk_loop sep meta 2 (pushed (map (prefixed sep) es) (dir_mapping sep es []) [])
        ≡ some ([], error_of es)
  unfolding walk_loop
  second_round [] = refl
  second_round (e ∷ es) = let (n, x, rest, q) = pushed_dirs sep e es in rw q refl

  -- `walk` yields one row, with the names of the top directory's files as links and of its links as files; then it ends, or, if there is a directory
  -- among them, raises TypeError. That is so where every entry has a type.
  pub walk-rows :
      (m : M) (job : Job) (ns : Nodes)
      → meta.info m job ≡ ok (some ns)
      → Typed (entries ns)
      → walk sep meta m job
        ≡ some (row_of sep (entries ns) ∷ [], error_of (of_type directory (entries ns)))
  unfolding walk
  walk-rows m job ns h typed =
      rw (h, walk_loop, visit-listing sep ns typed, second_round (of_type directory (entries ns)))
        refl
