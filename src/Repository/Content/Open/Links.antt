-- ===== src/Repository/Content/Open/Links.antt =====
-- `_open` along symbolic links: how many it follows, and that it ends.
use Prim.Native.Char.{Char}
use pydatatask.Base.{
  ℕ, zero, suc, ◌+◌, ◌≡◌, refl, ◌∙◌, Option, some, List, String, arith, if◌then◌else◌, ltb, leb,
}
use pydatatask.Base.Results.{ok, err, value_error}
use pydatatask.Base.Keys.{Job}
use pydatatask.Repository.{MetadataRepository}
use pydatatask.Repository.Content.Nodes.{Node, node, Nodes}
use pydatatask.Repository.Content.Store.{BlobStore, as_file, as_symlink}
use pydatatask.Repository.Content.Open.{child_at, target_parts, open_at}
use pydatatask.Repository.Content.Open.RoundTrip.{open_at-file}

module _ {M : Type 0} (sep : Char) (meta : MetadataRepository M (Option Nodes)) (m : M)
    (job : Job) where
  -- A link stands at the path, and leads to the other.
  pub record IsLink (path target : List String) : Type 0 where
    pub text : String
    pub child : Node
    pub stands : child_at meta m job path ≡ ok (as_symlink (some text) child)
    pub leads : target_parts sep path text ≡ target

  -- So many links, one after the other.
  pub data Chain : ℕ → List String → List String → Type 0 where
    here : {path : List String} → Chain 0 path path
    link :
        {n : ℕ} {path target last : List String}
        → IsLink path target
        → Chain n target last
        → Chain (suc n) path last

  module _ {B : Type 0} (blobs : BlobStore B) (b : B) where
    open_at-link :
        (path target : List String) (l : IsLink path target) (fuel level : ℕ)
        → open_at sep meta blobs (suc fuel) level m b job path ≡ (
            if ltb 10 level
            then some (err value_error)
            else open_at sep meta blobs fuel (suc level) m b job target)
    open_at-link path target l fuel level = go l.child l.stands
      where
        go :
            (n : Node)
            → child_at meta m job path ≡ ok (as_symlink (some l.text) n)
            → open_at sep meta blobs (suc fuel) level m b job path ≡ (
                if ltb 10 level
                then some (err value_error)
                else open_at sep meta blobs fuel (suc level) m b job target)
        go (node k ns) h = unfold open_at in rw (h, open_at, l.leads) refl

    -- From `level` on, with the calls that are left.
    open_at-Chain_from :
        {n : ℕ} {path last : List String} (hash : String) (size : ℕ) (f : Node)
        → Chain n path last
        → child_at meta m job last ≡ ok (as_file hash size f)
        → (fuel level : ℕ) → level + suc fuel ≡ 12
        → open_at sep meta blobs (suc fuel) level m b job path
          ≡ some (if leb (level + n) 11 then blobs.read hash b else err value_error)
    open_at-Chain_from hash size f here h fuel level e =
        open_at-file sep meta m job hash size blobs b _ f h fuel level ∙ ground arith
    open_at-Chain_from hash size f (link l c) h zero level e =
        open_at-link _ _ l 0 level ∙ ground arith
    open_at-Chain_from hash size f (link {n} l c) h (suc fuel) level e =
        let ih = open_at-Chain_from hash size f c h fuel (suc level) (omega arith) in
        open_at-link _ _ l (suc fuel) level ∙ ground (arith, ih)

    -- At most eleven links are followed. Where a chain of n links leads from a path to a file, opening the
    -- path reads that file's blob if n is at most eleven, and raises ValueError if n is more.
    pub open_at-Chain :
        {n : ℕ} {path last : List String} (hash : String) (size : ℕ) (f : Node)
        → Chain n path last
        → child_at meta m job last ≡ ok (as_file hash size f)
        → open_at sep meta blobs 12 0 m b job path
          ≡ some (if leb n 11 then blobs.read hash b else err value_error)
    open_at-Chain hash size f c h = open_at-Chain_from hash size f c h 11 0 refl ∙ ground arith
