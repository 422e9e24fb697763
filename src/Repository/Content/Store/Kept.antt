-- ===== src/Repository/Content/Store/Kept.antt =====
-- What the rounds of `dump` keep of a file.
use Prim.Native.Char.{Char}
use pydatatask.Base.{
  ◌≡◌, refl, sym, ap, ◌∙◌, inl, inr, true, none, some, List, [], ◌∷◌, ◌++◌, length, String,
  Bool-cases, All, fun_ext,
}
use pydatatask.Base.Results.{ok}
use pydatatask.Base.Exec.{go_on, go_on-ok, go_on_assoc}
use pydatatask.Base.Keys.{same, same_iff, same_refl}
use pydatatask.Repository.Blob.{Bytes}
use pydatatask.Repository.Content.Nodes.{file, Node, Nodes, blank, follow, place}
use pydatatask.Repository.Content.Nodes.Follow.{apart, follow-place-apart}
use pydatatask.Repository.Content.Store.{
  BlobStore, FilesystemEntry, as_file, parts_of, put_file, put_at, put, put_all,
}
use pydatatask.Repository.Content.Nodes.Follow.{follow-place, found_or, reached}
use pydatatask.Repository.Content.Store.Rounds.{
  IsKeyed, Writes, Filed, put_file-Filed, put_at-Round,
}

-- Entries whose paths part from a path.
abbrev pub Others : Char → List String → List FilesystemEntry → Type 0
Others sep path es = All (λ e. apart (parts_of sep e.name none) path ≡ true) es

module _ {B : Type 0} (sha256 : Bytes → String) (blobs : BlobStore B) where
  module _ (sep : Char) where
    pub put_all-append :
        (es fs : List FilesystemEntry) (meta : Nodes) (b : B)
        → put_all sha256 blobs sep (es ++ fs) meta b
          ≡ go_on (put_all sha256 blobs sep es meta b) (put_all sha256 blobs sep fs)
    unfolding put_all
    put_all-append [] fs meta b = refl
    put_all-append (e ∷ es) fs meta b =
        ap (go_on (put sha256 blobs sep e meta b))
          (fun_ext (λ ns. fun_ext (λ b'. put_all-append es fs ns b')))
        ∙ go_on_assoc (put sha256 blobs sep e meta b) (put_all sha256 blobs sep es)
            (put_all sha256 blobs sep fs)

    -- What a stored file needs of the rounds after its own: other paths, and no other contents under its hash.
    module _ (keyed : IsKeyed blobs) (path : List String) (c : Bytes)
        (no_collision : (d : Bytes) → sha256 d ≡ sha256 c → d ≡ c) where
      kept :
          (b b' : B)
          → Writes sha256 blobs b b'
          → blobs.read (sha256 c) b ≡ ok c
          → blobs.read (sha256 c) b' ≡ ok c
      kept b b' (inl same_store) h = rw same_store h
      kept b b' (inr (d, written, e)) h = elim (Bool-cases (same (sha256 d) (sha256 c))) [
        | inl hit ↦ rw e (
            keyed (sha256 d) d b written (sha256 c)
            ∙ rw (hit, no_collision d ((same_iff (sha256 d) (sha256 c)).0 hit)) refl)
        | inr miss ↦ rw e (keyed (sha256 d) d b written (sha256 c) ∙ rw miss h)
      ]

      pub put_all-keeps :
          (es : List FilesystemEntry) (meta : Nodes) (b : B) (ns : Nodes)
          → Others sep path es
          → (put_all sha256 blobs sep es meta b).0 ≡ ok ns
          → blobs.read (sha256 c) b ≡ ok c
          → (follow path ns ≡ follow path meta)
            × (blobs.read (sha256 c) (put_all sha256 blobs sep es meta b).1 ≡ ok c)
      unfolding put_all put
      put_all-keeps [] meta b ns others h r = (ap (follow path) (let e : ns ≡ meta = cc in e), r)
      put_all-keeps (e ∷ es) meta b ns others h r =
          let (meta', e1, e2) =
            go_on-ok (put sha256 blobs sep e meta b) (put_all sha256 blobs sep es) ns h in
          let round =
            put_at-Round sha256 blobs e.type (parts_of sep e.name none) e meta b meta' e1 in
          let b' = (put sha256 blobs sep e meta b).1 in
          let (same_path, read) =
            put_all-keeps es meta' b' ns others.1 (sym (ap (λ r. r.0) e2) ∙ h)
              (kept b b' round.writes r) in
          (
            same_path
                ∙ follow-place-apart (parts_of sep e.name none) path round.made meta meta'
                    (sym round.placed ∙ e1) others.0,
            rw e2 read,
          )

      -- After its own round a file is kept.
      Filed-kept :
          (e : FilesystemEntry) (later : List FilesystemEntry) (b : B) (meta ns : Nodes)
          → Filed sha256 blobs path (some c) meta b (put sha256 blobs sep e meta b)
          → Others sep path later
          → (put_all sha256 blobs sep (e ∷ later) meta b).0 ≡ ok ns
          → ((n : Node) × (follow path ns ≡ ok (as_file (sha256 c) (length c) n)))
            × (blobs.read (sha256 c) (put_all sha256 blobs sep (e ∷ later) meta b).1 ≡ ok c)
      unfolding put_all
      Filed-kept e later b meta ns filed others h =
          let (meta', h', q) =
            go_on-ok (put sha256 blobs sep e meta b) (put_all sha256 blobs sep later) ns h in
          let b' = (put sha256 blobs sep e meta b).1 in
          let is_c : filed.contents ≡ c = (let g = filed.given in cc) in
          let store : b' ≡ (blobs.write (sha256 c) c b).1 =
            ap (λ r. r.1) filed.result ∙ rw is_c refl in
          let written : (blobs.write (sha256 c) c b).0 ≡ ok tt = rw (← is_c) filed.written in
          let placed : place path (as_file (sha256 c) (length c)) meta ≡ ok meta' =
            rw (← is_c) (sym (ap (λ r. r.0) filed.result) ∙ h') in
          let read' : blobs.read (sha256 c) b' ≡ ok c =
            rw store (keyed (sha256 c) c b written (sha256 c) ∙ rw (same_refl (sha256 c)) refl) in
          let (same_path, read) =
            put_all-keeps later meta' b' ns others (sym (ap (λ r. r.0) q) ∙ h) read' in
          (
            (
              found_or blank (reached (follow path meta)),
              same_path ∙ follow-place path _ meta meta' placed,
            ),
            rw q read,
          )

      put-file :
          (e : FilesystemEntry) (meta : Nodes) (b : B)
          → e.type ≡ file
          → e.bytes ≡ some c
          → parts_of sep e.name none ≡ path
          → put sha256 blobs sep e meta b
            ≡ put_file sha256 blobs path (some c) e.content_hash meta b
      unfolding put put_at
      put-file e meta b is_file given at = rw (is_file, given, at) refl

      pub put_all-keeps_file :
          (es : List FilesystemEntry) (e : FilesystemEntry) (later : List FilesystemEntry) (b : B)
          (meta ns : Nodes)
          → e.type ≡ file
          → e.bytes ≡ some c
          → parts_of sep e.name none ≡ path
          → Others sep path later
          → (put_all sha256 blobs sep (es ++ e ∷ later) meta b).0 ≡ ok ns
          → ((n : Node) × (follow path ns ≡ ok (as_file (sha256 c) (length c) n)))
            × (blobs.read (sha256 c) (put_all sha256 blobs sep (es ++ e ∷ later) meta b).1 ≡ ok c)
      put_all-keeps_file es e later b meta ns is_file given at others h =
          let split = put_all-append es (e ∷ later) meta b in
          let (meta1, h1, q1) =
            go_on-ok (put_all sha256 blobs sep es meta b) (put_all sha256 blobs sep (e ∷ later)) ns
              (sym (ap (λ r. r.0) split) ∙ h) in
          let b1 = (put_all sha256 blobs sep es meta b).1 in
          let all = split ∙ q1 in
          let h2 : (put_all sha256 blobs sep (e ∷ later) meta1 b1).0 ≡ ok ns =
            sym (ap (λ r. r.0) all) ∙ h in
          let is_put : put sha256 blobs sep e meta1 b1
              ≡ put_file sha256 blobs path (some c) e.content_hash meta1 b1 =
            put-file e meta1 b1 is_file given at in
          let (meta2, h3, q2) =
            go_on-ok (put sha256 blobs sep e meta1 b1) (put_all sha256 blobs sep later) ns
              (unfold put_all in h2) in
          let filed =
            put_file-Filed sha256 blobs path (some c) e.content_hash meta1 b1 meta2
              (sym (ap (λ r. r.0) is_put) ∙ h3) in
          rw all (Filed-kept e later b1 meta1 ns (rw is_put filed) others h2)
