-- ===== src/Repository/Content/Nodes/Follow.antt =====
-- The law of lookup and insertion.
use pydatatask.Base.{
  ◌≡◌, refl, sym, ap, ◌∙◌, Bool, true, false, Option, none, some, List, [], ◌∷◌, String, arith,
  if◌then◌else◌, Bool-cases, inl, inr,
}
use pydatatask.Base.Results.{Result, ok, err, key_error, value_error, ◌>>=◌, >>=-ok}
use pydatatask.Base.Keys.{same, same_iff}
use pydatatask.Repository.Content.Nodes.{
  FilesystemType, directory, file, symlink, Node, Nodes, node, nil, cons, keys_of, blank,
  fresh_directory, find, enter, required, follow, change, within, place,
}

-- The child that is written to: one that is there, or a new one.
abbrev pub found_or : Node → Option Node → Node
found_or new none = new
found_or new (some n) = n

-- What a change has done, at every name.
abbrev pub Changed : String → Node → (Node → Result Node) → Nodes → Nodes → Type 0
Changed x new f ns ms =
    (m : Node) × (f (found_or new (find x ns)) ≡ ok m)
    × ((y : String) → find y ms ≡ (if same x y then some m else find y ns))

find-change :
    (x : String) (new : Node) (f : Node → Result Node) (ns ms : Nodes)
    → change x new f ns ≡ ok ms
    → Changed x new f ns ms
unfolding change find
find-change x new f nil ms h =
    let (m, e, g) = >>=-ok (f new) (λ n. ok (cons x n nil)) ms h in
    let made : ms ≡ cons x m nil = cc in (m, e, λ y. rw made refl)
find-change x new f (cons name n ns) ms h = go (same name x) refl h (find-change x new f ns)
  where
    go :
        (b : Bool)
        → same name x ≡ b
        → (if b
            then (f n >>= λ m. ok (cons name m ns))
            else (change x new f ns >>= λ ms'. ok (cons name n ms')))
          ≡ ok ms
        → ((ms' : Nodes) → change x new f ns ≡ ok ms' → Changed x new f ns ms')
        → Changed x new f (cons name n ns) ms
    go true e k ih =
        let (m, q, g) = >>=-ok (f n) (λ m. ok (cons name m ns)) ms k in
        let made : ms ≡ cons name m ns = cc in
        let here : name ≡ x = (same_iff name x).0 e in
        (m, rw e q, λ y. rw (made, here) (ground arith))
    go false e k ih =
        let (ms', q, g) = >>=-ok (change x new f ns) (λ ms'. ok (cons name n ms')) ms k in
        let (m, made, finds) = ih ms' q in
        let kept : ms ≡ cons name n ms' = cc in
        (
          m,
          rw e made,
          λ y. rw kept (ground (arith, finds y, same_iff name y, same_iff x y, same_iff name x)),
        )

-- What a step on the way has done: the rest of the path is placed below the child of that name, and what
-- is found below it is found along a path through it, before and after.
record Below (x y : String) (path : List String) (f : Node → Node) (ns ms : Nodes) : Type 0 where
  children : Nodes
  placed : Nodes
  below : place (y ∷ path) f children ≡ ok placed
  before : (z : String) (zs : List String) → follow (x ∷ z ∷ zs) ns ≡ follow (z ∷ zs) children
  aside : (w : String) → same x w ≡ false → find w ms ≡ find w ns
  after : (z : String) (zs : List String) → follow (x ∷ z ∷ zs) ms ≡ follow (z ∷ zs) placed

follow-nil : (z : String) (zs : List String) → follow (z ∷ zs) nil ≡ err key_error
unfolding follow
follow-nil z [] = refl
follow-nil z (y ∷ zs) = refl

-- Along a path through a child that is there, or that is not.
follow_through :
    (x z : String) (zs : List String) (o : Option Node) (ns children : Nodes)
    → find x ns ≡ o
    → enter (found_or fresh_directory o) ≡ ok children
    → follow (x ∷ z ∷ zs) ns ≡ follow (z ∷ zs) children
unfolding follow
follow_through x z zs none ns children e h =
    let empty : children ≡ nil = cc in rw (e, empty) (sym (follow-nil z zs))
follow_through x z zs (some n) ns children e h = rw (e, h) refl

enter_kept :
    (n : Node) (children ms : Nodes) → enter n ≡ ok children → enter (node (keys_of n) ms) ≡ ok ms
enter_kept (node k ns) children ms h = go k.type h
  where
    go :
        (o : Option FilesystemType)
        → elim o [
          | none ↦ err key_error
          | some directory ↦ ok ns
          | some file ↦ err value_error
          | some symlink ↦ err value_error
        ]
          ≡ ok children
        → elim o [
          | none ↦ err key_error
          | some directory ↦ ok ms
          | some file ↦ err value_error
          | some symlink ↦ err value_error
        ]
          ≡ ok ms
    go none e = cc
    go (some directory) e = refl
    go (some file) e = cc
    go (some symlink) e = cc

place-Below :
    (x y : String) (path : List String) (f : Node → Node) (ns ms : Nodes)
    → place (x ∷ y ∷ path) f ns ≡ ok ms
    → Below x y path f ns ms
unfolding place
place-Below x y path f ns ms h =
    let put : Nodes → Result Nodes = λ children. place (y ∷ path) f children in
    let (m, made, finds) = find-change x fresh_directory (within put) ns ms h in
    let old : Node = found_or fresh_directory (find x ns) in
    let (children, entered, rest) =
      >>=-ok (enter old) (λ c. put c >>= λ ms'. ok (node (keys_of old) ms')) m made in
    let (placed, below, is_m) = >>=-ok (put children) (λ ms'. ok (node (keys_of old) ms')) m rest in
    let found : find x ms ≡ some (node (keys_of old) placed) =
      finds x ∙ ground (arith, same_iff x x, is_m) in
    record {
      children = children;
      placed = placed;
      below = below;
      before = λ z zs. follow_through x z zs (find x ns) ns children refl entered;
      aside = λ w e. finds w ∙ rw e;
      after = λ z zs.
          follow_through x z zs (some (node (keys_of old) placed)) ms placed found
            (enter_kept old children placed entered);
    }

abbrev pub reached : Result Node → Option Node
reached (ok n) = some n
reached (err e) = none

reached-required : (o : Option Node) → reached (required o) ≡ o
reached-required none = refl
reached-required (some n) = refl

-- After a child has been placed at a path, that path leads to it: to what was made of the child that was
-- there, or of a new one.
pub follow-place :
    (path : List String) (f : Node → Node) (ns ms : Nodes)
    → place path f ns ≡ ok ms
    → follow path ms ≡ ok (f (found_or blank (reached (follow path ns))))
follow-place [] f ns ms h = absurd (unfold place in cc h)
follow-place (x ∷ []) f ns ms h =
    let (m, made, finds) = find-change x blank (λ n. ok (f n)) ns ms (unfold place in h) in
    let found : find x ms ≡ some m = finds x ∙ ground (arith, same_iff x x) in
    unfold follow in
    ap required found
    ∙ sym made
    ∙ ap (λ o. ok (f (found_or blank o))) (sym (reached-required (find x ns)))
follow-place (x ∷ y ∷ path) f ns ms h =
    let b = place-Below x y path f ns ms h in
    b.after y path
    ∙ follow-place (y ∷ path) f b.children b.placed b.below
    ∙ ap (λ r. ok (f (found_or blank (reached r)))) (sym (b.before y path))

-- Two paths that part somewhere.
abbrev pub apart : List String → List String → Bool
apart [] ys = false
apart (x ∷ xs) [] = false
apart (x ∷ xs) (y ∷ ys) = if same x y then apart xs ys else true

-- Where they part at once, only the first part is looked at.
follow_first :
    (y : String) (ys : List String) (ns ms : Nodes)
    → find y ms ≡ find y ns
    → follow (y ∷ ys) ms ≡ follow (y ∷ ys) ns
unfolding follow
follow_first y [] ns ms e = ap required e
follow_first y (z ∷ zs) ns ms e = rw e refl

-- A placed child does not change what any path finds that parts from its own.
pub follow-place-apart :
    (path other : List String) (f : Node → Node) (ns ms : Nodes)
    → place path f ns ≡ ok ms
    → apart path other ≡ true
    → follow other ms ≡ follow other ns
follow-place-apart [] other f ns ms h k = absurd (cc k)
follow-place-apart (x ∷ xs) [] f ns ms h k = absurd (cc k)
follow-place-apart (x ∷ []) (y ∷ ys) f ns ms h k =
    let (m, made, finds) = find-change x blank (λ n. ok (f n)) ns ms (unfold place in h) in
    follow_first y ys ns ms (finds y ∙ ground (arith, k))
follow-place-apart (x ∷ x' ∷ xs) (y ∷ []) f ns ms h k =
    let b = place-Below x x' xs f ns ms h in follow_first y [] ns ms (b.aside y (ground (arith, k)))
follow-place-apart (x ∷ x' ∷ xs) (y ∷ z ∷ zs) f ns ms h k =
    let b = place-Below x x' xs f ns ms h in
    elim (Bool-cases (same x y)) [
      | inr e ↦ follow_first y (z ∷ zs) ns ms (b.aside y e)
      | inl e ↦
          let here : x ≡ y = (same_iff x y).0 e in
          let ih =
            follow-place-apart (x' ∷ xs) (z ∷ zs) f b.children b.placed b.below
              (ground (arith, k, e)) in
          rw (← here) (b.after z zs ∙ ih ∙ sym (b.before z zs))
    ]
