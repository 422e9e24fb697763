-- ===== src/Base/Exec.antt =====
-- Methods one after the other: each goes on from the state that the one before left, and an exception ends them.
use mathlib.Core.Path.{◌≡◌, refl, sym, ap, ◌∙◌}
use pydatatask.Base.Results.{Result, ok, err, Exec}

abbrev pub go_on : {S A B : Type 0} → Result A × S → (A → Exec S B) → Result B × S
go_on (ok a, s) f = f a s
go_on (err e, s) f = (err e, s)

infixl 5 ◌>>=◌
unfoldable pub ◌>>=◌ : {S A B : Type 0} → Exec S A → (A → Exec S B) → Exec S B
(m >>= f) s = go_on (m s) f

-- A method that leaves alone what `view` sees of the state.
abbrev pub Spares : {S A V : Type 0} → (S → V) → Exec S A → Type 0
Spares {S} view m = (s : S) → view (m s).1 ≡ view s

pub >>=-Spares :
    {S A B V : Type 0} (view : S → V) (m : Exec S A) (f : A → Exec S B)
    → Spares view m
    → ((a : A) → Spares view (f a))
    → Spares view (m >>= f)
unfolding ◌>>=◌
>>=-Spares {S} {A} {B} view m f h k s = go (m s) (h s)
  where
    go : (r : Result A × S) → view r.1 ≡ view s → view (go_on r f).1 ≡ view s
    go (ok a, t) e = k a t ∙ e
    go (err x, t) e = e

-- A method that establishes `P` where it ends without an exception.
abbrev pub Ensures : {S A : Type 0} → (S → Type 0) → Exec S A → Type 0
Ensures {S} {A} P m = (s : S) (a : A) → (m s).0 ≡ ok a → P (m s).1

pub >>=-Ensures :
    {S A B : Type 0} (P : S → Type 0) (m : Exec S A) (f : A → Exec S B)
    → ((a : A) → Ensures P (f a))
    → Ensures P (m >>= f)
unfolding ◌>>=◌
>>=-Ensures {S} {A} {B} P m f k s b = go (m s)
  where
    go : (r : Result A × S) → (go_on r f).0 ≡ ok b → P (go_on r f).1
    go (ok a, t) h = k a t b h
    go (err x, t) h = cc

pub go_on-ok :
    {S A C : Type 0} (r : Result A × S) (f : A → Exec S C) (c : C)
    → (go_on r f).0 ≡ ok c
    → (a : A) × (r.0 ≡ ok a) × (go_on r f ≡ f a r.1)
go_on-ok (ok a, s) f c h = (a, refl, refl)
go_on-ok (err e, s) f c h = cc

pub go_on_assoc :
    {S A C D : Type 0} (r : Result A × S) (f : A → Exec S C) (g : C → Exec S D)
    → go_on r (λ a s. go_on (f a s) g) ≡ go_on (go_on r f) g
go_on_assoc (ok a, s) f g = refl
go_on_assoc (err e, s) f g = refl

-- Inversion of a sequence that ends without an exception.
pub >>=-ok :
    {S A B : Type 0} (m : Exec S A) (f : A → Exec S B) (s : S) (b : B)
    → ((m >>= f) s).0 ≡ ok b
    → (a : A) × ((m s).0 ≡ ok a) × ((f a (m s).1).0 ≡ ok b)
unfolding ◌>>=◌
>>=-ok m f s b h = let (a, e, q) = go_on-ok (m s) f b h in (a, e, sym (ap (λ r. r.0) q) ∙ h)
