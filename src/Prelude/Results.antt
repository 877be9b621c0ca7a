-- ===== src/Prelude/Results.antt =====
-- Fallible code: `Result<A, E>` and its `?` operator.
use mathlib.Core.Path.{◌≡◌, refl, subst}
use mathlib.Core.Bool.{Bool, true, false}
use mathlib.Core.List.{List, [], ◌∷◌}
use mathlib.Core.Option.{Option, none, some}

pub data Result {ℓ} (E : Type 0) (A : Type ℓ) : Type ℓ where
  ok : A → Result E A
  err : E → Result E A

infixl 5 ◌>>=◌ ◌>>◌
abbrev pub ◌>>=◌ {ℓ κ} :
    {E : Type 0} {A : Type ℓ} {B : Type κ} → Result E A → (A → Result E B) → Result E B
ok a >>= f = f a
err e >>= f = err e

abbrev pub ◌>>◌ {ℓ} : {E : Type 0} {B : Type ℓ} → Result E (Unit {0}) → Result E B → Result E B
m >> k = m >>= λ _. k

-- `if !ok { return Err(e) }`.
abbrev pub guard : {E : Type 0} → Bool → E → Result E (Unit {0})
guard true e = ok tt
guard false e = err e

abbrev pub ok_or {ℓ} : {E : Type 0} {A : Type ℓ} → Option A → E → Result E A
ok_or none e = err e
ok_or (some a) e = ok a

abbrev pub map_err {ℓ} : {E F : Type 0} {A : Type ℓ} → (E → F) → Result E A → Result F A
map_err f (ok a) = ok a
map_err f (err e) = err (f e)

-- `iter.map(f).collect::<Result<Vec<_>, _>>()`: the first error wins.
unfoldable pub collect {ℓ κ} :
    {E : Type 0} {A : Type ℓ} {B : Type κ} → (A → Result E B) → List A → Result E (List B)
collect f [] = ok []
collect f (x ∷ xs) = f x >>= λ y. collect f xs >>= λ ys. ok (y ∷ ys)

-- What ran before `?` in code that returned a value.
pub before_bind {ℓ κ} :
    {E : Type 0} {A : Type ℓ} {B : Type κ} (next : A → Result E B) (b : B) (first : Result E A)
    → (first >>= next) ≡ ok b
    → (a : A) × (next a ≡ ok b) × (first ≡ ok a)
before_bind next b (ok a) h = (a, h, refl)
before_bind next b (err e) h = absurd (cc)

-- What a fallible computation ensures of its value, with a rule for each step of a `do` block.
pub data Returns {ℓ κ} {E : Type 0} {A : Type ℓ} (P : A → Type κ) : Result E A → Type (ℓ ⊔ κ) where
  done : {a : A} → P a → Returns P (ok a)
  failed : {e : E} → Returns P (err e)

module _ {ℓ κ μ} {E : Type 0} {A : Type ℓ} {B : Type κ} {P : B → Type μ} where
  pub Returns-bind :
      (m : Result E A) (f : A → Result E B)
      → ((a : A) → m ≡ ok a → Returns P (f a))
      → Returns P (m >>= f)
  Returns-bind (ok a) f h = h a refl
  Returns-bind (err e) f h = failed

module _ {κ μ} {E : Type 0} {B : Type κ} {P : B → Type μ} where
  pub Returns-guard :
      (b : Bool) (e : E) (m : Result E B) → (b ≡ true → Returns P m) → Returns P (guard b e >> m)
  Returns-guard true e m h = h refl
  Returns-guard false e m h = failed

  pub Returns-ok : {b : B} → Returns {E = E} P (ok b) → P b
  Returns-ok (done p) = p

  pub Returns-sound : (r : Result E B) (b : B) → Returns P r → r ≡ ok b → P b
  Returns-sound r b h e = Returns-ok (subst (Returns P) e h)

pub Returns-imp {κ μ ν} :
    {E : Type 0} {B : Type κ} {P : B → Type μ} {Q : B → Type ν} {r : Result E B}
    → ((b : B) → P b → Q b)
    → Returns P r
    → Returns Q r
Returns-imp f (done {a} p) = done (f a p)
Returns-imp f failed = failed

-- A guard that ends a block.
pub Returns-check {μ} :
    {E : Type 0} {P : Unit {0} → Type μ} (b : Bool) (e : E)
    → (b ≡ true → P tt)
    → Returns P (guard b e)
Returns-check true e h = done (h refl)
Returns-check false e h = failed

-- `P` holds of the elements of two lists, one by one.
abbrev pub Each {ℓ κ} : {A : Type ℓ} {B : Type κ} → (A → B → Type 0) → List A → List B → Type 0
Each P [] [] = Unit
Each P [] (y ∷ ys) = ⊥
Each P (x ∷ xs) [] = ⊥
Each P (x ∷ xs) (y ∷ ys) = P x y × Each P xs ys

-- What each step of `collect` ensures holds of its results.
pub collect-Returns {ℓ κ} :
    {E : Type 0} {A : Type ℓ} {B : Type κ} (P : A → B → Type 0) (f : A → Result E B)
    → ((a : A) → Returns (P a) (f a))
    → (xs : List A) → Returns (Each P xs) (collect f xs)
unfolding collect
collect-Returns P f h [] = done tt
collect-Returns P f h (x ∷ xs) = Returns-bind (f x) _ λ y e.
    Returns-bind (collect f xs) _ λ ys e'.
      done (Returns-sound (f x) y (h x) e, Returns-sound _ ys (collect-Returns P f h xs) e')
