-- ===== src/Base/Outcome.antt =====
-- `Result<T, E>` of the standard library, with `?` as bind.
use mathlib.Core.Path.{◌≡◌, refl}
use mathlib.Core.Logic.{◌⊎◌, inl, inr}
use mathlib.Core.Option.{Option, none, some}
use mathlib.Core.List.{List, [], ◌∷◌}

pub data Result {ℓ κ} (X : Type κ) (A : Type ℓ) : Type (ℓ ⊔ κ) where
  ok : A → Result X A
  err : X → Result X A

infixl 5 ◌>>=◌ ◌>>◌
abbrev pub ◌>>=◌ {ℓ κ μ} :
    {X : Type μ} {A : Type ℓ} {B : Type κ} → Result X A → (A → Result X B) → Result X B
ok a >>= f = f a
err e >>= f = err e

abbrev pub ◌>>◌ {ℓ κ μ} :
    {X : Type μ} {A : Type ℓ} {B : Type κ} → Result X A → Result X B → Result X B
m >> k = m >>= λ _. k

-- `map_err`
abbrev pub map_err {ℓ κ μ} :
    {X : Type κ} {Y : Type μ} {A : Type ℓ} → (X → Y) → Result X A → Result Y A
map_err f (ok a) = ok a
map_err f (err e) = err (f e)

-- `map` on a result
abbrev pub map_ok {ℓ κ μ} :
    {X : Type μ} {A : Type ℓ} {B : Type κ} → (A → B) → Result X A → Result X B
map_ok f (ok a) = ok (f a)
map_ok f (err e) = err e

-- `opt.map_or(Ok(None), |a| f(a).map(Some))`
abbrev pub map_or_none {ℓ κ μ} :
    {X : Type μ} {A : Type ℓ} {B : Type κ} → (A → Result X B) → Option A → Result X (Option B)
map_or_none f none = ok none
map_or_none f (some a) = map_ok some (f a)

-- `iter.map(f).collect::<Result<Vec<_>, _>>()`: stops at the first error.
unfoldable pub try_map {ℓ κ μ} :
    {X : Type μ} {A : Type ℓ} {B : Type κ} → (A → Result X B) → List A → Result X (List B)
try_map f [] = ok []
try_map f (a ∷ as') = f a >>= λ b. try_map f as' >>= λ bs. ok (b ∷ bs)

-- Where a mapped error comes from.
pub map_err-eq-ok {ℓ κ μ} :
    {X : Type κ} {Y : Type μ} {A : Type ℓ} (f : X → Y) (r : Result X A) {a : A}
    → map_err f r ≡ ok a
    → r ≡ ok a
map_err-eq-ok f (ok a) h = cc
map_err-eq-ok f (err e) h = cc

pub map_err-eq-err {ℓ κ μ} :
    {X : Type κ} {Y : Type μ} {A : Type ℓ} (f : X → Y) (r : Result X A) {y : Y}
    → map_err f r ≡ err y
    → (x : X) × (r ≡ err x) × (f x ≡ y)
map_err-eq-err f (ok a) h = cc
map_err-eq-err f (err e) h = (e, refl, cc)

-- The first value after success, the second after an error.
abbrev pub on_ok {ℓ κ μ} : {X : Type κ} {A : Type μ} {B : Type ℓ} → Result X A → B → B → B
on_ok (ok a) x y = x
on_ok (err e) x y = y

pub Result-cases {ℓ κ} :
    {X : Type κ} {A : Type ℓ} (r : Result X A) → ((a : A) × (r ≡ ok a)) ⊎ ((e : X) × (r ≡ err e))
Result-cases (ok a) = inl (a, refl)
Result-cases (err e) = inr (e, refl)
