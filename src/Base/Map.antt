-- ===== src/Base/Map.antt =====
-- `HashMap<String, _>`, as an association list: its order stands for an order of iteration that the
-- source leaves open.
use Prim.Native.String.{String}
use mathlib.Core.Path.{◌≡◌, refl}
use mathlib.Core.Logic.{◌≢◌}
use mathlib.Core.Option.{Option, none, some}
use mathlib.Core.List.{List, [], ◌∷◌}
use native.Mathlib.Omega.{arith}
use text.Mathlib.Text.{◌==◌ as str_eq}
use text.Mathlib.TextEquality.{eq_iff as str_eq_iff}
use rocksolid.Base.Tests.{if◌then◌else◌}

abbrev pub Map {ℓ} : Type ℓ → Type ℓ
Map A = List (String × A)

module _ {ℓ} {A : Type ℓ} where
  -- `map.get(k)`
  unfoldable pub lookup : String → Map A → Option A
  lookup k [] = none
  lookup k ((n, a) ∷ m) = let rest = lookup k m in if str_eq n k then some a else rest

  -- `map.insert(k, a)`
  unfoldable pub insert : String → A → Map A → Map A
  insert k a [] = (k, a) ∷ []
  insert k a ((n, b) ∷ m) =
      let rest = insert k a m in if str_eq n k then (n, a) ∷ m else (n, b) ∷ rest

  -- `if let Some(a) = map.get_mut(k) { *a = f(*a) }`
  unfoldable pub modify : String → (A → A) → Map A → Map A
  modify k f [] = []
  modify k f ((n, a) ∷ m) =
      let rest = modify k f m in if str_eq n k then (n, f a) ∷ m else (n, a) ∷ rest

  -- What `map.remove(k)` leaves.
  unfoldable pub remove : String → Map A → Map A
  remove k [] = []
  remove k ((n, a) ∷ m) = let rest = remove k m in if str_eq n k then m else (n, a) ∷ rest

  pub lookup-insert_self : (k : String) (a : A) (m : Map A) → lookup k (insert k a m) ≡ some a
  unfolding lookup insert
  lookup-insert_self k a [] = ground (arith, str_eq_iff k k)
  lookup-insert_self k a ((n, b) ∷ m) = ground (arith, str_eq_iff n k, lookup-insert_self k a m)

  pub lookup-insert_ne :
      (j k : String) (a : A) (m : Map A) → j ≢ k → lookup j (insert k a m) ≡ lookup j m
  unfolding lookup insert
  lookup-insert_ne j k a [] h = ground (arith, str_eq_iff k j)
  lookup-insert_ne j k a ((n, b) ∷ m) h =
      ground (arith, str_eq_iff n k, str_eq_iff n j, lookup-insert_ne j k a m h)

  abbrev pub after : (A → A) → Option A → Option A
  after f none = none
  after f (some a) = some (f a)

  pub lookup-modify_self :
      (k : String) (f : A → A) (m : Map A) → lookup k (modify k f m) ≡ after f (lookup k m)
  unfolding lookup modify
  lookup-modify_self k f [] = refl
  lookup-modify_self k f ((n, b) ∷ m) = ground (arith, str_eq_iff n k, lookup-modify_self k f m)

  pub lookup-modify_ne :
      (j k : String) (f : A → A) (m : Map A) → j ≢ k → lookup j (modify k f m) ≡ lookup j m
  unfolding lookup modify
  lookup-modify_ne j k f [] h = refl
  lookup-modify_ne j k f ((n, b) ∷ m) h =
      ground (arith, str_eq_iff n k, str_eq_iff n j, lookup-modify_ne j k f m h)

  pub lookup-remove_ne : (j k : String) (m : Map A) → j ≢ k → lookup j (remove k m) ≡ lookup j m
  unfolding lookup remove
  lookup-remove_ne j k [] h = refl
  lookup-remove_ne j k ((n, b) ∷ m) h =
      ground (arith, str_eq_iff n k, str_eq_iff n j, lookup-remove_ne j k m h)
