-- ===== src/Iter/Control.antt =====
-- What the control functions of common use make of an iteration over items without errors.
use rocksolid.Base.{
  ℕ, suc, ◌+◌, ◌-◌, ◌≡◌, refl, arith, Bool-cases, inl, inr, Bool, true, false, some, List, [], ◌∷◌,
  map, Bytes, leb, if◌then◌else◌, take, take_while, keep_if,
}
use rocksolid.Base.Outcome.{ok, try_map}
use rocksolid.Errors.{StoreResult}
use rocksolid.Iter.{ControlFn, DeserializeFn, Decision, stop, keep, ask}
use rocksolid.Iter.Collect.{gather}

-- A closure that captures nothing.
abbrev pub pure_fn :
    {E S Out : Type 0} → (Bytes × Bytes → StoreResult E Out) → DeserializeFn E S Out
pure_fn f k v s = (f (k, v), s)

-- A control function that looks at the key and the value only.
abbrev pub stateless : {S : Type 0} → (Bytes × Bytes → Decision) → ControlFn S
stateless decide k v n s = (decide (k, v), s)

-- A control function that stops once `m` items were kept.
abbrev pub limit : {S : Type 0} → ℕ → ControlFn S
limit m k v n s = (if leb m n then stop else keep, s)

abbrev pub goes_on : Decision → Bool
goes_on stop = false
goes_on _ = true

abbrev pub keeps : Decision → Bool
keeps keep = true
keeps _ = false

module _ {E S Out : Type 0} (f : Bytes × Bytes → StoreResult E Out) (s : S) where
  -- With a control function that looks at the key and the value only, an iteration yields what the
  -- deserializer makes of the kept ones among the items before the first stop.
  pub gather-stateless :
      (decide : Bytes × Bytes → Decision) (items : List (Bytes × Bytes)) (n : ℕ)
      → gather (some (stateless decide)) (pure_fn f) (map ok items) n s ≡ (
        try_map f (keep_if (λ e. keeps (decide e)) (take_while (λ e. goes_on (decide e)) items)),
        s,
      )
  unfolding gather ask keep_if take_while try_map
  gather-stateless decide [] n = refl
  gather-stateless decide ((k, v) ∷ rest) n =
      ground (arith, gather-stateless decide rest n, gather-stateless decide rest (n + 1))

  -- With a control function that stops once `m` items were kept, an iteration yields what the
  -- deserializer makes of the first `m` items: the count that it is shown is the number kept before.
  pub gather-limit :
      (m : ℕ) (items : List (Bytes × Bytes)) (n : ℕ)
      → gather (some (limit m)) (pure_fn f) (map ok items) n s ≡ (try_map f (take (m - n) items), s)
  unfolding gather ask try_map
  gather-limit m [] n = elim (Bool-cases (leb m n)) [
    | inl h ↦ let z : m - n ≡ 0 = ground arith in rw z
    | inr h ↦ let z : m - n ≡ suc (m - (n + 1)) = ground arith in rw z
  ]
  gather-limit m ((k, v) ∷ rest) n = elim (Bool-cases (leb m n)) [
    | inl h ↦ let z : m - n ≡ 0 = ground arith in rw z (ground arith)
    | inr h ↦
        let z : m - n ≡ suc (m - (n + 1)) = ground arith in
        rw z (ground (arith, gather-limit m rest (n + 1)))
  ]
