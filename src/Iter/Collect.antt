-- ===== src/Iter/Collect.antt =====
-- `iter.collect::<Result<Vec<_>, _>>()` over the iterators of src/iter, as `collect` of the standard
-- library runs `next` until it answers `None` or an error. `none` means that the fuel ran out; every
-- `next` takes an item at least, so one unit of fuel more than there are items is enough.
use rocksolid.Base.{
  ℕ, zero, suc, ◌+◌, ◌<◌, ◌≡◌, refl, arith, Option, none, some, List, [], ◌∷◌, Bytes, length,
}
use rocksolid.Base.Outcome.{ok, err, map_ok}
use rocksolid.Errors.{StoreResult, rocks_db}
use rocksolid.Engine.{Item}
use rocksolid.Iter.{
  Cursor, ControlFn, DeserializeFn, stop, skip, keep, ask, next, next_from, next_raw, next_raw_from,
}

module _ {E S Out : Type 0} where
  -- One more item in front of what the rest of the collection answers.
  abbrev pub push :
      Out → Option (StoreResult E (List Out) × S) → Option (StoreResult E (List Out) × S)
  push x none = none
  push x (some (r, s)) = some (map_ok (λ xs. x ∷ xs) r, s)

  unfoldable pub collect :
      (Cursor E S → Option (StoreResult E Out) × Cursor E S)
      → ℕ
      → Cursor E S
      → Option (StoreResult E (List Out) × S)
  collect step zero it = none
  collect step (suc fuel) it =
      let (o, it') = step it in
      let rest = collect step fuel it' in
      elim o [
        | none ↦ some (ok [], it'.captured)
        | some r ↦ elim r [ err e ↦ some (err e, it'.captured) | ok x ↦ push x rest ]
      ]

module _ {E S Out : Type 0} where
  -- The first item in front of what the rest gathers.
  abbrev pub prepend : Out → StoreResult E (List Out) × S → StoreResult E (List Out) × S
  prepend x (r, s) = (map_ok (λ xs. x ∷ xs) r, s)

  module _ (control : Option (ControlFn S)) (deserializer : DeserializeFn E S Out) where
    -- What an iteration yields, item by item: `n` is the number of items kept before.
    unfoldable pub gather : List (Item E) → ℕ → S → StoreResult E (List Out) × S
    gather [] n s = (ok [], s)
    gather (err e ∷ rest) n s = (err (rocks_db e), s)
    gather (ok (k, v) ∷ rest) n s =
        let (d, s') = ask control k v n s in
        let skipped = gather rest n s' in
        let (item, s'') = deserializer k v s' in
        let more = gather rest (n + 1) s'' in
        elim d [
          | stop ↦ (ok [], s')
          | skip ↦ skipped
          | keep ↦ elim item [ err e ↦ (err e, s'') | ok x ↦ prepend x more ]
        ]

    -- Collecting a `ControlledIter` ends and gives what the control function and the deserializer
    -- make of the raw items in order: up to the first stop, without those skipped, and up to the
    -- first error of the database or of the deserializer.
    pub collect-gather :
        (items : List (Item E)) (fuel n : ℕ) (s : S)
        → length items < fuel
        → collect
            (next control deserializer)
            fuel
            (record { raw = items; items_kept_count = n; captured = s })
          ≡ some (gather items n s)
    unfolding collect next gather
    collect-gather items zero n s h = absurd (omega arith)
    collect-gather [] (suc fuel) n s h = refl
    collect-gather (err e ∷ rest) (suc fuel) n s h = refl
    collect-gather (ok (k, v) ∷ rest) (suc fuel) n s h =
        let s' = (ask control k v n s).1 in
        let s'' = (deserializer k v s').1 in
        ground (arith, collect-gather rest (suc fuel) n s', collect-gather rest fuel (n + 1) s'')

-- The deserializer that leaves the bytes as they are.
abbrev pub as_is : {E S : Type 0} → DeserializeFn E S (Bytes × Bytes)
as_is k v s = (ok (k, v), s)

module _ {E S : Type 0} (control : Option (ControlFn S)) where
  -- The iterator of the raw mode is the one of the deserialize mode whose deserializer leaves the
  -- bytes as they are: the same answers, items left, counts and captured state, step by step.
  pub next_raw-next : (it : Cursor E S) → next_raw control it ≡ next control as_is it
  unfolding next_raw next
  next_raw-next it = go it.raw it.items_kept_count it.captured
    where
      go :
          (items : List (Item E)) (n : ℕ) (s : S)
          → next_raw_from control items n s ≡ next_from control as_is items n s
      go [] n s = refl
      go (err e ∷ rest) n s = refl
      go (ok (k, v) ∷ rest) n s = ground (arith, go rest n (ask control k v n s).1)
