-- ===== src/Iter/Runs.antt =====
-- What collecting the iterators of src/iter returns, from a cursor that has kept nothing yet.
use mathlib.Core.Path.{fun_ext}
use rocksolid.Base.{
  ℕ, suc, ◌-◌, ◌≡◌, ◌∙◌, ap, arith, true, Option, some, List, map, Bytes, length, take, take_while,
  keep_if,
}
use rocksolid.Base.Outcome.{ok, try_map, map_ok}
use rocksolid.Errors.{StoreResult}
use rocksolid.Engine.{Item}
use rocksolid.Iter.{Cursor, ControlFn, Decision, next, next_raw, control_loop}
use rocksolid.Iter.Helpers.{effective_control}
use rocksolid.Iter.Collect.{collect, gather, collect-gather, as_is, next_raw-next}
use rocksolid.Iter.Control.{
  pure_fn, stateless, limit, goes_on, keeps, gather-stateless, gather-limit,
}
use rocksolid.Iter.Prefix.{has_prefix}
use rocksolid.Iter.Modes.{every_yielded, gather-has_prefix}
use rocksolid.Iter.Effects.{control_loop-gather}

-- The iterator as `execute` hands it out.
abbrev pub begin : {E S : Type 0} → List (Item E) → S → Cursor E S
begin items s = record { raw = items; items_kept_count = 0; captured = s }

module _ {E S Out : Type 0} (f : Bytes × Bytes → StoreResult E Out) (items : List (Bytes × Bytes))
    (s : S) where
  -- With a control function that looks at the key and the value only, and items without errors,
  -- collecting a deserializing iterator returns what the deserializer makes of the kept ones among
  -- the items before the first stop.
  pub collect-stateless :
      (decide : Bytes × Bytes → Decision)
      → collect
          (next (some (stateless decide)) (pure_fn f))
          (suc (length (map {B = Item E} ok items)))
          (begin (map ok items) s)
        ≡ some (
          try_map f (keep_if (λ e. keeps (decide e)) (take_while (λ e. goes_on (decide e)) items)),
          s,
        )
  collect-stateless decide =
      let n = length (map {B = Item E} ok items) in
      collect-gather (some (stateless decide)) (pure_fn f) (map ok items) (suc n) 0 s (omega arith)
      ∙ ap some (gather-stateless f s decide items 0)

  -- With a control function that stops once `m` items were kept, and items without errors, collecting
  -- a deserializing iterator returns what the deserializer makes of the first `m` items.
  pub collect-limit :
      (m : ℕ)
      → collect
          (next (some (limit m)) (pure_fn f))
          (suc (length (map {B = Item E} ok items)))
          (begin (map ok items) s)
        ≡ some (try_map f (take m items), s)
  collect-limit m =
      let n = length (map {B = Item E} ok items) in
      let z : m - 0 ≡ m = omega arith in
      collect-gather (some (limit m)) (pure_fn f) (map ok items) (suc n) 0 s (omega arith)
      ∙ ap some (gather-limit f s m items 0)
      ∙ ap (λ j. some (try_map f (take j items), s)) z

module _ {E S : Type 0} (items : List (Item E)) (s : S) where
  pub raw_gather :
      (control : Option (ControlFn S))
      → collect (next_raw control) (suc (length items)) (begin items s)
        ≡ some (gather control as_is items 0 s)
  raw_gather control =
      ap (λ step. collect step (suc (length items)) (begin items s))
        (fun_ext (next_raw-next control))
      ∙ collect-gather control as_is items (suc (length items)) 0 s (omega arith)

  -- Whatever the raw iterator yields, errors included, and whatever the control function of the caller
  -- decides, collecting the raw mode with a prefix ends, and what it yields are keys that start with
  -- the prefix.
  pub collect-has_prefix :
      (p : Bytes) (control : Option (ControlFn S))
      → (r : StoreResult E (List (Bytes × Bytes)) × S) × (collect
            (next_raw (effective_control (some p) control))
            (suc (length items))
            (begin items s)
          ≡ some r)
        × (every_yielded (has_prefix p) r.0 ≡ true)
  collect-has_prefix p control = (
    gather (effective_control (some p) control) as_is items 0 s,
    raw_gather (effective_control (some p) control),
    gather-has_prefix p control items 0 s,
  )

  -- The loop of the control-only mode leaves the same captured state as collecting the raw mode with
  -- the same control function does, and the same error, if there is one.
  pub control_loop-collect :
      (control_fn : ControlFn S) (r : StoreResult E (List (Bytes × Bytes))) (s' : S)
      → collect (next_raw (some control_fn)) (suc (length items)) (begin items s) ≡ some (r, s')
      → control_loop control_fn items 0 s ≡ (map_ok (λ _. tt) r, s')
  control_loop-collect control_fn r s' h =
      ground (arith, raw_gather (some control_fn), control_loop-gather control_fn items 0 s)
