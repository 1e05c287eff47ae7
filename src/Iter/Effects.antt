-- ===== src/Iter/Effects.antt =====
-- The control-only mode of src/iter/helpers.rs against the raw mode.
use rocksolid.Base.{ℕ, ◌+◌, ◌≡◌, refl, arith, List, [], ◌∷◌, some}
use rocksolid.Base.Outcome.{ok, err, map_ok}
use rocksolid.Engine.{Item}
use rocksolid.Iter.{ControlFn, control_loop, ask}
use rocksolid.Iter.Collect.{gather, as_is}

module _ {E S : Type 0} (control_fn : ControlFn S) where
  -- The control-only loop calls its control function on the same items, with the same counts, as the
  -- collection of the raw iterator does: the captured state afterwards is the same, and so is the
  -- error, if there is one.
  pub control_loop-gather :
      (items : List (Item E)) (n : ℕ) (s : S)
      → control_loop control_fn items n s ≡ (
        map_ok (λ _. tt) (gather (some control_fn) as_is items n s).0,
        (gather (some control_fn) as_is items n s).1,
      )
  unfolding control_loop gather ask
  control_loop-gather [] n s = refl
  control_loop-gather (err e ∷ rest) n s = refl
  control_loop-gather (ok (k, v) ∷ rest) n s =
      let s' = (control_fn k v n s).1 in
      ground (arith, control_loop-gather rest n s', control_loop-gather rest (n + 1) s')
