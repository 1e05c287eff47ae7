-- ===== src/Errors/Mapping.antt =====
-- What `clone`, `map_to_option` and `map_to_vec` of src/error.rs keep of an error.
use rocksolid.Base.{◌≡◌, refl, ◌↔◌, arith, Bool, true, false, Option, List}
use rocksolid.Base.Outcome.{ok, err}
use rocksolid.Errors.{
  StoreError, StoreResult, Message, io, not_found, text, foreign, join, display, clone,
  map_to_option, map_to_vec,
}

-- `matches!(e, StoreError::NotFound { .. })`
abbrev pub is_not_found : {E : Type 0} → StoreError E → Bool
is_not_found (not_found k) = true
is_not_found _ = false

-- What a clone prints: the text of the original, but for an I/O error, whose text is wrapped.
abbrev pub cloned_display : {E : Type 0} → StoreError E → Message E
cloned_display (io x) =
    join (text "Operation failed: ") (join (text "(Cloned) IO error: ") (foreign x))
cloned_display e = display e

module _ {E : Type 0} where
  -- A clone of an error prints the text of the error, except that an I/O error prints as an
  -- `Other` error around its own text; and a clone of a clone is the clone.
  pub display-clone :
      (e : StoreError E) → (display (clone e) ≡ cloned_display e) × (clone (clone e) ≡ clone e)
  unfolding clone display
  display-clone (io x) = (refl, refl)
  display-clone _ = (refl, refl)

  -- `map_to_option` and `map_to_vec` fail exactly on the errors other than `NotFound`, and then with
  -- that error.
  pub map_to-eq-err_iff :
      {A R : Type 0} (f : A → Option R) (g : A → List R) (r : StoreResult E A) (e : StoreError E)
      → ((map_to_option f r ≡ err e) ↔ ((r ≡ err e) × (is_not_found e ≡ false)))
        × ((map_to_vec g r ≡ err e) ↔ ((r ≡ err e) × (is_not_found e ≡ false)))
  unfolding map_to_option map_to_vec
  map_to-eq-err_iff f g (ok a) e = ground arith
  map_to-eq-err_iff f g (err (not_found k)) e = ground arith
  map_to-eq-err_iff f g (err x) e = ground arith
