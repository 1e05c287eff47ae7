-- ===== src/Config/Parsing.antt =====
-- The parsers of src/config.rs look at a string only after its case was lowered.
use rocksolid.Base.{◌≡◌, arith, ◌⊎◌, inl, inr, String, Option-cases}
use rocksolid.Base.Outcome.{ok, err}
use rocksolid.Errors.{invalid_configuration, text}
use rocksolid.Config.{RecoveryMode, recovery_named, recovery_from_str}

-- A string with the same lower-case form is parsed to the same mode, or else each is refused with its
-- own text.
pub recovery_from_str_case :
    {E : Type 0} (to_lowercase : String → String) (a b : String)
    → to_lowercase a ≡ to_lowercase b
    → ((m : RecoveryMode) × (recovery_from_str {E = E} to_lowercase a ≡ ok m)
        × (recovery_from_str {E = E} to_lowercase b ≡ ok m))
      ⊎ ((recovery_from_str {E = E} to_lowercase a ≡ err (invalid_configuration (text a)))
          × (recovery_from_str {E = E} to_lowercase b ≡ err (invalid_configuration (text b))))
unfolding recovery_from_str
recovery_from_str_case to_lowercase a b h = elim (Option-cases (recovery_named (to_lowercase b))) [
  | inl q ↦ inr (ground arith, ground arith)
  | inr (m, q) ↦ inl (m, ground arith, ground arith)
]
