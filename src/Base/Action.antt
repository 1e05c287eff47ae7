-- ===== src/Base/Action.antt =====
-- Code that changes a state and may fail: the state comes back beside the error too.
use rocksolid.Base.Outcome.{Result, ok, err}

abbrev pub Action : Type 0 → Type 0 → Type 0 → Type 0
Action S X A = S → Result X A × S

module _ {S X A : Type 0} where
  -- A step that reads no state, such as a `?` on a value.
  abbrev pub lift : Result X A → Action S X A
  lift r s = (r, s)

module _ {S X A B : Type 0} where
  abbrev continue : Result X A → (A → Action S X B) → Action S X B
  continue (ok a) f s = f a s
  continue (err e) f s = (err e, s)

  infixl 5 ◌>>=◌ ◌>>◌
  abbrev pub ◌>>=◌ : Action S X A → (A → Action S X B) → Action S X B
  ◌>>=◌ m f s = continue (m s).0 f (m s).1

  abbrev pub ◌>>◌ : Action S X A → Action S X B → Action S X B
  m >> k = m >>= λ _. k
