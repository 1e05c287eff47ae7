-- ===== src/Errors/Tests.antt =====
-- The theorems of the errors at concrete values.
use rocksolid.Base.{ℕ, none}
use rocksolid.Base.Outcome.{err}
use rocksolid.Errors.{StoreError, StoreResult, io, not_found}

abbrev disk : StoreError ℕ
disk = io 5

abbrev absent : StoreResult ℕ ℕ
absent = err (not_found none)
