-- ===== src/Expiry/Tests.antt =====
-- The theorems of the stored form at concrete values.
use rocksolid.Base.{ℕ, ◌≡◌, refl, arith, [], ◌∷◌, Bytes}
use rocksolid.Base.Outcome.{ok}
use rocksolid.Serialization.{Codec, IsRoundTrip}
use rocksolid.Expiry.{ValueWithExpiry, IsU64, from_slice, from_value, serialize_for_storage}
use rocksolid.Expiry.Storage.{serialize-from_slice}

abbrev value : ValueWithExpiry
value = record { expire_time = 300; raw_value = 9 ∷ 8 ∷ [] }

abbrev stored : Bytes
stored = 0 ∷ 0 ∷ 0 ∷ 0 ∷ 0 ∷ 0 ∷ 1 ∷ 44 ∷ 9 ∷ 8 ∷ []

stored_reads : from_slice {E = ℕ} stored ≡ ok value
unfolding from_slice
stored_reads = refl

serialize-from_slice_example : (serialize_for_storage value ≡ stored) × IsU64 300
serialize-from_slice_example = serialize-from_slice stored value (omega arith) stored_reads

-- A codec of numbers below 256 as one byte.
abbrev byte_codec : Codec ℕ Bytes
byte_codec = record { serialize = λ v. ok v; deserialize = λ b. ok b }

byte_codec-IsRoundTrip : IsRoundTrip byte_codec
byte_codec-IsRoundTrip = record { read_back = λ v b e. ground arith }

made : from_value byte_codec 300 (9 ∷ 8 ∷ []) ≡ ok value
unfolding from_value
made = refl
