-- ===== src/Expiry/Storage.antt =====
-- The stored form of a `ValueWithExpiry`, both ways, and its readers on short input.
use rocksolid.Base.{ℕ, ◌≤◌, ◌<◌, ◌≡◌, arith, none, some, ◌∷◌, Bytes, AreBytes, length, take, drop}
use rocksolid.Base.Outcome.{ok, err, ◌>>=◌}
use rocksolid.Errors.{deserialization, text}
use rocksolid.Serialization.{Codec, IsRoundTrip, serialize_value, deserialize_value}
use rocksolid.Expiry.{
  ValueWithExpiry, IsU64, be_bytes, from_be, expire_time_from_slice, from_value, from_slice,
  too_short, get_value, serialize_for_storage, serialize_unchecked, from_vec, raw_data_ref,
  raw_data_ref_unchecked,
}
use rocksolid.Expiry.Header.{from_be-be_bytes, be_bytes-from_be, IsU64-from_be}

module _ {E : Type 0} where
  -- A value whose expiry time is a `u64` is read back from its stored form, by each reader; the two
  -- writers agree.
  pub read-serialize :
      (v : ValueWithExpiry)
      → IsU64 v.expire_time
      → (from_slice {E = E} (serialize_for_storage v) ≡ ok v)
        × (from_vec (serialize_for_storage v) ≡ some v)
        × (expire_time_from_slice (serialize_for_storage v) ≡ v.expire_time)
        × (raw_data_ref {E = E} (serialize_for_storage v) ≡ ok v.raw_value)
        × (serialize_unchecked v ≡ serialize_for_storage v)
  unfolding from_slice from_vec serialize_for_storage expire_time_from_slice raw_data_ref be_bytes
      serialize_unchecked
  read-serialize v h = ground (arith, from_be-be_bytes v.expire_time h)

  -- Whatever bytes are read as a value are the stored form of that value.
  pub serialize-from_slice :
      (b : Bytes) (v : ValueWithExpiry)
      → AreBytes b
      → from_slice {E = E} b ≡ ok v
      → (serialize_for_storage v ≡ b) × IsU64 v.expire_time
  unfolding from_slice serialize_for_storage expire_time_from_slice raw_data_ref
  serialize-from_slice (x0 ∷ x1 ∷ x2 ∷ x3 ∷ x4 ∷ x5 ∷ x6 ∷ x7 ∷ rest) v bs h =
      ground
        (arith, be_bytes-from_be x0 x1 x2 x3 x4 x5 x6 x7, IsU64-from_be x0 x1 x2 x3 x4 x5 x6 x7)
  serialize-from_slice b v bs h = ground arith

  -- Every reader of a slice shorter than the header rejects it: `from_slice` and `raw_data_ref` by an
  -- error, `from_vec` and `raw_data_ref_unchecked` by a panic; the expiry time alone reads as 0.
  pub readers_short :
      (b : Bytes)
      → length b < 8
      → (from_slice {E = E} b ≡ err (deserialization (too_short (length b))))
        × (raw_data_ref {E = E} b ≡ err (text "Invalid byte array length"))
        × (from_vec b ≡ none)
        × (raw_data_ref_unchecked b ≡ none)
        × (expire_time_from_slice b ≡ 0)
  unfolding from_slice from_vec expire_time_from_slice raw_data_ref raw_data_ref_unchecked
  readers_short b h = ground arith

  -- On a slice of at least eight bytes the readers succeed and agree: the time stands in the first
  -- eight bytes, and the value behind them.
  pub readers_long :
      (b : Bytes)
      → 8 ≤ length b
      → (from_slice {E = E} b
          ≡ ok (record { expire_time = from_be 0 (take 8 b); raw_value = drop 8 b }))
        × (from_vec b ≡ some (record { expire_time = from_be 0 (take 8 b); raw_value = drop 8 b }))
        × (raw_data_ref {E = E} b ≡ ok (drop 8 b))
        × (raw_data_ref_unchecked b ≡ some (drop 8 b))
        × (expire_time_from_slice b ≡ from_be 0 (take 8 b))
  unfolding from_slice from_vec expire_time_from_slice raw_data_ref raw_data_ref_unchecked
  readers_long (x0 ∷ x1 ∷ x2 ∷ x3 ∷ x4 ∷ x5 ∷ x6 ∷ x7 ∷ rest) h = ground arith
  readers_long b h = absurd (omega arith)

  -- A typed value that was stored with an expiry time is read back with it.
  pub typed_read_back :
      {V : Type 0} (c : Codec E V) (t : ℕ) (x : V) (v : ValueWithExpiry)
      → IsRoundTrip c
      → IsU64 t
      → from_value c t x ≡ ok v
      → ((from_slice (serialize_for_storage v) >>= get_value c) ≡ ok x)
        × (expire_time_from_slice (serialize_for_storage v) ≡ t)
  unfolding from_value get_value serialize_value deserialize_value
  typed_read_back c t x v law h e = ground (arith, law.read_back x v.raw_value, read-serialize v)
