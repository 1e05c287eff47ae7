-- ===== src/Expiry.antt =====
-- `ValueWithExpiry` of src/types.rs: a value's bytes behind an 8-byte big-endian expiry time.
-- A `u64` is a number below 2 ^ 64. A Rust panic is `none` of an `Option`.
pub mod Header
pub mod Storage
mod Tests
use rocksolid.Base.{
  ℕ, zero, suc, ◌+◌, ◌*◌, ◌/◌, ◌%◌, ◌^◌, ◌<◌, Option, none, some, List, [], ◌∷◌, ◌++◌, Bytes,
  length, take, drop, ltb, if◌then◌else◌,
}
use rocksolid.Base.Outcome.{Result, ok, err, ◌>>=◌, map_err}
use rocksolid.Errors.{StoreResult, Message, text, number, join, deserialization}
use rocksolid.Serialization.{Codec, KeyType, serialize_value, deserialize_value, deserialize_key}

pub record ValueWithExpiry : Type 0 where
  pub expire_time : ℕ
  pub raw_value : Bytes

-- `size_of::<u64>()`
abbrev pub timestamp_size : ℕ
timestamp_size = 8

abbrev pub IsU64 : ℕ → Type 0
IsU64 n = n < 2 ^ 64

-- The low `k` bytes of `n`, highest first; `n.to_be_bytes()` is `be_bytes 8 n`.
unfoldable pub be_bytes : ℕ → ℕ → Bytes
be_bytes zero n = []
be_bytes (suc k) n = (n / 256 ^ k % 256) ∷ be_bytes k n

-- The number that the bytes stand for, highest first; `from_be_bytes` starts at 0.
unfoldable pub from_be : ℕ → Bytes → ℕ
from_be acc [] = acc
from_be acc (b ∷ bs) = from_be (acc * 256 + b) bs

unfoldable pub expire_time_from_slice : Bytes → ℕ
unfolding from_be
expire_time_from_slice raw_value =
    if ltb (length raw_value) timestamp_size then 0 else from_be 0 (take 8 raw_value)

-- A slice from past the end panics.
unfoldable pub raw_data_ref_unchecked : Bytes → Option Bytes
raw_data_ref_unchecked b = if ltb (length b) timestamp_size then none else some (drop 8 b)

module _ {E : Type 0} where
  unfoldable pub raw_data_ref : Bytes → Result (Message E) Bytes
  raw_data_ref b =
      if ltb (length b) timestamp_size
      then err (text "Invalid byte array length")
      else ok (drop 8 b)

  unfoldable pub from_value : {V : Type 0} → Codec E V → ℕ → V → StoreResult E ValueWithExpiry
  unfolding serialize_value
  from_value c expire_time val = do
    raw_value ← serialize_value c val
    ok (record { expire_time = expire_time; raw_value = raw_value })

  -- The message of `from_slice` on a slice of `n` bytes.
  abbrev pub too_short : ℕ → Message E
  too_short n =
      join (text "Byte slice too short for ValueWithExpiry: got ")
        (join (number n) (join (text " bytes, need at least ") (number timestamp_size)))

  unfoldable pub from_slice : Bytes → StoreResult E ValueWithExpiry
  unfolding raw_data_ref expire_time_from_slice
  from_slice b =
      if ltb (length b) timestamp_size then err (deserialization (too_short (length b))) else do
        raw_value ←
            map_err (λ e. deserialization (join (text "Failed to get raw value slice: ") e))
              (raw_data_ref b)
        ok (record { expire_time = expire_time_from_slice b; raw_value = raw_value })

  unfoldable pub get_value : {V : Type 0} → Codec E V → ValueWithExpiry → StoreResult E V
  unfolding deserialize_value
  get_value c v = deserialize_value c v.raw_value

  unfoldable pub deserialize_kv_expiry :
      {K : Type 0} → KeyType E K → Bytes → Bytes → StoreResult E (K × ValueWithExpiry)
  deserialize_kv_expiry kt key_bytes val_bytes = do
    key ← deserialize_key kt key_bytes
    val ← from_slice val_bytes
    ok (key, val)

unfoldable pub serialize_for_storage : ValueWithExpiry → Bytes
unfolding be_bytes
serialize_for_storage v = be_bytes 8 v.expire_time ++ v.raw_value

unfoldable pub serialize_unchecked : ValueWithExpiry → Bytes
serialize_unchecked v = let header_bytes = be_bytes 8 v.expire_time in header_bytes ++ v.raw_value

-- `From<Vec<u8>>`: `value.drain(0..=7)` panics when there are fewer than 8 bytes.
unfoldable pub from_vec : Bytes → Option ValueWithExpiry
unfolding expire_time_from_slice
from_vec value =
    if ltb (length value) 8
    then none
    else (let header = take 8 value in
        some (record { expire_time = expire_time_from_slice header; raw_value = drop 8 value }))
