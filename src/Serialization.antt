-- ===== src/Serialization.antt =====
-- src/serialization.rs and src/bytes.rs. MessagePack (`rmps`) and `bytevec` are foreign: a `Codec`
-- holds what the code calls of them for one type, and `Key` what it asks of a key type.
use rocksolid.Base.{◌≡◌, Bytes}
use rocksolid.Base.Outcome.{Result, ok, ◌>>=◌, map_err}
use rocksolid.Errors.{StoreResult, Message, serialization, deserialization, key_decoding}

-- `Val: Serialize + DeserializeOwned`; the errors are the texts of the foreign ones.
pub record Codec (E V : Type 0) : Type 0 where
  pub serialize : V → Result (Message E) Bytes
  pub deserialize : Bytes → Result (Message E) V

-- The documented round trip of MessagePack: what was written is read back.
pub record IsRoundTrip {E V : Type 0} (c : Codec E V) : Type 0 where
  pub read_back : (v : V) (b : Bytes) → c.serialize v ≡ ok b → c.deserialize b ≡ ok v

-- `Key: AsBytes + ByteDecodable`
pub record KeyType (E K : Type 0) : Type 0 where
  pub as_bytes : K → Bytes
  pub decode : Bytes → Result (Message E) K

module _ {E : Type 0} where
  unfoldable pub serialize_key : {K : Type 0} → KeyType E K → K → StoreResult E Bytes
  serialize_key kt key = ok (kt.as_bytes key)

  unfoldable pub deserialize_key : {K : Type 0} → KeyType E K → Bytes → StoreResult E K
  deserialize_key kt b = map_err key_decoding (kt.decode b)

  unfoldable pub serialize_value : {V : Type 0} → Codec E V → V → StoreResult E Bytes
  serialize_value c v = map_err serialization (c.serialize v)

  unfoldable pub deserialize_value : {V : Type 0} → Codec E V → Bytes → StoreResult E V
  deserialize_value c b = map_err deserialization (c.deserialize b)

  unfoldable pub deserialize_kv :
      {K V : Type 0} → KeyType E K → Codec E V → Bytes → Bytes → StoreResult E (K × V)
  deserialize_kv kt c key_bytes val_bytes = do
    key ← deserialize_key kt key_bytes
    val ← deserialize_value c val_bytes
    ok (key, val)
