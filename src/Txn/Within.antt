-- ===== src/Txn/Within.antt =====
-- The operations of `RocksDbCFTxnStore` within a transaction (src/tx/cf_tx_store.rs).
use rocksolid.Base.{ℕ, Option, none, some, Bytes, String, Bool, true, false}
use rocksolid.Base.Outcome
use rocksolid.Base.Outcome.{map_ok, map_or_none}
use rocksolid.Base.Action.{lift, ◌>>=◌}
use rocksolid.Errors.{StoreResult}
use rocksolid.Serialization.{Codec, KeyType, serialize_key, serialize_value, deserialize_value}
use rocksolid.Expiry.{ValueWithExpiry, from_value, from_slice, serialize_for_storage}
use rocksolid.Txn.{TxnEngine, Running, TxnAction, write_within, read_within}

module _ {E : Type 0} (g : TxnEngine E) {K : Type 0} (kt : KeyType E K) where
  unfoldable pub get_in_txn :
      {V : Type 0} → Codec E V → Running g → String → K → StoreResult E (Option V)
  unfolding serialize_key read_within deserialize_value
  get_in_txn c w cf_name key = Outcome.◌>>=◌ (serialize_key kt key) λ ser_key.
      Outcome.◌>>=◌
        (read_within g w cf_name (λ t. g.get_pinned t ser_key) (λ t h. g.get_pinned_cf t h ser_key))
        (map_or_none (deserialize_value c))

  unfoldable pub get_raw_in_txn : Running g → String → K → StoreResult E (Option Bytes)
  unfolding serialize_key read_within
  get_raw_in_txn w cf_name key = Outcome.◌>>=◌ (serialize_key kt key) λ ser_key.
      read_within g w cf_name (λ t. g.get_pinned t ser_key) (λ t h. g.get_pinned_cf t h ser_key)

  unfoldable pub get_with_expiry_in_txn :
      Running g → String → K → StoreResult E (Option ValueWithExpiry)
  unfolding get_raw_in_txn from_slice
  get_with_expiry_in_txn w cf_name key =
      Outcome.◌>>=◌ (get_raw_in_txn w cf_name key) (map_or_none from_slice)

  unfoldable pub exists_in_txn : Running g → String → K → StoreResult E Bool
  unfolding serialize_key read_within
  exists_in_txn w cf_name key = Outcome.◌>>=◌ (serialize_key kt key) λ ser_key.
      map_ok (elim [ none ↦ false | some b ↦ true ])
        (read_within g w cf_name (λ t. g.get_pinned t ser_key) (λ t h. g.get_pinned_cf t h ser_key))

  unfoldable pub put_in_txn_cf : {V : Type 0} → Codec E V → String → K → V → TxnAction g
  unfolding serialize_key serialize_value write_within
  put_in_txn_cf c cf_name key value = lift (serialize_key kt key) >>= λ ser_key.
      lift (serialize_value c value) >>= λ ser_val.
      write_within g cf_name (g.put ser_key ser_val) (λ h. g.put_cf h ser_key ser_val)

  unfoldable pub put_raw_in_txn : String → K → Bytes → TxnAction g
  unfolding serialize_key write_within
  put_raw_in_txn cf_name key raw_value = lift (serialize_key kt key) >>= λ ser_key.
      write_within g cf_name (g.put ser_key raw_value) (λ h. g.put_cf h ser_key raw_value)

  unfoldable pub put_with_expiry_in_txn :
      {V : Type 0} → Codec E V → String → K → V → ℕ → TxnAction g
  unfolding put_raw_in_txn from_value serialize_for_storage
  put_with_expiry_in_txn c cf_name key value expire_time =
      lift (from_value c expire_time value) >>= λ vwe.
      put_raw_in_txn cf_name key (serialize_for_storage vwe)

  unfoldable pub delete_in_txn : String → K → TxnAction g
  unfolding serialize_key write_within
  delete_in_txn cf_name key = lift (serialize_key kt key) >>= λ ser_key.
      write_within g cf_name (g.delete ser_key) (λ h. g.delete_cf h ser_key)

  unfoldable pub merge_in_txn : {V : Type 0} → Codec E V → String → K → V → TxnAction g
  unfolding serialize_key serialize_value write_within
  merge_in_txn c cf_name key merge_value = lift (serialize_key kt key) >>= λ ser_key.
      lift (serialize_value c merge_value) >>= λ ser_op.
      write_within g cf_name (g.merge ser_key ser_op) (λ h. g.merge_cf h ser_key ser_op)

  unfoldable pub merge_raw_in_txn : String → K → Bytes → TxnAction g
  unfolding serialize_key write_within
  merge_raw_in_txn cf_name key raw_merge_operand = lift (serialize_key kt key) >>= λ ser_key.
      write_within g cf_name (g.merge ser_key raw_merge_operand)
        (λ h. g.merge_cf h ser_key raw_merge_operand)
