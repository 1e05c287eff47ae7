-- ===== src/CfStore/Write.antt =====
-- The write operations of `CFOperations` for `RocksDbCFStore` (src/cf_store.rs).
use rocksolid.Base.{ℕ, Bytes, String}
use rocksolid.Base.Action.{lift, ◌>>=◌}
use rocksolid.Serialization.{Codec, KeyType, serialize_key, serialize_value}
use rocksolid.Expiry.{from_value, serialize_for_storage}
use rocksolid.Engine.{Engine}
use rocksolid.CfStore.{StoreAction, write_at}

module _ {E : Type 0} (g : Engine E) {K : Type 0} (kt : KeyType E K) where
  unfoldable pub put_raw : String → K → Bytes → StoreAction g
  unfolding serialize_key write_at
  put_raw cf_name key raw_value = lift (serialize_key kt key) >>= λ ser_key.
      write_at g cf_name (g.put ser_key raw_value) (λ h. g.put_cf h ser_key raw_value)

  unfoldable pub put : {V : Type 0} → Codec E V → String → K → V → StoreAction g
  unfolding serialize_key serialize_value write_at
  put c cf_name key value = lift (serialize_key kt key) >>= λ ser_key.
      lift (serialize_value c value) >>= λ ser_val.
      write_at g cf_name (g.put ser_key ser_val) (λ h. g.put_cf h ser_key ser_val)

  unfoldable pub put_with_expiry : {V : Type 0} → Codec E V → String → K → V → ℕ → StoreAction g
  unfolding put_raw from_value serialize_for_storage
  put_with_expiry c cf_name key value expire_time = lift (from_value c expire_time value) >>= λ vwe.
      put_raw cf_name key (serialize_for_storage vwe)

  unfoldable pub delete : String → K → StoreAction g
  unfolding serialize_key write_at
  delete cf_name key = lift (serialize_key kt key) >>= λ ser_key.
      write_at g cf_name (g.delete ser_key) (λ h. g.delete_cf h ser_key)

  -- By a batch of one operation.
  unfoldable pub delete_range : String → K → K → StoreAction g
  unfolding serialize_key write_at
  delete_range cf_name start_key end_key = lift (serialize_key kt start_key) >>= λ sk_start.
      lift (serialize_key kt end_key) >>= λ sk_end.
      write_at g cf_name (g.write (g.batch_delete_range sk_start sk_end g.empty_batch))
        (λ h. g.write (g.batch_delete_range_cf h sk_start sk_end g.empty_batch))

  unfoldable pub merge_raw : String → K → Bytes → StoreAction g
  unfolding serialize_key write_at
  merge_raw cf_name key raw_merge_operand = lift (serialize_key kt key) >>= λ ser_key.
      write_at g cf_name (g.merge ser_key raw_merge_operand)
        (λ h. g.merge_cf h ser_key raw_merge_operand)

  -- `PatchVal` is a type with the codec `c` of its `MergeValue`.
  unfoldable pub merge : {V : Type 0} → Codec E V → String → K → V → StoreAction g
  unfolding serialize_key serialize_value write_at
  merge c cf_name key merge_value = lift (serialize_key kt key) >>= λ ser_key.
      lift (serialize_value c merge_value) >>= λ ser_op.
      write_at g cf_name (g.merge ser_key ser_op) (λ h. g.merge_cf h ser_key ser_op)

  unfoldable pub merge_with_expiry : {V : Type 0} → Codec E V → String → K → V → ℕ → StoreAction g
  unfolding merge_raw from_value serialize_for_storage
  merge_with_expiry c cf_name key value expire_time =
      lift (from_value c expire_time value) >>= λ vwe.
      merge_raw cf_name key (serialize_for_storage vwe)
