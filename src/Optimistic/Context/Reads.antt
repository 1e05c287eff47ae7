-- ===== src/Optimistic/Context/Reads.antt =====
-- The reads of an `OptimisticTransactionContext` of src/tx/optimistic_context.rs: on the default
-- family, and on a family that is looked up by name.
use rocksolid.Base.{Option, none, some, Bytes, String, Bool, true, false}
use rocksolid.Base.Outcome
use rocksolid.Base.Outcome.{Result, map_err, map_ok, map_or_none}
use rocksolid.Errors.{StoreResult, rocks_db}
use rocksolid.Serialization.{Codec, KeyType, serialize_key, deserialize_value}
use rocksolid.Expiry.{ValueWithExpiry, from_slice}
use rocksolid.Txn.{TxnEngine, Running, get_cf_handle}
use rocksolid.Optimistic.Context.{OptimisticTransactionContext, read}

module _ {E : Type 0} (g : TxnEngine E) where
  -- A read of the transaction under a serialized key, and the same in the family of a name.
  abbrev reading :
      {K A : Type 0}
      → KeyType E K
      → K
      → Running g
      → (g.Tx × g.Db → Bytes → Result E A)
      → StoreResult E A
  reading kt key w call =
      Outcome.◌>>=◌ (serialize_key kt key)
        λ ser_key. map_err rocks_db (call (w.txn, w.store.db) ser_key)

  abbrev reading_cf :
      {K A : Type 0}
      → KeyType E K
      → String
      → K
      → Running g
      → (g.Tx × g.Db → g.Handle → Bytes → Result E A)
      → StoreResult E A
  reading_cf kt cf_name key w call =
      Outcome.◌>>=◌ (get_cf_handle g w.store cf_name) λ handle. reading kt key w λ t. call t handle

  module _ {K : Type 0} (kt : KeyType E K) where
    unfoldable pub get :
        {V : Type 0} → Codec E V → K → OptimisticTransactionContext g → StoreResult E (Option V)
    unfolding read serialize_key deserialize_value
    get c key =
        read g
          λ w. Outcome.◌>>=◌ (reading kt key w g.get_pinned) (map_or_none (deserialize_value c))

    unfoldable pub get_raw : K → OptimisticTransactionContext g → StoreResult E (Option Bytes)
    unfolding read serialize_key
    get_raw key = read g λ w. reading kt key w g.get

    unfoldable pub get_with_expiry :
        K → OptimisticTransactionContext g → StoreResult E (Option ValueWithExpiry)
    unfolding get_raw from_slice
    get_with_expiry key ctx = Outcome.◌>>=◌ (get_raw key ctx) (map_or_none from_slice)

    unfoldable pub exists : K → OptimisticTransactionContext g → StoreResult E Bool
    unfolding read serialize_key
    exists key = read g λ w. map_ok (elim [ none ↦ false | some b ↦ true ]) (reading kt key w g.get)

    unfoldable pub get_cf :
        {V : Type 0}
        → Codec E V
        → String
        → K
        → OptimisticTransactionContext g
        → StoreResult E (Option V)
    unfolding read get_cf_handle serialize_key deserialize_value
    get_cf c cf_name key = read g λ w.
        Outcome.◌>>=◌ (reading_cf kt cf_name key w g.get_pinned_cf)
          (map_or_none (deserialize_value c))

    unfoldable pub get_cf_raw :
        String → K → OptimisticTransactionContext g → StoreResult E (Option Bytes)
    unfolding read get_cf_handle serialize_key
    get_cf_raw cf_name key = read g λ w. reading_cf kt cf_name key w g.get_cf

    unfoldable pub get_cf_with_expiry :
        String → K → OptimisticTransactionContext g → StoreResult E (Option ValueWithExpiry)
    unfolding get_cf_raw from_slice
    get_cf_with_expiry cf_name key ctx =
        Outcome.◌>>=◌ (get_cf_raw cf_name key ctx) (map_or_none from_slice)

    unfoldable pub exists_cf : String → K → OptimisticTransactionContext g → StoreResult E Bool
    unfolding read get_cf_handle serialize_key
    exists_cf cf_name key =
        read g
          λ w. map_ok (elim [ none ↦ false | some b ↦ true ]) (reading_cf kt cf_name key w g.get_cf)
