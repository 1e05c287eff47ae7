-- ===== src/DefaultStore/Pessimistic.antt =====
-- `RocksDbTxnStore` of src/tx/tx_store.rs: the operations on committed data. Those that read and write
-- single keys call the database of the store inside directly; the others are of that store.
use rocksolid.Base.{ℕ, Option, none, some, List, [], ◌∷◌, Bytes, String, Bool, true, false}
use rocksolid.Base.Outcome
use rocksolid.Base.Outcome.{Result, ok, err, map_err, map_ok, map_or_none, try_map}
use rocksolid.Base.Action.{Action, lift, ◌>>=◌}
use rocksolid.Errors.{StoreError, StoreResult, Message, rocks_db}
use rocksolid.Serialization.{Codec, KeyType, serialize_key, serialize_value, deserialize_value}
use rocksolid.Expiry.{ValueWithExpiry, from_value, from_slice, serialize_for_storage}
use rocksolid.Engine.{Engine, Direction, default_cf}
use rocksolid.Iter.{ControlFn, IterConfig}
use rocksolid.Iter.Helpers.{IterationResult}
use rocksolid.CfStore.{CfStore, StoreAction, run, decode_answer}
use rocksolid.Transactional.Commits
use rocksolid.Transactional.Find as TransactionalFind

pub record RocksDbTxnStore {E : Type 0} (g : Engine E) : Type 0 where
  pub cf_store : CfStore g

module _ {E : Type 0} (g : Engine E) where
  abbrev pub PessimisticAction : Type 0
  PessimisticAction = Action (RocksDbTxnStore g) (StoreError E) (Unit {0})

  -- An operation of the store inside.
  unfoldable pub inside : StoreAction g → PessimisticAction
  inside act st = let (r, c) = act st.cf_store in (r, record { cf_store = c })

  unfoldable pub path : RocksDbTxnStore g → String
  path st = st.cf_store.path

  module _ {K : Type 0} (kt : KeyType E K) where
    unfoldable pub get : {V : Type 0} → Codec E V → RocksDbTxnStore g → K → StoreResult E (Option V)
    unfolding serialize_key deserialize_value
    get c st key = Outcome.◌>>=◌ (serialize_key kt key) λ ser_key.
        Outcome.◌>>=◌ (map_err rocks_db (g.get_pinned st.cf_store.db ser_key))
          (map_or_none (deserialize_value c))

    unfoldable pub get_raw : RocksDbTxnStore g → K → StoreResult E (Option Bytes)
    unfolding serialize_key
    get_raw st key =
        Outcome.◌>>=◌ (serialize_key kt key)
          λ ser_key. map_err rocks_db (g.get_pinned st.cf_store.db ser_key)

    unfoldable pub get_with_expiry : RocksDbTxnStore g → K → StoreResult E (Option ValueWithExpiry)
    unfolding get_raw from_slice
    get_with_expiry st key = Outcome.◌>>=◌ (get_raw st key) (map_or_none from_slice)

    unfoldable pub exists : RocksDbTxnStore g → K → StoreResult E Bool
    unfolding serialize_key
    exists st key = Outcome.◌>>=◌ (serialize_key kt key) λ ser_key.
        map_ok (elim [ none ↦ false | some b ↦ true ])
          (map_err rocks_db (g.get_pinned st.cf_store.db ser_key))

    unfoldable pub multiget :
        {V : Type 0} → Codec E V → RocksDbTxnStore g → List K → StoreResult E (List (Option V))
    unfolding serialize_key try_map deserialize_value
    multiget c st [] = ok []
    multiget c st (k ∷ ks) =
        Outcome.◌>>=◌ (try_map (serialize_key kt) (k ∷ ks))
          λ ser_keys. try_map (decode_answer c) (g.multi_get st.cf_store.db ser_keys)

    unfoldable pub multiget_raw : RocksDbTxnStore g → List K → StoreResult E (List (Option Bytes))
    unfolding serialize_key try_map
    multiget_raw st [] = ok []
    multiget_raw st (k ∷ ks) =
        Outcome.◌>>=◌ (try_map (serialize_key kt) (k ∷ ks))
          λ ser_keys. map_err rocks_db (try_map (λ r. r) (g.multi_get st.cf_store.db ser_keys))

    unfoldable pub multiget_with_expiry :
        RocksDbTxnStore g → List K → StoreResult E (List (Option ValueWithExpiry))
    unfolding multiget_raw try_map from_slice
    multiget_with_expiry st keys =
        Outcome.◌>>=◌ (multiget_raw st keys) (try_map (map_or_none from_slice))

    unfoldable pub put : {V : Type 0} → Codec E V → K → V → PessimisticAction
    unfolding inside serialize_key serialize_value run
    put c key value = inside (
        lift (serialize_key kt key) >>= λ ser_key.
        lift (serialize_value c value) >>= λ ser_val. run g (g.put ser_key ser_val))

    unfoldable pub put_raw : K → Bytes → PessimisticAction
    unfolding inside serialize_key run
    put_raw key raw_val =
        inside (lift (serialize_key kt key) >>= λ ser_key. run g (g.put ser_key raw_val))

    unfoldable pub put_with_expiry : {V : Type 0} → Codec E V → K → V → ℕ → PessimisticAction
    unfolding from_value put_raw serialize_for_storage
    put_with_expiry c key val expire_time =
        lift (from_value c expire_time val) >>= λ vwe. put_raw key (serialize_for_storage vwe)

    unfoldable pub merge : {V : Type 0} → Codec E V → K → V → PessimisticAction
    unfolding inside serialize_key serialize_value run
    merge c key merge_value = inside (
        lift (serialize_key kt key) >>= λ ser_key.
        lift (serialize_value c merge_value) >>= λ ser_op. run g (g.merge ser_key ser_op))

    unfoldable pub merge_raw : K → Bytes → PessimisticAction
    unfolding inside serialize_key run
    merge_raw key raw_merge_op =
        inside (lift (serialize_key kt key) >>= λ ser_key. run g (g.merge ser_key raw_merge_op))

    unfoldable pub merge_with_expiry :
        {V : Type 0} → Codec E V → String → K → V → ℕ → PessimisticAction
    unfolding inside Commits.merge_with_expiry
    merge_with_expiry c cf_name key value expire_time =
        inside (Commits.merge_with_expiry g kt c cf_name key value expire_time)

    unfoldable pub delete : K → PessimisticAction
    unfolding inside serialize_key run
    delete key = inside (lift (serialize_key kt key) >>= λ ser_key. run g (g.delete ser_key))

    unfoldable pub delete_range : K → K → PessimisticAction
    unfolding inside Commits.delete_range
    delete_range start_key end_key = inside (Commits.delete_range g kt default_cf start_key end_key)

    unfoldable pub iterate :
        {S Out : Type 0}
        → RocksDbTxnStore g
        → IterConfig E S K Out
        → S
        → StoreResult E (IterationResult E S Out)
    unfolding TransactionalFind.iterate
    iterate st config = TransactionalFind.iterate g kt st.cf_store config

    unfoldable pub find_by_prefix :
        {V : Type 0}
        → Codec E V
        → RocksDbTxnStore g
        → K
        → Direction
        → Option (StoreResult E (List (K × V)))
    unfolding TransactionalFind.find_by_prefix
    find_by_prefix c st prefix direction =
        TransactionalFind.find_by_prefix g kt c st.cf_store default_cf prefix direction

    unfoldable pub find_from :
        {V S : Type 0}
        → Codec E V
        → RocksDbTxnStore g
        → K
        → Direction
        → ControlFn S
        → S
        → Option (StoreResult E (List (K × V)))
    unfolding TransactionalFind.find_from
    find_from c st start_key direction control_fn =
        TransactionalFind.find_from g kt c st.cf_store default_cf start_key direction control_fn

    unfoldable pub find_from_with_expire_val :
        {S : Type 0}
        → RocksDbTxnStore g
        → K
        → Bool
        → ControlFn S
        → S
        → Option (Result (Message E) (List (K × ValueWithExpiry)))
    unfolding TransactionalFind.find_from_with_expire_val
    find_from_with_expire_val st start reverse control_fn =
        TransactionalFind.find_from_with_expire_val g kt st.cf_store default_cf start reverse
          control_fn

    unfoldable pub find_by_prefix_with_expire_val :
        {S : Type 0}
        → RocksDbTxnStore g
        → K
        → Bool
        → ControlFn S
        → S
        → Option (Result (Message E) (List (K × ValueWithExpiry)))
    unfolding TransactionalFind.find_by_prefix_with_expire_val
    find_by_prefix_with_expire_val st prefix_key reverse control_fn =
        TransactionalFind.find_by_prefix_with_expire_val g kt st.cf_store default_cf prefix_key
          reverse control_fn
