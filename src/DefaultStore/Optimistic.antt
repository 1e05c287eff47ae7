-- ===== src/DefaultStore/Optimistic.antt =====
-- `RocksDbOptimisticTxnStore` of src/tx/optimistic_tx_store.rs: the operations on committed data, over
-- a `RocksDbCFOptimisticTxnStore`.
use rocksolid.Base.{ℕ, Option, List, Bytes, String, Bool}
use rocksolid.Base.Outcome.{Result}
use rocksolid.Base.Action.{Action}
use rocksolid.Errors.{StoreError, StoreResult, Message}
use rocksolid.Serialization.{Codec, KeyType}
use rocksolid.Expiry.{ValueWithExpiry}
use rocksolid.Engine.{Engine, Direction, default_cf}
use rocksolid.Iter.{ControlFn, IterConfig}
use rocksolid.Iter.Helpers.{IterationResult}
use rocksolid.CfStore.{CfStore, StoreAction}
use rocksolid.Transactional
use rocksolid.Transactional.Commits
use rocksolid.Transactional.Find as TransactionalFind

pub record RocksDbOptimisticTxnStore {E : Type 0} (g : Engine E) : Type 0 where
  pub cf_store : CfStore g

module _ {E : Type 0} (g : Engine E) where
  abbrev pub OptimisticAction : Type 0
  OptimisticAction = Action (RocksDbOptimisticTxnStore g) (StoreError E) (Unit {0})

  -- An operation of the store inside.
  unfoldable pub inside : StoreAction g → OptimisticAction
  inside act st = let (r, c) = act st.cf_store in (r, record { cf_store = c })

  unfoldable pub path : RocksDbOptimisticTxnStore g → String
  path st = st.cf_store.path

  module _ {K : Type 0} (kt : KeyType E K) where
    unfoldable pub get :
        {V : Type 0} → Codec E V → RocksDbOptimisticTxnStore g → K → StoreResult E (Option V)
    unfolding Transactional.get
    get c st key = Transactional.get g kt c st.cf_store default_cf key

    unfoldable pub get_raw : RocksDbOptimisticTxnStore g → K → StoreResult E (Option Bytes)
    unfolding Transactional.get_raw
    get_raw st key = Transactional.get_raw g kt st.cf_store default_cf key

    unfoldable pub get_with_expiry :
        RocksDbOptimisticTxnStore g → K → StoreResult E (Option ValueWithExpiry)
    unfolding Transactional.get_with_expiry
    get_with_expiry st key = Transactional.get_with_expiry g kt st.cf_store default_cf key

    unfoldable pub exists : RocksDbOptimisticTxnStore g → K → StoreResult E Bool
    unfolding Transactional.exists
    exists st key = Transactional.exists g kt st.cf_store default_cf key

    unfoldable pub multiget :
        {V : Type 0}
        → Codec E V
        → RocksDbOptimisticTxnStore g
        → List K
        → StoreResult E (List (Option V))
    unfolding Transactional.multiget
    multiget c st keys = Transactional.multiget g kt c st.cf_store default_cf keys

    unfoldable pub multiget_raw :
        RocksDbOptimisticTxnStore g → List K → StoreResult E (List (Option Bytes))
    unfolding Transactional.multiget_raw
    multiget_raw st keys = Transactional.multiget_raw g kt st.cf_store default_cf keys

    unfoldable pub multiget_with_expiry :
        RocksDbOptimisticTxnStore g → List K → StoreResult E (List (Option ValueWithExpiry))
    unfolding Transactional.multiget_with_expiry
    multiget_with_expiry st keys =
        Transactional.multiget_with_expiry g kt st.cf_store default_cf keys

    unfoldable pub put : {V : Type 0} → Codec E V → K → V → OptimisticAction
    unfolding inside Commits.put
    put c key value = inside (Commits.put g kt c default_cf key value)

    unfoldable pub put_raw : K → Bytes → OptimisticAction
    unfolding inside Commits.put_raw
    put_raw key raw_val = inside (Commits.put_raw g kt default_cf key raw_val)

    unfoldable pub put_with_expiry : {V : Type 0} → Codec E V → K → V → ℕ → OptimisticAction
    unfolding inside Commits.put_with_expiry
    put_with_expiry c key val expire_time =
        inside (Commits.put_with_expiry g kt c default_cf key val expire_time)

    unfoldable pub merge : {V : Type 0} → Codec E V → K → V → OptimisticAction
    unfolding inside Commits.merge
    merge c key merge_value = inside (Commits.merge g kt c default_cf key merge_value)

    unfoldable pub merge_raw : K → Bytes → OptimisticAction
    unfolding inside Commits.merge_raw
    merge_raw key raw_merge_op = inside (Commits.merge_raw g kt default_cf key raw_merge_op)

    unfoldable pub merge_with_expiry :
        {V : Type 0} → Codec E V → String → K → V → ℕ → OptimisticAction
    unfolding inside Commits.merge_with_expiry
    merge_with_expiry c cf_name key value expire_time =
        inside (Commits.merge_with_expiry g kt c cf_name key value expire_time)

    unfoldable pub delete : K → OptimisticAction
    unfolding inside Commits.delete
    delete key = inside (Commits.delete g kt default_cf key)

    unfoldable pub delete_range : K → K → OptimisticAction
    unfolding inside Commits.delete_range
    delete_range start_key end_key = inside (Commits.delete_range g kt default_cf start_key end_key)

    unfoldable pub iterate :
        {S Out : Type 0}
        → RocksDbOptimisticTxnStore g
        → IterConfig E S K Out
        → S
        → StoreResult E (IterationResult E S Out)
    unfolding TransactionalFind.iterate
    iterate st config = TransactionalFind.iterate g kt st.cf_store config

    unfoldable pub find_by_prefix :
        {V : Type 0}
        → Codec E V
        → RocksDbOptimisticTxnStore g
        → K
        → Direction
        → Option (StoreResult E (List (K × V)))
    unfolding TransactionalFind.find_by_prefix
    find_by_prefix c st prefix direction =
        TransactionalFind.find_by_prefix g kt c st.cf_store default_cf prefix direction

    unfoldable pub find_from :
        {V S : Type 0}
        → Codec E V
        → RocksDbOptimisticTxnStore g
        → K
        → Direction
        → ControlFn S
        → S
        → Option (StoreResult E (List (K × V)))
    unfolding TransactionalFind.find_from
    find_from c st start_key direction control_fn =
        TransactionalFind.find_from g kt c st.cf_store default_cf start_key direction control_fn

    unfoldable pub find_from_with_expire_val :
        {S : Type 0}
        → RocksDbOptimisticTxnStore g
        → K
        → Bool
        → ControlFn S
        → S
        → Option (Result (Message E) (List (K × ValueWithExpiry)))
    unfolding TransactionalFind.find_from_with_expire_val
    find_from_with_expire_val st start reverse control_fn =
        TransactionalFind.find_from_with_expire_val g kt st.cf_store default_cf start reverse
          control_fn

    unfoldable pub find_by_prefix_with_expire_val :
        {S : Type 0}
        → RocksDbOptimisticTxnStore g
        → K
        → Bool
        → ControlFn S
        → S
        → Option (Result (Message E) (List (K × ValueWithExpiry)))
    unfolding TransactionalFind.find_by_prefix_with_expire_val
    find_by_prefix_with_expire_val st prefix_key reverse control_fn =
        TransactionalFind.find_by_prefix_with_expire_val g kt st.cf_store default_cf prefix_key
          reverse control_fn
