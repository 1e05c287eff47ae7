-- ===== src/DefaultStore.antt =====
-- `RocksDbStore` of src/store.rs: the store of the default column family, over a `RocksDbCFStore`.
pub mod Pessimistic
pub mod Optimistic
pub mod Agree
pub mod Runs
pub mod Frame
mod Tests
use rocksolid.Base.{ℕ, Option, none, some, List, [], ◌∷◌, Bytes, String, Bool, true, false}
use rocksolid.Base.Outcome
use rocksolid.Base.Outcome.{Result, ok, err, map_err, map_ok, map_or_none, try_map}
use rocksolid.Base.Action.{Action, lift, ◌>>=◌}
use rocksolid.Errors.{StoreError, StoreResult, Message, rocks_db}
use rocksolid.Serialization.{Codec, KeyType, serialize_key, serialize_value, deserialize_value}
use rocksolid.Expiry.{ValueWithExpiry, from_value, from_slice, serialize_for_storage}
use rocksolid.Engine.{Engine, Direction, default_cf}
use rocksolid.Iter.{ControlFn, IterConfig}
use rocksolid.Iter.Helpers.{IterationResult}
use rocksolid.CfStore
use rocksolid.CfStore.{CfStore, StoreAction, run}
use rocksolid.CfStore.Write
use rocksolid.CfStore.Find
use rocksolid.Batch
use rocksolid.Batch.{BatchWriter}

pub record RocksDbStore {E : Type 0} (g : Engine E) : Type 0 where
  pub cf_store : CfStore g

module _ {E : Type 0} (g : Engine E) where
  abbrev pub DefaultAction : Type 0
  DefaultAction = Action (RocksDbStore g) (StoreError E) (Unit {0})

  -- An operation of the store inside.
  unfoldable pub inside : StoreAction g → DefaultAction
  inside act st = let (r, c) = act st.cf_store in (r, record { cf_store = c })

  unfoldable pub path : RocksDbStore g → String
  path st = st.cf_store.path

  unfoldable pub batch_writer : RocksDbStore g → BatchWriter g
  unfolding Batch.new
  batch_writer st = Batch.new g st.cf_store default_cf

  unfoldable pub write_batch : RocksDbStore g → g.Batch
  write_batch st = g.empty_batch

  unfoldable pub write : g.Batch → DefaultAction
  unfolding inside run
  write batch = inside (run g (g.write batch))

  module _ {K : Type 0} (kt : KeyType E K) where
    unfoldable pub get : {V : Type 0} → Codec E V → RocksDbStore g → K → StoreResult E (Option V)
    unfolding CfStore.get
    get c st key = CfStore.get g kt c st.cf_store default_cf key

    unfoldable pub get_raw : RocksDbStore g → K → StoreResult E (Option Bytes)
    unfolding CfStore.get_raw
    get_raw st key = CfStore.get_raw g kt st.cf_store default_cf key

    unfoldable pub get_with_expiry : RocksDbStore g → K → StoreResult E (Option ValueWithExpiry)
    unfolding CfStore.get_with_expiry
    get_with_expiry st key = CfStore.get_with_expiry g kt st.cf_store default_cf key

    unfoldable pub exists : RocksDbStore g → K → StoreResult E Bool
    unfolding CfStore.exists
    exists st key = CfStore.exists g kt st.cf_store default_cf key

    unfoldable pub multiget :
        {V : Type 0} → Codec E V → RocksDbStore g → List K → StoreResult E (List (Option V))
    unfolding CfStore.multiget
    multiget c st keys = CfStore.multiget g kt c st.cf_store default_cf keys

    unfoldable pub multiget_raw : RocksDbStore g → List K → StoreResult E (List (Option Bytes))
    unfolding CfStore.multiget_raw
    multiget_raw st keys = CfStore.multiget_raw g kt st.cf_store default_cf keys

    unfoldable pub multiget_with_expiry :
        RocksDbStore g → List K → StoreResult E (List (Option ValueWithExpiry))
    unfolding CfStore.multiget_with_expiry
    multiget_with_expiry st keys = CfStore.multiget_with_expiry g kt st.cf_store default_cf keys

    unfoldable pub put : {V : Type 0} → Codec E V → K → V → DefaultAction
    unfolding inside Write.put
    put c key value = inside (Write.put g kt c default_cf key value)

    unfoldable pub put_raw : K → Bytes → DefaultAction
    unfolding inside Write.put_raw
    put_raw key raw_val = inside (Write.put_raw g kt default_cf key raw_val)

    unfoldable pub put_with_expiry : {V : Type 0} → Codec E V → K → V → ℕ → DefaultAction
    unfolding inside Write.put_with_expiry
    put_with_expiry c key val expire_time =
        inside (Write.put_with_expiry g kt c default_cf key val expire_time)

    unfoldable pub merge : {V : Type 0} → Codec E V → K → V → DefaultAction
    unfolding inside Write.merge
    merge c key merge_value = inside (Write.merge g kt c default_cf key merge_value)

    unfoldable pub merge_raw : K → Bytes → DefaultAction
    unfolding inside Write.merge_raw
    merge_raw key raw_merge_op = inside (Write.merge_raw g kt default_cf key raw_merge_op)

    unfoldable pub merge_with_expiry : {V : Type 0} → Codec E V → String → K → V → ℕ → DefaultAction
    unfolding inside Write.merge_with_expiry
    merge_with_expiry c cf_name key value expire_time =
        inside (Write.merge_with_expiry g kt c cf_name key value expire_time)

    unfoldable pub delete : K → DefaultAction
    unfolding inside Write.delete
    delete key = inside (Write.delete g kt default_cf key)

    unfoldable pub delete_range : K → K → DefaultAction
    unfolding inside Write.delete_range
    delete_range start_key end_key = inside (Write.delete_range g kt default_cf start_key end_key)

    unfoldable pub iterate :
        {S Out : Type 0}
        → RocksDbStore g
        → IterConfig E S K Out
        → S
        → StoreResult E (IterationResult E S Out)
    unfolding Find.iterate
    iterate st config = Find.iterate g kt st.cf_store config

    unfoldable pub find_by_prefix :
        {V : Type 0}
        → Codec E V
        → RocksDbStore g
        → K
        → Direction
        → Option (StoreResult E (List (K × V)))
    unfolding Find.find_by_prefix
    find_by_prefix c st prefix direction =
        Find.find_by_prefix g kt c st.cf_store default_cf prefix direction

    unfoldable pub find_from :
        {V S : Type 0}
        → Codec E V
        → RocksDbStore g
        → K
        → Direction
        → ControlFn S
        → S
        → Option (StoreResult E (List (K × V)))
    unfolding Find.find_from
    find_from c st start_key direction control_fn =
        Find.find_from g kt c st.cf_store default_cf start_key direction control_fn

    unfoldable pub find_from_with_expire_val :
        {S : Type 0}
        → RocksDbStore g
        → K
        → Bool
        → ControlFn S
        → S
        → Option (Result (Message E) (List (K × ValueWithExpiry)))
    unfolding Find.find_from_with_expire_val
    find_from_with_expire_val st start reverse control_fn =
        Find.find_from_with_expire_val g kt st.cf_store default_cf start reverse control_fn

    unfoldable pub find_by_prefix_with_expire_val :
        {S : Type 0}
        → RocksDbStore g
        → K
        → Bool
        → ControlFn S
        → S
        → Option (Result (Message E) (List (K × ValueWithExpiry)))
    unfolding Find.find_by_prefix_with_expire_val
    find_by_prefix_with_expire_val st prefix_key reverse control_fn =
        Find.find_by_prefix_with_expire_val g kt st.cf_store default_cf prefix_key reverse
          control_fn
