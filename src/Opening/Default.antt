-- ===== src/Opening/Default.antt =====
-- `open` and `destroy` of the stores of the default family (src/store.rs, src/tx/tx_store.rs,
-- src/tx/optimistic_tx_store.rs): each converts its configuration and calls the store inside. Such a
-- store is what it wraps.
use rocksolid.Base.{none, [], String}
use rocksolid.Base.Action.{Action}
use rocksolid.Errors.{StoreError}
use rocksolid.Tuner.{Kinds}
use rocksolid.Config.Stores.{StoreConfig, TxnStoreConfig, OptimisticTxnStoreConfig}
use rocksolid.Config.Convert.{cf_store_config, transactional_config, cf_optimistic_config}
use rocksolid.Opening.{OpeningApi, Opened, open_store, destroy}
use rocksolid.Opening.Transactional.{
  TransactionalApi, open_pessimistic_store, destroy_pessimistic, open_optimistic_store,
  destroy_optimistic,
}

module _ {E : Type 0} {K : Kinds} {Db World : Type 0} (api : OpeningApi E K Db World) where
  -- `RocksDbStore::open`
  unfoldable pub open_default : StoreConfig K → Action World (StoreError E) (Opened Db)
  unfolding open_store cf_store_config
  open_default config = open_store api (cf_store_config config)

  -- `RocksDbStore::destroy`
  unfoldable pub destroy_default : String → StoreConfig K → Action World (StoreError E) (Unit {0})
  unfolding destroy cf_store_config
  destroy_default path config = destroy api path (cf_store_config config)

module _ {E : Type 0} {K : Kinds} {T Pess Opt World : Type 0}
    (api : TransactionalApi E K T Pess Opt World) where
  -- `RocksDbTxnStore::open`, given the default options of a transactional database.
  unfoldable pub open_txn : T → TxnStoreConfig K T → Action World (StoreError E) (Opened Pess)
  unfolding open_pessimistic_store transactional_config
  open_txn default_options config =
      open_pessimistic_store api (transactional_config default_options config)

  -- `RocksDbTxnStore::destroy`
  unfoldable pub destroy_txn :
      T → String → TxnStoreConfig K T → Action World (StoreError E) (Unit {0})
  unfolding destroy_pessimistic transactional_config
  destroy_txn default_options path config =
      destroy_pessimistic api path (transactional_config default_options config)

  -- `RocksDbOptimisticTxnStore::open`
  unfoldable pub open_optimistic_txn :
      OptimisticTxnStoreConfig K → Action World (StoreError E) (Opened Opt)
  unfolding open_optimistic_store cf_optimistic_config
  open_optimistic_txn config = open_optimistic_store api (cf_optimistic_config config)

  -- `RocksDbOptimisticTxnStore::destroy`, where the profile of the family is that of the database.
  unfoldable pub destroy_optimistic_txn :
      String → OptimisticTxnStoreConfig K → Action World (StoreError E) (Unit {0})
  unfolding destroy_optimistic
  destroy_optimistic_txn path config = destroy_optimistic api path (record {
    path = config.path;
    create_if_missing = config.create_if_missing;
    db_tuning_profile = config.default_cf_tuning_profile;
    column_family_configs = [];
    column_families_to_open = [];
    custom_options_db_and_cf = none;
    recovery_mode = config.recovery_mode;
    parallelism = config.parallelism;
    enable_statistics = config.enable_statistics;
  })
