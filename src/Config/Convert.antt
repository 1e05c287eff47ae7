-- ===== src/Config/Convert.antt =====
-- The defaults of the configurations of the stores, and the conversions between them: `From` and
-- `Default` of src/config.rs, src/tx/tx_store.rs, src/tx/optimistic_tx_store.rs and
-- src/tx/cf_optimistic_tx_store.rs.
use rocksolid.Base.{Option, none, some, [], ◌∷◌, true, str_eq, if◌then◌else◌}
use rocksolid.Base.Map.{lookup, insert, modify}
use rocksolid.Engine.{default_cf}
use rocksolid.Tuner.{Kinds, Tunable}
use rocksolid.Tuner.Profiles.{TuningProfile}
use rocksolid.Config.Stores.{
  MergeOperatorConfig, merge_operator_from, FilterRouterConfig, BaseCfConfig, DbAndCfCallback,
  NamedCallback, CfStoreConfig, StoreConfig, pessimistic, optimistic, TransactionalStoreConfig,
  TxnStoreConfig, OptimisticTxnStoreConfig, CfOptimisticTxnStoreConfig,
}

abbrev pub map_option : {A B : Type 0} → (A → B) → Option A → Option B
map_option f none = none
map_option f (some a) = some (f a)

module _ {K : Kinds} where
  -- `Default for RocksDbCFStoreConfig`
  unfoldable pub default_cf_store_config : CfStoreConfig K
  default_cf_store_config = record {
    path = "";
    create_if_missing = true;
    db_tuning_profile = none;
    column_family_configs = [];
    column_families_to_open = default_cf ∷ [];
    custom_options_db_and_cf = none;
    recovery_mode = none;
    parallelism = none;
    enable_statistics = none;
  }

  -- `Default for RocksDbStoreConfig`
  unfoldable pub default_store_config : StoreConfig K
  default_store_config = record {
    path = "";
    create_if_missing = true;
    default_cf_tuning_profile = none;
    default_cf_merge_operator = none;
    comparator = none;
    compaction_filter_router = none;
    custom_options_default_cf_and_db = none;
    recovery_mode = none;
    parallelism = none;
    enable_statistics = none;
  }

  -- The closure that looks the options of the default family up; it only warns where they are missing.
  unfoldable pub on_default_entry :
      (Tunable K × Tunable K → Tunable K × Tunable K) → DbAndCfCallback K
  unfolding lookup modify
  on_default_entry user_fn (db_opts, cf_opts_map) = elim (lookup default_cf cf_opts_map) [
    | none ↦ (db_opts, cf_opts_map)
    | some default_cf_opts ↦
        let (db_opts', cf_opts') = user_fn (db_opts, default_cf_opts) in
        (db_opts', modify default_cf (λ _. cf_opts') cf_opts_map)
  ]

  -- `From<RocksDbStoreConfig> for RocksDbCFStoreConfig`
  unfoldable pub cf_store_config : StoreConfig K → CfStoreConfig K
  unfolding insert on_default_entry
  cf_store_config cfg = record {
    path = cfg.path;
    create_if_missing = cfg.create_if_missing;
    db_tuning_profile = none;
    column_family_configs =
        insert default_cf
          (record {
            tuning_profile = cfg.default_cf_tuning_profile;
            merge_operator = cfg.default_cf_merge_operator;
            comparator = cfg.comparator;
            compaction_filter_router = cfg.compaction_filter_router;
          })
          [];
    column_families_to_open = default_cf ∷ [];
    custom_options_db_and_cf = map_option on_default_entry cfg.custom_options_default_cf_and_db;
    recovery_mode = cfg.recovery_mode;
    parallelism = cfg.parallelism;
    enable_statistics = cfg.enable_statistics;
  }

  -- The closure that calls the user's function for the default family alone.
  unfoldable pub on_default_name : NamedCallback K → NamedCallback K
  on_default_name user_fn cf_name opts =
      if str_eq cf_name default_cf then user_fn cf_name opts else opts

  abbrev pub base_config :
      Option (TuningProfile K)
      → Option MergeOperatorConfig
      → Option FilterRouterConfig
      → BaseCfConfig K
  unfolding merge_operator_from
  base_config profile merge_operator router = record {
    tuning_profile = profile;
    merge_operator = map_option merge_operator_from merge_operator;
    comparator = none;
    compaction_filter_router = router;
  }

  -- `From<RocksDbTxnStoreConfig> for RocksDbTransactionalStoreConfig`, given the default options of
  -- a transactional database.
  unfoldable pub transactional_config :
      {T : Type 0} → T → TxnStoreConfig K T → TransactionalStoreConfig K T
  unfolding insert on_default_name
  transactional_config default_options cfg = record {
    path = cfg.path;
    create_if_missing = cfg.create_if_missing;
    db_tuning_profile = none;
    column_family_configs =
        insert default_cf
          (base_config cfg.default_cf_tuning_profile cfg.default_cf_merge_operator
            cfg.compaction_filter_router)
          [];
    column_families_to_open = default_cf ∷ [];
    custom_options_db_and_cf = map_option on_default_name cfg.custom_options_default_cf_and_db;
    recovery_mode = cfg.recovery_mode;
    parallelism = cfg.parallelism;
    enable_statistics = cfg.enable_statistics;
    engine = pessimistic (elim cfg.txn_db_options [ none ↦ default_options | some o ↦ o ]);
  }

  -- `From<RocksDbOptimisticTxnStoreConfig> for RocksDbTransactionalStoreConfig`
  unfoldable pub transactional_config_optimistic :
      {T : Type 0} → OptimisticTxnStoreConfig K → TransactionalStoreConfig K T
  unfolding insert on_default_name
  transactional_config_optimistic cfg = record {
    path = cfg.path;
    create_if_missing = cfg.create_if_missing;
    db_tuning_profile = none;
    column_family_configs =
        insert default_cf
          (base_config cfg.default_cf_tuning_profile cfg.default_cf_merge_operator
            cfg.compaction_filter_router)
          [];
    column_families_to_open = default_cf ∷ [];
    custom_options_db_and_cf = map_option on_default_name cfg.custom_options_default_cf_and_db;
    recovery_mode = cfg.recovery_mode;
    parallelism = cfg.parallelism;
    enable_statistics = cfg.enable_statistics;
    engine = optimistic;
  }

  -- `From<RocksDbOptimisticTxnStoreConfig> for RocksDbCFOptimisticTxnStoreConfig`
  unfoldable pub cf_optimistic_config : OptimisticTxnStoreConfig K → CfOptimisticTxnStoreConfig K
  unfolding insert on_default_name
  cf_optimistic_config cfg = record {
    path = cfg.path;
    create_if_missing = cfg.create_if_missing;
    db_tuning_profile = none;
    column_family_configs =
        insert default_cf
          (base_config cfg.default_cf_tuning_profile cfg.default_cf_merge_operator
            cfg.compaction_filter_router)
          [];
    column_families_to_open = default_cf ∷ [];
    custom_options_db_and_cf = map_option on_default_name cfg.custom_options_default_cf_and_db;
    recovery_mode = cfg.recovery_mode;
    parallelism = cfg.parallelism;
    enable_statistics = cfg.enable_statistics;
  }

  -- `From<RocksDbCFOptimisticTxnStoreConfig> for RocksDbTransactionalStoreConfig`
  unfoldable pub cf_transactional_config :
      {T : Type 0} → CfOptimisticTxnStoreConfig K → TransactionalStoreConfig K T
  cf_transactional_config cfg = record {
    path = cfg.path;
    create_if_missing = cfg.create_if_missing;
    db_tuning_profile = cfg.db_tuning_profile;
    column_family_configs = cfg.column_family_configs;
    column_families_to_open = cfg.column_families_to_open;
    custom_options_db_and_cf = cfg.custom_options_db_and_cf;
    recovery_mode = cfg.recovery_mode;
    parallelism = cfg.parallelism;
    enable_statistics = cfg.enable_statistics;
    engine = optimistic;
  }
