-- ===== src/Config/Stores.antt =====
-- The configurations of the stores of src/config.rs, src/tx/cf_tx_store.rs, src/tx/tx_store.rs and
-- src/tx/optimistic_tx_store.rs, field by field.
use rocksolid.Base.{ℕ, Option, List, Bytes, String, Bool}
use rocksolid.Base.Int.{ℤ}
use rocksolid.Base.Map.{Map}
use rocksolid.Tuner.{Kinds, Tunable}
use rocksolid.Tuner.Profiles.{TuningProfile}
use rocksolid.Config.{RecoveryMode, ComparatorOpt}

-- `MergeFn`: the key, the existing value and the operands; `none` outside is a panic.
abbrev pub MergeFn : Type 0
MergeFn = Bytes → Option Bytes → List Bytes → Option (Option Bytes)

-- `rocksdb::compaction_filter::Decision`, and `CompactionFilterRouterFnPtr`
pub data FilterDecision : Type 0 where
  keep_entry remove_entry : FilterDecision
  change_entry : Bytes → FilterDecision

abbrev pub FilterFn : Type 0
FilterFn = ℕ → Bytes → Bytes → FilterDecision

pub record MergeOperatorConfig : Type 0 where
  pub name : String
  pub full_merge_fn : Option MergeFn
  pub partial_merge_fn : Option MergeFn

pub record MergeOperatorCfConfig : Type 0 where
  pub name : String
  pub full_merge_fn : Option MergeFn
  pub partial_merge_fn : Option MergeFn

-- `From<MergeOperatorConfig> for RockSolidMergeOperatorCfConfig`
unfoldable pub merge_operator_from : MergeOperatorConfig → MergeOperatorCfConfig
merge_operator_from original = record {
  name = original.name;
  full_merge_fn = original.full_merge_fn;
  partial_merge_fn = original.partial_merge_fn;
}

pub record FilterRouterConfig : Type 0 where
  pub name : String
  pub filter_fn_ptr : FilterFn

pub record BaseCfConfig (K : Kinds) : Type 0 where
  pub tuning_profile : Option (TuningProfile K)
  pub merge_operator : Option MergeOperatorCfConfig
  pub comparator : Option ComparatorOpt
  pub compaction_filter_router : Option FilterRouterConfig

-- A callback changes the options of the database and those of the families.
abbrev pub DbAndCfCallback : Kinds → Type 0
DbAndCfCallback K = Tunable K × Map (Tunable K) → Tunable K × Map (Tunable K)

-- `RocksDbCFStoreConfig`
pub record CfStoreConfig (K : Kinds) : Type 0 where
  pub path : String
  pub create_if_missing : Bool
  pub db_tuning_profile : Option (TuningProfile K)
  pub column_family_configs : Map (BaseCfConfig K)
  pub column_families_to_open : List String
  pub custom_options_db_and_cf : Option (DbAndCfCallback K)
  pub recovery_mode : Option RecoveryMode
  pub parallelism : Option ℤ
  pub enable_statistics : Option Bool

-- `RocksDbStoreConfig`; its callback takes the options of the database and of the default family.
pub record StoreConfig (K : Kinds) : Type 0 where
  pub path : String
  pub create_if_missing : Bool
  pub default_cf_tuning_profile : Option (TuningProfile K)
  pub default_cf_merge_operator : Option MergeOperatorCfConfig
  pub comparator : Option ComparatorOpt
  pub compaction_filter_router : Option FilterRouterConfig
  pub custom_options_default_cf_and_db : Option (Tunable K × Tunable K → Tunable K × Tunable K)
  pub recovery_mode : Option RecoveryMode
  pub parallelism : Option ℤ
  pub enable_statistics : Option Bool

-- `TransactionalEngine`; `T` is `TransactionDBOptions`.
pub data TransactionalEngine (T : Type 0) : Type 0 where
  pessimistic : T → TransactionalEngine T
  optimistic : TransactionalEngine T

-- `CustomDbAndCfCb`: the name of a family and its options.
abbrev pub NamedCallback : Kinds → Type 0
NamedCallback K = String → Tunable K → Tunable K

-- `RocksDbTransactionalStoreConfig`, with `CFTxConfig` as the `BaseCfConfig` that it wraps.
pub record TransactionalStoreConfig (K : Kinds) (T : Type 0) : Type 0 where
  pub path : String
  pub create_if_missing : Bool
  pub db_tuning_profile : Option (TuningProfile K)
  pub column_family_configs : Map (BaseCfConfig K)
  pub column_families_to_open : List String
  pub custom_options_db_and_cf : Option (NamedCallback K)
  pub recovery_mode : Option RecoveryMode
  pub parallelism : Option ℤ
  pub enable_statistics : Option Bool
  pub engine : TransactionalEngine T

-- `RocksDbTxnStoreConfig`
pub record TxnStoreConfig (K : Kinds) (T : Type 0) : Type 0 where
  pub path : String
  pub create_if_missing : Bool
  pub default_cf_tuning_profile : Option (TuningProfile K)
  pub default_cf_merge_operator : Option MergeOperatorConfig
  pub compaction_filter_router : Option FilterRouterConfig
  pub custom_options_default_cf_and_db : Option (NamedCallback K)
  pub recovery_mode : Option RecoveryMode
  pub parallelism : Option ℤ
  pub enable_statistics : Option Bool
  pub txn_db_options : Option T

-- `RocksDbOptimisticTxnStoreConfig`
pub record OptimisticTxnStoreConfig (K : Kinds) : Type 0 where
  pub path : String
  pub create_if_missing : Bool
  pub default_cf_tuning_profile : Option (TuningProfile K)
  pub default_cf_merge_operator : Option MergeOperatorConfig
  pub compaction_filter_router : Option FilterRouterConfig
  pub custom_options_default_cf_and_db : Option (NamedCallback K)
  pub recovery_mode : Option RecoveryMode
  pub parallelism : Option ℤ
  pub enable_statistics : Option Bool

-- `RocksDbCFOptimisticTxnStoreConfig`, with `CFOptimisticTxnConfig` as the `BaseCfConfig` it wraps.
pub record CfOptimisticTxnStoreConfig (K : Kinds) : Type 0 where
  pub path : String
  pub create_if_missing : Bool
  pub db_tuning_profile : Option (TuningProfile K)
  pub column_family_configs : Map (BaseCfConfig K)
  pub column_families_to_open : List String
  pub custom_options_db_and_cf : Option (NamedCallback K)
  pub recovery_mode : Option RecoveryMode
  pub parallelism : Option ℤ
  pub enable_statistics : Option Bool
