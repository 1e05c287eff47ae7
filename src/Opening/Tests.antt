-- ===== src/Opening/Tests.antt =====
-- The theorems on opening at concrete data, over options that are two numbers; the file system is
-- nothing, and opening fails with error 3.
use rocksolid.Base.{ℕ, ◌≡◌, ◌∙◌, refl, none, some, [], ◌∷◌, true, ◌≢◌, false}
use rocksolid.Base.Int.{pos, max}
use rocksolid.Base.Outcome.{err}
use rocksolid.Engine.{default_cf}
use rocksolid.Tuner.{Tunable}
use rocksolid.Tuner.Profiles.{TuningProfile, latest_value, core_count}
use rocksolid.Tuner.Threads.{Numbers, kinds, options, profiles, threads_apart}
use rocksolid.Config.Stores.{
  BaseCfConfig, CfStoreConfig, StoreConfig, TxnStoreConfig, OptimisticTxnStoreConfig,
}
use rocksolid.Config.Convert.{cf_store_config, cf_optimistic_config}
use rocksolid.Opening.{
  open_store, destroy, OpeningApi, db_options, cf_tunable, customized, descriptors, destroy_options,
  apply_config,
}
use rocksolid.Errors.{text, invalid_configuration}
use rocksolid.Opening.Transactional.{open_optimistic_store, TransactionalApi, build_db_wide_options}
use rocksolid.Opening.Hard.{
  IsApart, opened_with, destroyed_with, open_store-parallelism, parallelism_overridden,
}
use rocksolid.Opening.Default.{open_txn, open_optimistic_txn}
use rocksolid.Opening.Engines.{opens_own_engine}
use rocksolid.Opening.Families.{open_default-callback}

abbrev api : OpeningApi ℕ kinds (Unit {0}) (Unit {0})
api = record {
  options = options;
  profiles = profiles;
  comparators = record {
    O = Unit;
    nat_lex_byte_cmp = λ a b. tt;
    nat_lex_byte_cmp_ignore = λ a b. tt;
    from_utf8 = λ b. none;
    compare = λ a b. tt;
    compare_ignore_case = λ a b. tt;
    set_comparator = λ n f o. o;
  };
  cpus = 6;
  set_wal_recovery_mode = λ m o. o;
  enable_statistics = λ o. o;
  set_merge_operator = λ n f p o. record o { open_files = pos 77 };
  set_compaction_filter = λ n f o. o;
  open_cf_descriptors = λ o p ds w. (err 3, w);
  destroy_files = λ o p w. (err 3, w);
}

abbrev profile : TuningProfile kinds
profile = latest_value 64 true true none

-- Two families and a profile of the database; "logs" has a merge operator and no profile.
abbrev logs_config : BaseCfConfig kinds
logs_config = record {
  tuning_profile = none;
  merge_operator = some (record { name = "m"; full_merge_fn = none; partial_merge_fn = none });
  comparator = none;
  compaction_filter_router = none;
}

abbrev two_families : CfStoreConfig kinds
two_families = record {
  path = "/tmp/db";
  create_if_missing = true;
  db_tuning_profile = some profile;
  column_family_configs = ("logs", logs_config) ∷ [];
  column_families_to_open = default_cf ∷ "logs" ∷ [];
  custom_options_db_and_cf = none;
  recovery_mode = none;
  parallelism = some (pos 3);
  enable_statistics = some true;
}

three_apart : IsApart api (λ o. o.threads ≡ pos 3)
three_apart = record {
  settings = λ s o n h. threads_apart s o n ∙ h;
  recovery = λ m o h. h;
  statistics = λ o h. h;
}

open_store-parallelism_example :
    ((o : Numbers) × (o.threads ≡ pos 3)
      × (open_store api two_families tt ≡ opened_with api two_families o tt))
    × ((o : Numbers) × (o.threads ≡ pos 3)
        × (destroy api "/tmp/db" two_families tt ≡ destroyed_with api o "/tmp/db" tt))
open_store-parallelism_example =
    open_store-parallelism api two_families (pos 3) (λ o. o.threads ≡ pos 3) three_apart (λ o. refl)
      refl refl "/tmp/db" tt

abbrev transactional : TransactionalApi ℕ kinds (Unit {0}) (Unit {0}) (Unit {0}) (Unit {0})
transactional = record {
  plain = api;
  open_pessimistic = λ o t p ds w. (err 3, w);
  open_optimistic = λ o p ds w. (err 3, w);
}

parallelism_overridden_example :
    (build_db_wide_options transactional
      (some true)
      (some (pos 3))
      none
      none
      (some (latest_value 64 true true none))).threads
    ≡ max (core_count profiles 6) 2
parallelism_overridden_example =
    parallelism_overridden transactional (λ o. o.threads) (λ p o. refl)
      (λ s o n. threads_apart s o n) (some true) (pos 3) none none 64 true true

abbrev one_more : Tunable kinds × Tunable kinds → Tunable kinds × Tunable kinds
one_more (d, f) = (
  record d { inner = record d.inner { threads = pos 9 } },
  record f { inner = record f.inner { open_files = pos 5 } },
)

abbrev one_family : StoreConfig kinds
one_family = record {
  path = "/tmp/one";
  create_if_missing = true;
  default_cf_tuning_profile = some profile;
  default_cf_merge_operator = none;
  comparator = none;
  compaction_filter_router = none;
  custom_options_default_cf_and_db = some one_more;
  recovery_mode = none;
  parallelism = some (pos 4);
  enable_statistics = none;
}

open_default-callback_example :
    ((customized api (cf_store_config one_family)).0
      ≡ (one_more (
        db_options api (cf_store_config one_family),
        cf_tunable api (cf_store_config one_family) default_cf,
      )).0)
    × (descriptors api (cf_store_config one_family)
        ≡ (
          default_cf,
          apply_config api
              (record {
                tuning_profile = some profile;
                merge_operator = none;
                comparator = none;
                compaction_filter_router = none;
              })
              (one_more (
                db_options api (cf_store_config one_family),
                cf_tunable api (cf_store_config one_family) default_cf,
              )).1.inner,
        )
          ∷ [])
    × (destroy_options api (cf_store_config one_family)
        ≡ destroy_options api
            (record (cf_store_config one_family) { custom_options_db_and_cf = none }))
open_default-callback_example = open_default-callback api one_family one_more refl

abbrev txn_config : TxnStoreConfig kinds (Unit {0})
txn_config = record {
  path = "/tmp/txn";
  create_if_missing = true;
  default_cf_tuning_profile = some profile;
  default_cf_merge_operator = none;
  compaction_filter_router = none;
  custom_options_default_cf_and_db = none;
  recovery_mode = none;
  parallelism = none;
  enable_statistics = some false;
  txn_db_options = none;
}

abbrev optimistic_config : OptimisticTxnStoreConfig kinds
optimistic_config = record {
  path = "/tmp/optimistic";
  create_if_missing = true;
  default_cf_tuning_profile = some profile;
  default_cf_merge_operator = none;
  compaction_filter_router = none;
  custom_options_default_cf_and_db = none;
  recovery_mode = none;
  parallelism = some (pos 2);
  enable_statistics = none;
}

opens_own_engine_example :
    ((open_txn transactional tt txn_config tt).0 ≢ err (invalid_configuration (text "engine")))
    × ((open_optimistic_txn transactional optimistic_config tt).0
        ≢ err (invalid_configuration (text "engine")))
    × ((open_optimistic_store transactional (cf_optimistic_config optimistic_config) tt).0
        ≢ err (invalid_configuration (text "engine")))
opens_own_engine_example =
    opens_own_engine transactional tt (text "engine") tt txn_config optimistic_config
      (cf_optimistic_config optimistic_config)
