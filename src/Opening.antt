-- ===== src/Opening.antt =====
-- `RocksDbCFStore::open` and `destroy` of src/cf_store.rs: the options of the database and of each
-- family, and what is opened with them. `OpeningApi` holds the calls of `rocksdb`; the state `World`
-- is the file system. The iteration of a `HashMap` is that of its list.
pub mod Transactional
pub mod Default
pub mod Engines
pub mod Hard
pub mod Families
mod Tests
use rocksolid.Base.{
  ℕ, Option, none, some, List, [], ◌∷◌, Bytes, String, Bool, true, false, str_eq, if◌then◌else◌,
}
use rocksolid.Base.Int.{ℤ}
use rocksolid.Base.Outcome.{Result, ok, err, map_err}
use rocksolid.Base.Action.{Action, lift, ◌>>=◌}
use rocksolid.Base.Map.{Map, lookup, insert, modify, remove}
use rocksolid.Errors.{StoreError, rocks_db}
use rocksolid.Engine.{default_cf}
use rocksolid.Merge.{default_full_merge, default_partial_merge}
use rocksolid.Tuner.{
  Kinds, OptionsApi, Setting, by_macro, create_if_missing, create_missing_column_families,
  increase_parallelism, Tunable, new, set, contains,
}
use rocksolid.Tuner.Profiles.{ProfileApi, TuningProfile, tune_db_opts}
use rocksolid.Tuner.Families.{tune_cf_opts}
use rocksolid.Config.{
  RecoveryMode, RocksDbRecoveryMode, convert_recovery_mode, ComparatorApi, apply_to_opts,
}
use rocksolid.Config.Stores.{
  MergeFn, FilterFn, MergeOperatorCfConfig, FilterRouterConfig, BaseCfConfig, DbAndCfCallback,
  CfStoreConfig,
}

-- The calls of `rocksdb` and `num_cpus` that opening makes. `E` is the error of `rocksdb`, `Db` an
-- open database.
pub record OpeningApi (E : Type 0) (K : Kinds) (Db World : Type 0) : Type 1 where
  pub options : OptionsApi K
  pub profiles : ProfileApi K
  pub comparators : ComparatorApi K.Options
  pub cpus : ℕ
  pub set_wal_recovery_mode : RocksDbRecoveryMode → K.Options → K.Options
  pub enable_statistics : K.Options → K.Options
  pub set_merge_operator : String → MergeFn → MergeFn → K.Options → K.Options
  pub set_compaction_filter : String → FilterFn → K.Options → K.Options
  pub open_cf_descriptors : K.Options → String → List (String × K.Options) → Action World E Db
  pub destroy_files : K.Options → String → Action World E (Unit {0})

-- A store that was opened: `db`, `cf_names` and `path`.
pub record Opened (Db : Type 0) : Type 0 where
  pub db : Db
  pub cf_names : List String
  pub path : String

abbrev pub when {ℓ κ} : {A : Type ℓ} {B : Type κ} → Option A → (A → B → B) → B → B
when none f b = b
when (some a) f b = f a b

abbrev pub or_else : {A : Type 0} → Option A → Option A → Option A
or_else (some a) o = some a
or_else none o = o

module _ {E : Type 0} {K : Kinds} {Db World : Type 0} (api : OpeningApi E K Db World) where
  abbrev pub on_inner : (K.Options → K.Options) → Tunable K → Tunable K
  on_inner f t = record t { inner = f t.inner }

  -- `if let Some(enable_stats) = cfg.enable_statistics { if enable_stats { .. } }`
  abbrev pub statistics : Option Bool → Tunable K → Tunable K
  statistics (some true) = on_inner api.enable_statistics
  statistics _ = λ t. t

  -- The hard settings and the profile, on options that were made before: steps 2 and 3 of `open`.
  unfoldable pub hard_settings : CfStoreConfig K → Tunable K → Tunable K
  unfolding set convert_recovery_mode
  hard_settings cfg t = statistics cfg.enable_statistics (
      when cfg.recovery_mode
        (λ mode. on_inner (api.set_wal_recovery_mode (convert_recovery_mode mode)))
        (when cfg.parallelism (λ p. set api.options (by_macro (increase_parallelism p))) t))

  unfoldable pub db_profile : CfStoreConfig K → Tunable K → Tunable K
  unfolding tune_db_opts
  db_profile cfg = when cfg.db_tuning_profile (tune_db_opts api.profiles api.options api.cpus)

  -- Steps 1 to 3 of `open`
  unfoldable pub db_options : CfStoreConfig K → Tunable K
  unfolding new hard_settings db_profile
  db_options cfg = db_profile cfg (
      hard_settings cfg (
        on_inner
          (api.options.call (by_macro (create_missing_column_families cfg.create_if_missing)))
          (on_inner (api.options.call (by_macro (create_if_missing cfg.create_if_missing)))
            (new api.options.default))))

  -- The profile of a family, or else that of the database.
  unfoldable pub effective_profile : CfStoreConfig K → String → Option (TuningProfile K)
  unfolding lookup
  effective_profile cfg cf_name =
      or_else
        (elim (lookup cf_name cfg.column_family_configs) [
          | none ↦ none
          | some c ↦ c.tuning_profile
        ])
        cfg.db_tuning_profile

  unfoldable pub cf_tunable : CfStoreConfig K → String → Tunable K
  unfolding effective_profile new tune_cf_opts
  cf_tunable cfg cf_name =
      when (effective_profile cfg cf_name) (tune_cf_opts api.profiles api.options)
        (new api.options.default)

  -- Step 4 of `open`: an entry for each family that is to be opened.
  unfoldable pub cf_options_map : CfStoreConfig K → List String → Map (Tunable K) → Map (Tunable K)
  unfolding cf_tunable insert
  cf_options_map cfg [] m = m
  cf_options_map cfg (n ∷ ns) m = cf_options_map cfg ns (insert n (cf_tunable cfg n) m)

  -- The entry for the default family, where it is to be opened and has none.
  unfoldable pub ensure_default : CfStoreConfig K → Map (Tunable K) → Map (Tunable K)
  unfolding contains lookup insert new tune_cf_opts
  ensure_default cfg m =
      if contains cfg.column_families_to_open default_cf
      then elim (lookup default_cf m) [
        | some t ↦ m
        | none ↦
            insert default_cf
              (when cfg.db_tuning_profile (tune_cf_opts api.profiles api.options)
                (new api.options.default))
              m
      ]
      else m

  -- Step 5: the options of the database and of the families after the callback.
  unfoldable pub customized : CfStoreConfig K → Tunable K × Map (Tunable K)
  unfolding db_options cf_options_map ensure_default
  customized cfg =
      when cfg.custom_options_db_and_cf (λ custom_fn. custom_fn)
        (db_options cfg, ensure_default cfg (cf_options_map cfg cfg.column_families_to_open []))

  abbrev pub unwrap_or : {A : Type 0} → Option A → A → A
  unwrap_or none a = a
  unwrap_or (some b) a = b

  -- Step 7 for one family: its merge operator, comparator and compaction filter.
  unfoldable pub apply_config : BaseCfConfig K → K.Options → K.Options
  unfolding default_full_merge default_partial_merge apply_to_opts
  apply_config c opts =
      when c.compaction_filter_router
        (λ router. api.set_compaction_filter router.name router.filter_fn_ptr)
        (when c.comparator (apply_to_opts api.comparators) (
          when c.merge_operator
            (λ op.
              api.set_merge_operator op.name (unwrap_or op.full_merge_fn (λ k. default_full_merge))
                (unwrap_or op.partial_merge_fn (λ k. default_partial_merge)))
            opts))

  unfoldable pub apply_configs : Map (BaseCfConfig K) → Map K.Options → Map K.Options
  unfolding apply_config modify
  apply_configs [] m = m
  apply_configs ((n, c) ∷ cs) m = apply_configs cs (modify n (apply_config c) m)

  -- Step 6, for the families: `into_inner` of each.
  unfoldable pub unwrapped : Map (Tunable K) → Map K.Options
  unwrapped [] = []
  unwrapped ((n, t) ∷ m) = (n, t.inner) ∷ unwrapped m

  -- Step 8: a descriptor for each family, which takes its options out of the map.
  unfoldable pub cf_descriptors : List String → Map K.Options → List (String × K.Options)
  unfolding lookup remove
  cf_descriptors [] m = []
  cf_descriptors (n ∷ ns) m =
      (n, unwrap_or (lookup n m) api.options.default) ∷ cf_descriptors ns (remove n m)

  unfoldable pub descriptors : CfStoreConfig K → List (String × K.Options)
  unfolding customized apply_configs unwrapped cf_descriptors
  descriptors cfg =
      let (_, cf_opts_map) = customized cfg in
      cf_descriptors cfg.column_families_to_open
        (apply_configs cfg.column_family_configs (unwrapped cf_opts_map))

  -- `RocksDbCFStore::open`
  unfoldable pub open_store : CfStoreConfig K → Action World (StoreError E) (Opened Db)
  unfolding customized descriptors
  open_store cfg w =
      let (r, w') = api.open_cf_descriptors (customized cfg).0.inner cfg.path (descriptors cfg) w in
      (lift (map_err rocks_db r) >>= λ db.
      lift (ok (record { db = db; cf_names = cfg.column_families_to_open; path = cfg.path })))
        w'

  -- The options that `destroy` makes.
  unfoldable pub destroy_options : CfStoreConfig K → K.Options
  unfolding new hard_settings db_profile
  destroy_options cfg =
      (when cfg.custom_options_db_and_cf (λ custom_fn t. (custom_fn (t, [])).0)
        (db_profile cfg (hard_settings cfg (new api.options.default)))).inner

  -- `RocksDbCFStore::destroy`
  unfoldable pub destroy : String → CfStoreConfig K → Action World (StoreError E) (Unit {0})
  unfolding destroy_options
  destroy path cfg w =
      let (r, w') = api.destroy_files (destroy_options cfg) path w in (map_err rocks_db r, w')
