-- ===== src/Opening/Transactional.antt =====
-- `_open_db_internal` and `_build_db_wide_options` of src/tx/internal.rs, and `open` and `destroy` of
-- the transactional stores (src/tx/cf_tx_store.rs, src/tx/cf_optimistic_tx_store.rs) that call them.
use rocksolid.Base.{Option, none, some, List, [], ◌∷◌, ◌⊎◌, inl, inr, String, Bool, if◌then◌else◌}
use rocksolid.Base.Int.{ℤ}
use rocksolid.Base.Outcome.{ok, err, map_err}
use rocksolid.Base.Action.{Action, lift, ◌>>=◌}
use rocksolid.Base.Map.{Map, lookup, insert}
use rocksolid.Errors.{StoreError, rocks_db, invalid_configuration, text}
use rocksolid.Engine.{default_cf}
use rocksolid.Tuner.{
  Kinds, by_macro, create_if_missing, create_missing_column_families, increase_parallelism, Tunable,
  new, contains,
}
use rocksolid.Tuner.Profiles.{TuningProfile, tune_db_opts}
use rocksolid.Tuner.Families.{tune_cf_opts}
use rocksolid.Config.{RecoveryMode, convert_recovery_mode}
use rocksolid.Config.Stores.{
  pessimistic, optimistic, NamedCallback, TransactionalStoreConfig, CfOptimisticTxnStoreConfig,
}
use rocksolid.Config.Convert.{cf_transactional_config}
use rocksolid.Opening.{
  OpeningApi, Opened, when, or_else, on_inner, statistics, unwrapped, apply_configs, cf_descriptors,
}

-- The calls that open a transactional database of either kind; `T` is `TransactionDBOptions`.
pub record TransactionalApi (E : Type 0) (K : Kinds) (T Pess Opt World : Type 0) : Type 1 where
  pub plain : OpeningApi E K (Unit {0}) World
  pub open_pessimistic : K.Options → T → String → List (String × K.Options) → Action World E Pess
  pub open_optimistic : K.Options → String → List (String × K.Options) → Action World E Opt

module _ {E : Type 0} {K : Kinds} {T Pess Opt World : Type 0}
    (api : TransactionalApi E K T Pess Opt World) where
  -- What `_build_db_wide_options` sets before the profile, on options that nothing locks.
  unfoldable pub wide_base : Option Bool → Option ℤ → Option RecoveryMode → Option Bool → Tunable K
  unfolding new convert_recovery_mode
  wide_base create_missing parallelism recovery_mode enable_statistics =
      statistics api.plain enable_statistics (
        when recovery_mode
          (λ mode.
            on_inner api.plain (api.plain.set_wal_recovery_mode (convert_recovery_mode mode)))
          (when parallelism
            (λ p. on_inner api.plain (api.plain.options.call (by_macro (increase_parallelism p))))
            (when create_missing
              (λ b t.
                on_inner api.plain
                  (api.plain.options.call (by_macro (create_missing_column_families b)))
                  (on_inner api.plain (api.plain.options.call (by_macro (create_if_missing b))) t))
              (new api.plain.options.default))))

  -- `_build_db_wide_options`
  unfoldable pub build_db_wide_options :
      Option Bool
      → Option ℤ
      → Option RecoveryMode
      → Option Bool
      → Option (TuningProfile K)
      → K.Options
  unfolding wide_base tune_db_opts
  build_db_wide_options create_missing parallelism recovery_mode enable_statistics profile =
      (when profile (tune_db_opts api.plain.profiles api.plain.options api.plain.cpus)
        (wide_base create_missing parallelism recovery_mode enable_statistics)).inner

  unfoldable pub effective_profile :
      TransactionalStoreConfig K T → String → Option (TuningProfile K)
  unfolding lookup
  effective_profile cfg cf_name =
      or_else
        (elim (lookup cf_name cfg.column_family_configs) [
          | none ↦ none
          | some c ↦ c.tuning_profile
        ])
        cfg.db_tuning_profile

  unfoldable pub cf_tunable : TransactionalStoreConfig K T → String → Tunable K
  unfolding effective_profile new tune_cf_opts
  cf_tunable cfg cf_name =
      when (effective_profile cfg cf_name) (tune_cf_opts api.plain.profiles api.plain.options)
        (new api.plain.options.default)

  unfoldable pub cf_options_map :
      TransactionalStoreConfig K T → List String → Map (Tunable K) → Map (Tunable K)
  unfolding cf_tunable insert
  cf_options_map cfg [] m = m
  cf_options_map cfg (n ∷ ns) m = cf_options_map cfg ns (insert n (cf_tunable cfg n) m)

  unfoldable pub ensure_default : TransactionalStoreConfig K T → Map (Tunable K) → Map (Tunable K)
  unfolding contains lookup insert new tune_cf_opts
  ensure_default cfg m =
      if contains cfg.column_families_to_open default_cf
      then elim (lookup default_cf m) [
        | some t ↦ m
        | none ↦
            insert default_cf
              (when cfg.db_tuning_profile (tune_cf_opts api.plain.profiles api.plain.options)
                (new api.plain.options.default))
              m
      ]
      else m

  -- `for (cf_name, cf_opt_tunable) in map.iter_mut() { custom_fn(cf_name, cf_opt_tunable) }`
  unfoldable pub call_each : NamedCallback K → Map (Tunable K) → Map (Tunable K)
  call_each custom_fn [] = []
  call_each custom_fn ((n, t) ∷ m) = (n, custom_fn n t) ∷ call_each custom_fn m

  unfoldable pub descriptors : TransactionalStoreConfig K T → List (String × K.Options)
  unfolding cf_options_map ensure_default call_each unwrapped apply_configs cf_descriptors
  descriptors cfg =
      let made = ensure_default cfg (cf_options_map cfg cfg.column_families_to_open []) in
      let custom = when cfg.custom_options_db_and_cf call_each made in
      cf_descriptors api.plain cfg.column_families_to_open
        (apply_configs api.plain cfg.column_family_configs (unwrapped api.plain custom))

  unfoldable pub db_options : TransactionalStoreConfig K T → K.Options
  unfolding build_db_wide_options
  db_options cfg =
      build_db_wide_options (some cfg.create_if_missing) cfg.parallelism cfg.recovery_mode
        cfg.enable_statistics cfg.db_tuning_profile

  -- `_open_db_internal`; `inl` is `Either::Left`.
  unfoldable pub open_db_internal :
      TransactionalStoreConfig K T → Action World (StoreError E) (Pess ⊎ Opt)
  unfolding db_options descriptors
  open_db_internal cfg w = elim cfg.engine [
    | pessimistic txn_db_opts ↦
        let (r, w') =
          api.open_pessimistic (db_options cfg) txn_db_opts cfg.path (descriptors cfg) w in
        (lift (map_err rocks_db r) >>= λ db. lift (ok (inl db))) w'
    | optimistic ↦
        let (r, w') = api.open_optimistic (db_options cfg) cfg.path (descriptors cfg) w in
        (lift (map_err rocks_db r) >>= λ db. lift (ok (inr db))) w'
  ]

  abbrev opened : {A : Type 0} → TransactionalStoreConfig K T → A → Opened A
  opened cfg db = record { db = db; cf_names = cfg.column_families_to_open; path = cfg.path }

  -- `RocksDbCFTxnStore::open`
  unfoldable pub open_pessimistic_store :
      TransactionalStoreConfig K T → Action World (StoreError E) (Opened Pess)
  unfolding open_db_internal
  open_pessimistic_store cfg = open_db_internal cfg >>= λ db. lift (elim db [
    | inl p ↦ ok (opened cfg p)
    | inr o ↦ err (
        invalid_configuration
          (text "Configured for Optimistic engine, but tried to open as Pessimistic"))
  ])

  -- `RocksDbCFTxnStore::destroy`
  unfoldable pub destroy_pessimistic :
      String → TransactionalStoreConfig K T → Action World (StoreError E) (Unit {0})
  unfolding db_options
  destroy_pessimistic path cfg w =
      let (r, w') = api.plain.destroy_files (db_options cfg) path w in (map_err rocks_db r, w')

  -- `RocksDbCFOptimisticTxnStore::open`
  unfoldable pub open_optimistic_store :
      CfOptimisticTxnStoreConfig K → Action World (StoreError E) (Opened Opt)
  unfolding open_db_internal cf_transactional_config
  open_optimistic_store cfg = open_db_internal (cf_transactional_config cfg) >>= λ db.
      lift (elim db [
        | inl p ↦ err (
            invalid_configuration
              (text "Configured for Pessimistic engine, but tried to open as Optimistic"))
        | inr o ↦ ok (record { db = o; cf_names = cfg.column_families_to_open; path = cfg.path })
      ])

  -- `RocksDbCFOptimisticTxnStore::destroy`
  unfoldable pub destroy_optimistic :
      String → CfOptimisticTxnStoreConfig K → Action World (StoreError E) (Unit {0})
  unfolding db_options cf_transactional_config
  destroy_optimistic path cfg w =
      let (r, w') = api.plain.destroy_files (db_options (cf_transactional_config cfg)) path w in
      (map_err rocks_db r, w')
