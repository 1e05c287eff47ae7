-- ===== src/Opening/Hard.antt =====
-- The hard setting `parallelism` against a tuning profile: `RocksDbCFStore::open` (src/cf_store.rs)
-- locks it, and the transactional stores (src/tx/internal.rs) do not.
use rocksolid.Base.{
  ℕ, ◌≡◌, ◌≢◌, ◌∙◌, refl, ap, arith, Option, none, some, List, [], ◌∷◌, String, Bool, true, false,
  str_eq, str_eq_iff,
}
use rocksolid.Base.Int.{ℤ, negsuc, max}
use rocksolid.Tuner.{
  Kinds, OptionsApi, Setting, by_macro, increase_parallelism, max_open_files,
  allow_concurrent_memtable_write, enable_write_thread_adaptive_yield, Tunable, key, macro_key,
  is_locked, contains, lock, set, tune, tune_all,
}
use rocksolid.Tuner.Profiles.{
  TuningProfile, latest_value, tune_db_opts, db_settings, db_profile_settings, io_cap_settings,
  core_count, enable_auto_io_cap, io_opts, default_io_cap,
}
use rocksolid.Tuner.Locks.{IsKept, tune_db_opts-keeps}
use rocksolid.Config.{RecoveryMode, RocksDbRecoveryMode, convert_recovery_mode}
use rocksolid.Config.Stores.{CfStoreConfig}
use rocksolid.Base.Outcome.{Result, ok, err, map_err, map_ok}
use rocksolid.Base.Action.{lift, ◌>>=◌}
use rocksolid.Errors.{StoreResult, rocks_db}
use rocksolid.Opening.{
  Opened, open_store, customized, descriptors, destroy, destroy_options, OpeningApi, when, on_inner,
  statistics, db_options, hard_settings, db_profile,
}
use rocksolid.Opening.Transactional.{TransactionalApi, wide_base, build_db_wide_options}

abbrev pub parallelism_key : String
parallelism_key = "db_increase_parallelism"

module _ {E : Type 0} {K : Kinds} {Db World : Type 0} (api : OpeningApi E K Db World) where
  -- What every call but `increase_parallelism` keeps of the options.
  pub record IsApart (P : K.Options → Type 0) : Type 0 where
    pub settings :
        (s : Setting K) (o : K.Options) → key s ≢ parallelism_key → P o → P (api.options.call s o)
    pub recovery :
        (m : RocksDbRecoveryMode) (o : K.Options) → P o → P (api.set_wal_recovery_mode m o)
    pub statistics : (o : K.Options) → P o → P (api.enable_statistics o)

  -- What the one call of `rocksdb` that opens, or destroys, a database answers with some options.
  abbrev pub opened_with : CfStoreConfig K → K.Options → World → StoreResult E (Opened Db) × World
  opened_with cfg o w =
      let (r, w') = api.open_cf_descriptors o cfg.path (descriptors api cfg) w in
      (
        map_ok (λ db. record { db = db; cf_names = cfg.column_families_to_open; path = cfg.path })
            (map_err rocks_db r),
        w',
      )

  abbrev pub destroyed_with : K.Options → String → World → StoreResult E (Unit {0}) × World
  destroyed_with o path w = let (r, w') = api.destroy_files o path w in (map_err rocks_db r, w')

  module _ (cfg : CfStoreConfig K) (p : ℤ) (P : K.Options → Type 0) (apart : IsApart P)
      (made : (o : K.Options) → P (api.options.call (by_macro (increase_parallelism p)) o))
      (given : cfg.parallelism ≡ some p) where
    Holds : List String → Tunable K → Type 0
    Holds ks t = P t.inner × (t.locked ≡ ks)

    statistics-Holds :
        (ks : List String) (o : Option Bool) (t : Tunable K)
        → Holds ks t
        → Holds ks (statistics api o t)
    unfolding Holds
    statistics-Holds ks none t h = h
    statistics-Holds ks (some false) t h = h
    statistics-Holds ks (some true) t h = (apart.statistics t.inner h.0, h.1)

    recovery-Holds :
        (ks : List String) (o : Option RecoveryMode) (t : Tunable K)
        → Holds ks t
        → Holds ks (
            when o
              (λ mode. on_inner api (api.set_wal_recovery_mode (convert_recovery_mode mode)))
              t)
    unfolding Holds
    recovery-Holds ks none t h = h
    recovery-Holds ks (some mode) t h =
        (apart.recovery (convert_recovery_mode mode) t.inner h.0, h.1)

    hard_settings-Holds :
        (t : Tunable K) → Holds (parallelism_key ∷ t.locked) (hard_settings api cfg t)
    unfolding hard_settings set lock key macro_key Holds
    hard_settings-Holds t = rw given (
        statistics-Holds _ cfg.enable_statistics _
          (recovery-Holds _ cfg.recovery_mode _ (made t.inner, refl)))

    profile-Holds :
        (o : Option (TuningProfile K)) (t : Tunable K)
        → Holds (parallelism_key ∷ []) t
        → P (when o (tune_db_opts api.profiles api.options api.cpus) t).inner
    unfolding Holds
    profile-Holds none t h = h.0
    profile-Holds (some profile) t h =
        let kept : IsKept api.options t P =
          unfold is_locked contains in
          (λ s o q.
            apart.settings s o (λ e. ground (arith, h.1, str_eq_iff parallelism_key (key s)))) in
        (tune_db_opts-keeps api.options api.profiles profile t P api.cpus kept h.0).1

    db_options-parallelism : P (db_options api cfg).inner
    unfolding db_options db_profile
    db_options-parallelism = profile-Holds cfg.db_tuning_profile _ (hard_settings-Holds _)

    destroy_options-parallelism : cfg.custom_options_db_and_cf ≡ none → P (destroy_options api cfg)
    unfolding destroy_options db_profile
    destroy_options-parallelism no_callback =
        rw no_callback (profile-Holds cfg.db_tuning_profile _ (hard_settings-Holds _))

    customized-db_options :
        cfg.custom_options_db_and_cf ≡ none → (customized api cfg).0 ≡ db_options api cfg
    unfolding customized
    customized-db_options no_callback = rw no_callback refl

    answered :
        (r : Result E Db) (make : Db → Opened Db) (w : World)
        → (lift (map_err rocks_db r) >>= λ db. lift (ok (make db))) w
          ≡ (map_ok make (map_err rocks_db r), w)
    answered (ok db) make w = refl
    answered (err e) make w = refl

    open_store-opened_with :
        (w : World) → open_store api cfg w ≡ opened_with cfg (customized api cfg).0.inner w
    unfolding open_store
    open_store-opened_with w =
        let (r, w') : Result E Db × World =
          api.open_cf_descriptors (customized api cfg).0.inner cfg.path (descriptors api cfg) w in
        answered r
          (λ db. record { db = db; cf_names = cfg.column_families_to_open; path = cfg.path }) w'

    -- With the setting `parallelism` and without a callback, the options with which
    -- `RocksDbCFStore::open` opens the database, and those with which `destroy` destroys it, have
    -- every property that the call `increase_parallelism` of that setting brings about and all other
    -- calls keep, whichever profile tunes them.
    pub open_store-parallelism :
        cfg.custom_options_db_and_cf ≡ none
        → (path : String) (w : World)
        → ((o : K.Options) × P o × (open_store api cfg w ≡ opened_with cfg o w))
          × ((o : K.Options) × P o × (destroy api path cfg w ≡ destroyed_with o path w))
    unfolding destroy
    open_store-parallelism no_callback path w = (
      (
        (db_options api cfg).inner,
        db_options-parallelism,
        open_store-opened_with w
            ∙ ap (λ t. opened_with cfg t.inner w) (customized-db_options no_callback),
      ),
      (destroy_options api cfg, destroy_options-parallelism no_callback, refl),
    )

module _ {K : Kinds} (api : OptionsApi K) where
  -- The calls of the settings, without a look at the locks.
  unfoldable pub call_all : List (Setting K) → K.Options → K.Options
  call_all [] o = o
  call_all (s ∷ ss) o = call_all ss (api.call s o)

  tune_all-unlocked :
      (ss : List (Setting K)) (t : Tunable K)
      → t.locked ≡ []
      → (tune_all api ss t).inner ≡ call_all ss t.inner
  unfolding tune_all call_all
  tune_all-unlocked [] t h = refl
  tune_all-unlocked (s ∷ ss) t h =
      let open_key : is_locked t (key s) ≡ false = unfold is_locked contains in rw h in
      let same : tune api s t ≡ record t { inner = api.call s t.inner } =
        unfold tune in rw open_key in
      ap (λ u. (tune_all api ss u).inner) same
      ∙ tune_all-unlocked ss (record t { inner = api.call s t.inner }) h

module _ {E : Type 0} {K : Kinds} {T Pess Opt World : Type 0}
    (api : TransactionalApi E K T Pess Opt World) where
  wide_base-locked :
      (c : Option Bool) (p : Option ℤ) (m : Option RecoveryMode) (s : Option Bool)
      → (wide_base api c p m s).locked ≡ []
  unfolding wide_base
  wide_base-locked c p m s = ground arith

  -- The options of a transactional database with a tuning profile are made by every call that the
  -- profile tunes, after those of the hard settings, none of which is locked.
  pub build_db_wide_options-profile :
      (c : Option Bool) (p : Option ℤ) (m : Option RecoveryMode) (s : Option Bool)
      (profile : TuningProfile K)
      → build_db_wide_options api c p m s (some profile)
        ≡ call_all api.plain.options
            (db_settings api.plain.profiles api.plain.cpus profile)
            (wide_base api c p m s).inner
  unfolding build_db_wide_options tune_db_opts
  build_db_wide_options-profile c p m s profile =
      tune_all-unlocked api.plain.options (db_settings api.plain.profiles api.plain.cpus profile)
        (wide_base api c p m s) (wide_base-locked c p m s)

  -- If `increase_parallelism` decides the number of threads and no other setting changes it, then the
  -- number of threads of a transactional database with the profile `LatestValue` is that of the
  -- cores, 2 at least, whatever number the hard setting `parallelism` asked for.
  pub parallelism_overridden :
      (threads : K.Options → ℤ)
      → ((p : ℤ) (o : K.Options)
          → threads (api.plain.options.call (by_macro (increase_parallelism p)) o) ≡ p)
      → ((s : Setting K) (o : K.Options)
          → key s ≢ parallelism_key
          → threads (api.plain.options.call s o) ≡ threads o)
      → (c : Option Bool) (p : ℤ) (m : Option RecoveryMode) (s : Option Bool) (hint : ℕ)
        (bloom compress : Bool)
      → threads
          (build_db_wide_options api c (some p) m s (some (latest_value hint bloom compress none)))
        ≡ max (core_count api.plain.profiles api.plain.cpus) 2
  unfolding db_settings db_profile_settings io_cap_settings enable_auto_io_cap io_opts
      default_io_cap key macro_key
  parallelism_overridden threads sets keeps c p m s hint bloom compress =
      let profile : TuningProfile K = latest_value hint bloom compress none in
      let apart : (k : String) → str_eq k parallelism_key ≡ false → k ≢ parallelism_key =
        λ k h e. ground (arith, str_eq_iff k parallelism_key) in
      ap threads (build_db_wide_options-profile c (some p) m s profile)
      ∙ unfold call_all in
        (keeps (by_macro (enable_write_thread_adaptive_yield true)) _
            (apart "db_enable_write_thread_adaptive_yield" refl)
          ∙ keeps (by_macro (allow_concurrent_memtable_write true)) _
              (apart "db_allow_concurrent_memtable_write" refl)
          ∙ keeps (by_macro (max_open_files (negsuc 0))) _ (apart "db_max_open_files" refl)
          ∙ sets _ _)
