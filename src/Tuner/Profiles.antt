-- ===== src/Tuner/Profiles.antt =====
-- `TuningProfile` of src/tuner/profiles.rs: the settings that each profile tunes, in the order of the
-- calls. The arithmetic of `f64`, the caches and the nested option objects are foreign: `ProfileApi`.
use rocksolid.Base.{
  ℕ, ◌*◌, Option, none, some, List, [], ◌∷◌, ◌++◌, Bool, true, false, ltb, if◌then◌else◌,
}
use rocksolid.Base.Int.{
  ℤ, pos, negsuc, as_i32, max, half, saturating_mul_i64, saturating_mul, max_usize,
}
use rocksolid.Tuner.{
  Kinds, OptionsApi, Setting, by_macro, by_hand, Tunable, tune_all, increase_parallelism,
  max_open_files, max_background_jobs, rate_limiter, bytes_per_sync,
  allow_concurrent_memtable_write, enable_write_thread_adaptive_yield, row_cache,
  write_buffer_manager,
}

pub data IoCapLevel : Type 0 where
  low_burst balanced low_latency : IoCapLevel

pub record IoCapOpts (K : Kinds) : Type 0 where
  pub enable_auto_io_cap : Bool
  pub io_cap_fraction : Option K.F64
  pub io_cap_level : IoCapLevel

-- The fields of a variant are the arguments of its constructor, in their order.
pub data TuningProfile (K : Kinds) : Type 0 where
  latest_value : ℕ → Bool → Bool → Option (IoCapOpts K) → TuningProfile K
  memory_saver : ℕ → K.F64 → K.F64 → ℕ → Bool → Option (IoCapOpts K) → TuningProfile K
  real_time : ℕ → K.F64 → K.F64 → ℤ → Bool → Bool → Option (IoCapOpts K) → TuningProfile K
  time_series : ℕ → Bool → Option ℕ → Bool → Option (IoCapOpts K) → TuningProfile K
  sparse_bitmap : ℕ → Bool → Bool → Option (IoCapOpts K) → TuningProfile K

-- What the profiles call: `f64` (`ratio n d` is the literal n / d), and constructors of `rocksdb`.
pub record ProfileApi (K : Kinds) : Type 0 where
  pub ratio : ℕ → ℕ → K.F64
  pub of_usize : ℕ → K.F64
  pub times : K.F64 → K.F64 → K.F64
  pub less : K.F64 → K.F64 → Bool
  pub as_i64 : K.F64 → ℤ
  pub as_usize : K.F64 → ℕ
  pub new_lru_cache : ℕ → K.Cache
  pub new_write_buffer_manager : ℕ → Bool → K.WriteBufferManager
  pub block_based_default : K.BlockBasedOptions
  pub set_bloom_filter : K.F64 → Bool → K.BlockBasedOptions → K.BlockBasedOptions
  pub set_whole_key_filtering : Bool → K.BlockBasedOptions → K.BlockBasedOptions
  pub set_cache_index_and_filter_blocks : Bool → K.BlockBasedOptions → K.BlockBasedOptions
  pub set_pin_l0_filter_and_index_blocks_in_cache : Bool → K.BlockBasedOptions → K.BlockBasedOptions
  pub fifo_default : K.FifoCompactOptions
  pub set_max_table_files_size : ℕ → K.FifoCompactOptions → K.FifoCompactOptions
  pub universal_default : K.UniversalCompactOptions
  pub set_size_ratio : ℤ → K.UniversalCompactOptions → K.UniversalCompactOptions
  pub set_min_merge_width : ℤ → K.UniversalCompactOptions → K.UniversalCompactOptions
  pub set_max_merge_width : ℤ → K.UniversalCompactOptions → K.UniversalCompactOptions

unfoldable pub map_level_to_params : IoCapLevel → ℤ × ℤ
map_level_to_params low_burst = (pos 200000, pos 5)
map_level_to_params balanced = (pos 100000, pos 10)
map_level_to_params low_latency = (pos 50000, pos 15)

abbrev pub mib : ℕ
mib = 1024 * 1024

module _ {K : Kinds} where
  -- `IoCapOpts::default()`
  unfoldable pub default_io_cap : IoCapOpts K
  default_io_cap = record {
    enable_auto_io_cap = false;
    io_cap_fraction = none;
    io_cap_level = balanced;
  }

  abbrev io_cap : TuningProfile K → Option (IoCapOpts K)
  io_cap (latest_value _ _ _ o) = o
  io_cap (memory_saver _ _ _ _ _ o) = o
  io_cap (real_time _ _ _ _ _ _ o) = o
  io_cap (time_series _ _ _ _ o) = o
  io_cap (sparse_bitmap _ _ _ o) = o

  unfoldable pub io_opts : TuningProfile K → IoCapOpts K
  unfolding default_io_cap
  io_opts p = elim (io_cap p) [ none ↦ default_io_cap | some o ↦ o ]

  unfoldable pub enable_auto_io_cap : TuningProfile K → Bool
  unfolding io_opts
  enable_auto_io_cap p = (io_opts p).enable_auto_io_cap

  unfoldable pub io_cap_level : TuningProfile K → IoCapLevel
  unfolding io_opts
  io_cap_level p = (io_opts p).io_cap_level

  module _ (f : ProfileApi K) where
    abbrev base_and_default : TuningProfile K → K.F64 × K.F64
    base_and_default (memory_saver total_mem_mb _ _ _ _ _) =
        (f.of_usize total_mem_mb, f.ratio 5 100)
    base_and_default (real_time total_mem_mb _ _ _ _ _ _) = (f.of_usize total_mem_mb, f.ratio 5 100)
    base_and_default (latest_value hint _ _ _) =
        (f.times (f.of_usize hint) (f.ratio 4 1), f.ratio 10 100)
    base_and_default (time_series hint _ _ _ _) =
        (f.times (f.of_usize hint) (f.ratio 4 1), f.ratio 10 100)
    base_and_default (sparse_bitmap hint _ _ _) =
        (f.times (f.of_usize hint) (f.ratio 4 1), f.ratio 10 100)

    unfoldable pub io_cap_base_and_fraction : TuningProfile K → K.F64 × K.F64
    unfolding io_opts
    io_cap_base_and_fraction p =
        let (base_mb, default_frac) = base_and_default p in
        (base_mb, elim (io_opts p).io_cap_fraction [ none ↦ default_frac | some x ↦ x ])

    -- The rate limit, if the profile has the automatic cap.
    unfoldable pub io_cap_settings : TuningProfile K → List (Setting K)
    unfolding enable_auto_io_cap io_cap_base_and_fraction map_level_to_params io_cap_level
        saturating_mul_i64
    io_cap_settings p =
        let (base_mb, frac) = io_cap_base_and_fraction p in
        let product = f.times base_mb frac in
        let rate_mb = if f.less product (f.ratio 16 1) then f.ratio 16 1 else product in
        let bytes_per_sec = saturating_mul_i64 (f.as_i64 rate_mb) mib in
        let (refill_us, fairness) = map_level_to_params (io_cap_level p) in
        if enable_auto_io_cap p
        then by_macro (rate_limiter bytes_per_sec refill_us fairness) ∷ []
        else []

    -- `((total as f64 * fraction) as usize).saturating_mul(1024 * 1024)`
    unfoldable pub share_bytes : ℕ → K.F64 → ℕ
    unfolding saturating_mul
    share_bytes total_mem_mb fraction =
        saturating_mul (f.as_usize (f.times (f.of_usize total_mem_mb) fraction)) mib

    -- The row cache and the write buffer manager, each if its size is not 0.
    unfoldable pub memory_settings : ℕ → K.F64 → K.F64 → List (Setting K)
    unfolding share_bytes
    memory_settings total_mem_mb cache_fraction manager_fraction =
        let cache_size_bytes = share_bytes total_mem_mb cache_fraction in
        let wbm_size_bytes = share_bytes total_mem_mb manager_fraction in
        (if ltb 0 cache_size_bytes
          then by_hand (row_cache (f.new_lru_cache cache_size_bytes)) ∷ []
          else [])
        ++ (if ltb 0 wbm_size_bytes
            then by_hand (write_buffer_manager (f.new_write_buffer_manager wbm_size_bytes false))
              ∷ []
            else [])

    -- `cpus` is `num_cpus::get()`.
    unfoldable pub core_count : ℕ → ℤ
    unfolding as_i32 max_usize
    core_count cpus = as_i32 (max_usize cpus 1)

    -- The part of `tune_db_opts` that depends on the variant.
    unfoldable pub db_profile_settings : ℕ → TuningProfile K → List (Setting K)
    unfolding memory_settings core_count half max
    db_profile_settings cpus (memory_saver total_mem_mb cache_fraction manager_fraction _ _ _) =
        memory_settings total_mem_mb cache_fraction manager_fraction
        ++ (by_macro (max_open_files (pos 512))
            ∷ by_macro (increase_parallelism (max (half (core_count cpus)) 1))
            ∷ [])
    db_profile_settings cpus
          (real_time total_mem_mb cache_fraction manager_fraction threads _ _ _) =
        let bg_threads = max threads 1 in
        memory_settings total_mem_mb cache_fraction manager_fraction
        ++ (by_macro (increase_parallelism bg_threads)
            ∷ by_macro (max_background_jobs (max bg_threads 1))
            ∷ by_macro (bytes_per_sync mib)
            ∷ [])
    db_profile_settings cpus _ = []

    unfoldable pub db_settings : ℕ → TuningProfile K → List (Setting K)
    unfolding core_count max io_cap_settings db_profile_settings
    db_settings cpus p =
        by_macro (increase_parallelism (max (core_count cpus) 2))
        ∷ by_macro (max_open_files (negsuc 0))
        ∷ by_macro (allow_concurrent_memtable_write true)
        ∷ by_macro (enable_write_thread_adaptive_yield true)
        ∷ (io_cap_settings p ++ db_profile_settings cpus p)

    module _ (api : OptionsApi K) where
      unfoldable pub tune_db_opts : ℕ → TuningProfile K → Tunable K → Tunable K
      unfolding tune_all db_settings
      tune_db_opts cpus p t = tune_all api (db_settings cpus p) t
