-- ===== src/Tuner.antt =====
-- `Tunable` of src/tuner/tunable.rs: options of `rocksdb` together with the keys of those that were
-- locked. A method that the macro `tunable_methods!` makes, or that is written by hand, is a `Setting`
-- with its arguments. The options and what their methods take are foreign: `Kinds` and `OptionsApi`.
pub mod Profiles
pub mod Families
pub mod Locks
pub mod Threads
mod Tests
use rocksolid.Base.{ℕ, List, [], ◌∷◌, String, Bool, true, false, str_eq, if◌then◌else◌}
use rocksolid.Base.Int.{ℤ}

-- The types of `rocksdb` that the settings take, and `f64`.
pub record Kinds : Type 1 where
  pub Options : Type 0
  pub Cache : Type 0
  pub WriteBufferManager : Type 0
  pub BlockBasedOptions : Type 0
  pub FifoCompactOptions : Type 0
  pub UniversalCompactOptions : Type 0
  pub F64 : Type 0

-- `DBCompactionStyle` and `DBCompressionType`, as far as the code names them.
pub data CompactionStyle : Type 0 where
  level_style universal_style fifo_style : CompactionStyle

pub data CompressionKind : Type 0 where
  none_kind snappy_kind zlib_kind bz2_kind lz4_kind lz4hc_kind zstd_kind : CompressionKind

-- The methods of the macro, with their arguments.
pub data MacroSetting (K : Kinds) : Type 0 where
  create_if_missing create_missing_column_families : Bool → MacroSetting K
  increase_parallelism max_open_files max_background_jobs : ℤ → MacroSetting K
  stats_dump_period_sec : ℕ → MacroSetting K
  rate_limiter : ℤ → ℤ → ℤ → MacroSetting K
  bytes_per_sync wal_bytes_per_sync : ℕ → MacroSetting K
  allow_concurrent_memtable_write enable_write_thread_adaptive_yield : Bool → MacroSetting K
  atomic_flush : Bool → MacroSetting K
  write_buffer_size : ℕ → MacroSetting K
  max_write_buffer_number num_levels : ℤ → MacroSetting K
  level0_file_num_compaction_trigger level0_slowdown_writes_trigger : ℤ → MacroSetting K
  level0_stop_writes_trigger : ℤ → MacroSetting K
  target_file_size_base max_bytes_for_level_base max_compaction_bytes : ℕ → MacroSetting K
  memtable_whole_key_filtering : Bool → MacroSetting K
  memtable_prefix_bloom_size_ratio : K.F64 → MacroSetting K
  optimize_level_style_compaction optimize_universal_style_compaction : ℕ → MacroSetting K
  optimize_filters_for_hits : Bool → MacroSetting K

-- The methods written by hand.
pub data ManualSetting (K : Kinds) : Type 0 where
  row_cache : K.Cache → ManualSetting K
  write_buffer_manager : K.WriteBufferManager → ManualSetting K
  block_based_table_factory : K.BlockBasedOptions → ManualSetting K
  compaction_style : CompactionStyle → ManualSetting K
  compression_type bottommost_compression_type : CompressionKind → ManualSetting K
  compaction_options_fifo : K.FifoCompactOptions → ManualSetting K
  universal_compaction_options : K.UniversalCompactOptions → ManualSetting K

pub data Setting (K : Kinds) : Type 0 where
  by_macro : MacroSetting K → Setting K
  by_hand : ManualSetting K → Setting K

-- What the code calls of the options: their default, and the inner method of each setting.
pub record OptionsApi (K : Kinds) : Type 0 where
  pub default : K.Options
  pub call : Setting K → K.Options → K.Options

module _ {K : Kinds} where
  unfoldable pub macro_key : MacroSetting K → String
  macro_key (create_if_missing _) = "db_create_if_missing"
  macro_key (create_missing_column_families _) = "db_create_missing_column_families"
  macro_key (increase_parallelism _) = "db_increase_parallelism"
  macro_key (max_open_files _) = "db_max_open_files"
  macro_key (max_background_jobs _) = "db_max_background_jobs"
  macro_key (stats_dump_period_sec _) = "db_stats_dump_period_sec"
  macro_key (rate_limiter _ _ _) = "db_rate_limiter"
  macro_key (bytes_per_sync _) = "db_bytes_per_sync"
  macro_key (wal_bytes_per_sync _) = "db_wal_bytes_per_sync"
  macro_key (allow_concurrent_memtable_write _) = "db_allow_concurrent_memtable_write"
  macro_key (enable_write_thread_adaptive_yield _) = "db_enable_write_thread_adaptive_yield"
  macro_key (atomic_flush _) = "db_atomic_flush"
  macro_key (write_buffer_size _) = "cf_write_buffer_size"
  macro_key (max_write_buffer_number _) = "cf_max_write_buffer_number"
  macro_key (num_levels _) = "cf_num_levels"
  macro_key (level0_file_num_compaction_trigger _) = "cf_level0_file_num_compaction_trigger"
  macro_key (level0_slowdown_writes_trigger _) = "cf_level0_slowdown_writes_trigger"
  macro_key (level0_stop_writes_trigger _) = "cf_level0_stop_writes_trigger"
  macro_key (target_file_size_base _) = "cf_target_file_size_base"
  macro_key (max_bytes_for_level_base _) = "cf_max_bytes_for_level_base"
  macro_key (max_compaction_bytes _) = "cf_max_compaction_bytes"
  macro_key (memtable_whole_key_filtering _) = "cf_memtable_whole_key_filtering"
  macro_key (memtable_prefix_bloom_size_ratio _) = "cf_memtable_prefix_bloom_size_ratio"
  macro_key (optimize_level_style_compaction _) = "cf_optimize_level_style_compaction"
  macro_key (optimize_universal_style_compaction _) = "cf_optimize_universal_style_compaction"
  macro_key (optimize_filters_for_hits _) = "cf_optimize_filters_for_hits"

  unfoldable pub manual_key : ManualSetting K → String
  manual_key (row_cache _) = "db_row_cache"
  manual_key (write_buffer_manager _) = "db_write_buffer_manager"
  manual_key (block_based_table_factory _) = "cf_block_based_table_factory"
  manual_key (compaction_style _) = "cf_compaction_style"
  manual_key (compression_type _) = "cf_compression_type"
  manual_key (bottommost_compression_type _) = "cf_bottommost_compression_type"
  manual_key (compaction_options_fifo _) = "cf_compaction_options_fifo"
  manual_key (universal_compaction_options _) = "cf_universal_compaction_options"

  unfoldable pub key : Setting K → String
  unfolding macro_key manual_key
  key (by_macro s) = macro_key s
  key (by_hand s) = manual_key s

-- `locked` is a `HashSet`, as a list of its members.
pub record Tunable (K : Kinds) : Type 0 where
  pub inner : K.Options
  pub locked : List String

unfoldable pub contains : List String → String → Bool
contains [] k = false
contains (x ∷ xs) k = let rest = contains xs k in if str_eq x k then true else rest

module _ {K : Kinds} where
  unfoldable pub new : K.Options → Tunable K
  new inner = record { inner = inner; locked = [] }

  unfoldable pub into_inner : Tunable K → K.Options
  into_inner t = t.inner

  unfoldable pub is_locked : Tunable K → String → Bool
  unfolding contains
  is_locked t k = contains t.locked k

  unfoldable pub lock : String → Tunable K → Tunable K
  lock k t = record t { locked = k ∷ t.locked }

  module _ (api : OptionsApi K) where
    -- A method `set_..`
    unfoldable pub set : Setting K → Tunable K → Tunable K
    unfolding key lock
    set s t = lock (key s) (record t { inner = api.call s t.inner })

    -- A method `tune_set_..`
    unfoldable pub tune : Setting K → Tunable K → Tunable K
    unfolding key is_locked
    tune s t = if is_locked t (key s) then t else record t { inner = api.call s t.inner }

    unfoldable pub tune_all : List (Setting K) → Tunable K → Tunable K
    unfolding tune
    tune_all [] t = t
    tune_all (s ∷ ss) t = tune_all ss (tune s t)
