-- ===== src/Tuner/Families.antt =====
-- `tune_cf_opts` of src/tuner/profiles.rs: what each profile sets of the options of a column family.
use rocksolid.Base.{
  ℕ, ◌*◌, ◌/◌, Option, none, some, List, [], ◌∷◌, ◌++◌, Bool, true, false, if◌then◌else◌,
}
use rocksolid.Base.Int.{pos, negsuc, saturating_mul, max_usize}
use rocksolid.Tuner.{
  Kinds, OptionsApi, Setting, by_macro, by_hand, Tunable, set, tune_all, max_open_files,
  write_buffer_size, max_write_buffer_number, level0_file_num_compaction_trigger,
  level0_slowdown_writes_trigger, level0_stop_writes_trigger, optimize_level_style_compaction,
  optimize_universal_style_compaction, optimize_filters_for_hits, block_based_table_factory,
  compaction_style, compression_type, bottommost_compression_type, compaction_options_fifo,
  universal_compaction_options, level_style, universal_style, fifo_style, none_kind, snappy_kind,
  lz4_kind, zstd_kind,
}
use rocksolid.Tuner.Profiles.{
  ProfileApi, TuningProfile, latest_value, memory_saver, real_time, time_series, sparse_bitmap, mib,
}

module _ {K : Kinds} where
  module _ (f : ProfileApi K) where
    unfoldable pub compression_or_none : Bool → List (Setting K) → List (Setting K)
    compression_or_none true ss = ss
    compression_or_none false ss = by_hand (compression_type none_kind) ∷ []

    -- The table options of a profile that may use bloom filters.
    unfoldable pub bloomed : Bool → K.BlockBasedOptions
    bloomed use_bloom_filters =
        if use_bloom_filters
        then f.set_whole_key_filtering true
            (f.set_bloom_filter (f.ratio 10 1) false f.block_based_default)
        else f.block_based_default

    abbrev fifo_settings : Option ℕ → List (Setting K)
    unfolding saturating_mul
    fifo_settings none = []
    fifo_settings (some size_mb) =
        by_hand (
          compaction_options_fifo
            (f.set_max_table_files_size (saturating_mul size_mb mib) f.fifo_default))
        ∷ []

    -- The calls `tune_set_..` of `tune_cf_opts`.
    unfoldable pub cf_settings : TuningProfile K → List (Setting K)
    unfolding saturating_mul max_usize compression_or_none bloomed
    cf_settings (latest_value hint use_bloom_filters enable_compression _) =
        by_macro (write_buffer_size (max_usize (saturating_mul hint mib / 2) (64 * mib)))
        ∷ by_macro (max_write_buffer_number (pos 4))
        ∷ by_hand (compaction_style level_style)
        ∷ by_macro (level0_file_num_compaction_trigger (pos 4))
        ∷ by_macro (level0_slowdown_writes_trigger (pos 20))
        ∷ by_macro (level0_stop_writes_trigger (pos 36))
        ∷ (compression_or_none enable_compression (
              by_hand (compression_type zstd_kind)
              ∷ by_hand (bottommost_compression_type zstd_kind)
              ∷ [])
            ++ (by_hand (
                  block_based_table_factory (
                    f.set_pin_l0_filter_and_index_blocks_in_cache true
                      (f.set_cache_index_and_filter_blocks true (bloomed use_bloom_filters))))
                ∷ []))
    cf_settings (memory_saver _ _ _ _ enable_light_compression _) =
        by_macro (write_buffer_size (max_usize (4 * mib) mib))
        ∷ by_macro (max_write_buffer_number (pos 2))
        ∷ (compression_or_none enable_light_compression (by_hand (compression_type lz4_kind) ∷ [])
            ++ (by_hand (
                  block_based_table_factory (
                    f.set_pin_l0_filter_and_index_blocks_in_cache false
                      (f.set_cache_index_and_filter_blocks false f.block_based_default)))
                ∷ by_macro (optimize_level_style_compaction 0)
                ∷ []))
    cf_settings (real_time _ _ _ _ enable_fast_compression use_bloom_filters _) =
        by_macro (write_buffer_size (64 * mib))
        ∷ by_macro (max_write_buffer_number (pos 3))
        ∷ by_hand (compaction_style level_style)
        ∷ by_macro (level0_file_num_compaction_trigger (pos 2))
        ∷ by_macro (level0_slowdown_writes_trigger (pos 8))
        ∷ by_macro (level0_stop_writes_trigger (pos 12))
        ∷ (compression_or_none enable_fast_compression (by_hand (compression_type snappy_kind) ∷ [])
            ++ (by_hand (
                  block_based_table_factory
                    (f.set_cache_index_and_filter_blocks true (bloomed use_bloom_filters)))
                ∷ by_macro (optimize_filters_for_hits true)
                ∷ []))
    cf_settings (time_series hint use_fifo total_size_mb enable_zstd_compression _) =
        by_macro (write_buffer_size (max_usize (saturating_mul hint mib) (64 * mib)))
        ∷ (compression_or_none enable_zstd_compression (
              by_hand (compression_type zstd_kind)
              ∷ by_hand (bottommost_compression_type zstd_kind)
              ∷ [])
            ++ (if use_fifo
                then by_hand (compaction_style fifo_style) ∷ fifo_settings total_size_mb
                else []))
    cf_settings (sparse_bitmap hint use_universal enable_fast_compression _) =
        by_macro (write_buffer_size (max_usize (saturating_mul hint mib) (128 * mib)))
        ∷ by_macro (max_write_buffer_number (pos 4))
        ∷ (compression_or_none enable_fast_compression (by_hand (compression_type snappy_kind) ∷ [])
            ++ (if use_universal
                then by_hand (compaction_style universal_style)
                  ∷ by_hand (
                      universal_compaction_options (
                        f.set_max_merge_width (pos 10) (
                          f.set_min_merge_width (pos 2)
                            (f.set_size_ratio (pos 10) f.universal_default))))
                  ∷ by_macro (optimize_universal_style_compaction 0)
                  ∷ []
                else by_hand (compaction_style level_style) ∷ []))

    -- The profile that ends with a call `set_max_open_files(-1)`.
    unfoldable pub opens_all_files : TuningProfile K → Bool
    opens_all_files (time_series _ use_fifo _ _ _) = use_fifo
    opens_all_files _ = false

    module _ (api : OptionsApi K) where
      unfoldable pub tune_cf_opts : TuningProfile K → Tunable K → Tunable K
      unfolding tune_all cf_settings opens_all_files set
      tune_cf_opts p t =
          let tuned = tune_all api (cf_settings p) t in
          if opens_all_files p then set api (by_macro (max_open_files (negsuc 0))) tuned else tuned
