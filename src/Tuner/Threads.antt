-- ===== src/Tuner/Threads.antt =====
-- Options that are only a number of threads and a number of open files. They stand in for those of
-- `rocksdb` where a theorem is applied at concrete data.
use rocksolid.Base.{ℕ, ◌*◌, ◌/◌, ◌≡◌, ◌≢◌, refl, ltb}
use rocksolid.Base.Int.{ℤ, pos}
use rocksolid.Tuner.{
  Kinds, OptionsApi, Setting, by_macro, by_hand, increase_parallelism, max_open_files, key,
  macro_key,
}
use rocksolid.Tuner.Profiles.{ProfileApi}

pub record Numbers : Type 0 where
  pub threads : ℤ
  pub open_files : ℤ

abbrev pub kinds : Kinds
kinds = record {
  Options = Numbers;
  Cache = Unit;
  WriteBufferManager = Unit;
  BlockBasedOptions = Unit;
  FifoCompactOptions = Unit;
  UniversalCompactOptions = Unit;
  F64 = ℕ;
}

abbrev pub call_number : Setting kinds → Numbers → Numbers
call_number (by_macro (increase_parallelism p)) o = record o { threads = p }
call_number (by_macro (max_open_files n)) o = record o { open_files = n }
call_number (by_macro _) o = o
call_number (by_hand _) o = o

abbrev pub options : OptionsApi kinds
options = record { default = record { threads = pos 1; open_files = pos 1000 }; call = call_number }

-- `f64` in thousandths
abbrev pub profiles : ProfileApi kinds
profiles = record {
  ratio = λ n d. 1000 * n / d;
  of_usize = λ n. 1000 * n;
  times = λ x y. x * y / 1000;
  less = ltb;
  as_i64 = λ x. pos (x / 1000);
  as_usize = λ x. x / 1000;
  new_lru_cache = λ n. tt;
  new_write_buffer_manager = λ n b. tt;
  block_based_default = tt;
  set_bloom_filter = λ x b o. tt;
  set_whole_key_filtering = λ b o. tt;
  set_cache_index_and_filter_blocks = λ b o. tt;
  set_pin_l0_filter_and_index_blocks_in_cache = λ b o. tt;
  fifo_default = tt;
  set_max_table_files_size = λ n o. tt;
  universal_default = tt;
  set_size_ratio = λ n o. tt;
  set_min_merge_width = λ n o. tt;
  set_max_merge_width = λ n o. tt;
}

-- Only the call for the number of threads changes it.
pub threads_apart :
    (s : Setting kinds) (o : Numbers)
    → key s ≢ "db_increase_parallelism"
    → (call_number s o).threads ≡ o.threads
unfolding key macro_key
threads_apart (by_macro (increase_parallelism p)) o h = absurd (h refl)
threads_apart (by_macro (max_open_files n)) o h = refl
threads_apart (by_macro _) o h = refl
threads_apart (by_hand _) o h = refl
