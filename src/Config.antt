-- ===== src/Config.antt =====
-- The enumerations of src/config.rs, their parsers and conversions, and the comparators. Lowering the
-- case of a string and the comparisons of the crates `natlex_sort` and `natord` are foreign.
pub mod Stores
pub mod Convert
pub mod Parsing
use rocksolid.Base.{ℕ, Option, none, some, Bytes, String, Bool, true, false, str_eq, if◌then◌else◌}
use rocksolid.Base.Outcome.{ok, err}
use rocksolid.Errors.{StoreResult, invalid_configuration, text}
use rocksolid.Tuner.{
  CompressionKind, none_kind, snappy_kind, zlib_kind, bz2_kind, lz4_kind, lz4hc_kind, zstd_kind,
}

pub data CompressionType : Type 0 where
  no_compression bz2 lz4 lz4hc snappy zlib zstd : CompressionType

pub data RecoveryMode : Type 0 where
  absolute_consistency point_in_time : RecoveryMode
  skip_any_corrupted_record tolerate_corrupted_tail_records : RecoveryMode

-- `DBRecoveryMode` of `rocksdb`
pub data RocksDbRecoveryMode : Type 0 where
  db_absolute_consistency db_point_in_time : RocksDbRecoveryMode
  db_skip_any_corrupted_record db_tolerate_corrupted_tail_records : RocksDbRecoveryMode

unfoldable pub convert_compression_type : CompressionType → CompressionKind
convert_compression_type no_compression = none_kind
convert_compression_type bz2 = bz2_kind
convert_compression_type lz4 = lz4_kind
convert_compression_type lz4hc = lz4hc_kind
convert_compression_type snappy = snappy_kind
convert_compression_type zlib = zlib_kind
convert_compression_type zstd = zstd_kind

unfoldable pub convert_recovery_mode : RecoveryMode → RocksDbRecoveryMode
convert_recovery_mode absolute_consistency = db_absolute_consistency
convert_recovery_mode point_in_time = db_point_in_time
convert_recovery_mode skip_any_corrupted_record = db_skip_any_corrupted_record
convert_recovery_mode tolerate_corrupted_tail_records = db_tolerate_corrupted_tail_records

-- The two `match` over a lower-case string, for `none` its last arm.
unfoldable pub compression_named : String → Option CompressionType
compression_named s =
    if str_eq s "none"
    then some no_compression
    else if str_eq s "bz2"
    then some bz2
    else if str_eq s "lz4"
    then some lz4
    else if str_eq s "lz4hc"
    then some lz4hc
    else if str_eq s "snappy"
    then some snappy
    else if str_eq s "zlib"
    then some zlib
    else if str_eq s "zstd"
    then some zstd
    else none

unfoldable pub either_of : String → String → String → Bool
either_of s a b = if str_eq s a then true else str_eq s b

unfoldable pub recovery_named : String → Option RecoveryMode
unfolding either_of
recovery_named s =
    if either_of s "absolute" "absoluteconsistency"
    then some absolute_consistency
    else if either_of s "pointintime" "point_in_time"
    then some point_in_time
    else if either_of s "skipanycorruptedrecord" "skip_corrupted"
    then some skip_any_corrupted_record
    else if either_of s "toleratecorruptedtailrecords" "tolerate_corrupted_tail"
    then some tolerate_corrupted_tail_records
    else none

module _ {E : Type 0} (to_lowercase : String → String) where
  unfoldable pub compression_from_str : String → StoreResult E CompressionType
  unfolding compression_named
  compression_from_str value = elim (compression_named (to_lowercase value)) [
    | none ↦ err (invalid_configuration (text value))
    | some c ↦ ok c
  ]

  unfoldable pub recovery_from_str : String → StoreResult E RecoveryMode
  unfolding recovery_named
  recovery_from_str value = elim (recovery_named (to_lowercase value)) [
    | none ↦ err (invalid_configuration (text value))
    | some m ↦ ok m
  ]

-- `RockSolidComparatorOpt`, with both features on; the field is `ignore_case`.
pub data ComparatorOpt : Type 0 where
  no_comparator : ComparatorOpt
  natural_lexicographical natural : Bool → ComparatorOpt

-- What the comparators call, and the setter of the options. `O` is `std::cmp::Ordering`.
pub record ComparatorApi (Options : Type 0) : Type 1 where
  pub O : Type 0
  pub nat_lex_byte_cmp : Bytes → Bytes → O
  pub nat_lex_byte_cmp_ignore : Bytes → Bytes → O
  pub from_utf8 : Bytes → Option String
  pub compare : String → String → O
  pub compare_ignore_case : String → String → O
  pub set_comparator : String → (Bytes → Bytes → O) → Options → Options

module _ {Options : Type 0} (f : ComparatorApi Options) where
  -- `std::str::from_utf8(a).unwrap_or_else(|_| "")`
  abbrev pub utf8_or_empty : Bytes → String
  utf8_or_empty b = elim (f.from_utf8 b) [ none ↦ "" | some s ↦ s ]

  unfoldable pub natural_compare : Bool → Bytes → Bytes → f.O
  natural_compare ic a b =
      let s_a = utf8_or_empty a in
      let s_b = utf8_or_empty b in if ic then f.compare_ignore_case s_a s_b else f.compare s_a s_b

  unfoldable pub apply_to_opts : ComparatorOpt → Options → Options
  unfolding natural_compare
  apply_to_opts no_comparator opts = opts
  apply_to_opts (natural_lexicographical ignore_case) opts =
      if ignore_case
      then f.set_comparator "rocksolid_natlex_ci" f.nat_lex_byte_cmp_ignore opts
      else f.set_comparator "rocksolid_natlex_cs" f.nat_lex_byte_cmp opts
  apply_to_opts (natural ignore_case) opts =
      let comparator_name =
        if ignore_case then "rocksolid_natural_ci" else "rocksolid_natural_cs" in
      f.set_comparator comparator_name (natural_compare ignore_case) opts
