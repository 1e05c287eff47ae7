-- ===== src/Errors.antt =====
-- src/error.rs: `StoreError`, its display and clone, and the two maps of `StoreResultExt`.
-- `E` is the type of the foreign errors, `rocksdb::Error` and `std::io::Error`; both are opaque.
-- A formatted text is kept as the tree of its pieces (`Message`), in the order of printing.
pub mod Mapping
mod Tests
use rocksolid.Base.{ℕ, String, Option, none, some, List, [], Bytes}
use rocksolid.Base.Outcome.{Result, ok, err}

mutual
  -- What `format!` joins: fixed text, numbers, bytes (`{:?}`), foreign errors, store errors.
  pub data Message (E : Type 0) : Type 0 where
    text : String → Message E
    number : ℕ → Message E
    bytes : Bytes → Message E
    foreign : E → Message E
    shown : StoreError E → Message E
    join : Message E → Message E → Message E

  pub data StoreError (E : Type 0) : Type 0 where
    rocks_db : E → StoreError E
    serialization : Message E → StoreError E
    deserialization : Message E → StoreError E
    key_encoding : Message E → StoreError E
    key_decoding : Message E → StoreError E
    invalid_configuration : Message E → StoreError E
    transaction_required : StoreError E
    io : E → StoreError E
    not_found : Option Bytes → StoreError E
    merge_error : Message E → StoreError E
    unknown_cf : String → StoreError E
    other : Message E → StoreError E

-- `StoreResult<T>`
abbrev pub StoreResult : Type 0 → Type 0 → Type 0
StoreResult E A = Result (StoreError E) A

module _ {E : Type 0} where
  -- `{key:?}` of an `Option<Vec<u8>>`
  show_key : Option Bytes → Message E
  show_key none = text "None"
  show_key (some k) = join (text "Some(") (join (bytes k) (text ")"))

  -- The texts of the `#[error(...)]` attributes.
  unfoldable pub display : StoreError E → Message E
  unfolding show_key
  display (rocks_db e) = join (text "RocksDB operation failed: ") (foreign e)
  display (serialization m) = join (text "Serialization failed: ") m
  display (deserialization m) = join (text "Deserialization failed: ") m
  display (key_encoding m) = join (text "Key encoding failed: ") m
  display (key_decoding m) = join (text "Key decoding failed: ") m
  display (invalid_configuration m) = join (text "Invalid configuration: ") m
  display transaction_required = text "Operation requires a transaction context"
  display (io e) = join (text "Underlying IO error: ") (foreign e)
  display (not_found key) = join (text "Resource not found for key: ") (show_key key)
  display (merge_error m) = join (text "Merge operation failed: ") m
  display (unknown_cf name) =
      join (text "Column Family '") (join (text name) (text "' not found or not opened"))
  display (other m) = join (text "Operation failed: ") m

  -- `impl Clone for StoreError`
  unfoldable pub clone : StoreError E → StoreError E
  clone (io e) = other (join (text "(Cloned) IO error: ") (foreign e))
  clone (rocks_db e) = rocks_db e
  clone (serialization s) = serialization s
  clone (deserialization s) = deserialization s
  clone (key_encoding s) = key_encoding s
  clone (key_decoding s) = key_decoding s
  clone (invalid_configuration s) = invalid_configuration s
  clone transaction_required = transaction_required
  clone (not_found key) = not_found key
  clone (merge_error s) = merge_error s
  clone (unknown_cf s) = unknown_cf s
  clone (other s) = other s

  -- `StoreResultExt::map_to_option`
  unfoldable pub map_to_option :
      {A R : Type 0} → (A → Option R) → StoreResult E A → StoreResult E (Option R)
  map_to_option ok_fn (ok a) = ok (ok_fn a)
  map_to_option ok_fn (err (not_found _)) = ok none
  map_to_option ok_fn (err other_err) = err other_err

  -- `StoreResultExt::map_to_vec`
  unfoldable pub map_to_vec :
      {A R : Type 0} → (A → List R) → StoreResult E A → StoreResult E (List R)
  map_to_vec ok_fn (ok a) = ok (ok_fn a)
  map_to_vec ok_fn (err (not_found _)) = ok []
  map_to_vec ok_fn (err other_err) = err other_err
