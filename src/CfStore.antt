-- ===== src/CfStore.antt =====
-- `RocksDbCFStore` and its `CFOperations` of src/cf_store.rs, but for opening, and but for iteration,
-- which is in `Find`. The database behind the `Arc` is the field `db`.
pub mod Write
pub mod Reads
pub mod Writes
pub mod Multi
pub mod Unknown
pub mod Find
pub mod Scans
mod Tests
use rocksolid.Base.{
  ℕ, Option, none, some, List, [], ◌∷◌, map, Bytes, String, Bool, true, false, str_eq,
  if◌then◌else◌,
}
use rocksolid.Base.Outcome
use rocksolid.Base.Outcome.{Result, ok, err, map_err, map_ok, map_or_none, try_map}
use rocksolid.Base.Action.{Action, lift, ◌>>=◌}
use rocksolid.Errors.{StoreError, StoreResult, rocks_db, unknown_cf}
use rocksolid.Serialization.{Codec, KeyType, serialize_key, serialize_value, deserialize_value}
use rocksolid.Expiry.{ValueWithExpiry, from_value, from_slice, serialize_for_storage}
use rocksolid.Engine.{Engine, default_cf}

pub record CfStore {E : Type 0} (g : Engine E) : Type 0 where
  pub db : g.Db
  pub cf_names : List String
  pub path : String

-- One answer of `multiget`: a failed read of a key counts as an absent key.
abbrev pub decode_answer :
    {E V : Type 0} → Codec E V → Result E (Option Bytes) → StoreResult E (Option V)
decode_answer c (ok opt) = map_or_none (deserialize_value c) opt
decode_answer c (err e) = ok none

module _ {E : Type 0} (g : Engine E) where
  -- An operation that changes the database of a store.
  abbrev pub StoreAction : Type 0
  StoreAction = Action (CfStore g) (StoreError E) (Unit {0})

  -- A call of `rocksdb` whose error is wrapped by `StoreError::RocksDb`.
  unfoldable pub run : Action g.Db E (Unit {0}) → StoreAction
  run act st = (map_err rocks_db (act st.db).0, record st { db = (act st.db).1 })

  unfoldable pub get_cf_handle : CfStore g → String → StoreResult E g.Handle
  get_cf_handle st cf_name = elim (g.cf_handle st.db cf_name) [
    | none ↦ err (unknown_cf cf_name)
    | some h ↦ ok h
  ]

  -- `if cf_name == DEFAULT_COLUMN_FAMILY_NAME { .. } else { let handle = ..?; .. }`, for a read
  unfoldable pub read_at :
      {A : Type 0}
      → CfStore g
      → String
      → (g.Db → Result E A)
      → (g.Db → g.Handle → Result E A)
      → StoreResult E A
  unfolding get_cf_handle
  read_at st cf_name plain at_handle =
      if str_eq cf_name default_cf
      then map_err rocks_db (plain st.db)
      else (Outcome.◌>>=◌ (get_cf_handle st cf_name)
          λ handle. map_err rocks_db (at_handle st.db handle))

  -- The same choice for a call that changes the database.
  unfoldable pub write_at :
      String → Action g.Db E (Unit {0}) → (g.Handle → Action g.Db E (Unit {0})) → StoreAction
  unfolding get_cf_handle run
  write_at cf_name plain at_handle st =
      if str_eq cf_name default_cf
      then run plain st
      else (lift (get_cf_handle st cf_name) >>= λ handle. run (at_handle handle)) st

  -- The two `multi_get` calls of `rocksdb`, on the default family and on another one.
  unfoldable pub read_many :
      CfStore g → String → List Bytes → StoreResult E (List (Result E (Option Bytes)))
  unfolding get_cf_handle
  read_many st cf_name ser_keys =
      if str_eq cf_name default_cf
      then ok (g.multi_get st.db ser_keys)
      else (Outcome.◌>>=◌ (get_cf_handle st cf_name)
          λ handle. ok (g.multi_get_cf st.db (map (λ sk. (handle, sk)) ser_keys)))

  module _ {K : Type 0} (kt : KeyType E K) where
    unfoldable pub get_raw : CfStore g → String → K → StoreResult E (Option Bytes)
    unfolding serialize_key read_at
    get_raw st cf_name key = Outcome.◌>>=◌ (serialize_key kt key) λ ser_key.
        read_at st cf_name (λ db. g.get_pinned db ser_key) (λ db h. g.get_pinned_cf db h ser_key)

    unfoldable pub get :
        {V : Type 0} → Codec E V → CfStore g → String → K → StoreResult E (Option V)
    unfolding serialize_key read_at deserialize_value
    get c st cf_name key = Outcome.◌>>=◌ (serialize_key kt key) λ ser_key.
        Outcome.◌>>=◌
          (read_at st cf_name (λ db. g.get_pinned db ser_key)
            (λ db h. g.get_pinned_cf db h ser_key))
          (map_or_none (deserialize_value c))

    unfoldable pub get_with_expiry : CfStore g → String → K → StoreResult E (Option ValueWithExpiry)
    unfolding get_raw from_slice
    get_with_expiry st cf_name key = Outcome.◌>>=◌ (get_raw st cf_name key) (map_or_none from_slice)

    unfoldable pub exists : CfStore g → String → K → StoreResult E Bool
    unfolding serialize_key read_at
    exists st cf_name key = Outcome.◌>>=◌ (serialize_key kt key) λ ser_key.
        map_ok (elim [ none ↦ false | some b ↦ true ])
          (read_at st cf_name (λ db. g.get_pinned db ser_key)
            (λ db h. g.get_pinned_cf db h ser_key))

    unfoldable pub multiget :
        {V : Type 0} → Codec E V → CfStore g → String → List K → StoreResult E (List (Option V))
    unfolding serialize_key read_many try_map deserialize_value
    multiget c st cf_name [] = ok []
    multiget c st cf_name (k ∷ ks) =
        Outcome.◌>>=◌ (try_map (serialize_key kt) (k ∷ ks))
          λ ser_keys. Outcome.◌>>=◌ (read_many st cf_name ser_keys) (try_map (decode_answer c))

    unfoldable pub multiget_raw : CfStore g → String → List K → StoreResult E (List (Option Bytes))
    unfolding serialize_key read_many try_map
    multiget_raw st cf_name [] = ok []
    multiget_raw st cf_name (k ∷ ks) =
        Outcome.◌>>=◌ (try_map (serialize_key kt) (k ∷ ks)) λ ser_keys.
          Outcome.◌>>=◌ (read_many st cf_name ser_keys)
            λ results. map_err rocks_db (try_map (λ r. r) results)

    unfoldable pub multiget_with_expiry :
        CfStore g → String → List K → StoreResult E (List (Option ValueWithExpiry))
    unfolding multiget_raw from_slice
    multiget_with_expiry st cf_name keys =
        Outcome.◌>>=◌ (multiget_raw st cf_name keys) (try_map (map_or_none from_slice))
