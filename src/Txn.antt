-- ===== src/Txn.antt =====
-- `RocksDbCFTxnStore` of src/tx/cf_tx_store.rs: the operations within a transaction and
-- `execute_transaction`. The pessimistic transactions of `rocksdb` are the record `TxnEngine`, whose
-- calls see one transaction and the database behind it.
pub mod Laws
pub mod Within
pub mod Context
pub mod Own
pub mod Atomic
pub mod Ending
pub mod Iterate
pub mod Default
pub mod Memory
mod Tests
use rocksolid.Base.{
  ℕ, Option, none, some, List, [], ◌∷◌, Bytes, String, Bool, true, false, str_eq, str_append,
  if◌then◌else◌,
}
use rocksolid.Base.Outcome
use rocksolid.Base.Outcome.{Result, ok, err, map_err, map_ok, map_or_none}
use rocksolid.Base.Action.{Action, lift, ◌>>=◌}
use rocksolid.Errors.{StoreError, StoreResult, rocks_db, unknown_cf}
use rocksolid.Serialization.{Codec, KeyType, serialize_key, serialize_value, deserialize_value}
use rocksolid.Expiry.{ValueWithExpiry, from_value, from_slice, serialize_for_storage}
use rocksolid.Engine.{default_cf, Item, IteratorMode}

pub record TxnEngine (E : Type 0) : Type 1 where
  pub Db : Type 0
  pub Handle : Type 0
  pub Tx : Type 0
  pub cf_handle : Db → String → Option Handle
  pub begin : Db → Tx × Db
  pub get_pinned : Tx × Db → Bytes → Result E (Option Bytes)
  pub get_pinned_cf : Tx × Db → Handle → Bytes → Result E (Option Bytes)
  pub get : Tx × Db → Bytes → Result E (Option Bytes)
  pub get_cf : Tx × Db → Handle → Bytes → Result E (Option Bytes)
  pub iterator_opt : Tx × Db → IteratorMode → List (Item E)
  pub iterator_cf_opt : Tx × Db → Handle → IteratorMode → List (Item E)
  pub prefix_iterator : Tx × Db → Bytes → List (Item E)
  pub prefix_iterator_cf : Tx × Db → Handle → Bytes → List (Item E)
  pub put : Bytes → Bytes → Action (Tx × Db) E (Unit {0})
  pub put_cf : Handle → Bytes → Bytes → Action (Tx × Db) E (Unit {0})
  pub delete : Bytes → Action (Tx × Db) E (Unit {0})
  pub delete_cf : Handle → Bytes → Action (Tx × Db) E (Unit {0})
  pub merge : Bytes → Bytes → Action (Tx × Db) E (Unit {0})
  pub merge_cf : Handle → Bytes → Bytes → Action (Tx × Db) E (Unit {0})
  pub commit : Tx → Action Db E (Unit {0})
  pub rollback : Action (Tx × Db) E (Unit {0})
  -- The end of a transaction that was neither committed nor rolled back.
  pub destroy : Tx → Db → Db

pub record TxnStore {E : Type 0} (g : TxnEngine E) : Type 0 where
  pub db : g.Db
  pub cf_names : List String
  pub path : String

-- A store while a transaction of its database runs.
pub record Running {E : Type 0} (g : TxnEngine E) : Type 0 where
  pub store : TxnStore g
  pub txn : g.Tx

-- `cf_names.contains_key(cf_name)`
unfoldable pub contains_key : List String → String → Bool
contains_key [] cf_name = false
contains_key (n ∷ ns) cf_name = if str_eq n cf_name then true else contains_key ns cf_name

module _ {E : Type 0} (g : TxnEngine E) where
  unfoldable pub get_cf_handle : TxnStore g → String → StoreResult E g.Handle
  unfolding contains_key
  get_cf_handle st cf_name =
      if contains_key st.cf_names cf_name
      then elim (g.cf_handle st.db cf_name) [
        | none ↦ err (
            unknown_cf
              (str_append (str_append "CF '" cf_name) "' configured but handle not found."))
        | some h ↦ ok h
      ]
      else err (unknown_cf cf_name)

  abbrev pub TxnAction : Type 0
  TxnAction = Action (Running g) (StoreError E) (Unit {0})

  -- A call on the transaction whose error is wrapped by `StoreError::RocksDb`.
  unfoldable pub call_txn : Action (g.Tx × g.Db) E (Unit {0}) → TxnAction
  call_txn act w =
      let (r, (txn, db)) = act (w.txn, w.store.db) in
      (map_err rocks_db r, record { store = record w.store { db = db }; txn = txn })

  -- `if cf_name == DEFAULT_COLUMN_FAMILY_NAME { .. } else { let handle = ..?; .. }`
  unfoldable pub write_within :
      String
      → Action (g.Tx × g.Db) E (Unit {0})
      → (g.Handle → Action (g.Tx × g.Db) E (Unit {0}))
      → TxnAction
  unfolding get_cf_handle call_txn
  write_within cf_name plain at_handle w =
      if str_eq cf_name default_cf
      then call_txn plain w
      else (lift (get_cf_handle w.store cf_name) >>= λ handle. call_txn (at_handle handle)) w

  unfoldable pub read_within :
      {A : Type 0}
      → Running g
      → String
      → (g.Tx × g.Db → Result E A)
      → (g.Tx × g.Db → g.Handle → Result E A)
      → StoreResult E A
  unfolding get_cf_handle
  read_within w cf_name plain at_handle =
      if str_eq cf_name default_cf
      then map_err rocks_db (plain (w.txn, w.store.db))
      else (Outcome.◌>>=◌ (get_cf_handle w.store cf_name)
          λ handle. map_err rocks_db (at_handle (w.txn, w.store.db) handle))

  unfoldable pub begin_transaction : TxnStore g → Running g
  begin_transaction st =
      let (txn, db) = g.begin st.db in record { store = record st { db = db }; txn = txn }

  -- `execute_transaction`, given its closure. A rollback that fails is only logged.
  unfoldable pub execute_transaction :
      {R : Type 0} → Action (Running g) (StoreError E) R → Action (TxnStore g) (StoreError E) R
  unfolding begin_transaction
  execute_transaction operation st =
      let (r, w) = operation (begin_transaction st) in
      let (done, db) = g.commit w.txn w.store.db in
      let (_, (txn, db')) = g.rollback (w.txn, w.store.db) in
      elim r [
        | ok result ↦ elim done [
          | err e ↦ (err (rocks_db e), record w.store { db = db })
          | ok _ ↦ (ok result, record w.store { db = db })
        ]
        | err e ↦ (err e, record w.store { db = g.destroy txn db' })
      ]
