-- ===== src/Optimistic/Context.antt =====
-- `OptimisticTransactionContext` of src/tx/optimistic_context.rs, but for its iteration, which is in
-- `Context.Iterate`. A write goes to the transaction directly; a family is looked up by name also
-- where it is the default one. The transactions are those of an `OptimisticTransactionDB`.
pub mod Reads
pub mod Iterate
pub mod Steps
pub mod Staged
pub mod Pending
pub mod Ends
mod Tests
use rocksolid.Base.{ℕ, Option, none, some, Bytes, String, Bool, true, false, if◌then◌else◌}
use rocksolid.Base.Outcome
use rocksolid.Base.Outcome.{Result, ok, err, map_err, map_ok, map_or_none}
use rocksolid.Base.Action.{Action, lift, ◌>>=◌}
use rocksolid.Errors.{StoreError, StoreResult, other, text, rocks_db}
use rocksolid.Serialization.{Codec, KeyType, serialize_key, serialize_value, deserialize_value}
use rocksolid.Expiry.{ValueWithExpiry, from_value, from_slice, serialize_for_storage}
use rocksolid.Txn.{TxnEngine, TxnStore, Running, TxnAction, call_txn, get_cf_handle}

-- `running` is the store and the transaction. `taken` tells that `ManuallyDrop::take` has moved the
-- transaction out, after which it must not be taken again.
pub record OptimisticTransactionContext {E : Type 0} (g : TxnEngine E) : Type 0 where
  pub running : Running g
  pub completed : Bool
  pub taken : Bool

-- `transaction_opt` of the database, given `set_snapshot`.
abbrev pub TransactionOpt : {E : Type 0} → TxnEngine E → Type 0
TransactionOpt g = Bool → g.Db → g.Tx × g.Db

module _ {E : Type 0} (g : TxnEngine E) where
  abbrev pub ContextAction : Type 0
  ContextAction = Action (OptimisticTransactionContext g) (StoreError E) (Unit {0})

  unfoldable pub new : TransactionOpt g → TxnStore g → Bool → OptimisticTransactionContext g
  new transaction_opt st with_snapshot =
      let (txn, db) = transaction_opt with_snapshot st.db in
      record {
        running = record { store = record st { db = db }; txn = txn };
        completed = false;
        taken = false;
      }

  -- `transaction_context` and `blind_transaction_context` of the store
  unfoldable pub transaction_context :
      TransactionOpt g → TxnStore g → OptimisticTransactionContext g
  unfolding new
  transaction_context transaction_opt st = new transaction_opt st true

  unfoldable pub blind_transaction_context :
      TransactionOpt g → TxnStore g → OptimisticTransactionContext g
  unfolding new
  blind_transaction_context transaction_opt st = new transaction_opt st false

  unfoldable pub check_completed : OptimisticTransactionContext g → StoreResult E (Unit {0})
  check_completed ctx =
      if ctx.completed
      then err
          (other (text "OptimisticTransactionContext already completed (committed or rolled back)"))
      else ok tt

  -- `self.check_completed()?` before a write, and before a read.
  unfoldable pub staged : TxnAction g → ContextAction
  unfolding check_completed
  staged act ctx =
      (lift (check_completed ctx) >>= λ _ c.
      (let (r, w) = act c.running in (r, record c { running = w })))
        ctx

  unfoldable pub read :
      {A : Type 0}
      → (Running g → StoreResult E A)
      → OptimisticTransactionContext g
      → StoreResult E A
  unfolding check_completed
  read f ctx = Outcome.◌>>=◌ (check_completed ctx) λ _. f ctx.running

  -- The transaction, and what a caller who has it changed does.
  unfoldable pub tx : OptimisticTransactionContext g → StoreResult E g.Tx
  unfolding read
  tx = read λ w. ok w.txn

  unfoldable pub tx_mut :
      (g.Tx × g.Db → g.Tx × g.Db)
      → Action (OptimisticTransactionContext g) (StoreError E) (Unit {0})
  unfolding staged
  tx_mut change = staged λ w.
      (let (txn, db) = change (w.txn, w.store.db) in
        (ok tt, record { store = record w.store { db = db }; txn = txn }))

  -- `self.store.get_cf_handle(cf_name)?`
  unfoldable pub with_handle : String → (g.Handle → TxnAction g) → TxnAction g
  unfolding get_cf_handle
  with_handle cf_name act w = (lift (get_cf_handle g w.store cf_name) >>= act) w

  module _ {K : Type 0} (kt : KeyType E K) where
    unfoldable pub set : {V : Type 0} → Codec E V → K → V → ContextAction
    unfolding staged serialize_key serialize_value call_txn
    set c key val = staged (
        lift (serialize_key kt key) >>= λ ser_key.
        lift (serialize_value c val) >>= λ ser_val. call_txn g (g.put ser_key ser_val))

    unfoldable pub set_raw : K → Bytes → ContextAction
    unfolding staged serialize_key call_txn
    set_raw key raw_val =
        staged (lift (serialize_key kt key) >>= λ ser_key. call_txn g (g.put ser_key raw_val))

    unfoldable pub set_with_expiry : {V : Type 0} → Codec E V → K → V → ℕ → ContextAction
    unfolding staged serialize_key from_value serialize_for_storage call_txn
    set_with_expiry c key val expire_time = staged (
        lift (serialize_key kt key) >>= λ ser_key. lift (from_value c expire_time val) >>= λ vwe.
        call_txn g (g.put ser_key (serialize_for_storage vwe)))

    unfoldable pub merge : {V : Type 0} → Codec E V → K → V → ContextAction
    unfolding staged serialize_key serialize_value call_txn
    merge c key merge_value = staged (
        lift (serialize_key kt key) >>= λ ser_key.
        lift (serialize_value c merge_value) >>= λ ser_op. call_txn g (g.merge ser_key ser_op))

    unfoldable pub merge_raw : K → Bytes → ContextAction
    unfolding staged serialize_key call_txn
    merge_raw key raw_merge_op =
        staged
          (lift (serialize_key kt key) >>= λ ser_key. call_txn g (g.merge ser_key raw_merge_op))

    unfoldable pub delete : K → ContextAction
    unfolding staged serialize_key call_txn
    delete key = staged (lift (serialize_key kt key) >>= λ ser_key. call_txn g (g.delete ser_key))

    unfoldable pub put_cf : {V : Type 0} → Codec E V → String → K → V → ContextAction
    unfolding staged with_handle serialize_key serialize_value call_txn
    put_cf c cf_name key val = staged (
        with_handle cf_name λ handle.
          (lift (serialize_key kt key) >>= λ ser_key.
          lift (serialize_value c val) >>= λ ser_val. call_txn g (g.put_cf handle ser_key ser_val)))

    unfoldable pub put_cf_raw : String → K → Bytes → ContextAction
    unfolding staged with_handle serialize_key call_txn
    put_cf_raw cf_name key raw_val = staged (
        with_handle cf_name λ handle.
          (lift (serialize_key kt key) >>= λ ser_key. call_txn g (g.put_cf handle ser_key raw_val)))

    unfoldable pub put_cf_with_expiry :
        {V : Type 0} → Codec E V → String → K → V → ℕ → ContextAction
    unfolding check_completed from_value put_cf_raw serialize_for_storage
    put_cf_with_expiry c cf_name key val expire_time ctx =
        (lift (check_completed ctx) >>= λ _. lift (from_value c expire_time val) >>= λ vwe.
        put_cf_raw cf_name key (serialize_for_storage vwe))
          ctx

    unfoldable pub merge_cf : {V : Type 0} → Codec E V → String → K → V → ContextAction
    unfolding staged with_handle serialize_key serialize_value call_txn
    merge_cf c cf_name key merge_value = staged (
        with_handle cf_name λ handle.
          (lift (serialize_key kt key) >>= λ ser_key.
          lift (serialize_value c merge_value) >>= λ ser_op.
          call_txn g (g.merge_cf handle ser_key ser_op)))

    unfoldable pub merge_cf_raw : String → K → Bytes → ContextAction
    unfolding staged with_handle serialize_key call_txn
    merge_cf_raw cf_name key raw_merge_op = staged (
        with_handle cf_name λ handle.
          (lift (serialize_key kt key) >>= λ ser_key.
          call_txn g (g.merge_cf handle ser_key raw_merge_op)))

    unfoldable pub delete_cf : String → K → ContextAction
    unfolding staged with_handle serialize_key call_txn
    delete_cf cf_name key = staged (
        with_handle cf_name λ handle.
          (lift (serialize_key kt key) >>= λ ser_key. call_txn g (g.delete_cf handle ser_key)))
