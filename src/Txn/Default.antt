-- ===== src/Txn/Default.antt =====
-- The transactions of `RocksDbTxnStore` (src/tx/tx_store.rs), which are those of the store inside.
use rocksolid.Base.Action.{Action}
use rocksolid.Errors.{StoreError}
use rocksolid.Txn
use rocksolid.Txn.{TxnEngine, TxnStore, Running}
use rocksolid.Txn.Context
use rocksolid.Txn.Context.{TransactionContext}

pub record DefaultTxnStore {E : Type 0} (g : TxnEngine E) : Type 0 where
  pub cf_store : TxnStore g

module _ {E : Type 0} (g : TxnEngine E) where
  unfoldable pub begin_transaction : DefaultTxnStore g → Running g
  unfolding Txn.begin_transaction
  begin_transaction st = Txn.begin_transaction g st.cf_store

  unfoldable pub execute_transaction :
      {R : Type 0}
      → Action (Running g) (StoreError E) R
      → Action (DefaultTxnStore g) (StoreError E) R
  unfolding Txn.execute_transaction
  execute_transaction operation st =
      let (r, inner) = Txn.execute_transaction g operation st.cf_store in
      (r, record { cf_store = inner })

  unfoldable pub transaction_context : DefaultTxnStore g → TransactionContext g
  unfolding Context.new
  transaction_context st = Context.new g st.cf_store
