-- ===== src/Txn/Tests.antt =====
-- The theorems on pessimistic transactions at concrete data, over the transactional engine in memory.
use rocksolid.Base.{ℕ, ◌≡◌, ◌↔◌, refl, none, some, List, [], ◌∷◌, Bytes, true, false}
use rocksolid.Base.Outcome.{ok, err, on_ok}
use rocksolid.Errors.{StoreResult}
use rocksolid.Serialization.{Codec, KeyType}
use rocksolid.Engine.{default_cf}
use rocksolid.Engine.Laws.{assign}
use rocksolid.Txn.{TxnStore, Running, execute_transaction}
use rocksolid.Txn.Memory.{copying, copying-IsTransactional, empty_tables}
use rocksolid.Txn.Within.{get_raw_in_txn, put_raw_in_txn}
use rocksolid.Txn.Own.{own_write}
use rocksolid.Txn.Atomic.{
  TxnOp, put_op, merge_op, delete_op, all_within, effects, execute_transaction-effects,
}
use rocksolid.Txn.Context.{
  TransactionContext, set, set_raw, set_with_expiry, merge, merge_raw, delete, get, get_raw,
  get_with_expiry, exists, put_cf, put_cf_raw, put_cf_with_expiry, merge_cf, merge_cf_raw,
  delete_cf, get_cf, get_cf_raw, get_cf_with_expiry, exists_cf, commit, rollback, drop,
}
use rocksolid.Txn.Ending.{set-put_cf, commit-eq-none_iff, rollback-content}

abbrev plain_keys : KeyType ℕ Bytes
plain_keys = record { as_bytes = λ k. k; decode = λ b. ok b }

abbrev plain_codec : Codec ℕ Bytes
plain_codec = record { serialize = λ v. ok v; deserialize = λ b. ok b }

abbrev txn_store : TxnStore copying
txn_store = record { db = empty_tables; cf_names = "default" ∷ "logs" ∷ []; path = "/tmp/txn" }

abbrev started : Running copying
started = record { store = txn_store; txn = λ n k. none }

abbrev a_key : Bytes
a_key = 1 ∷ []

abbrev a_val : Bytes
a_val = 10 ∷ []

put_done : (put_raw_in_txn copying plain_keys "logs" a_key a_val started).0 ≡ ok tt
unfolding put_raw_in_txn
put_done = refl

put_read :
    get_raw_in_txn copying plain_keys
      (put_raw_in_txn copying plain_keys "logs" a_key a_val started).1
      "logs"
      a_key
    ≡ ok (some a_val)
unfolding put_raw_in_txn get_raw_in_txn assign
put_read = refl

own_write_example : some a_val ≡ some a_val
own_write_example =
    own_write copying-IsTransactional plain_keys "logs" a_key started a_val (some a_val) put_done
      put_read

abbrev writes : List (TxnOp Bytes)
writes =
    put_op "logs" a_key a_val ∷ merge_op "logs" a_key (11 ∷ []) ∷ delete_op "default" a_key ∷ []

execute_transaction-effects_example :
    copying-IsTransactional.content
      (execute_transaction copying (all_within copying plain_keys writes) txn_store).1.db
    ≡ on_ok
        (execute_transaction copying (all_within copying plain_keys writes) txn_store).0
        (effects copying-IsTransactional plain_keys writes
          (copying-IsTransactional.content empty_tables))
        (copying-IsTransactional.content empty_tables)
execute_transaction-effects_example =
    execute_transaction-effects copying-IsTransactional plain_keys writes txn_store

executed_ok :
    (execute_transaction copying (all_within copying plain_keys writes) txn_store).0 ≡ ok tt
unfolding execute_transaction all_within
executed_ok = refl

abbrev opened : TransactionContext copying
opened = record { running = started; completed = false; moved = false }

set-put_cf_example :
    (set copying plain_keys plain_codec a_key a_val opened
      ≡ put_cf copying plain_keys plain_codec default_cf a_key a_val opened)
    × (set_raw copying plain_keys a_key a_val opened
        ≡ put_cf_raw copying plain_keys default_cf a_key a_val opened)
    × (set_with_expiry copying plain_keys plain_codec a_key a_val 300 opened
        ≡ put_cf_with_expiry copying plain_keys plain_codec default_cf a_key a_val 300 opened)
    × (merge copying plain_keys plain_codec a_key a_val opened
        ≡ merge_cf copying plain_keys plain_codec default_cf a_key a_val opened)
    × (merge_raw copying plain_keys a_key a_val opened
        ≡ merge_cf_raw copying plain_keys default_cf a_key a_val opened)
    × (delete copying plain_keys a_key opened
        ≡ delete_cf copying plain_keys default_cf a_key opened)
    × (get copying plain_keys plain_codec a_key opened
        ≡ get_cf copying plain_keys plain_codec default_cf a_key opened)
    × (get_raw copying plain_keys a_key opened
        ≡ get_cf_raw copying plain_keys default_cf a_key opened)
    × (get_with_expiry copying plain_keys a_key opened
        ≡ get_cf_with_expiry copying plain_keys default_cf a_key opened)
    × (exists copying plain_keys a_key opened
        ≡ exists_cf copying plain_keys default_cf a_key opened)
set-put_cf_example = set-put_cf copying plain_keys plain_codec a_key a_val a_val 300 opened

-- A context whose database is busy: its commit fails.
abbrev blocked : TransactionContext copying
blocked = record opened {
  running = record started {
    store = record txn_store { db = record empty_tables { busy = true } };
  };
}

commit-eq-none_iff_example :
    (commit copying blocked ≡ none)
    ↔ ((e : ℕ) × ((copying.commit blocked.running.txn blocked.running.store.db).0 ≡ err e))
commit-eq-none_iff_example = commit-eq-none_iff blocked refl

commit_undefined : commit copying blocked ≡ none
unfolding commit
commit_undefined = refl

commit_done : commit copying opened ≡ some (ok tt, txn_store)
unfolding commit
commit_done = refl

abbrev done : StoreResult ℕ (Unit {0})
done = ok tt

rollback-content_example :
    ((r : StoreResult ℕ (Unit {0})) × (st : TxnStore copying) × (rollback copying blocked
        ≡ some (r, st))
      × (copying-IsTransactional.content st.db
          ≡ copying-IsTransactional.content blocked.running.store.db))
    × ((st : TxnStore copying) × (drop copying blocked ≡ some st)
        × (copying-IsTransactional.content st.db
            ≡ copying-IsTransactional.content blocked.running.store.db))
rollback-content_example = rollback-content blocked copying-IsTransactional refl refl
