-- ===== src/Optimistic/Context/Tests.antt =====
-- The theorems on optimistic transaction contexts at concrete data, over the engine in memory.
use rocksolid.Base.{ℕ, ◌≡◌, refl, none, some, List, [], ◌∷◌, Bytes, true, false}
use rocksolid.Base.Outcome.{ok, on_ok}
use rocksolid.Errors.{StoreResult}
use rocksolid.Serialization.{Codec, KeyType}
use rocksolid.Engine.Laws.{Content}
use rocksolid.Txn.{TxnStore}
use rocksolid.Txn.Memory.{copying, copying-IsTransactional, empty_tables}
use rocksolid.Optimistic.Context.{OptimisticTransactionContext, TransactionOpt}
use rocksolid.Optimistic.Context.Steps.{
  Write, value, expiring, bytes, merged_bytes, removed, perform_all, changes, IsPending,
}
use rocksolid.Optimistic.Context.Pending.{perform_all-IsPending}
use rocksolid.Optimistic.Context.Ends.{
  drop, commit, rollback, IsBeginning, written, written_changes, written_ends,
}

abbrev plain_keys : KeyType ℕ Bytes
plain_keys = record { as_bytes = λ k. k; decode = λ b. ok b }

abbrev plain_codec : Codec ℕ Bytes
plain_codec = record { serialize = λ v. ok v; deserialize = λ b. ok b }

abbrev optimistic_store : TxnStore copying
optimistic_store = record {
  db = empty_tables;
  cf_names = "default" ∷ "logs" ∷ [];
  path = "/tmp/optimistic";
}

abbrev transaction_opt : TransactionOpt copying
transaction_opt b db = copying.begin db

copying-IsBeginning : IsBeginning copying-IsTransactional transaction_opt
copying-IsBeginning = record {
  begin_view = λ b db. copying-IsTransactional.begin_view db;
  begin_content = λ b db. copying-IsTransactional.begin_content db;
}

-- Writes of every kind; the family "none" is not open, so that its write fails.
abbrev some_writes : List (Write Bytes Bytes)
some_writes =
    value none (1 ∷ []) (10 ∷ [])
    ∷ expiring (some "logs") (2 ∷ []) (20 ∷ []) 300
    ∷ bytes (some "none") (1 ∷ []) (11 ∷ [])
    ∷ merged_bytes none (1 ∷ []) (12 ∷ [])
    ∷ removed (some "logs") (2 ∷ [])
    ∷ []

abbrev opened : OptimisticTransactionContext copying
opened = record {
  running = record { store = optimistic_store; txn = λ n k. none };
  completed = false;
  taken = false;
}

abbrev before : Content
before = copying-IsTransactional.content empty_tables

abbrev seen : Content
seen = copying-IsTransactional.view (opened.running.txn, empty_tables)

opened-IsPending : IsPending copying-IsTransactional plain_keys plain_codec before seen opened
opened-IsPending = record { open_still = refl; held = refl; kept = refl; sees = refl }

perform_all-IsPending_example :
    IsPending copying-IsTransactional plain_keys plain_codec before
      (changes copying-IsTransactional plain_keys plain_codec some_writes opened seen)
      (perform_all copying plain_keys plain_codec some_writes opened)
perform_all-IsPending_example =
    perform_all-IsPending copying-IsTransactional plain_keys plain_codec some_writes opened
      opened-IsPending

abbrev after_writes : OptimisticTransactionContext copying
after_writes =
    written copying-IsTransactional copying-IsBeginning plain_keys plain_codec some_writes
      optimistic_store true

abbrev after_changes : Content → Content
after_changes =
    written_changes copying-IsTransactional copying-IsBeginning plain_keys plain_codec some_writes
      optimistic_store true

written_ends_example :
    ((r : StoreResult ℕ (Unit {0})) × (st : TxnStore copying) × (commit copying after_writes
        ≡ some (r, st))
      × (copying-IsTransactional.content st.db ≡ on_ok r (after_changes before) before))
    × ((r : StoreResult ℕ (Unit {0})) × (st : TxnStore copying) × (rollback copying after_writes
          ≡ some (r, st))
        × (copying-IsTransactional.content st.db ≡ before))
    × ((st : TxnStore copying) × (drop copying after_writes ≡ some st)
        × (copying-IsTransactional.content st.db ≡ before))
written_ends_example =
    written_ends copying-IsTransactional copying-IsBeginning plain_keys plain_codec some_writes
      optimistic_store true
