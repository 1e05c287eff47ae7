-- ===== src/Optimistic/Context/Ends.antt =====
-- How an `OptimisticTransactionContext` of src/tx/optimistic_context.rs ends: `commit`, `rollback`,
-- and its drop.
use rocksolid.Base.{
  ◌≡◌, ◌∙◌, refl, arith, Option, none, some, List, Bool, true, false, inl, inr, if◌then◌else◌,
}
use rocksolid.Base.Outcome.{map_err, on_ok, Result-cases}
use rocksolid.Base.Action.{lift, ◌>>=◌}
use rocksolid.Errors.{StoreResult, rocks_db}
use rocksolid.Serialization.{Codec, KeyType}
use rocksolid.Engine.Laws.{Content}
use rocksolid.Txn.{TxnEngine, TxnStore}
use rocksolid.Txn.Laws.{IsTransactional}
use rocksolid.Optimistic.Context.{
  OptimisticTransactionContext, ContextAction, TransactionOpt, check_completed, new,
}
use rocksolid.Optimistic.Context.Steps.{Write, perform_all, changes, IsPending}
use rocksolid.Optimistic.Context.Pending.{perform_all-IsPending}

module _ {E : Type 0} (g : TxnEngine E) where
  -- `Drop for OptimisticTransactionContext`: what it leaves of the store, unless it takes the
  -- transaction a second time. A rollback that fails is only logged; the transaction ends with it.
  unfoldable pub drop : OptimisticTransactionContext g → Option (TxnStore g)
  drop ctx =
      let w = ctx.running in
      let (_, (txn, db)) = g.rollback (w.txn, w.store.db) in
      if ctx.completed
      then some w.store
      else if ctx.taken
      then none
      else some (record w.store { db = g.destroy txn db })

  -- The body of `commit`, before the context is dropped.
  unfoldable pub commit_body : ContextAction g
  unfolding check_completed
  commit_body ctx =
      (lift (check_completed g ctx) >>= λ _ c.
      (let w = c.running in
        let (r, db) = g.commit w.txn w.store.db in
        (
          map_err rocks_db r,
          record {
            running = record w { store = record w.store { db = db } };
            completed = true;
            taken = true;
          },
        )))
        ctx

  -- The body of `rollback`: the transaction that it took ends with it.
  unfoldable pub rollback_body : ContextAction g
  unfolding check_completed
  rollback_body ctx =
      (lift (check_completed g ctx) >>= λ _ c.
      (let w = c.running in
        let (r, (txn, db)) = g.rollback (w.txn, w.store.db) in
        (
          map_err rocks_db r,
          record {
            running = record { store = record w.store { db = g.destroy txn db }; txn = txn };
            completed = true;
            taken = true;
          },
        )))
        ctx

  -- `commit` and `rollback` consume the context: the body runs, and then the drop.
  abbrev consume :
      ContextAction g
      → OptimisticTransactionContext g
      → Option (StoreResult E (Unit {0}) × TxnStore g)
  unfolding drop
  consume body ctx =
      let (r, ctx') = body ctx in elim (drop ctx') [ none ↦ none | some st ↦ some (r, st) ]

  unfoldable pub commit :
      OptimisticTransactionContext g → Option (StoreResult E (Unit {0}) × TxnStore g)
  unfolding commit_body consume
  commit ctx = consume commit_body ctx

  unfoldable pub rollback :
      OptimisticTransactionContext g → Option (StoreResult E (Unit {0}) × TxnStore g)
  unfolding rollback_body consume
  rollback ctx = consume rollback_body ctx

module _ {E : Type 0} {g : TxnEngine E} (law : IsTransactional g)
    (ctx : OptimisticTransactionContext g) where
  commit-content :
      ctx.completed ≡ false
      → (r : StoreResult E (Unit {0})) × (st : TxnStore g) × (commit g ctx ≡ some (r, st))
        × (law.content st.db
            ≡ on_ok r
                (law.view (ctx.running.txn, ctx.running.store.db))
                (law.content ctx.running.store.db))
  unfolding commit commit_body drop check_completed
  commit-content h =
      let done = g.commit ctx.running.txn ctx.running.store.db in
      let law_c = law.commit_content ctx.running.txn ctx.running.store.db in
      (
        map_err rocks_db done.0,
        record ctx.running.store { db = done.1 },
        ground arith,
        elim (Result-cases done.0) [ inl (u, q) ↦ ground arith | inr (e, q) ↦ ground arith ],
      )

  -- A rollback, and a drop without one, of a context that is open.
  given_up :
      ctx.completed ≡ false
      → ctx.taken ≡ false
      → ((r : StoreResult E (Unit {0})) × (st : TxnStore g) × (rollback g ctx ≡ some (r, st))
          × (law.content st.db ≡ law.content ctx.running.store.db))
        × ((st : TxnStore g) × (drop g ctx ≡ some st)
            × (law.content st.db ≡ law.content ctx.running.store.db))
  unfolding rollback rollback_body drop check_completed
  given_up h t =
      let w : g.Tx × g.Db = (ctx.running.txn, ctx.running.store.db) in
      let w' = (g.rollback w).1 in
      let st = record ctx.running.store { db = g.destroy w'.0 w'.1 } in
      let same = law.destroy_content w'.0 w'.1 ∙ law.rollback_content w in
      ((map_err rocks_db (g.rollback w).0, st, ground arith, same), (st, ground arith, same))

-- The documented start of a transaction: it sees what the database holds, and leaves it.
pub record IsBeginning {E : Type 0} {g : TxnEngine E} (law : IsTransactional g)
    (transaction_opt : TransactionOpt g) : Type 0 where
  pub begin_view : (b : Bool) (db : g.Db) → law.view (transaction_opt b db) ≡ law.content db
  pub begin_content : (b : Bool) (db : g.Db) → law.content (transaction_opt b db).1 ≡ law.content db

module _ {E : Type 0} {g : TxnEngine E} (law : IsTransactional g)
    {transaction_opt : TransactionOpt g} (begins : IsBeginning law transaction_opt) {K V : Type 0}
    (kt : KeyType E K) (c : Codec E V) (ws : List (Write K V)) (st : TxnStore g)
    (with_snapshot : Bool) where
  -- The context that a caller has after its writes.
  abbrev pub written : OptimisticTransactionContext g
  written = perform_all g kt c ws (new g transaction_opt st with_snapshot)

  abbrev pub written_changes : Content → Content
  written_changes = changes law kt c ws (new g transaction_opt st with_snapshot)

  new-IsPending :
      IsPending law kt c
        (law.content st.db)
        (law.content st.db)
        (new g transaction_opt st with_snapshot)
  unfolding new
  new-IsPending = record {
    open_still = refl;
    held = refl;
    kept = begins.begin_content with_snapshot st.db;
    sees = begins.begin_view with_snapshot st.db;
  }

  written-IsPending :
      IsPending law kt c (law.content st.db) (written_changes (law.content st.db)) written
  written-IsPending =
      perform_all-IsPending law kt c ws (new g transaction_opt st with_snapshot) new-IsPending

  -- After any writes on a new context, some of which may fail, its commit returns, and so do its
  -- rollback and its drop: none of them takes the transaction twice. The commit changes the database
  -- by the writes that succeeded, in their order, where it reports success, and not at all where it
  -- reports an error, such as a conflict; the rollback and the drop leave the database as it was.
  pub written_ends :
      ((r : StoreResult E (Unit {0})) × (st' : TxnStore g) × (commit g written ≡ some (r, st'))
        × (law.content st'.db ≡ on_ok r (written_changes (law.content st.db)) (law.content st.db)))
      × ((r : StoreResult E (Unit {0})) × (st' : TxnStore g) × (rollback g written ≡ some (r, st'))
          × (law.content st'.db ≡ law.content st.db))
      × ((st' : TxnStore g) × (drop g written ≡ some st')
          × (law.content st'.db ≡ law.content st.db))
  written_ends =
      let p = written-IsPending in
      let (same, sees) : (law.content written.running.store.db ≡ law.content st.db)
          × (law.view (written.running.txn, written.running.store.db)
              ≡ written_changes (law.content st.db)) =
        (p.kept, p.sees) in
      let (r1, st1, e1, k1) = commit-content law written p.open_still in
      let ((r2, st2, e2, k2), (st3, e3, k3)) = given_up law written p.open_still p.held in
      ((r1, st1, e1, ground arith), (r2, st2, e2, k2 ∙ same), (st3, e3, k3 ∙ same))
