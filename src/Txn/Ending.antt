-- ===== src/Txn/Ending.antt =====
-- The operations of a `TransactionContext` against those of its store, and how a context ends.
use rocksolid.Base.{
  ℕ, ◌≡◌, ◌∙◌, ◌↔◌, arith, inl, inr, none, some, Bytes, true, false, str_eq, str_eq_iff,
}
use rocksolid.Base.Outcome.{ok, err, on_ok, Result-cases}
use rocksolid.Errors.{StoreResult, rocks_db}
use rocksolid.Serialization.{Codec, KeyType}
use rocksolid.Engine.{default_cf}
use rocksolid.Txn.{TxnEngine, TxnStore, call_txn}
use rocksolid.Txn.Laws.{IsTransactional}
use rocksolid.Txn.Context.{
  TransactionContext, check_completed, set, set_raw, set_with_expiry, merge, merge_raw, delete, get,
  get_raw, get_with_expiry, exists, put_cf, put_cf_raw, put_cf_with_expiry, merge_cf, merge_cf_raw,
  delete_cf, get_cf, get_cf_raw, get_cf_with_expiry, exists_cf, commit, rollback, drop, commit_body,
  rollback_body,
}

is_default : str_eq default_cf default_cf ≡ true
is_default = ground (arith, str_eq_iff default_cf default_cf)

module _ {E : Type 0} (g : TxnEngine E) {K V : Type 0} (kt : KeyType E K) (c : Codec E V) (k : K)
    (x : V) where
  -- The operations of a context that name no family are those that name the default one: the writes
  -- that it makes on its transaction directly are those of the store within a transaction.
  pub set-put_cf :
      (v : Bytes) (t : ℕ) (ctx : TransactionContext g)
      → (set g kt c k x ctx ≡ put_cf g kt c default_cf k x ctx)
        × (set_raw g kt k v ctx ≡ put_cf_raw g kt default_cf k v ctx)
        × (set_with_expiry g kt c k x t ctx ≡ put_cf_with_expiry g kt c default_cf k x t ctx)
        × (merge g kt c k x ctx ≡ merge_cf g kt c default_cf k x ctx)
        × (merge_raw g kt k v ctx ≡ merge_cf_raw g kt default_cf k v ctx)
        × (delete g kt k ctx ≡ delete_cf g kt default_cf k ctx)
        × (get g kt c k ctx ≡ get_cf g kt c default_cf k ctx)
        × (get_raw g kt k ctx ≡ get_cf_raw g kt default_cf k ctx)
        × (get_with_expiry g kt k ctx ≡ get_cf_with_expiry g kt default_cf k ctx)
        × (exists g kt k ctx ≡ exists_cf g kt default_cf k ctx)
  unfolding set put_cf set_raw put_cf_raw set_with_expiry put_cf_with_expiry merge merge_cf
      merge_raw merge_cf_raw delete delete_cf get get_cf get_raw get_cf_raw get_with_expiry
      get_cf_with_expiry exists exists_cf
  set-put_cf v t ctx = (
    ground (arith, is_default),
    ground (arith, is_default),
    ground (arith, is_default),
    ground (arith, is_default),
    ground (arith, is_default),
    ground (arith, is_default),
    ground (arith, is_default),
    ground (arith, is_default),
    ground (arith, is_default),
    ground (arith, is_default),
  )

module _ {E : Type 0} {g : TxnEngine E} (ctx : TransactionContext g) where
  -- `commit` of an open context is defined exactly when the commit of its transaction succeeds: when
  -- that fails, the drop of the context uses the transaction that was moved out.
  pub commit-eq-none_iff :
      ctx.completed ≡ false
      → (commit g ctx ≡ none)
        ↔ ((e : E) × ((g.commit ctx.running.txn ctx.running.store.db).0 ≡ err e))
  unfolding commit commit_body drop check_completed
  commit-eq-none_iff h = elim (Result-cases (g.commit ctx.running.txn ctx.running.store.db).0) [
    | inl (u, q) ↦ (ground arith, ground arith)
    | inr (e, q) ↦ (λ _. (e, q), λ _. ground arith)
  ]

  module _ (law : IsTransactional g) where
    -- `commit` of an open context that returns success leaves the database with the view of its
    -- transaction.
    pub commit-content :
        (r : StoreResult E (Unit {0})) (st : TxnStore g)
        → ctx.completed ≡ false
        → commit g ctx ≡ some (r, st)
        → law.content st.db
          ≡ on_ok r
              (law.view (ctx.running.txn, ctx.running.store.db))
              (law.content ctx.running.store.db)
    unfolding commit commit_body drop check_completed
    commit-content r st h q =
        ground (arith, law.commit_content ctx.running.txn ctx.running.store.db)

    -- `rollback` of an open context whose transaction was not moved out is defined, and so is its
    -- drop; whether the call of the database succeeds or not, both leave the database as it was.
    pub rollback-content :
        ctx.completed ≡ false
        → ctx.moved ≡ false
        → ((r : StoreResult E (Unit {0})) × (st : TxnStore g) × (rollback g ctx ≡ some (r, st))
            × (law.content st.db ≡ law.content ctx.running.store.db))
          × ((st : TxnStore g) × (drop g ctx ≡ some st)
              × (law.content st.db ≡ law.content ctx.running.store.db))
    unfolding rollback rollback_body drop check_completed call_txn
    rollback-content h m =
        let w : g.Tx × g.Db = (ctx.running.txn, ctx.running.store.db) in
        let w' = (g.rollback w).1 in
        let w'' = (g.rollback w').1 in
        let once = law.rollback_content w in
        let twice = law.rollback_content w' in
        let ended = law.destroy_content w'.0 w'.1 in
        let ended' = law.destroy_content w''.0 w''.1 in
        let rolled : (r : StoreResult E (Unit {0})) × (st : TxnStore g) × (rollback g ctx
              ≡ some (r, st))
            × (law.content st.db ≡ law.content ctx.running.store.db) =
          elim (Result-cases (g.rollback w).0) [
            | inl (u, q) ↦ (ok tt, record ctx.running.store { db = w'.1 }, ground arith, once)
            | inr (e, q) ↦ (
              err (rocks_db e),
              record ctx.running.store { db = g.destroy w''.0 w''.1 },
              ground arith,
              ended' ∙ twice ∙ once,
            )
          ] in
        (
          rolled,
          (record ctx.running.store { db = g.destroy w'.0 w'.1 }, ground arith, ended ∙ once),
        )
