-- ===== src/Txn/Atomic.antt =====
-- `execute_transaction` of src/tx/cf_tx_store.rs: all that its closure staged, or nothing.
use rocksolid.Base.{◌≡◌, ◌∙◌, refl, arith, inl, inr, none, some, List, [], ◌∷◌, Bytes, String}
use rocksolid.Base.Outcome.{ok, on_ok, Result-cases}
use rocksolid.Base.Action.{Action, ◌>>◌}
use rocksolid.Errors.{StoreError}
use rocksolid.Serialization.{KeyType}
use rocksolid.Engine.Laws.{Content, assign}
use rocksolid.Txn.{TxnEngine, TxnStore, Running, TxnAction, begin_transaction, execute_transaction}
use rocksolid.Txn.Laws.{IsTransactional}
use rocksolid.Txn.Within.{put_raw_in_txn, delete_in_txn, merge_raw_in_txn}
use rocksolid.Txn.Own.{Stages, view_of, within-Stages}

-- The writes of a transaction, each with its column family.
pub data TxnOp (K : Type 0) : Type 0 where
  put_op merge_op : String → K → Bytes → TxnOp K
  delete_op : String → K → TxnOp K

module _ {E : Type 0} (g : TxnEngine E) {K : Type 0} (kt : KeyType E K) where
  unfoldable pub within : TxnOp K → TxnAction g
  unfolding put_raw_in_txn delete_in_txn merge_raw_in_txn
  within (put_op n k v) = put_raw_in_txn g kt n k v
  within (merge_op n k v) = merge_raw_in_txn g kt n k v
  within (delete_op n k) = delete_in_txn g kt n k

  -- A closure that chains its operations by `?`.
  unfoldable pub all_within : List (TxnOp K) → TxnAction g
  unfolding within
  all_within [] = λ w. (ok tt, w)
  all_within (op ∷ ops) = within op >> all_within ops

module _ {E : Type 0} {g : TxnEngine E} (law : IsTransactional g) {K : Type 0}
    (kt : KeyType E K) where
  unfoldable pub effect_of : TxnOp K → Content → Content
  effect_of (put_op n k v) c = assign n (kt.as_bytes k) (some v) c
  effect_of (merge_op n k v) c = assign n (kt.as_bytes k) (law.merged c n (kt.as_bytes k) v) c
  effect_of (delete_op n k) c = assign n (kt.as_bytes k) none c

  unfoldable pub effects : List (TxnOp K) → Content → Content
  unfolding effect_of
  effects [] c = c
  effects (op ∷ ops) c = effects ops (effect_of op c)

  within_op-Stages : (op : TxnOp K) (w : Running g) → Stages law (within g kt op) (effect_of op) w
  unfolding within effect_of
  within_op-Stages (put_op n k v) w = (within-Stages law kt n k w v).0
  within_op-Stages (merge_op n k v) w = (within-Stages law kt n k w v).2
  within_op-Stages (delete_op n k) w = (within-Stages law kt n k w []).1

  chained :
      (ops : List (TxnOp K)) (w : Running g)
      → (law.content (all_within g kt ops w).1.store.db ≡ law.content w.store.db)
        × (on_ok
              (all_within g kt ops w).0
              (view_of law (all_within g kt ops w).1)
              (effects ops (view_of law w))
            ≡ effects ops (view_of law w))
  unfolding all_within effects
  chained [] w = (refl, refl)
  chained (op ∷ ops) w =
      let s = within_op-Stages op w in
      let w' = (within g kt op w).1 in
      elim (Result-cases (within g kt op w).0) [
        | inl (u, q) ↦ let ih = chained ops w' in (ground arith, ground arith)
        | inr (e, q) ↦ (ground arith, ground arith)
      ]

  executed :
      {R : Type 0} (operation : Action (Running g) (StoreError E) R) (st : TxnStore g)
      → law.content (operation (begin_transaction g st)).1.store.db ≡ law.content st.db
      → law.content (execute_transaction g operation st).1.db
        ≡ on_ok
            (execute_transaction g operation st).0
            (view_of law (operation (begin_transaction g st)).1)
            (law.content st.db)
  unfolding execute_transaction
  executed operation st h =
      let (r, w) = operation (begin_transaction g st) in
      ground (
        arith,
        law.commit_content w.txn w.store.db,
        law.rollback_content (w.txn, w.store.db),
        law.destroy_content (g.rollback (w.txn, w.store.db)).1.0
            (g.rollback (w.txn, w.store.db)).1.1,
      )

  -- `execute_transaction` of a closure that chains writes to any column families changes the database
  -- by all of them in order where it succeeds, and not at all where it fails: at a write, at a family
  -- that is not open, or at the commit.
  pub execute_transaction-effects :
      (ops : List (TxnOp K)) (st : TxnStore g)
      → law.content (execute_transaction g (all_within g kt ops) st).1.db
        ≡ on_ok
            (execute_transaction g (all_within g kt ops) st).0
            (effects ops (law.content st.db))
            (law.content st.db)
  unfolding begin_transaction
  execute_transaction-effects ops st =
      let w = begin_transaction g st in
      let (kept, seen) = chained ops w in
      let out = executed (all_within g kt ops) st (kept ∙ law.begin_content st.db) in
      let same : (execute_transaction g (all_within g kt ops) st).0
          ≡ on_ok (all_within g kt ops w).0 (execute_transaction g (all_within g kt ops) st).0
              (all_within g kt ops w).0 =
        unfold execute_transaction in ground arith in
      ground (arith, out, seen, same, law.begin_view st.db)
