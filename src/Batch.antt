-- ===== src/Batch.antt =====
-- `BatchWriter` of src/batch.rs. The writer borrows its store: `store` is the store as it stands when
-- an operation runs, and `commit` gives it back. A writer logs a warning when it is dropped; the log
-- is the list of the pairs of a path and a column family that it was given.
pub mod Staging
pub mod Refusals
pub mod Commit
mod Tests
use rocksolid.Base.{ℕ, Bytes, String, Bool, true, false, List, [], ◌∷◌, str_eq, if◌then◌else◌}
use rocksolid.Base.Outcome
use rocksolid.Base.Outcome.{Result, ok, err, map_err}
use rocksolid.Base.Action.{Action, lift, ◌>>=◌}
use rocksolid.Errors.{StoreError, StoreResult, other, text, rocks_db}
use rocksolid.Serialization.{Codec, KeyType, serialize_key, serialize_value}
use rocksolid.Expiry.{from_value, serialize_for_storage}
use rocksolid.Engine.{Engine, default_cf}
use rocksolid.CfStore.{CfStore, get_cf_handle}

pub record BatchWriter {E : Type 0} (g : Engine E) : Type 0 where
  pub store : CfStore g
  pub batch : g.Batch
  pub cf_name : String
  pub committed_or_discarded : Bool

module _ {E : Type 0} (g : Engine E) where
  abbrev pub BatchAction : Type 0
  BatchAction = Action (BatchWriter g) (StoreError E) (Unit {0})

  unfoldable pub new : CfStore g → String → BatchWriter g
  new store cf_name = record {
    store = store;
    batch = g.empty_batch;
    cf_name = cf_name;
    committed_or_discarded = false;
  }

  unfoldable pub check_not_committed : BatchWriter g → StoreResult E (Unit {0})
  check_not_committed w =
      if w.committed_or_discarded
      then err (other (text "BatchWriter already committed or discarded"))
      else ok tt

  -- `if self.cf_name == DEFAULT_COLUMN_FAMILY_NAME { .. } else { let handle = ..?; .. }`
  unfoldable pub stage_at : (g.Batch → g.Batch) → (g.Handle → g.Batch → g.Batch) → BatchAction
  unfolding get_cf_handle
  stage_at plain at_handle w =
      if str_eq w.cf_name default_cf
      then (ok tt, record w { batch = plain w.batch })
      else (lift (get_cf_handle g w.store w.cf_name) >>= λ handle w'.
            (ok tt, record w' { batch = at_handle handle w'.batch }))
          w

  -- `self.check_not_committed()?` before the rest of an operation.
  unfoldable pub checked : BatchAction → BatchAction
  unfolding check_not_committed
  checked act w = (lift (check_not_committed w) >>= λ _. act) w

  module _ {K : Type 0} (kt : KeyType E K) where
    unfoldable pub set : {V : Type 0} → Codec E V → K → V → BatchAction
    unfolding checked serialize_key serialize_value stage_at
    set c key val = checked (
        lift (serialize_key kt key) >>= λ sk. lift (serialize_value c val) >>= λ sv.
        stage_at (g.batch_put sk sv) (λ h. g.batch_put_cf h sk sv))

    unfoldable pub set_raw : K → Bytes → BatchAction
    unfolding checked serialize_key stage_at
    set_raw key raw_val = checked (
        lift (serialize_key kt key) >>= λ sk.
        stage_at (g.batch_put sk raw_val) (λ h. g.batch_put_cf h sk raw_val))

    unfoldable pub set_with_expiry : {V : Type 0} → Codec E V → K → V → ℕ → BatchAction
    unfolding checked serialize_key from_value serialize_for_storage stage_at
    set_with_expiry c key val expire_time = checked (
        lift (serialize_key kt key) >>= λ sk. lift (from_value c expire_time val) >>= λ vwe.
        stage_at (g.batch_put sk (serialize_for_storage vwe))
          (λ h. g.batch_put_cf h sk (serialize_for_storage vwe)))

    unfoldable pub merge : {V : Type 0} → Codec E V → K → V → BatchAction
    unfolding checked serialize_key serialize_value stage_at
    merge c key merge_value = checked (
        lift (serialize_key kt key) >>= λ sk. lift (serialize_value c merge_value) >>= λ smo.
        stage_at (g.batch_merge sk smo) (λ h. g.batch_merge_cf h sk smo))

    unfoldable pub merge_raw : K → Bytes → BatchAction
    unfolding checked serialize_key stage_at
    merge_raw key raw_merge_op = checked (
        lift (serialize_key kt key) >>= λ sk.
        stage_at (g.batch_merge sk raw_merge_op) (λ h. g.batch_merge_cf h sk raw_merge_op))

    unfoldable pub delete : K → BatchAction
    unfolding checked serialize_key stage_at
    delete key = checked (
        lift (serialize_key kt key) >>= λ sk.
        stage_at (g.batch_delete sk) (λ h. g.batch_delete_cf h sk))

    unfoldable pub delete_range : K → K → BatchAction
    unfolding checked serialize_key stage_at
    delete_range start_key end_key = checked (
        lift (serialize_key kt start_key) >>= λ sks. lift (serialize_key kt end_key) >>= λ ske.
        stage_at (g.batch_delete_range sks ske) (λ h. g.batch_delete_range_cf h sks ske))

  -- `raw_batch_mut`, with what its caller does to the batch.
  unfoldable pub raw_batch_mut : (g.Batch → g.Batch) → BatchAction
  unfolding checked
  raw_batch_mut f = checked λ w. (ok tt, record w { batch = f w.batch })

  -- The body of `commit`, before the writer is dropped.
  unfoldable pub commit_body : BatchAction
  unfolding checked
  commit_body = checked λ w.
      let (r, db) = g.write w.batch w.store.db in
      let w' = record w { store = record w.store { db = db } } in
      elim r [
        | err e ↦ (err (rocks_db e), w')
        | ok _ ↦ (ok tt, record w' { committed_or_discarded = true })
      ]

  -- `Drop for BatchWriter`: the warnings that it logs.
  unfoldable pub drop : BatchWriter g → List (String × String)
  drop w = if w.committed_or_discarded then [] else (w.store.path, w.cf_name) ∷ []

  -- `commit` consumes the writer: what it returns, the store that it leaves, and the log.
  unfoldable pub commit :
      BatchWriter g → StoreResult E (Unit {0}) × CfStore g × List (String × String)
  unfolding commit_body drop
  commit w = let (r, w') = commit_body w in (r, w'.store, drop w')

  unfoldable pub discard : BatchWriter g → CfStore g × List (String × String)
  unfolding drop
  discard w = (w.store, drop (record w { committed_or_discarded = true }))
