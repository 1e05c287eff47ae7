-- ===== src/Batch/Refusals.antt =====
-- Why staging an operation on a `BatchWriter` (src/batch.rs) fails, for the raw and the typed
-- operations.
use rocksolid.Base.{
  ℕ, ◌≡◌, ◌≢◌, ◌⊎◌, refl, ap, arith, Bool-cases, Option-cases, inl, inr, none, true, str_eq_iff,
}
use rocksolid.Base.Outcome.{err, Result-cases}
use rocksolid.Errors.{StoreError, other, text, unknown_cf, serialization}
use rocksolid.Serialization.{Codec, KeyType, serialize_key, serialize_value}
use rocksolid.Expiry.{from_value, serialize_for_storage}
use rocksolid.Engine.{Engine, default_cf}
use rocksolid.CfStore.{get_cf_handle}
use rocksolid.Batch.{
  BatchWriter, BatchAction, stage_at, checked, check_not_committed, set, set_raw, set_with_expiry,
  merge, merge_raw, delete, delete_range,
}
use rocksolid.Batch.Staging.{
  BatchOp, set_op, merge_op, delete_op, delete_range_op, stage, typed_staging,
}

-- The operations of a writer, on raw values (`raw_op`) and on typed ones.
pub data AnyOp (K V : Type 0) : Type 0 where
  raw_op : BatchOp K → AnyOp K V
  set_value merge_value : K → V → AnyOp K V
  set_expiring : K → V → ℕ → AnyOp K V

module _ {E : Type 0} (g : Engine E) {K V : Type 0} (kt : KeyType E K) (c : Codec E V) where
  unfoldable pub stage_any : AnyOp K V → BatchAction g
  unfolding stage set merge set_with_expiry
  stage_any (raw_op op) = stage g kt op
  stage_any (set_value k v) = set g kt c k v
  stage_any (merge_value k v) = merge g kt c k v
  stage_any (set_expiring k v t) = set_with_expiry g kt c k v t

  -- The error belongs to the value of the operation, which cannot be serialized.
  abbrev pub Unserializable : AnyOp K V → StoreError E → Type 0
  Unserializable (raw_op op) e = ⊥
  Unserializable (set_value k v) e = serialize_value {E = E} c v ≡ err e
  Unserializable (merge_value k v) e = serialize_value {E = E} c v ≡ err e
  Unserializable (set_expiring k v t) e = serialize_value {E = E} c v ≡ err e

  module _ (w : BatchWriter g) (e : StoreError E) where
    abbrev pub Closed : Type 0
    Closed =
        (w.committed_or_discarded ≡ true)
        × (e ≡ other (text "BatchWriter already committed or discarded"))

    abbrev pub NotOpen : Type 0
    NotOpen =
        (w.cf_name ≢ default_cf)
        × (g.cf_handle w.store.db w.cf_name ≡ none)
        × (e ≡ unknown_cf w.cf_name)

    stage_at_failed :
        (plain : g.Batch → g.Batch) (at_handle : g.Handle → g.Batch → g.Batch)
        → (checked g (stage_at g plain at_handle) w).0 ≡ err e
        → ((checked g (stage_at g plain at_handle) w).1 ≡ w) × (Closed ⊎ NotOpen)
    unfolding stage_at checked check_not_committed get_cf_handle
    stage_at_failed plain at_handle h = elim (Bool-cases w.committed_or_discarded) [
      | inl closed ↦ (ground arith, inl (closed, ground arith))
      | inr opened ↦ elim (Option-cases (g.cf_handle w.store.db w.cf_name)) [
        | inl q ↦ (
          ground arith,
          inr ((λ p. ground (arith, str_eq_iff w.cf_name default_cf)), q, ground arith),
        )
        | inr (hd, q) ↦ absurd (ground arith)
      ]
    ]

    raw_failed :
        (op : BatchOp K)
        → (stage g kt op w).0 ≡ err e
        → ((stage g kt op w).1 ≡ w) × (Closed ⊎ NotOpen)
    unfolding stage set_raw merge_raw delete delete_range
    raw_failed (set_op k v) h =
        let b = kt.as_bytes k in stage_at_failed (g.batch_put b v) (λ h. g.batch_put_cf h b v) h
    raw_failed (merge_op k v) h =
        let b = kt.as_bytes k in stage_at_failed (g.batch_merge b v) (λ h. g.batch_merge_cf h b v) h
    raw_failed (delete_op k) h =
        let b = kt.as_bytes k in stage_at_failed (g.batch_delete b) (λ h. g.batch_delete_cf h b) h
    raw_failed (delete_range_op lo hi) h =
        let a = kt.as_bytes lo in
        let b = kt.as_bytes hi in
        stage_at_failed (g.batch_delete_range a b) (λ h. g.batch_delete_range_cf h a b) h

    abbrev pub Refused : AnyOp K V → Type 0
    Refused op = Closed ⊎ (Unserializable op e ⊎ NotOpen)

    abbrev Fails : AnyOp K V → Type 0
    Fails op = ((stage_any op w).1 ≡ w) × Refused op

    widen :
        (op : AnyOp K V) (act : BatchAction g)
        → stage_any op w ≡ act w
        → ((act w).1 ≡ w) × (Closed ⊎ NotOpen)
        → Fails op
    widen op act q (same, inl closed) = (rw q same, inl closed)
    widen op act q (same, inr missing) = (rw q same, inr (inr missing))

    value_refused :
        (op : AnyOp K V) (r : StoreError E)
        → (stage_any op w ≡ checked g (λ w'. (err r, w')) w)
        → (r ≡ e → Unserializable op e)
        → (stage_any op w).0 ≡ err e
        → Fails op
    unfolding checked check_not_committed
    value_refused op r q u h = elim (Bool-cases w.committed_or_discarded) [
      | inl closed ↦ (ground arith, inl (closed, ground arith))
      | inr opened ↦ (ground arith, inr (inl (u (ground arith))))
    ]

    as_raw :
        (op : AnyOp K V) (raw : BatchOp K)
        → stage_any op w ≡ stage g kt raw w
        → (stage_any op w).0 ≡ err e
        → Fails op
    as_raw op raw q h = widen op (stage g kt raw) q (raw_failed raw (rw q at h))

    -- Staging an operation, on a raw or on a typed value, fails only because the writer was committed
    -- or discarded, because the value cannot be serialized, or because the writer's column family is
    -- neither the default one nor open, each with its error; it leaves the writer as it was, with the
    -- batch staged so far.
    pub stage_failed :
        (op : AnyOp K V) → (stage_any op w).0 ≡ err e → ((stage_any op w).1 ≡ w) × Refused op
    stage_failed (raw_op op) h = as_raw (raw_op op) op (unfold stage_any in refl) h
    stage_failed (set_value k v) h = elim (Result-cases (c.serialize v)) [
      | inl (b, q) ↦
          let (same, _, _) = typed_staging g kt c k v 0 b q in
          as_raw (set_value k v) (set_op k b) (unfold stage_any stage in ap (λ a. a w) same) h
      | inr (m, q) ↦
          value_refused (set_value k v) (serialization m)
            (unfold stage_any set serialize_key serialize_value in (rw q refl))
            (λ p. unfold serialize_value in (rw q (ap err p))) h
    ]
    stage_failed (merge_value k v) h = elim (Result-cases (c.serialize v)) [
      | inl (b, q) ↦
          let (_, same, _) = typed_staging g kt c k v 0 b q in
          as_raw (merge_value k v) (merge_op k b) (unfold stage_any stage in ap (λ a. a w) same) h
      | inr (m, q) ↦
          value_refused (merge_value k v) (serialization m)
            (unfold stage_any merge serialize_key serialize_value in (rw q refl))
            (λ p. unfold serialize_value in (rw q (ap err p))) h
    ]
    stage_failed (set_expiring k v t) h = elim (Result-cases (c.serialize v)) [
      | inl (b, q) ↦
          let (_, _, same) = typed_staging g kt c k v t b q in
          let stored = serialize_for_storage (record { expire_time = t; raw_value = b }) in
          as_raw (set_expiring k v t) (set_op k stored)
            (unfold stage_any stage in ap (λ a. a w) same) h
      | inr (m, q) ↦
          value_refused (set_expiring k v t) (serialization m)
            (unfold stage_any set_with_expiry serialize_key from_value serialize_value in
              (rw q refl))
            (λ p. unfold serialize_value in (rw q (ap err p))) h
    ]
