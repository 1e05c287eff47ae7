-- ===== src/Batch/Staging.antt =====
-- What staging an operation on a `BatchWriter` changes: its batch, and only where it succeeds.
use rocksolid.Base.{
  ℕ, ◌≡◌, arith, Bool-cases, Option-cases, inl, inr, none, some, List, [], ◌∷◌, Bytes, String,
  str_eq, str_eq_iff,
}
use rocksolid.Base.Outcome.{ok, on_ok}
use rocksolid.Base.Action.{◌>>◌}
use rocksolid.Serialization.{Codec, KeyType}
use rocksolid.Expiry.{from_value, serialize_for_storage}
use rocksolid.Engine.{Engine, default_cf}
use rocksolid.Engine.Laws.{Content, IsKeyValue, assign, clear_range}
use rocksolid.CfStore.{get_cf_handle}
use rocksolid.Batch.{
  BatchWriter, BatchAction, stage_at, checked, check_not_committed, set, set_raw, set_with_expiry,
  merge, merge_raw, delete, delete_range,
}

-- The operations that a writer stages, on keys and raw values.
pub data BatchOp (K : Type 0) : Type 0 where
  set_op merge_op : K → Bytes → BatchOp K
  delete_op : K → BatchOp K
  delete_range_op : K → K → BatchOp K

module _ {E : Type 0} (g : Engine E) {K : Type 0} (kt : KeyType E K) where
  unfoldable pub stage : BatchOp K → BatchAction g
  unfolding set_raw merge_raw delete delete_range
  stage (set_op k v) = set_raw g kt k v
  stage (merge_op k v) = merge_raw g kt k v
  stage (delete_op k) = delete g kt k
  stage (delete_range_op lo hi) = delete_range g kt lo hi

  -- Operations chained by `?`: the first error ends the chain.
  unfoldable pub stage_all : List (BatchOp K) → BatchAction g
  unfolding stage
  stage_all [] = λ w. (ok tt, w)
  stage_all (op ∷ ops) = stage op >> stage_all ops

  module _ {V : Type 0} (c : Codec E V) (k : K) (x : V) where
    -- The typed operations stage what the raw ones stage for the serialized value.
    pub typed_staging :
        (t : ℕ) (b : Bytes)
        → c.serialize x ≡ ok b
        → (set g kt c k x ≡ set_raw g kt k b)
          × (merge g kt c k x ≡ merge_raw g kt k b)
          × (set_with_expiry g kt c k x t
              ≡ set_raw g kt k (serialize_for_storage (record { expire_time = t; raw_value = b })))
    unfolding set merge set_with_expiry set_raw merge_raw from_value
    typed_staging t b e = (rw e, rw e, rw e)

module _ {E : Type 0} {g : Engine E} (law : IsKeyValue g) where
  -- What an operation does to the content of the family `n`.
  unfoldable pub apply_op : {K : Type 0} → KeyType E K → String → BatchOp K → Content → Content
  apply_op kt n (set_op k v) c = assign n (kt.as_bytes k) (some v) c
  apply_op kt n (merge_op k v) c = assign n (kt.as_bytes k) (law.merged c n (kt.as_bytes k) v) c
  apply_op kt n (delete_op k) c = assign n (kt.as_bytes k) none c
  apply_op kt n (delete_range_op lo hi) c = clear_range n (kt.as_bytes lo) (kt.as_bytes hi) c

  unfoldable pub apply_all :
      {K : Type 0} → KeyType E K → String → List (BatchOp K) → Content → Content
  unfolding apply_op
  apply_all kt n [] c = c
  apply_all kt n (op ∷ ops) c = apply_all kt n ops (apply_op kt n op c)

  abbrev BatchDoes : (g.Batch → g.Batch) → (Content → Content) → Type 0
  BatchDoes f change = (b : g.Batch) (c : Content) → law.effect (f b) c ≡ change (law.effect b c)

  -- What a staged operation has done to its writer.
  abbrev pub Stages : BatchAction g → (Content → Content) → BatchWriter g → Type 0
  Stages act change w =
      ((act w).1.store ≡ w.store)
      × ((act w).1.cf_name ≡ w.cf_name)
      × ((act w).1.committed_or_discarded ≡ w.committed_or_discarded)
      × ((c : Content)
          → law.effect (act w).1.batch c
            ≡ on_ok (act w).0 (change (law.effect w.batch c)) (law.effect w.batch c))

  stage_at-Stages :
      (plain : g.Batch → g.Batch) (at_handle : g.Handle → g.Batch → g.Batch)
      (change : String → Content → Content)
      → BatchDoes plain (change default_cf)
      → ((h : g.Handle) → BatchDoes (at_handle h) (change (law.name h)))
      → (w : BatchWriter g) → Stages (checked g (stage_at g plain at_handle)) (change w.cf_name) w
  unfolding stage_at checked check_not_committed get_cf_handle
  stage_at-Stages plain at_handle change dp dh w = elim (Bool-cases w.committed_or_discarded) [
    | inl closed ↦ ground arith
    | inr opened ↦ elim (Bool-cases (str_eq w.cf_name default_cf)) [
      | inl e ↦ ground (arith, str_eq_iff w.cf_name default_cf, dp w.batch)
      | inr e ↦ elim (Option-cases (g.cf_handle w.store.db w.cf_name)) [
        | inl q ↦ ground arith
        | inr (h, q) ↦ ground (arith, law.cf_handle_name w.store.db w.cf_name h, dh h w.batch)
      ]
    ]
  ]

  pub stage-Stages :
      {K : Type 0} (kt : KeyType E K) (op : BatchOp K) (w : BatchWriter g)
      → Stages (stage g kt op) (apply_op kt w.cf_name op) w
  unfolding stage apply_op set_raw merge_raw delete delete_range
  stage-Stages kt (set_op k v) w =
      let b = kt.as_bytes k in
      stage_at-Stages (g.batch_put b v) (λ h. g.batch_put_cf h b v) (λ n. assign n b (some v))
        (law.effect_put b v) (λ h. law.effect_put_cf h b v) w
  stage-Stages kt (merge_op k v) w =
      let b = kt.as_bytes k in
      stage_at-Stages (g.batch_merge b v) (λ h. g.batch_merge_cf h b v)
        (λ n c. assign n b (law.merged c n b v) c) (law.effect_merge b v)
        (λ h. law.effect_merge_cf h b v) w
  stage-Stages kt (delete_op k) w =
      let b = kt.as_bytes k in
      stage_at-Stages (g.batch_delete b) (λ h. g.batch_delete_cf h b) (λ n. assign n b none)
        (law.effect_delete b) (λ h. law.effect_delete_cf h b) w
  stage-Stages kt (delete_range_op lo hi) w =
      let a = kt.as_bytes lo in
      let b = kt.as_bytes hi in
      stage_at-Stages (g.batch_delete_range a b) (λ h. g.batch_delete_range_cf h a b)
        (λ n. clear_range n a b) (law.effect_delete_range a b)
        (λ h. law.effect_delete_range_cf h a b) w
