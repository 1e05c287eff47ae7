-- ===== src/Batch/Commit.antt =====
-- What `commit` of a `BatchWriter` makes of the staged operations: all of them, in order, or none.
use rocksolid.Base.{◌≡◌, refl, arith, inl, inr, List, [], ◌∷◌, String, false}
use rocksolid.Base.Outcome.{ok, on_ok, Result-cases}
use rocksolid.Base.Action.{◌>>◌}
use rocksolid.Serialization.{KeyType}
use rocksolid.Engine.{Engine}
use rocksolid.Engine.Laws.{Content, IsKeyValue}
use rocksolid.CfStore.{CfStore, StoreAction}
use rocksolid.CfStore.Write
use rocksolid.CfStore.Writes.{Does, raw_writes-Does}
use rocksolid.Batch.{
  BatchWriter, new, commit, commit_body, checked, check_not_committed, discard, drop,
}
use rocksolid.Batch.Staging.{
  BatchOp, set_op, merge_op, delete_op, delete_range_op, stage, stage_all, apply_op, apply_all,
  stage-Stages,
}

-- The same operations on the store, each written at once.
module _ {E : Type 0} (g : Engine E) {K : Type 0} (kt : KeyType E K) (n : String) where
  unfoldable pub write_op : BatchOp K → StoreAction g
  unfolding Write.put_raw Write.merge_raw Write.delete Write.delete_range
  write_op (set_op k v) = Write.put_raw g kt n k v
  write_op (merge_op k v) = Write.merge_raw g kt n k v
  write_op (delete_op k) = Write.delete g kt n k
  write_op (delete_range_op lo hi) = Write.delete_range g kt n lo hi

  unfoldable pub write_all : List (BatchOp K) → StoreAction g
  unfolding write_op
  write_all [] = λ st. (ok tt, st)
  write_all (op ∷ ops) = write_op op >> write_all ops

module _ {E : Type 0} {g : Engine E} (law : IsKeyValue g) {K : Type 0} (kt : KeyType E K) where
  staged :
      (ops : List (BatchOp K)) (w : BatchWriter g)
      → (stage_all g kt ops w).0 ≡ ok tt
      → ((stage_all g kt ops w).1.store ≡ w.store)
        × ((stage_all g kt ops w).1.committed_or_discarded ≡ w.committed_or_discarded)
        × ((c : Content)
            → law.effect (stage_all g kt ops w).1.batch c
              ≡ apply_all law kt w.cf_name ops (law.effect w.batch c))
  unfolding stage_all apply_all
  staged [] w h = (refl, refl, λ c. refl)
  staged (op ∷ ops) w h =
      let w' = (stage g kt op w).1 in
      let s = stage-Stages law kt op w in
      elim (Result-cases (stage g kt op w).0) [
        | inr (e, q) ↦ absurd (ground arith)
        | inl (u, q) ↦
            let (a, b, f) = staged ops w' (ground arith) in
            (ground arith, ground arith, λ c. ground (arith, f c, s.3 c))
      ]

  commit-Does :
      (w : BatchWriter g)
      → law.content (commit g w).1.db
        ≡ on_ok
            (commit g w).0
            (law.effect w.batch (law.content w.store.db))
            (law.content w.store.db)
  unfolding commit commit_body checked check_not_committed
  commit-Does w = ground (arith, law.write_content w.batch w.store.db)

  write_op-Does :
      (n : String) (op : BatchOp K) (st : CfStore g)
      → Does law (write_op g kt n op) (apply_op law kt n op) st
  unfolding write_op apply_op
  write_op-Does n (set_op k v) st = (raw_writes-Does law kt n k k v st).0
  write_op-Does n (merge_op k v) st = (raw_writes-Does law kt n k k v st).2
  write_op-Does n (delete_op k) st = (raw_writes-Does law kt n k k [] st).1
  write_op-Does n (delete_range_op lo hi) st = (raw_writes-Does law kt n lo hi [] st).3

  written :
      (n : String) (ops : List (BatchOp K)) (st : CfStore g)
      → (write_all g kt n ops st).0 ≡ ok tt
      → law.content (write_all g kt n ops st).1.db ≡ apply_all law kt n ops (law.content st.db)
  unfolding write_all apply_all
  written n [] st h = refl
  written n (op ∷ ops) st h =
      let st' = (write_op g kt n op st).1 in
      let d = write_op-Does n op st in
      elim (Result-cases (write_op g kt n op st).0) [
        | inr (e, q) ↦ absurd (ground arith)
        | inl (u, q) ↦ ground (arith, written n ops st', d)
      ]

  -- When all operations of a chain were staged on a new writer, its `commit` changes the store by all
  -- of them in order, in the writer's column family, where it succeeds, and by none of them where it
  -- fails.
  pub commit-stage_all :
      (st : CfStore g) (n : String) (ops : List (BatchOp K))
      → (stage_all g kt ops (new g st n)).0 ≡ ok tt
      → law.content (commit g (stage_all g kt ops (new g st n)).1).1.db
        ≡ on_ok
            (commit g (stage_all g kt ops (new g st n)).1).0
            (apply_all law kt n ops (law.content st.db))
            (law.content st.db)
  unfolding new
  commit-stage_all st n ops h =
      let w = (stage_all g kt ops (new g st n)).1 in
      let (a, b, f) = staged ops (new g st n) h in
      ground (arith, commit-Does w, f (law.content st.db), law.effect_empty (law.content st.db))

  -- A batch that was staged and committed without an error leaves what its operations leave when the
  -- store writes them one by one without an error.
  pub commit-write_all :
      (st : CfStore g) (n : String) (ops : List (BatchOp K))
      → (stage_all g kt ops (new g st n)).0 ≡ ok tt
      → (commit g (stage_all g kt ops (new g st n)).1).0 ≡ ok tt
      → (write_all g kt n ops st).0 ≡ ok tt
      → law.content (commit g (stage_all g kt ops (new g st n)).1).1.db
        ≡ law.content (write_all g kt n ops st).1.db
  commit-write_all st n ops hs hc hw =
      ground (arith, commit-stage_all st n ops hs, written n ops st hw)

module _ {E : Type 0} (g : Engine E) (w : BatchWriter g) where
  -- An open writer that is consumed by `commit` logs its one warning, of operations that were not
  -- applied, when the write failed; it logs none when it succeeded, and none on `discard`, which
  -- leaves the store as it is.
  pub consumed :
      w.committed_or_discarded ≡ false
      → ((commit g w).2 ≡ on_ok (commit g w).0 [] ((w.store.path, w.cf_name) ∷ []))
        × (discard g w ≡ (w.store, []))
  unfolding commit commit_body checked check_not_committed discard drop
  consumed h = (ground arith, ground arith)
