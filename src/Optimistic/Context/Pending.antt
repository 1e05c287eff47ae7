-- ===== src/Optimistic/Context/Pending.antt =====
-- Every write of an `OptimisticTransactionContext` (src/tx/optimistic_context.rs) keeps `IsPending`.
use rocksolid.Base.{
  ℕ, ◌≡◌, arith, inl, inr, Option, none, some, List, [], ◌∷◌, Bytes, String, false,
}
use rocksolid.Base.Outcome.{ok, err, on_ok, Result-cases}
use rocksolid.Base.Action.{lift, ◌>>=◌}
use rocksolid.Serialization.{Codec, KeyType, serialize_key, serialize_value}
use rocksolid.Expiry.{from_value, serialize_for_storage}
use rocksolid.Engine.{default_cf}
use rocksolid.Engine.Laws.{Content, assign}
use rocksolid.Txn.{TxnEngine, call_txn}
use rocksolid.Txn.Laws.{IsTransactional}
use rocksolid.Optimistic.Context.{
  OptimisticTransactionContext, check_completed, set, set_raw, set_with_expiry, merge, merge_raw,
  delete, put_cf, put_cf_raw, put_cf_with_expiry, merge_cf, merge_cf_raw, delete_cf,
}
use rocksolid.Optimistic.Context.Steps.{
  Write, value, merged_value, expiring, bytes, merged_bytes, removed, perform, perform_all,
  put_bytes, change_of, changes, IsPending,
}
use rocksolid.Optimistic.Context.Staged.{
  given-Stages, with_handle-Stages, staged-IsPending, within-Stages_value, within-Stages_merge,
  puts,
}

module _ {E : Type 0} {g : TxnEngine E} (law : IsTransactional g) {K V : Type 0} (kt : KeyType E K)
    (c : Codec E V) where
  -- `put_cf_with_expiry` of an open context is `put_cf_raw` of the bytes stored.
  put_cf_with_expiry-put_cf_raw :
      (n : String) (k : K) (v : V) (time : ℕ) (ctx : OptimisticTransactionContext g)
      → ctx.completed ≡ false
      → put_cf_with_expiry g kt c n k v time ctx ≡ elim (from_value c time v) [
        | ok vwe ↦ put_cf_raw g kt n k (serialize_for_storage vwe) ctx
        | err e ↦ (err e, ctx)
      ]
  unfolding put_cf_with_expiry check_completed
  put_cf_with_expiry-put_cf_raw n k v time ctx o = elim (Result-cases (from_value c time v)) [
    | inl (vwe, q) ↦ rw q (ground arith)
    | inr (e, q) ↦ rw q (ground arith)
  ]

  bytes-IsPending :
      (t : Option String) (k : K) (b : Bytes) {before seen : Content}
      (ctx : OptimisticTransactionContext g)
      → IsPending law kt c before seen ctx
      → IsPending law kt c before
          (on_ok (perform g kt c (bytes t k b) ctx).0 (put_bytes law kt c t k b seen) seen)
          (perform g kt c (bytes t k b) ctx).1
  unfolding perform set_raw put_cf_raw serialize_key
  bytes-IsPending none k b ctx =
      staged-IsPending law kt c _ (put_bytes law kt c none k b) ctx
        (within-Stages_value law kt c none k (ok b) ctx.running)
  bytes-IsPending (some n) k b ctx =
      staged-IsPending law kt c _ (put_bytes law kt c (some n) k b) ctx
        (within-Stages_value law kt c (some n) k (ok b) ctx.running)

  expiring-IsPending :
      (t : Option String) (k : K) (v : V) (time : ℕ) {before seen : Content}
      (ctx : OptimisticTransactionContext g)
      → IsPending law kt c before seen ctx
      → IsPending law kt c before
          (on_ok
            (perform g kt c (expiring t k v time) ctx).0
            (change_of law kt c (expiring t k v time) seen)
            seen)
          (perform g kt c (expiring t k v time) ctx).1
  unfolding perform change_of set_with_expiry serialize_key
  expiring-IsPending none k v time ctx h =
      staged-IsPending law kt c _ (change_of law kt c (expiring none k v time)) ctx
        (given-Stages law kt c (from_value c time v)
          (λ vwe. g.put (kt.as_bytes k) (serialize_for_storage vwe))
          (λ vwe. put_bytes law kt c none k (serialize_for_storage vwe))
          (λ vwe. puts law kt c (kt.as_bytes k) (serialize_for_storage vwe)) ctx.running)
        h
  expiring-IsPending (some n) k v time ctx h =
      let same = put_cf_with_expiry-put_cf_raw n k v time ctx h.open_still in
      elim (Result-cases (from_value c time v)) [
        | inl (vwe, q) ↦
            rw same (rw q (bytes-IsPending (some n) k (serialize_for_storage vwe) ctx h))
        | inr (e, q) ↦ rw same (rw q h)
      ]

  perform-IsPending :
      (x : Write K V) {before seen : Content} (ctx : OptimisticTransactionContext g)
      → IsPending law kt c before seen ctx
      → IsPending law kt c before
          (on_ok (perform g kt c x ctx).0 (change_of law kt c x seen) seen)
          (perform g kt c x ctx).1
  unfolding perform change_of set set_raw merge merge_raw delete put_cf put_cf_raw merge_cf
      merge_cf_raw delete_cf serialize_key
  perform-IsPending (value none k v) ctx =
      staged-IsPending law kt c _ (change_of law kt c (value none k v)) ctx
        (within-Stages_value law kt c none k (serialize_value c v) ctx.running)
  perform-IsPending (value (some n) k v) ctx =
      staged-IsPending law kt c _ (change_of law kt c (value (some n) k v)) ctx
        (within-Stages_value law kt c (some n) k (serialize_value c v) ctx.running)
  perform-IsPending (merged_value none k v) ctx =
      staged-IsPending law kt c _ (change_of law kt c (merged_value none k v)) ctx
        (within-Stages_merge law kt c none k (serialize_value c v) ctx.running)
  perform-IsPending (merged_value (some n) k v) ctx =
      staged-IsPending law kt c _ (change_of law kt c (merged_value (some n) k v)) ctx
        (within-Stages_merge law kt c (some n) k (serialize_value c v) ctx.running)
  perform-IsPending (expiring t k v time) ctx = expiring-IsPending t k v time ctx
  perform-IsPending (bytes t k b) ctx = bytes-IsPending t k b ctx
  perform-IsPending (merged_bytes none k b) ctx =
      staged-IsPending law kt c _ (change_of law kt c (merged_bytes none k b)) ctx
        (within-Stages_merge law kt c none k (ok b) ctx.running)
  perform-IsPending (merged_bytes (some n) k b) ctx =
      staged-IsPending law kt c _ (change_of law kt c (merged_bytes (some n) k b)) ctx
        (within-Stages_merge law kt c (some n) k (ok b) ctx.running)
  perform-IsPending (removed none k) ctx =
      staged-IsPending law kt c _ (change_of law kt c (removed none k)) ctx (
        given-Stages law kt c (serialize_key kt k) g.delete (λ b. assign default_cf b none)
          (λ b t. (law.delete_view b t, law.delete_content b t)) ctx.running)
  perform-IsPending (removed (some n) k) ctx =
      staged-IsPending law kt c _ (change_of law kt c (removed (some n) k)) ctx (
        with_handle-Stages law kt c n
          (λ h. lift (serialize_key kt k) >>= λ b. call_txn g (g.delete_cf h b))
          (λ m. assign m (kt.as_bytes k) none)
          (λ h.
            given-Stages law kt c (serialize_key kt k) (g.delete_cf h)
              (λ b. assign (law.name h) b none)
              (λ b t. (law.delete_cf_view h b t, law.delete_cf_content h b t)))
          ctx.running)

  -- While writes of any kind are staged on an open context, some of which may fail, the context stays
  -- open with its transaction, its database keeps its content, and its transaction sees the changes
  -- of the writes that succeeded.
  pub perform_all-IsPending :
      (ws : List (Write K V)) {before seen : Content} (ctx : OptimisticTransactionContext g)
      → IsPending law kt c before seen ctx
      → IsPending law kt c before (changes law kt c ws ctx seen) (perform_all g kt c ws ctx)
  unfolding perform_all changes
  perform_all-IsPending [] ctx h = h
  perform_all-IsPending (w ∷ ws) ctx h =
      perform_all-IsPending ws (perform g kt c w ctx).1 (perform-IsPending w ctx h)
