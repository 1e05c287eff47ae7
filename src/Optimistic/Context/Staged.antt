-- ===== src/Optimistic/Context/Staged.antt =====
-- What the transaction's part of a write of an `OptimisticTransactionContext`
-- (src/tx/optimistic_context.rs) stages, and that staging it keeps `IsPending`.
use rocksolid.Base.{◌≡◌, refl, arith, Option, none, some, Bytes, String, false}
use rocksolid.Base.Outcome.{Result, ok, err, on_ok}
use rocksolid.Base.Action.{Action, lift, ◌>>=◌}
use rocksolid.Errors.{StoreError, StoreResult}
use rocksolid.Serialization.{Codec, KeyType}
use rocksolid.Engine.{default_cf}
use rocksolid.Engine.Laws.{Content, assign}
use rocksolid.Txn.{TxnEngine, Running, TxnAction, call_txn, get_cf_handle}
use rocksolid.Txn.Laws.{IsTransactional}
use rocksolid.Txn.Own.{Stages, CallDoes, handle_name}
use rocksolid.Optimistic.Context.{
  OptimisticTransactionContext, check_completed, staged, with_handle,
}
use rocksolid.Optimistic.Context.Steps.{put_bytes, merge_bytes, given, IsPending}

module _ {E : Type 0} {g : TxnEngine E} (law : IsTransactional g) {K V : Type 0} (kt : KeyType E K)
    (c : Codec E V) where
  pub given-Stages :
      {A : Type 0} (r : StoreResult E A) (call : A → Action (g.Tx × g.Db) E (Unit {0}))
      (change : A → Content → Content)
      → ((a : A) → CallDoes law (call a) (change a))
      → (w : Running g)
      → Stages law (lift r >>= λ a. call_txn g (call a)) (given law kt c r change) w
  unfolding call_txn
  given-Stages (ok a) call change does w = ground (arith, does a (w.txn, w.store.db))
  given-Stages (err e) call change does w = (refl, refl)

  pub with_handle-Stages :
      (n : String) (act : g.Handle → TxnAction g) (change : String → Content → Content)
      → ((h : g.Handle) (w : Running g) → Stages law (act h) (change (law.name h)) w)
      → (w : Running g) → Stages law (with_handle g n act) (change n) w
  unfolding with_handle
  with_handle-Stages n act change does w = go (get_cf_handle g w.store n) refl
    where
      go :
          (r : Result (StoreError E) g.Handle)
          → get_cf_handle g w.store n ≡ r
          → Stages law (with_handle g n act) (change n) w
      go (ok h) q = ground (arith, handle_name law w.store n h q, does h w)
      go (err e) q = ground arith

  pub staged-IsPending :
      (act : TxnAction g) (change : Content → Content) {before seen : Content}
      (ctx : OptimisticTransactionContext g)
      → Stages law act change ctx.running
      → IsPending law kt c before seen ctx
      → IsPending law kt c before
          (on_ok (staged g act ctx).0 (change seen) seen)
          (staged g act ctx).1
  unfolding staged check_completed
  staged-IsPending act change {before} {seen} ctx s h =
      let (o, t, k, v) : (ctx.completed ≡ false)
          × (ctx.taken ≡ false)
          × (law.content ctx.running.store.db ≡ before)
          × (law.view (ctx.running.txn, ctx.running.store.db) ≡ seen) =
        (h.open_still, h.held, h.kept, h.sees) in
      record {
        open_still = ground arith;
        held = ground arith;
        kept = ground arith;
        sees = ground arith;
      }

  pub puts : (b v : Bytes) → CallDoes law (g.put b v) (assign default_cf b (some v))
  puts b v t = (law.put_view b v t, law.put_content b v t)

  puts_cf :
      (h : g.Handle) (b v : Bytes) → CallDoes law (g.put_cf h b v) (assign (law.name h) b (some v))
  puts_cf h b v t = (law.put_cf_view h b v t, law.put_cf_content h b v t)

  merges :
      (b v : Bytes)
      → CallDoes law (g.merge b v) (λ x. assign default_cf b (law.merged x default_cf b v) x)
  merges b v t = (law.merge_view b v t, law.merge_content b v t)

  merges_cf :
      (h : g.Handle) (b v : Bytes)
      → CallDoes law
          (g.merge_cf h b v)
          (λ x. assign (law.name h) b (law.merged x (law.name h) b v) x)
  merges_cf h b v t = (law.merge_cf_view h b v t, law.merge_cf_content h b v t)

  -- The transaction's part of each write stages the change of the write.
  pub within-Stages_value :
      (t : Option String) (k : K) (r : StoreResult E Bytes) (w : Running g)
      → Stages law
          (elim t [
            | none ↦ lift r >>= λ b. call_txn g (g.put (kt.as_bytes k) b)
            | some n ↦
                with_handle g n λ h. (lift r >>= λ b. call_txn g (g.put_cf h (kt.as_bytes k) b))
          ])
          (given law kt c r (put_bytes law kt c t k))
          w
  within-Stages_value none k r w =
      given-Stages r (g.put (kt.as_bytes k)) (put_bytes law kt c none k) (puts (kt.as_bytes k)) w
  within-Stages_value (some n) k r w =
      with_handle-Stages n (λ h. lift r >>= λ b. call_txn g (g.put_cf h (kt.as_bytes k) b))
        (λ m. given law kt c r λ b. assign m (kt.as_bytes k) (some b))
        (λ h.
          given-Stages r (g.put_cf h (kt.as_bytes k))
            (λ b. assign (law.name h) (kt.as_bytes k) (some b)) (puts_cf h (kt.as_bytes k)))
        w

  pub within-Stages_merge :
      (t : Option String) (k : K) (r : StoreResult E Bytes) (w : Running g)
      → Stages law
          (elim t [
            | none ↦ lift r >>= λ b. call_txn g (g.merge (kt.as_bytes k) b)
            | some n ↦
                with_handle g n λ h. (lift r >>= λ b. call_txn g (g.merge_cf h (kt.as_bytes k) b))
          ])
          (given law kt c r (merge_bytes law kt c t k))
          w
  within-Stages_merge none k r w =
      given-Stages r (g.merge (kt.as_bytes k)) (merge_bytes law kt c none k)
        (merges (kt.as_bytes k)) w
  within-Stages_merge (some n) k r w =
      with_handle-Stages n (λ h. lift r >>= λ b. call_txn g (g.merge_cf h (kt.as_bytes k) b))
        (λ m. given law kt c r λ b x. assign m (kt.as_bytes k) (law.merged x m (kt.as_bytes k) b) x)
        (λ h.
          given-Stages r (g.merge_cf h (kt.as_bytes k))
            (λ b x.
              assign (law.name h) (kt.as_bytes k) (law.merged x (law.name h) (kt.as_bytes k) b) x)
            (merges_cf h (kt.as_bytes k)))
        w
