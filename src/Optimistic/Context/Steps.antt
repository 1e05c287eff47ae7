-- ===== src/Optimistic/Context/Steps.antt =====
-- The writes of an `OptimisticTransactionContext` (src/tx/optimistic_context.rs) one after the other:
-- what they stage, and what they leave alone until the commit.
use rocksolid.Base.{ℕ, ◌≡◌, Option, none, some, List, [], ◌∷◌, Bytes, String, false}
use rocksolid.Base.Outcome.{ok, err, on_ok}
use rocksolid.Errors.{StoreResult}
use rocksolid.Serialization.{Codec, KeyType, serialize_value}
use rocksolid.Expiry.{from_value, serialize_for_storage}
use rocksolid.Engine.{default_cf}
use rocksolid.Engine.Laws.{Content, assign}
use rocksolid.Txn.{TxnEngine}
use rocksolid.Txn.Laws.{IsTransactional}
use rocksolid.Optimistic.Context.{
  OptimisticTransactionContext, ContextAction, set, set_raw, set_with_expiry, merge, merge_raw,
  delete, put_cf, put_cf_raw, put_cf_with_expiry, merge_cf, merge_cf_raw, delete_cf,
}

-- The writes, on the default family (`none`) or on a named one.
pub data Write (K V : Type 0) : Type 0 where
  value merged_value : Option String → K → V → Write K V
  expiring : Option String → K → V → ℕ → Write K V
  bytes merged_bytes : Option String → K → Bytes → Write K V
  removed : Option String → K → Write K V

abbrev pub family : Option String → String
family none = default_cf
family (some n) = n

module _ {E : Type 0} (g : TxnEngine E) {K V : Type 0} (kt : KeyType E K) (c : Codec E V) where
  unfoldable pub perform : Write K V → ContextAction g
  unfolding set set_raw set_with_expiry merge merge_raw delete put_cf put_cf_raw put_cf_with_expiry
      merge_cf merge_cf_raw delete_cf
  perform (value none k v) = set g kt c k v
  perform (value (some n) k v) = put_cf g kt c n k v
  perform (merged_value none k v) = merge g kt c k v
  perform (merged_value (some n) k v) = merge_cf g kt c n k v
  perform (expiring none k v t) = set_with_expiry g kt c k v t
  perform (expiring (some n) k v t) = put_cf_with_expiry g kt c n k v t
  perform (bytes none k b) = set_raw g kt k b
  perform (bytes (some n) k b) = put_cf_raw g kt n k b
  perform (merged_bytes none k b) = merge_raw g kt k b
  perform (merged_bytes (some n) k b) = merge_cf_raw g kt n k b
  perform (removed none k) = delete g kt k
  perform (removed (some n) k) = delete_cf g kt n k

  -- A caller that goes on after a write that failed.
  unfoldable pub perform_all :
      List (Write K V) → OptimisticTransactionContext g → OptimisticTransactionContext g
  unfolding perform
  perform_all [] ctx = ctx
  perform_all (w ∷ ws) ctx = perform_all ws (perform w ctx).1

module _ {E : Type 0} {g : TxnEngine E} (law : IsTransactional g) {K V : Type 0} (kt : KeyType E K)
    (c : Codec E V) where
  abbrev pub put_bytes : Option String → K → Bytes → Content → Content
  put_bytes t k b = assign (family t) (kt.as_bytes k) (some b)

  abbrev pub merge_bytes : Option String → K → Bytes → Content → Content
  merge_bytes t k b x =
      assign (family t) (kt.as_bytes k) (law.merged x (family t) (kt.as_bytes k) b) x

  -- A change that depends on a value, if it can be serialized.
  abbrev pub given : {A : Type 0} → StoreResult E A → (A → Content → Content) → Content → Content
  given (ok a) change x = change a x
  given (err e) change x = x

  -- What a write makes of a map from families and keys to values.
  unfoldable pub change_of : Write K V → Content → Content
  change_of (value t k v) = given (serialize_value c v) (put_bytes t k)
  change_of (merged_value t k v) = given (serialize_value c v) (merge_bytes t k)
  change_of (expiring t k v time) =
      given (from_value c time v) λ vwe. put_bytes t k (serialize_for_storage vwe)
  change_of (bytes t k b) = put_bytes t k b
  change_of (merged_bytes t k b) = merge_bytes t k b
  change_of (removed t k) = assign (family t) (kt.as_bytes k) none

  -- Those of the writes that succeed, in their order.
  unfoldable pub changes : List (Write K V) → OptimisticTransactionContext g → Content → Content
  unfolding change_of perform
  changes [] ctx x = x
  changes (w ∷ ws) ctx x =
      let (r, ctx') = perform g kt c w ctx in changes ws ctx' (on_ok r (change_of w x) x)

  -- A context that is open, over a database that holds `before`, whose transaction sees `seen`.
  pub record IsPending (before seen : Content) (ctx : OptimisticTransactionContext g) : Type 0 where
    pub open_still : ctx.completed ≡ false
    pub held : ctx.taken ≡ false
    pub kept : law.content ctx.running.store.db ≡ before
    pub sees : law.view (ctx.running.txn, ctx.running.store.db) ≡ seen
