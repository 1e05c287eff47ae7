-- ===== src/Optimistic/Context/Iterate.antt =====
-- The iteration of `OptimisticTransactionContext` (src/tx/optimistic_context.rs). Its two factories are
-- those of the pessimistic context, line by line.
use rocksolid.Base.{◌≡◌, refl, inl, inr, Option, none, some, List, String, Bool}
use rocksolid.Base.Outcome.{Result, ◌>>=◌, map_err, Result-cases}
use rocksolid.Errors.{StoreResult, Message, text, display}
use rocksolid.Serialization.{Codec, KeyType, deserialize_kv}
use rocksolid.Expiry.{ValueWithExpiry, deserialize_kv_expiry}
use rocksolid.Engine.{IteratorMode, Direction}
use rocksolid.Iter.{ControlFn, DeserializeFn, IterConfig, new_deserializing}
use rocksolid.Iter.Helpers.{IterationResult, execute, enforce}
use rocksolid.Iter.Collect.{gather}
use rocksolid.CfStore.Find.{is_reverse, collect_result, collect_text}
use rocksolid.CfStore.Scans.{collect_result-gather, collect_text-gather, towards}
use rocksolid.Txn.{TxnEngine}
use rocksolid.Txn.Iterate.{general_factory, prefix_factory}
use rocksolid.Optimistic.Context.{OptimisticTransactionContext, check_completed}

module _ {E : Type 0} (g : TxnEngine E) where
  module _ {K : Type 0} (kt : KeyType E K) where
    unfoldable pub iterate :
        {S Out : Type 0}
        → OptimisticTransactionContext g
        → IterConfig E S K Out
        → S
        → StoreResult E (IterationResult E S Out)
    unfolding check_completed execute
    iterate ctx config s = check_completed g ctx >>= λ _.
        execute kt (general_factory g ctx.running config.cf_name)
          (prefix_factory g ctx.running config.cf_name) config s

    module _ {V : Type 0} (c : Codec E V) where
      -- The closure `|k_bytes, v_bytes| deserialize_kv(k_bytes, v_bytes)`.
      abbrev pub kv_fn : {S : Type 0} → DeserializeFn E S (K × V)
      kv_fn k v s = (deserialize_kv kt c k v, s)

      unfoldable pub find_by_prefix :
          OptimisticTransactionContext g
          → String
          → K
          → Direction
          → Option (StoreResult E (List (K × V)))
      unfolding iterate new_deserializing collect_result
      find_by_prefix ctx cf_name prefix direction =
          collect_result {S = Unit {0}} (text "find_by_prefix: Expected DeserializedItems") (
            iterate ctx
              (new_deserializing cf_name (some prefix) none (is_reverse direction) none kv_fn) tt)

      unfoldable pub find_from :
          {S : Type 0}
          → OptimisticTransactionContext g
          → String
          → K
          → Direction
          → ControlFn S
          → S
          → Option (StoreResult E (List (K × V)))
      unfolding iterate new_deserializing collect_result
      find_from ctx cf_name start_key direction control_fn s =
          collect_result (text "find_from: Expected DeserializedItems") (
            iterate ctx
              (new_deserializing cf_name none (some start_key) (is_reverse direction)
                (some control_fn) kv_fn)
              s)

    -- The closure `|k, v| deserialize_kv_expiry(k, v)`.
    abbrev pub expiry_fn : {S : Type 0} → DeserializeFn E S (K × ValueWithExpiry)
    expiry_fn k v s = (deserialize_kv_expiry kt k v, s)

    unfoldable pub find_from_with_expire_val :
        {S : Type 0}
        → OptimisticTransactionContext g
        → String
        → K
        → Bool
        → ControlFn S
        → S
        → Option (Result (Message E) (List (K × ValueWithExpiry)))
    unfolding iterate new_deserializing collect_text
    find_from_with_expire_val ctx cf_name start reverse control_fn s =
        collect_text (text "Expected DeserializedItems") (
          iterate ctx
            (new_deserializing cf_name none (some start) reverse (some control_fn) expiry_fn) s)

module _ {E : Type 0} (g : TxnEngine E) {K : Type 0} (kt : KeyType E K)
    (ctx : OptimisticTransactionContext g) (n : String) (k : K) where
  -- Each `find_*` of an optimistic context ends. A context that was completed refuses it; else it
  -- fails as its iterator over the transaction fails to be made, or returns what `gather` makes of
  -- the items of that iterator, under the prefix check for the one by prefix.
  pub optimistic_finds-gather :
      {S V : Type 0} (c : Codec E V) (d : Direction) (rev : Bool) (control : ControlFn S) (s : S)
      → (find_by_prefix g kt c ctx n k d
          ≡ some (
              check_completed g ctx >>= λ _.
              prefix_factory g ctx.running n (kt.as_bytes k) >>= λ items.
              (gather (some (enforce (kt.as_bytes k))) (kv_fn g kt c) items 0 tt).0))
        × (find_from g kt c ctx n k d control s
            ≡ some (
                check_completed g ctx >>= λ _.
                general_factory g ctx.running n
                  (IteratorMode.from (kt.as_bytes k) (towards (is_reverse d)))
                >>= λ items. (gather (some control) (kv_fn g kt c) items 0 s).0))
        × (find_from_with_expire_val g kt ctx n k rev control s
            ≡ some (
                map_err display (
                  check_completed g ctx >>= λ _.
                  general_factory g ctx.running n (IteratorMode.from (kt.as_bytes k) (towards rev))
                  >>= λ items. (gather (some control) (expiry_fn g kt) items 0 s).0)))
  unfolding find_by_prefix find_from find_from_with_expire_val iterate
  optimistic_finds-gather c d rev control s = elim (Result-cases (check_completed g ctx)) [
    | inl (u, q) ↦ rw q (
      collect_result-gather (text "find_by_prefix: Expected DeserializedItems")
          (some (enforce (kt.as_bytes k))) (kv_fn g kt c) tt
          (prefix_factory g ctx.running n (kt.as_bytes k)),
      collect_result-gather (text "find_from: Expected DeserializedItems") (some control)
          (kv_fn g kt c) s
          (general_factory g ctx.running n
            (IteratorMode.from (kt.as_bytes k) (towards (is_reverse d)))),
      collect_text-gather (text "Expected DeserializedItems") (some control) (expiry_fn g kt) s
          (general_factory g ctx.running n (IteratorMode.from (kt.as_bytes k) (towards rev))),
    )
    | inr (e, q) ↦ rw q (unfold collect_result collect_text in (refl, refl, refl))
  ]
