-- ===== src/Txn/Iterate/Tests.antt =====
-- The theorem on the iteration of a context at concrete data.
use rocksolid.Base.{ℕ, suc, ◌≡◌, none, some, List, [], ◌∷◌, Bytes, false, true, ltb, if◌then◌else◌}
use rocksolid.Base.Outcome.{ok, map_err, ◌>>=◌}
use rocksolid.Errors.{display}
use rocksolid.Serialization.{Codec, KeyType}
use rocksolid.Engine.{Item, Direction, IteratorMode}
use rocksolid.Iter.{ControlFn, keep, stop}
use rocksolid.Iter.Helpers.{enforce}
use rocksolid.Iter.Collect.{gather}
use rocksolid.CfStore.Find.{is_reverse}
use rocksolid.CfStore.Scans.{towards}
use rocksolid.Txn.{TxnEngine}
use rocksolid.Txn.Memory.{copying, empty_tables}
use rocksolid.Txn.Context.{TransactionContext, check_completed}
use rocksolid.Txn.Iterate.{
  find_by_prefix, find_from, find_from_with_expire_val, general_factory, prefix_factory, kv_fn,
  expiry_fn, context_finds-gather,
}

abbrev plain_keys : KeyType ℕ Bytes
plain_keys = record { as_bytes = λ k. k; decode = λ b. ok b }

abbrev plain_codec : Codec ℕ Bytes
plain_codec = record { serialize = λ v. ok v; deserialize = λ b. ok b }

abbrev a_key : Bytes
a_key = 1 ∷ []

-- The engine in memory with the same two items in each of its iterators.
abbrev two_items : List (Item ℕ)
two_items = ok (1 ∷ [], 10 ∷ []) ∷ ok (2 ∷ [], 20 ∷ []) ∷ []

abbrev listing : TxnEngine ℕ
listing = record copying {
  iterator_opt = λ t m. two_items;
  iterator_cf_opt = λ t h m. two_items;
  prefix_iterator = λ t p. two_items;
  prefix_iterator_cf = λ t h p. two_items;
}

abbrev iterating : TransactionContext listing
iterating = record {
  running = record {
    store = record { db = empty_tables; cf_names = "default" ∷ "logs" ∷ []; path = "/tmp/txn" };
    txn = λ n k. none;
  };
  completed = false;
  moved = false;
}

-- Keeps one item, and counts its calls.
abbrev first_only : ControlFn ℕ
first_only k v n s = (if ltb n 1 then keep else stop, suc s)

context_finds-gather_example :
    (find_by_prefix listing plain_keys plain_codec iterating "logs" a_key Direction.forward
      ≡ some (
          check_completed listing iterating >>= λ _.
          prefix_factory listing iterating.running "logs" a_key >>= λ items.
          (gather (some (enforce a_key)) (kv_fn listing plain_keys plain_codec) items 0 tt).0))
    × (find_from listing plain_keys plain_codec iterating "logs" a_key Direction.forward first_only
          0
        ≡ some (
            check_completed listing iterating >>= λ _.
            general_factory listing iterating.running "logs"
              (IteratorMode.from a_key (towards (is_reverse Direction.forward)))
            >>= λ items.
                (gather (some first_only) (kv_fn listing plain_keys plain_codec) items 0 0).0))
    × (find_from_with_expire_val listing plain_keys iterating "logs" a_key true first_only 0
        ≡ some (
            map_err display (
              check_completed listing iterating >>= λ _.
              general_factory listing iterating.running "logs"
                (IteratorMode.from a_key (towards true))
              >>= λ items. (gather (some first_only) (expiry_fn listing plain_keys) items 0 0).0)))
context_finds-gather_example =
    context_finds-gather listing plain_keys iterating "logs" a_key plain_codec Direction.forward
      true first_only 0
