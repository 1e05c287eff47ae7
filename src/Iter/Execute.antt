-- ===== src/Iter/Execute.antt =====
-- The three modes of `IterationHelper::execute` (src/iter/helpers.rs) are one iteration: what differs is
-- what the caller is handed.
use rocksolid.Base.{suc, Option, none, some, List, Bytes, Bool, length}
use rocksolid.Base.Outcome.{ok, err, ◌>>=◌}
use rocksolid.Errors.{StoreResult}
use rocksolid.Serialization.{KeyType}
use rocksolid.Engine.{Item, IteratorMode}
use rocksolid.Iter.{ControlFn, DeserializeFn, next, next_raw, raw}
use rocksolid.Iter.Helpers.{
  IterationResult, effect_completed, raw_items, deserialized_items, effective_control,
  serialize_option, base_iterator,
}
use rocksolid.Iter.Collect.{collect, gather}

module _ {E S : Type 0} where
  -- The items of a collection together with the captured state, or its error.
  abbrev pub paired : {A : Type 0} → StoreResult E (List A) × S → StoreResult E (List A × S)
  paired (ok xs, s) = ok (xs, s)
  paired (err e, s) = err e

  abbrev pub collected :
      {A : Type 0} → Option (StoreResult E (List A) × S) → Option (StoreResult E (List A × S))
  collected none = none
  collected (some r) = some (paired r)

module _ {E S K : Type 0} (kt : KeyType E K)
    (general_factory : IteratorMode → StoreResult E (List (Item E)))
    (prefix_factory : Bytes → StoreResult E (List (Item E))) where
  -- The items that the iteration of a configuration kept and the captured state: the prefix and the
  -- start key are serialized, the raw iterator is made, and its items are gathered under the
  -- control function with the prefix check in front.
  abbrev pub iteration :
      {A : Type 0}
      → Option K
      → Option K
      → Bool
      → Option (ControlFn S)
      → DeserializeFn E S A
      → S
      → StoreResult E (List A × S)
  iteration prefix start reverse control f s = serialize_option kt prefix >>= λ p.
      serialize_option kt start >>= λ b.
      base_iterator general_factory prefix_factory p b reverse >>= λ items.
      paired (gather (effective_control p control) f items 0 s)

module _ {E S Out : Type 0} where
  -- What the caller obtains by collecting the raw iterator that `execute` hands out; `none` is a
  -- result of another variant, or a collection that does not end.
  abbrev pub raw_run :
      StoreResult E (IterationResult E S Out) → Option (StoreResult E (List (Bytes × Bytes) × S))
  raw_run (err e) = some (err e)
  raw_run (ok (raw_items control it)) =
      collected (collect (next_raw control) (suc (length it.raw)) it)
  raw_run (ok _) = none

  -- The same of the deserializing iterator.
  abbrev pub deserialized_run :
      StoreResult E (IterationResult E S Out) → Option (StoreResult E (List Out × S))
  deserialized_run (err e) = some (err e)
  deserialized_run (ok (deserialized_items control f it)) =
      collected (collect (next control f) (suc (length it.raw)) it)
  deserialized_run (ok _) = none

  -- The captured state of a completed effect.
  abbrev pub effect_run : StoreResult E (IterationResult E S Out) → Option (StoreResult E S)
  effect_run (err e) = some (err e)
  effect_run (ok (effect_completed s)) = some (ok s)
  effect_run (ok _) = none
