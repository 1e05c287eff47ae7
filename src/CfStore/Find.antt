-- ===== src/CfStore/Find.antt =====
-- The iteration of `RocksDbCFStore` (src/cf_store.rs): `iterate` and the `find_*` operations over it.
-- A collection may run out of fuel, `none`, in the model only; `Scans` shows that it does not.
use rocksolid.Base.{
  suc, Option, none, some, List, Bytes, String, Bool, true, false, length, str_eq, if◌then◌else◌,
}
use rocksolid.Base.Outcome.{Result, ok, err, map_err, ◌>>=◌}
use rocksolid.Errors.{StoreResult, Message, other, text, display}
use rocksolid.Serialization.{Codec, KeyType, deserialize_kv}
use rocksolid.Expiry.{ValueWithExpiry, deserialize_kv_expiry}
use rocksolid.Engine.{Engine, Item, IteratorMode, Direction, default_cf}
use rocksolid.Iter.{ControlFn, DeserializeFn, Cursor, IterConfig, new_deserializing, next}
use rocksolid.Iter.Helpers.{IterationResult, deserialized_items, execute}
use rocksolid.Iter.Collect.{collect}
use rocksolid.CfStore.{CfStore, get_cf_handle}

-- `matches!(direction, Direction::Reverse)`
abbrev pub is_reverse : Direction → Bool
is_reverse Direction.reverse = true
is_reverse Direction.forward = false

-- `map_err(|e| e.to_string())`
unfoldable pub show_error :
    {E Out : Type 0} → StoreResult E (List Out) → Result (Message E) (List Out)
show_error r = map_err display r

module _ {E S Out : Type 0} where
  -- `iter.collect()`, with one unit of fuel more than there are raw items.
  unfoldable pub collect_items :
      Option (ControlFn S) → DeserializeFn E S Out → Cursor E S → Option (StoreResult E (List Out))
  collect_items control f it = elim (collect (next control f) (suc (length it.raw)) it) [
    | none ↦ none
    | some (r, s) ↦ some r
  ]

  -- `match self.iterate(..)? { DeserializedItems(iter) => iter.collect(), _ => Err(..) }`
  unfoldable pub collect_result :
      Message E → StoreResult E (IterationResult E S Out) → Option (StoreResult E (List Out))
  unfolding collect_items
  collect_result unexpected (err e) = some (err e)
  collect_result unexpected (ok (deserialized_items control f it)) = collect_items control f it
  collect_result unexpected (ok _) = some (err (other unexpected))

  -- The same where errors are turned to text, `map_err(|e| e.to_string())`.
  unfoldable pub collect_text :
      Message E → StoreResult E (IterationResult E S Out) → Option (Result (Message E) (List Out))
  unfolding collect_items show_error
  collect_text unexpected (err e) = some (err (display e))
  collect_text unexpected (ok (deserialized_items control f it)) =
      elim (collect_items control f it) [ none ↦ none | some r ↦ some (show_error r) ]
  collect_text unexpected (ok _) = some (err unexpected)

module _ {E : Type 0} (g : Engine E) where
  -- The two factories of `iterate`.
  unfoldable pub general_factory : CfStore g → String → IteratorMode → StoreResult E (List (Item E))
  unfolding get_cf_handle
  general_factory st cf_name mode =
      if str_eq cf_name default_cf
      then ok (g.iterator st.db mode)
      else (get_cf_handle g st cf_name >>= λ handle. ok (g.iterator_cf st.db handle mode))

  unfoldable pub prefix_factory : CfStore g → String → Bytes → StoreResult E (List (Item E))
  unfolding get_cf_handle
  prefix_factory st cf_name prefix_bytes =
      if str_eq cf_name default_cf
      then ok (g.prefix_iterator st.db prefix_bytes)
      else (get_cf_handle g st cf_name >>= λ handle.
          ok (g.prefix_iterator_cf st.db handle prefix_bytes))

  module _ {K : Type 0} (kt : KeyType E K) where
    unfoldable pub iterate :
        {S Out : Type 0}
        → CfStore g
        → IterConfig E S K Out
        → S
        → StoreResult E (IterationResult E S Out)
    unfolding execute
    iterate st config =
        execute kt (general_factory st config.cf_name) (prefix_factory st config.cf_name) config

    module _ {V : Type 0} (c : Codec E V) where
      -- The closure `|k_bytes, v_bytes| deserialize_kv(k_bytes, v_bytes)`.
      abbrev pub kv_fn : {S : Type 0} → DeserializeFn E S (K × V)
      kv_fn k v s = (deserialize_kv kt c k v, s)

      unfoldable pub find_by_prefix :
          CfStore g → String → K → Direction → Option (StoreResult E (List (K × V)))
      unfolding iterate new_deserializing collect_result
      find_by_prefix st cf_name prefix direction =
          collect_result {S = Unit {0}} (text "find_by_prefix: Expected DeserializedItems") (
            iterate st
              (new_deserializing cf_name (some prefix) none (is_reverse direction) none kv_fn) tt)

      unfoldable pub find_from :
          {S : Type 0}
          → CfStore g
          → String
          → K
          → Direction
          → ControlFn S
          → S
          → Option (StoreResult E (List (K × V)))
      unfolding iterate new_deserializing collect_result
      find_from st cf_name start_key direction control_fn s =
          collect_result (text "find_from: Expected DeserializedItems") (
            iterate st
              (new_deserializing cf_name none (some start_key) (is_reverse direction)
                (some control_fn) kv_fn)
              s)

    -- The closure `|k_bytes, v_bytes| deserialize_kv_expiry(k_bytes, v_bytes)`.
    abbrev pub expiry_fn : {S : Type 0} → DeserializeFn E S (K × ValueWithExpiry)
    expiry_fn k v s = (deserialize_kv_expiry kt k v, s)

    unfoldable pub find_from_with_expire_val :
        {S : Type 0}
        → CfStore g
        → String
        → K
        → Bool
        → ControlFn S
        → S
        → Option (Result (Message E) (List (K × ValueWithExpiry)))
    unfolding iterate new_deserializing collect_text
    find_from_with_expire_val st cf_name start reverse control_fn s =
        collect_text (text "find_from_with_expire_val: Expected DeserializedItems from iteration") (
          iterate st
            (new_deserializing cf_name none (some start) reverse (some control_fn) expiry_fn) s)

    unfoldable pub find_by_prefix_with_expire_val :
        {S : Type 0}
        → CfStore g
        → String
        → K
        → Bool
        → ControlFn S
        → S
        → Option (Result (Message E) (List (K × ValueWithExpiry)))
    unfolding iterate new_deserializing collect_text
    find_by_prefix_with_expire_val st cf_name prefix_key reverse control_fn s =
        collect_text
          (text "find_by_prefix_with_expire_val: Expected DeserializedItems from iteration")
          (iterate st
            (new_deserializing cf_name (some prefix_key) none reverse (some control_fn) expiry_fn)
            s)
