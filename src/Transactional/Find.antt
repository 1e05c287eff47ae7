-- ===== src/Transactional/Find.antt =====
-- The iteration of the transactional stores on committed data (src/tx/macros.rs).
use rocksolid.Base.{Option, none, some, List, Bytes, String, Bool, str_eq, if◌then◌else◌}
use rocksolid.Base.Outcome.{Result, ok, ◌>>=◌}
use rocksolid.Errors.{StoreResult, Message, text}
use rocksolid.Serialization.{Codec, KeyType, deserialize_kv}
use rocksolid.Expiry.{ValueWithExpiry, deserialize_kv_expiry}
use rocksolid.Engine.{Engine, Item, IteratorMode, Direction, default_cf}
use rocksolid.Iter.{ControlFn, DeserializeFn, IterConfig, new_deserializing}
use rocksolid.Iter.Helpers.{IterationResult, execute}
use rocksolid.CfStore.{CfStore}
use rocksolid.CfStore.Find.{is_reverse, collect_result, collect_text}
use rocksolid.Transactional.{get_cf_handle}

module _ {E : Type 0} (g : Engine E) where
  -- The two factories of `iterate`.
  unfoldable pub general_factory : CfStore g → String → IteratorMode → StoreResult E (List (Item E))
  unfolding get_cf_handle
  general_factory st cf_name mode =
      if str_eq cf_name default_cf
      then ok (g.iterator st.db mode)
      else (get_cf_handle g st cf_name >>= λ handle. ok (g.iterator_cf st.db handle mode))

  unfoldable pub prefix_factory : CfStore g → String → Bytes → StoreResult E (List (Item E))
  unfolding get_cf_handle
  prefix_factory st cf_name prefix_bytes =
      if str_eq cf_name default_cf
      then ok (g.prefix_iterator st.db prefix_bytes)
      else (get_cf_handle g st cf_name >>= λ handle.
          ok (g.prefix_iterator_cf st.db handle prefix_bytes))

  module _ {K : Type 0} (kt : KeyType E K) where
    unfoldable pub iterate :
        {S Out : Type 0}
        → CfStore g
        → IterConfig E S K Out
        → S
        → StoreResult E (IterationResult E S Out)
    unfolding execute
    iterate st config =
        execute kt (general_factory st config.cf_name) (prefix_factory st config.cf_name) config

    module _ {V : Type 0} (c : Codec E V) where
      -- The closure `|k_bytes, v_bytes| deserialize_kv(k_bytes, v_bytes)`.
      abbrev pub kv_fn : {S : Type 0} → DeserializeFn E S (K × V)
      kv_fn k v s = (deserialize_kv kt c k v, s)

      unfoldable pub find_by_prefix :
          CfStore g → String → K → Direction → Option (StoreResult E (List (K × V)))
      unfolding iterate new_deserializing collect_result
      find_by_prefix st cf_name prefix direction =
          collect_result {S = Unit {0}} (text "find_by_prefix: Expected DeserializedItems") (
            iterate st
              (new_deserializing cf_name (some prefix) none (is_reverse direction) none kv_fn) tt)

      unfoldable pub find_from :
          {S : Type 0}
          → CfStore g
          → String
          → K
          → Direction
          → ControlFn S
          → S
          → Option (StoreResult E (List (K × V)))
      unfolding iterate new_deserializing collect_result
      find_from st cf_name start_key direction control_fn s =
          collect_result (text "find_from: Expected DeserializedItems") (
            iterate st
              (new_deserializing cf_name none (some start_key) (is_reverse direction)
                (some control_fn) kv_fn)
              s)

    -- The closure `|k_bytes, v_bytes| deserialize_kv_expiry(k_bytes, v_bytes)`.
    abbrev pub expiry_fn : {S : Type 0} → DeserializeFn E S (K × ValueWithExpiry)
    expiry_fn k v s = (deserialize_kv_expiry kt k v, s)

    unfoldable pub find_from_with_expire_val :
        {S : Type 0}
        → CfStore g
        → String
        → K
        → Bool
        → ControlFn S
        → S
        → Option (Result (Message E) (List (K × ValueWithExpiry)))
    unfolding iterate new_deserializing collect_text
    find_from_with_expire_val st cf_name start reverse control_fn s =
        collect_text (text "find_from_with_expire_val: Expected DeserializedItems") (
          iterate st
            (new_deserializing cf_name none (some start) reverse (some control_fn) expiry_fn) s)

    unfoldable pub find_by_prefix_with_expire_val :
        {S : Type 0}
        → CfStore g
        → String
        → K
        → Bool
        → ControlFn S
        → S
        → Option (Result (Message E) (List (K × ValueWithExpiry)))
    unfolding iterate new_deserializing collect_text
    find_by_prefix_with_expire_val st cf_name prefix_key reverse control_fn s =
        collect_text (text "find_by_prefix_with_expire_val: Expected DeserializedItems") (
          iterate st
            (new_deserializing cf_name (some prefix_key) none reverse (some control_fn) expiry_fn)
            s)
