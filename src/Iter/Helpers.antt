-- ===== src/Iter/Helpers.antt =====
-- `IterationHelper::execute` of src/iter/helpers.rs: which raw iterator is made, which control function
-- runs over it, and what comes back in each mode.
use rocksolid.Base.{Option, none, some, List, Bytes, Bool, starts_with, if◌then◌else◌}
use rocksolid.Base.Outcome.{ok, ◌>>=◌}
use rocksolid.Errors.{StoreResult}
use rocksolid.Serialization.{KeyType, serialize_key}
use rocksolid.Engine.{Item, Direction, IteratorMode}
use rocksolid.Iter.{
  ControlFn, DeserializeFn, stop, skip, keep, IterationMode, deserialize, raw, control_only,
  IterConfig, Cursor, control_loop,
}

-- `prefix_enforcement_control`, and its composition with the user's control function
module _ {S : Type 0} where
  unfoldable pub enforce : Bytes → ControlFn S
  unfolding starts_with
  enforce p k v n s = (if starts_with k p then keep else stop, s)

  unfoldable pub guarded : Bytes → ControlFn S → ControlFn S
  unfolding enforce
  guarded p user_control k v n s =
      let (d, s') = enforce p k v n s in
      elim d [ keep ↦ user_control k v n s' | stop ↦ (stop, s') | skip ↦ (skip, s') ]

  unfoldable pub effective_control : Option Bytes → Option (ControlFn S) → Option (ControlFn S)
  unfolding enforce guarded
  effective_control none control = control
  effective_control (some p) none = some (enforce p)
  effective_control (some p) (some user_control) = some (guarded p user_control)

-- An iterator that is handed out has its control function and its captured state with it.
pub data IterationResult (E S Out : Type 0) : Type 0 where
  effect_completed : S → IterationResult E S Out
  raw_items : Option (ControlFn S) → Cursor E S → IterationResult E S Out
  deserialized_items :
      Option (ControlFn S) → DeserializeFn E S Out → Cursor E S → IterationResult E S Out

-- The mode of the general iterator.
unfoldable pub iterator_mode : Option Bytes → Option Bytes → Bool → IteratorMode
iterator_mode prefix (some start) rev =
    IteratorMode.from start (if rev then Direction.reverse else Direction.forward)
iterator_mode (some prefix) none rev =
    IteratorMode.from prefix (if rev then Direction.reverse else Direction.forward)
iterator_mode none none rev = if rev then IteratorMode.at_end else IteratorMode.at_start

-- `k.map(serialize_key).transpose()?`
unfoldable pub serialize_option :
    {E K : Type 0} → KeyType E K → Option K → StoreResult E (Option Bytes)
unfolding serialize_key
serialize_option kt none = ok none
serialize_option kt (some k) = serialize_key kt k >>= λ b. ok (some b)

-- The prefix iterator for a prefix alone, the general iterator otherwise.
unfoldable pub base_iterator :
    {E : Type 0}
    → (IteratorMode → StoreResult E (List (Item E)))
    → (Bytes → StoreResult E (List (Item E)))
    → Option Bytes
    → Option Bytes
    → Bool
    → StoreResult E (List (Item E))
unfolding iterator_mode
base_iterator general_factory prefix_factory (some p) none rev = prefix_factory p
base_iterator general_factory prefix_factory prefix start rev =
    general_factory (iterator_mode prefix start rev)

module _ {E S Out : Type 0} where
  -- What each mode makes of the base iterator and the effective control.
  unfoldable pub finish :
      IterationMode E S Out
      → Option (ControlFn S)
      → List (Item E)
      → S
      → StoreResult E (IterationResult E S Out)
  unfolding control_loop
  finish (deserialize f) control items s =
      ok (deserialized_items control f (record { raw = items; items_kept_count = 0; captured = s }))
  finish raw control items s =
      ok (raw_items control (record { raw = items; items_kept_count = 0; captured = s }))
  finish control_only (some control_fn) items s =
      let (r, s') = control_loop control_fn items 0 s in r >>= λ _. ok (effect_completed s')
  finish control_only none items s = ok (effect_completed s)

  module _ {K : Type 0} (kt : KeyType E K)
      (general_factory : IteratorMode → StoreResult E (List (Item E)))
      (prefix_factory : Bytes → StoreResult E (List (Item E))) where
    -- `IterationHelper::execute`
    unfoldable pub execute : IterConfig E S K Out → S → StoreResult E (IterationResult E S Out)
    unfolding serialize_option base_iterator finish effective_control
    execute config s = do
      prefix ← serialize_option kt config.prefix
      start ← serialize_option kt config.start
      items ← base_iterator general_factory prefix_factory prefix start config.reverse
      finish config.mode (effective_control prefix config.control) items s
