-- ===== src/Iter.antt =====
-- src/iter/mod.rs and src/iter/helpers.rs: the configuration of an iteration, the iterators that
-- apply a control function to the items of a raw iterator, and `IterationHelper::execute`.
-- `S` is the state that the `FnMut` closures of a configuration capture and change; `E` the error
-- type of `rocksdb`. A raw iterator is the list of the items that it has yet to yield.
pub mod Helpers
pub mod Collect
pub mod Control
pub mod Prefix
pub mod Modes
pub mod Execute
pub mod Effects
pub mod Runs
mod Tests
use rocksolid.Base.{
  ℕ, ◌+◌, Option, none, some, List, [], ◌∷◌, Bytes, String, Bool, true, false, length, starts_with,
  if◌then◌else◌,
}
use rocksolid.Base.Outcome.{Result, ok, err, ◌>>=◌}
use rocksolid.Errors.{StoreResult, rocks_db}
use rocksolid.Serialization.{KeyType, serialize_key}
use rocksolid.Engine.{Item}

-- `IterationControlDecision` of src/types.rs
pub data Decision : Type 0 where
  stop skip keep : Decision

-- `FnMut(&[u8], &[u8], usize) -> IterationControlDecision`
abbrev pub ControlFn : Type 0 → Type 0
ControlFn S = Bytes → Bytes → ℕ → S → Decision × S

-- `FnMut(&[u8], &[u8]) -> Result<(OutK, OutV), StoreError>`
abbrev pub DeserializeFn : Type 0 → Type 0 → Type 0 → Type 0
DeserializeFn E S Out = Bytes → Bytes → S → StoreResult E Out × S

-- `Out` is the pair `(OutK, OutV)`.
pub data IterationMode (E S Out : Type 0) : Type 0 where
  deserialize : DeserializeFn E S Out → IterationMode E S Out
  raw : IterationMode E S Out
  control_only : IterationMode E S Out

pub record IterConfig (E S K Out : Type 0) : Type 0 where
  pub cf_name : String
  pub prefix : Option K
  pub start : Option K
  pub reverse : Bool
  pub control : Option (ControlFn S)
  pub mode : IterationMode E S Out

module _ {E S K Out : Type 0} where
  unfoldable pub new_deserializing :
      String
      → Option K
      → Option K
      → Bool
      → Option (ControlFn S)
      → DeserializeFn E S Out
      → IterConfig E S K Out
  new_deserializing cf_name prefix start reverse control deserializer = record {
    cf_name = cf_name;
    prefix = prefix;
    start = start;
    reverse = reverse;
    control = control;
    mode = deserialize deserializer;
  }

  unfoldable pub new_raw :
      String → Option K → Option K → Bool → Option (ControlFn S) → IterConfig E S K Out
  new_raw cf_name prefix start reverse control = record {
    cf_name = cf_name;
    prefix = prefix;
    start = start;
    reverse = reverse;
    control = control;
    mode = raw;
  }

  unfoldable pub new_control_only :
      String → Option K → Option K → Bool → ControlFn S → IterConfig E S K Out
  new_control_only cf_name prefix start reverse control = record {
    cf_name = cf_name;
    prefix = prefix;
    start = start;
    reverse = reverse;
    control = some control;
    mode = control_only;
  }

-- What an iterator over a raw iterator changes: the items left, the count of the items kept so far,
-- and what its closures captured.
pub record Cursor (E S : Type 0) : Type 0 where
  pub raw : List (Item E)
  pub items_kept_count : ℕ
  pub captured : S

-- `if let Some(ref mut control_fn) = self.control`: without one every item is kept.
unfoldable pub ask : {S : Type 0} → Option (ControlFn S) → Bytes → Bytes → ℕ → S → Decision × S
ask none k v n s = (keep, s)
ask (some control_fn) k v n s = control_fn k v n s

module _ {E S : Type 0} where
  module _ {Out : Type 0} (control : Option (ControlFn S))
      (deserializer : DeserializeFn E S Out) where
    -- The loop of `ControlledIter::next`, over its raw items.
    unfoldable pub next_from : List (Item E) → ℕ → S → Option (StoreResult E Out) × Cursor E S
    unfolding ask
    next_from [] n s = (none, record { raw = []; items_kept_count = n; captured = s })
    next_from (err e ∷ rest) n s =
        (some (err (rocks_db e)), record { raw = rest; items_kept_count = n; captured = s })
    next_from (ok (k, v) ∷ rest) n s =
        let (d, s') = ask control k v n s in
        let again = next_from rest n s' in
        elim d [
          | stop ↦ (none, record { raw = rest; items_kept_count = n; captured = s' })
          | skip ↦ again
          | keep ↦
              let (item, s'') = deserializer k v s' in
              (some item, record { raw = rest; items_kept_count = n + 1; captured = s'' })
        ]

    -- `ControlledIter::next`
    unfoldable pub next : Cursor E S → Option (StoreResult E Out) × Cursor E S
    unfolding next_from
    next it = next_from it.raw it.items_kept_count it.captured

  -- `next` of the iterator of the raw mode.
  module _ (control : Option (ControlFn S)) where
    unfoldable pub next_raw_from :
        List (Item E) → ℕ → S → Option (StoreResult E (Bytes × Bytes)) × Cursor E S
    unfolding ask
    next_raw_from [] n s = (none, record { raw = []; items_kept_count = n; captured = s })
    next_raw_from (err e ∷ rest) n s =
        (some (err (rocks_db e)), record { raw = rest; items_kept_count = n; captured = s })
    next_raw_from (ok (k, v) ∷ rest) n s =
        let (d, s') = ask control k v n s in
        let again = next_raw_from rest n s' in
        elim d [
          | stop ↦ (none, record { raw = rest; items_kept_count = n; captured = s' })
          | skip ↦ again
          | keep ↦
              (some (ok (k, v)), record { raw = rest; items_kept_count = n + 1; captured = s' })
        ]

    unfoldable pub next_raw : Cursor E S → Option (StoreResult E (Bytes × Bytes)) × Cursor E S
    unfolding next_raw_from
    next_raw it = next_raw_from it.raw it.items_kept_count it.captured

  -- The loop of the control-only mode with a control function: an error ends it.
  unfoldable pub control_loop : ControlFn S → List (Item E) → ℕ → S → StoreResult E (Unit {0}) × S
  control_loop control_fn [] n s = (ok tt, s)
  control_loop control_fn (err e ∷ rest) n s = (err (rocks_db e), s)
  control_loop control_fn (ok (k, v) ∷ rest) n s =
      let (d, s') = control_fn k v n s in
      let skipped = control_loop control_fn rest n s' in
      let kept = control_loop control_fn rest (n + 1) s' in
      elim d [ stop ↦ (ok tt, s') | skip ↦ skipped | keep ↦ kept ]
