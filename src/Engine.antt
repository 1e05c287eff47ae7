-- ===== src/Engine.antt =====
-- What the code calls of the foreign crate `rocksdb`, as a record of types and operations. `E` is its
-- error type. A call that changes the database returns the database that it leaves, also when it
-- fails. An iterator is the list of the items that it would yield.
pub mod Laws
pub mod Memory
use rocksolid.Base.{Option, List, Bytes, String, ℕ}
use rocksolid.Base.Outcome.{Result}
use rocksolid.Base.Action.{Action}

pub data Direction : Type 0 where
  forward reverse : Direction

pub data IteratorMode : Type 0 where
  at_start at_end : IteratorMode
  from : Bytes → Direction → IteratorMode

-- An item of a raw iterator.
abbrev pub Item : Type 0 → Type 0
Item E = Result E (Bytes × Bytes)

-- `rocksdb::DEFAULT_COLUMN_FAMILY_NAME`
abbrev pub default_cf : String
default_cf = "default"

pub record Engine (E : Type 0) : Type 1 where
  pub Db : Type 0
  pub Handle : Type 0
  pub Batch : Type 0
  pub cf_handle : Db → String → Option Handle
  pub get_pinned : Db → Bytes → Result E (Option Bytes)
  pub get_pinned_cf : Db → Handle → Bytes → Result E (Option Bytes)
  pub multi_get : Db → List Bytes → List (Result E (Option Bytes))
  pub multi_get_cf : Db → List (Handle × Bytes) → List (Result E (Option Bytes))
  pub put : Bytes → Bytes → Action Db E (Unit {0})
  pub put_cf : Handle → Bytes → Bytes → Action Db E (Unit {0})
  pub delete : Bytes → Action Db E (Unit {0})
  pub delete_cf : Handle → Bytes → Action Db E (Unit {0})
  pub merge : Bytes → Bytes → Action Db E (Unit {0})
  pub merge_cf : Handle → Bytes → Bytes → Action Db E (Unit {0})
  pub write : Batch → Action Db E (Unit {0})
  pub empty_batch : Batch
  pub batch_put : Bytes → Bytes → Batch → Batch
  pub batch_put_cf : Handle → Bytes → Bytes → Batch → Batch
  pub batch_merge : Bytes → Bytes → Batch → Batch
  pub batch_merge_cf : Handle → Bytes → Bytes → Batch → Batch
  pub batch_delete : Bytes → Batch → Batch
  pub batch_delete_cf : Handle → Bytes → Batch → Batch
  pub batch_delete_range : Bytes → Bytes → Batch → Batch
  pub batch_delete_range_cf : Handle → Bytes → Bytes → Batch → Batch
  pub iterator : Db → IteratorMode → List (Item E)
  pub iterator_cf : Db → Handle → IteratorMode → List (Item E)
  pub prefix_iterator : Db → Bytes → List (Item E)
  pub prefix_iterator_cf : Db → Handle → Bytes → List (Item E)
