-- ===== src/Migration.antt =====
-- `migrate_db` of src/utils/mod.rs, from the two stores that it opened: it copies the families of the
-- source that the destination opens, and validates the copy if it is asked to.
pub mod Content
pub mod Valid
mod Tests
use rocksolid.Base.{
  Option, none, some, List, [], ◌∷◌, Bytes, String, Bool, true, false, str_eq, bytes_eq,
  if◌then◌else◌,
}
use rocksolid.Base.Outcome
use rocksolid.Base.Outcome.{Result, ok, err, map_err}
use rocksolid.Base.Action.{Action, lift, ◌>>=◌, ◌>>◌}
use rocksolid.Errors.{StoreError, StoreResult, Message, rocks_db, other, text, bytes, join}
use rocksolid.Serialization.{KeyType}
use rocksolid.Engine.{Engine, Item, IteratorMode, default_cf}
use rocksolid.CfStore.{CfStore, StoreAction, get_cf_handle, get_raw}
use rocksolid.CfStore.Write.{put_raw}
use rocksolid.Tuner.{contains}

-- A key of type `&[u8]`: its own bytes.
abbrev pub byte_key : {E : Type 0} → KeyType E Bytes
byte_key = record { as_bytes = λ k. k; decode = λ b. ok b }

module _ {E : Type 0} (g : Engine E) where
  -- The raw iterator over a family of the source, from its start.
  unfoldable pub source_items : CfStore g → String → StoreResult E (List (Item E))
  unfolding get_cf_handle
  source_items src cf_name =
      if str_eq cf_name default_cf
      then ok (g.iterator src.db IteratorMode.at_start)
      else (Outcome.◌>>=◌ (get_cf_handle g src cf_name)
          λ handle. ok (g.iterator_cf src.db handle IteratorMode.at_start))

  -- The loop over the items of a family, which writes each to the destination.
  unfoldable pub copy_items : String → List (Item E) → StoreAction g
  unfolding put_raw
  copy_items cf_name [] = lift (ok tt)
  copy_items cf_name (err e ∷ rest) = lift (err (rocks_db e))
  copy_items cf_name (ok (key_bytes, value_bytes) ∷ rest) =
      put_raw g byte_key cf_name key_bytes value_bytes >> copy_items cf_name rest

  -- The loop over the families of the source; `opened` are those that the destination opens.
  unfoldable pub copy_families : List String → CfStore g → List String → StoreAction g
  unfolding contains source_items copy_items
  copy_families opened src [] = lift (ok tt)
  copy_families opened src (cf_name ∷ rest) =
      if contains opened cf_name
      then (lift (source_items src cf_name) >>= λ items.
          copy_items cf_name items >> copy_families opened src rest)
      else copy_families opened src rest

  unfoldable pub inconsistent : String → Bytes → StoreError E
  inconsistent cf_name key_bytes = other (
      join (text "Data inconsistency for key ")
        (join (bytes key_bytes) (join (text " in CF '") (join (text cf_name) (text "'")))))

  unfoldable pub missing : String → Bytes → StoreError E
  missing cf_name key_bytes = other (
      join (text "Migrated key ")
        (join (bytes key_bytes) (join (text " missing in CF '") (join (text cf_name) (text "'")))))

  -- What is found under a key of the destination, against the value of the source.
  unfoldable pub compare_value : String → Bytes → Bytes → Option Bytes → StoreResult E (Unit {0})
  unfolding bytes_eq inconsistent missing
  compare_value cf_name key_bytes src_value none = err (missing cf_name key_bytes)
  compare_value cf_name key_bytes src_value (some dst_value) =
      if bytes_eq src_value dst_value then ok tt else err (inconsistent cf_name key_bytes)

  unfoldable pub validate_items : CfStore g → String → List (Item E) → StoreResult E (Unit {0})
  unfolding get_raw compare_value
  validate_items dst cf_name [] = ok tt
  validate_items dst cf_name (err e ∷ rest) = err (rocks_db e)
  validate_items dst cf_name (ok (key_bytes, src_value) ∷ rest) =
      Outcome.◌>>◌
        (Outcome.◌>>=◌ (get_raw g byte_key dst cf_name key_bytes)
          (compare_value cf_name key_bytes src_value))
        (validate_items dst cf_name rest)

  unfoldable pub validate_families :
      List String → CfStore g → CfStore g → List String → StoreResult E (Unit {0})
  unfolding contains source_items validate_items
  validate_families opened src dst [] = ok tt
  validate_families opened src dst (cf_name ∷ rest) =
      if contains opened cf_name
      then (Outcome.◌>>=◌ (source_items src cf_name) λ items.
          Outcome.◌>>◌ (validate_items dst cf_name items) (validate_families opened src dst rest))
      else validate_families opened src dst rest

  -- `migrate_db` on the stores that it opened, given what `DB::list_cf` answers for the source: it
  -- changes the destination.
  unfoldable pub migrate_db :
      Result E (List String) → List String → Bool → CfStore g → StoreAction g
  unfolding copy_families validate_families
  migrate_db listed opened validate src = lift (map_err rocks_db listed) >>= λ src_cf_names.
      copy_families opened src src_cf_names >> λ dst.
      (if validate then (validate_families opened src dst src_cf_names, dst) else (ok tt, dst))
