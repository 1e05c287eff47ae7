-- ===== src/Iter/Tests.antt =====
-- The theorems on iterations at concrete data.
use rocksolid.Base.{length}
use rocksolid.Iter.Runs.{begin, collect-has_prefix}
use rocksolid.Base.{
  suc, starts_with, ◌≡◌, refl, arith, none, some, List, [], ◌∷◌, map, Bytes, true, false, ℕ,
  bytes_lt, keep_if, if◌then◌else◌,
}
use rocksolid.Base.Outcome.{ok, try_map, map_err, ◌>>=◌}
use rocksolid.Errors.{display, StoreResult}
use rocksolid.Serialization.{Codec, KeyType, deserialize_kv}
use rocksolid.Engine.{Engine, Item, Direction, IteratorMode}
use rocksolid.Engine.Memory.{memory, fresh}
use rocksolid.Iter.{
  Cursor, control_loop, Decision, stop, skip, keep, next, next_raw, ControlFn, new_raw, IterConfig,
  IterationMode, deserialize,
}
use rocksolid.Iter.Helpers.{
  effective_control, enforce, guarded, IterationResult, deserialized_items,
}
use rocksolid.Iter.Collect.{collect, gather, collect-gather, as_is}
use rocksolid.Iter.Prefix.{Entries, Ascending, seek, has_prefix}
use rocksolid.Iter.Modes.{every_yielded}
use rocksolid.Iter.Execute.{iteration}
use rocksolid.CfStore.{CfStore}
use rocksolid.CfStore.Find.{
  find_by_prefix, find_from, find_from_with_expire_val, find_by_prefix_with_expire_val,
  prefix_factory, general_factory, kv_fn, expiry_fn, is_reverse,
}
use rocksolid.CfStore.Scans.{find-gather, find_by_prefix_complete, towards}

abbrev key_type : KeyType ℕ Bytes
key_type = record { as_bytes = λ k. k; decode = λ b. ok b }

abbrev codec : Codec ℕ Bytes
codec = record { serialize = λ v. ok v; deserialize = λ b. ok b }

abbrev entries : Entries
entries = (1 ∷ [], 10 ∷ []) ∷ (2 ∷ 5 ∷ [], 20 ∷ []) ∷ (2 ∷ 6 ∷ [], 30 ∷ []) ∷ (3 ∷ [], 40 ∷ []) ∷ []

abbrev items : List (Item ℕ)
items = map ok entries

-- Skips the key 1 and counts its calls.
abbrev counting : ControlFn ℕ
unfolding starts_with
counting k v n s = (if starts_with k (1 ∷ []) then skip else keep, suc s)

collect-gather_example :
    collect
      (next (some counting) as_is)
      5
      (record { raw = items; items_kept_count = 0; captured = 0 })
    ≡ some (gather (some counting) as_is items 0 0)
collect-gather_example = collect-gather (some counting) as_is items 5 0 0 (omega arith)

gathered :
    gather (some counting) as_is items 0 0
    ≡ (ok ((2 ∷ 5 ∷ [], 20 ∷ []) ∷ (2 ∷ 6 ∷ [], 30 ∷ []) ∷ (3 ∷ [], 40 ∷ []) ∷ []), 4)
unfolding gather counting rocksolid.Iter.ask
gathered = refl

abbrev decide : Bytes × Bytes → Decision
decide e = if starts_with e.0 (2 ∷ []) then keep else skip

abbrev by_prefix : IterConfig ℕ ℕ Bytes (Bytes × Bytes)
unfolding new_raw
by_prefix = new_raw "logs" (some (2 ∷ [])) none false none

entries-Ascending : Ascending entries
unfolding bytes_lt
entries-Ascending = ((refl, (refl, (refl, tt))), ((refl, (refl, tt)), ((refl, tt), (tt, tt))))

collect-has_prefix_example :
    (r : StoreResult ℕ (List (Bytes × Bytes)) × ℕ) × (collect
        (next_raw (effective_control (some (2 ∷ [])) (some counting)))
        (suc (length items))
        (begin items 0)
      ≡ some r)
    × (every_yielded (has_prefix (2 ∷ [])) r.0 ≡ true)
collect-has_prefix_example = collect-has_prefix items 0 (2 ∷ []) (some counting)

counted :
    collect (next_raw (some counting)) (suc (length items)) (begin items 0)
    ≡ some (ok ((2 ∷ 5 ∷ [], 20 ∷ []) ∷ (2 ∷ 6 ∷ [], 30 ∷ []) ∷ (3 ∷ [], 40 ∷ []) ∷ []), 4)
unfolding collect next_raw counting rocksolid.Iter.ask
counted = refl

abbrev counted_items : StoreResult ℕ Entries
counted_items = ok ((2 ∷ 5 ∷ [], 20 ∷ []) ∷ (2 ∷ 6 ∷ [], 30 ∷ []) ∷ (3 ∷ [], 40 ∷ []) ∷ [])

-- An engine whose iterators go over the entries.
abbrev scanning : Engine ℕ
scanning = record memory {
  prefix_iterator = λ db p. map ok (seek p entries);
  prefix_iterator_cf = λ db h p. map ok (seek p entries);
  iterator = λ db m. items;
  iterator_cf = λ db h m. items;
}

abbrev scanned : CfStore scanning
scanned = record { db = fresh; cf_names = "default" ∷ "logs" ∷ []; path = "/tmp/db" }

find-gather_example :
    (find_by_prefix scanning key_type codec scanned "logs" (2 ∷ []) Direction.forward
      ≡ some (
          prefix_factory scanning scanned "logs" (2 ∷ []) >>= λ is.
          (gather (some (enforce (2 ∷ []))) (kv_fn scanning key_type codec) is 0 tt).0))
    × (find_from scanning key_type codec scanned "logs" (2 ∷ []) Direction.forward counting 0
        ≡ some (
            general_factory scanning scanned "logs" (IteratorMode.from (2 ∷ []) Direction.forward)
            >>= λ is. (gather (some counting) (kv_fn scanning key_type codec) is 0 0).0))
    × (find_from_with_expire_val scanning key_type scanned "logs" (2 ∷ []) true counting 0
        ≡ some (
            map_err display (
              general_factory scanning scanned "logs" (IteratorMode.from (2 ∷ []) Direction.reverse)
              >>= λ is. (gather (some counting) (expiry_fn scanning key_type) is 0 0).0)))
    × (find_by_prefix_with_expire_val scanning key_type scanned "logs" (2 ∷ []) true counting 0
        ≡ some (
            map_err display (
              prefix_factory scanning scanned "logs" (2 ∷ []) >>= λ is.
              (gather (some (guarded (2 ∷ []) counting)) (expiry_fn scanning key_type) is 0 0).0)))
find-gather_example =
    find-gather scanning key_type scanned "logs" (2 ∷ []) codec Direction.forward true counting 0

prefix_made : prefix_factory scanning scanned "logs" (2 ∷ []) ≡ ok (map ok (seek (2 ∷ []) entries))
unfolding prefix_factory
prefix_made = refl

find_by_prefix_complete_example :
    find_by_prefix scanning key_type codec scanned "logs" (2 ∷ []) Direction.forward
    ≡ some (
        try_map
          (λ (e : Bytes × Bytes). deserialize_kv key_type codec e.0 e.1)
          (keep_if (has_prefix (2 ∷ [])) entries))
find_by_prefix_complete_example =
    find_by_prefix_complete scanning key_type scanned "logs" (2 ∷ []) codec entries
      Direction.forward entries-Ascending prefix_made

general_made :
    general_factory scanning scanned "logs"
      (IteratorMode.from (1 ∷ []) (towards (is_reverse Direction.forward)))
    ≡ ok (map ok entries)
unfolding general_factory
general_made = refl

executed :
    iteration key_type
      (λ m. ok items)
      (λ p. ok (map ok (seek p entries)))
      (some (2 ∷ []))
      none
      true
      (some counting)
      as_is
      0
    ≡ ok ((2 ∷ 5 ∷ [], 20 ∷ []) ∷ (2 ∷ 6 ∷ [], 30 ∷ []) ∷ [], 2)
unfolding gather counting enforce guarded seek bytes_lt rocksolid.Iter.ask
    rocksolid.Iter.Helpers.base_iterator rocksolid.Iter.Helpers.effective_control
    rocksolid.Iter.Helpers.serialize_option
executed = refl
