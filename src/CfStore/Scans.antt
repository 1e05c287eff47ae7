-- ===== src/CfStore/Scans.antt =====
-- What the `find_*` operations return: they end, and they return what their control function and
-- their deserializer make of the raw iterator.
use rocksolid.Base.{
  Bool-cases, inl, inr, ℕ, suc, ◌-◌, ◌≡◌, refl, ap, ◌∙◌, arith, Option, some, List, [], ◌∷◌, map,
  Bytes, String, Bool, false, length, take, take_while, keep_if, if◌then◌else◌,
}
use rocksolid.Base.Outcome.{ok, err, map_err, ◌>>=◌, try_map}
use rocksolid.Errors.{StoreResult, Message, display, text}
use rocksolid.Serialization.{Codec, KeyType, deserialize_kv}
use rocksolid.Engine.{Engine, Item, Direction, IteratorMode}
use rocksolid.Iter.{ControlFn, DeserializeFn, stop, keep}
use rocksolid.Iter.Helpers.{enforce, guarded, IterationResult, deserialized_items}
use rocksolid.Iter.Collect.{gather, collect-gather}
use rocksolid.Iter.Control.{limit, goes_on, keeps, gather-stateless, gather-limit}
use rocksolid.Iter.Prefix.{Entries, Ascending, seek, has_prefix, take_prefix-seek}
use rocksolid.CfStore.{CfStore}
use rocksolid.CfStore.Find.{
  is_reverse, collect_items, collect_result, collect_text, show_error, general_factory,
  prefix_factory, kv_fn, expiry_fn, find_by_prefix, find_from, find_from_with_expire_val,
  find_by_prefix_with_expire_val,
}

collect_items-gather :
    {E S Out : Type 0} (control : Option (ControlFn S)) (f : DeserializeFn E S Out)
    (items : List (Item E)) (s : S)
    → collect_items control f (record { raw = items; items_kept_count = 0; captured = s })
      ≡ some (gather control f items 0 s).0
unfolding collect_items
collect_items-gather control f items s =
    ground (arith, collect-gather control f items (suc (length items)) 0 s)

module _ {E S Out : Type 0} (m : Message E) (control : Option (ControlFn S))
    (f : DeserializeFn E S Out) (s : S) where
  abbrev pub over : List (Item E) → StoreResult E (IterationResult E S Out)
  over items =
      ok (deserialized_items control f (record { raw = items; items_kept_count = 0; captured = s }))

  pub collect_result-gather :
      (r : StoreResult E (List (Item E)))
      → collect_result m (r >>= over) ≡ some (r >>= λ items. (gather control f items 0 s).0)
  unfolding collect_result
  collect_result-gather (err e) = refl
  collect_result-gather (ok items) = collect_items-gather control f items s

  pub collect_text-gather :
      (r : StoreResult E (List (Item E)))
      → collect_text m (r >>= over)
        ≡ some (map_err display (r >>= λ items. (gather control f items 0 s).0))
  unfolding collect_text show_error
  collect_text-gather (err e) = refl
  collect_text-gather (ok items) = rw (collect_items-gather control f items s, collect_text)

-- The direction that a `find_from` asks of its iterator.
abbrev pub towards : Bool → Direction
towards b = if b then Direction.reverse else Direction.forward

module _ {E : Type 0} (g : Engine E) {K : Type 0} (kt : KeyType E K) (st : CfStore g) (n : String)
    (k : K) where
  -- Each `find_*` ends. It fails as its iterator fails to be made; else it returns what `gather` makes
  -- of the items: of the prefix iterator under the prefix check, for those by prefix, and of the
  -- general iterator from the start key on, in the direction that was asked for, for the others. The
  -- `*_with_expire_val` operations turn an error into its text.
  pub find-gather :
      {S V : Type 0} (c : Codec E V) (d : Direction) (rev : Bool) (control : ControlFn S) (s : S)
      → (find_by_prefix g kt c st n k d
          ≡ some (
              prefix_factory g st n (kt.as_bytes k) >>= λ items.
              (gather (some (enforce (kt.as_bytes k))) (kv_fn g kt c) items 0 tt).0))
        × (find_from g kt c st n k d control s
            ≡ some (
                general_factory g st n (IteratorMode.from (kt.as_bytes k) (towards (is_reverse d)))
                >>= λ items. (gather (some control) (kv_fn g kt c) items 0 s).0))
        × (find_from_with_expire_val g kt st n k rev control s
            ≡ some (
                map_err display (
                  general_factory g st n (IteratorMode.from (kt.as_bytes k) (towards rev))
                  >>= λ items. (gather (some control) (expiry_fn g kt) items 0 s).0)))
        × (find_by_prefix_with_expire_val g kt st n k rev control s
            ≡ some (
                map_err display (
                  prefix_factory g st n (kt.as_bytes k) >>= λ items.
                  (gather (some (guarded (kt.as_bytes k) control)) (expiry_fn g kt) items 0 s).0)))
  unfolding find_by_prefix find_from find_from_with_expire_val find_by_prefix_with_expire_val
  find-gather c d rev control s = (
    collect_result-gather (text "find_by_prefix: Expected DeserializedItems")
        (some (enforce (kt.as_bytes k))) (kv_fn g kt c) tt (prefix_factory g st n (kt.as_bytes k)),
    collect_result-gather (text "find_from: Expected DeserializedItems") (some control)
        (kv_fn g kt c) s
        (general_factory g st n (IteratorMode.from (kt.as_bytes k) (towards (is_reverse d)))),
    collect_text-gather
        (text "find_from_with_expire_val: Expected DeserializedItems from iteration") (some control)
        (expiry_fn g kt) s
        (general_factory g st n (IteratorMode.from (kt.as_bytes k) (towards rev))),
    collect_text-gather
        (text "find_by_prefix_with_expire_val: Expected DeserializedItems from iteration")
        (some (guarded (kt.as_bytes k) control)) (expiry_fn g kt) s
        (prefix_factory g st n (kt.as_bytes k)),
  )

module _ {E : Type 0} (g : Engine E) {K : Type 0} (kt : KeyType E K) (st : CfStore g) (n : String)
    (k : K) where
  module _ {V : Type 0} (c : Codec E V) (es : Entries) where
    enforced :
        (xs : Entries)
        → keep_if
            (λ e. keeps (if has_prefix (kt.as_bytes k) e then keep else stop))
            (take_while (λ e. goes_on (if has_prefix (kt.as_bytes k) e then keep else stop)) xs)
          ≡ take_while (has_prefix (kt.as_bytes k)) xs
    unfolding keep_if take_while
    enforced [] = refl
    enforced (e ∷ xs) = elim (Bool-cases (has_prefix (kt.as_bytes k) e)) [
      | inl h ↦ ground (arith, enforced xs)
      | inr h ↦ ground arith
    ]

    -- When the prefix iterator starts at the first key that is not below the prefix of a sequence of
    -- entries in ascending order of their keys, and meets no error, `find_by_prefix` returns what the
    -- deserializer makes of all entries of the sequence whose key has the prefix, in order.
    pub find_by_prefix_complete :
        (d : Direction)
        → Ascending es
        → prefix_factory g st n (kt.as_bytes k) ≡ ok (map ok (seek (kt.as_bytes k) es))
        → find_by_prefix g kt c st n k d
          ≡ some (
              try_map
                (λ (e : Bytes × Bytes). deserialize_kv kt c e.0 e.1)
                (keep_if (has_prefix (kt.as_bytes k)) es))
    unfolding enforce
    find_by_prefix_complete d a h =
        let p = kt.as_bytes k in
        let f : Bytes × Bytes → StoreResult E (K × V) = λ e. deserialize_kv kt c e.0 e.1 in
        (find-gather g kt st n k c d false (limit 0) tt).0
        ∙ rw h (
            ap (λ r. some r.0)
              (gather-stateless f tt (λ e. if has_prefix p e then keep else stop) (seek p es) 0)
            ∙ ap (λ xs. some (try_map f xs)) (enforced (seek p es) ∙ take_prefix-seek p es a))

    -- When the general iterator yields a sequence of entries without error, `find_from` with a control
    -- function that stops once `m` items were kept returns what the deserializer makes of the first `m`.
    pub find_from-limit :
        (d : Direction) (m : ℕ)
        → general_factory g st n (IteratorMode.from (kt.as_bytes k) (towards (is_reverse d)))
          ≡ ok (map ok es)
        → find_from g kt c st n k d (limit m) tt
          ≡ some (try_map (λ (e : Bytes × Bytes). deserialize_kv kt c e.0 e.1) (take m es))
    find_from-limit d m h =
        let f : Bytes × Bytes → StoreResult E (K × V) = λ e. deserialize_kv kt c e.0 e.1 in
        let z : m - 0 ≡ m = omega arith in
        (find-gather g kt st n k c d false (limit m) tt).1
        ∙ rw h (
            ap (λ r. some r.0) (gather-limit f tt m es 0)
            ∙ ap (λ j. some (try_map f (take j es))) z)
