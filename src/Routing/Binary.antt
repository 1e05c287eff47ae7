-- ===== src/Routing/Binary.antt =====
-- The binary compaction filter of src/compaction_filter/binary.rs: it chooses a filter by the longest
-- registered prefix of a key. The map of the crate `fast_radix_trie` is foreign.
use rocksolid.Base.{
  ◌≡◌, ◌≤◌, Option, none, some, List, [], ◌∷◌, Bytes, true, bytes_eq, length, starts_with,
  if◌then◌else◌,
}
use rocksolid.Base.Outcome.{ok, err}
use rocksolid.Errors.{StoreResult, invalid_configuration, text}
use rocksolid.Config.Stores.{FilterFn, keep_entry, FilterRouterConfig}
use rocksolid.Routing.{RouterBuilder}

-- `RadixMap`
pub record Radix (H : Type 0) : Type 1 where
  pub Trie : Type 0
  pub empty : Trie
  pub insert : Bytes → H → Trie → Trie
  pub get_longest_common_prefix : Trie → Bytes → Option (Bytes × H)

-- Its documented behaviour: a map from byte strings, and the entry whose key is the longest that the
-- given bytes start with.
pub record IsRadix {H : Type 0} (r : Radix H) : Type 0 where
  pub find : r.Trie → Bytes → Option H
  pub find_empty : (q : Bytes) → find r.empty q ≡ none
  pub find_insert :
      (p : Bytes) (h : H) (t : r.Trie) (q : Bytes)
      → find (r.insert p h t) q ≡ (if bytes_eq p q then some h else find t q)
  pub longest_found :
      (t : r.Trie) (k p : Bytes) (h : H)
      → r.get_longest_common_prefix t k ≡ some (p, h)
      → (find t p ≡ some h) × (starts_with k p ≡ true)
  pub longest_most :
      (t : r.Trie) (k p q : Bytes) (h h' : H)
      → r.get_longest_common_prefix t k ≡ some (p, h)
      → find t q ≡ some h'
      → starts_with k q ≡ true
      → length q ≤ length p
  pub longest_none :
      (t : r.Trie) (k q : Bytes)
      → r.get_longest_common_prefix t k ≡ none
      → starts_with k q ≡ true
      → find t q ≡ none

module _ (r : Radix FilterFn) where
  -- `add_prefix_route`, on the builder and the static map; it does not fail.
  unfoldable pub add_prefix_route :
      Bytes → FilterFn → RouterBuilder × r.Trie → RouterBuilder × r.Trie
  add_prefix_route prefix handler (b, t) =
      (record b { routes_added = true }, r.insert prefix handler t)

  unfoldable pub binary_router_fn : r.Trie → FilterFn
  binary_router_fn t level key_bytes value_bytes = elim (r.get_longest_common_prefix t key_bytes) [
    | none ↦ keep_entry
    | some (_, handler) ↦ handler level key_bytes value_bytes
  ]

  -- `build`; its function reads the static map at each call.
  unfoldable pub build_binary :
      {E : Type 0} → RouterBuilder → StoreResult E (r.Trie → FilterRouterConfig)
  unfolding binary_router_fn
  build_binary b = elim b.operator_name [
    | none ↦ err (invalid_configuration (text "Binary compaction filter operator name must be set"))
    | some name ↦ ok (λ t. record { name = name; filter_fn_ptr = binary_router_fn t })
  ]

  -- The routes of a program, the newest first.
  unfoldable pub with_routes :
      List (Bytes × FilterFn) → RouterBuilder × r.Trie → RouterBuilder × r.Trie
  unfolding add_prefix_route
  with_routes [] s = s
  with_routes ((p, h) ∷ older) s = add_prefix_route p h (with_routes older s)
