-- ===== src/Routing/Tests.antt =====
-- The theorem on the binary compaction filter at concrete routes.
use rocksolid.Base.{◌≡◌, none, List, [], ◌∷◌, Bytes, false}
use rocksolid.Config.Stores.{FilterFn, keep_entry, remove_entry}
use rocksolid.Routing.{RouterBuilder}
use rocksolid.Routing.Binary.{binary_router_fn}
use rocksolid.Routing.Longest.{registered, reference_filter, binary_router_fn-reference}
use rocksolid.Routing.Prefixes.{entries, entries-IsRadix}

-- Entries under 1, 2 are kept, all others under 1 are removed.
abbrev two_routes : List (Bytes × FilterFn)
two_routes = (1 ∷ [], λ l k v. remove_entry) ∷ (1 ∷ 2 ∷ [], λ l k v. keep_entry) ∷ []

abbrev builder : RouterBuilder
builder = record { operator_name = none; routes_added = false }

binary_router_fn-reference_example :
    binary_router_fn entries
      (registered entries entries-IsRadix two_routes builder)
      0
      (1 ∷ 2 ∷ 3 ∷ [])
      (9 ∷ [])
    ≡ reference_filter two_routes 0 (1 ∷ 2 ∷ 3 ∷ []) (9 ∷ [])
binary_router_fn-reference_example =
    binary_router_fn-reference entries entries-IsRadix two_routes builder 0 (1 ∷ 2 ∷ 3 ∷ [])
      (9 ∷ [])
