-- ===== src/Routing.antt =====
-- The routers of src/merge.rs and src/compaction_filter/mod.rs: they choose a merge function or a
-- compaction filter by the pattern of a key. The router of the crate `matchit` is foreign, and so are
-- the parameters that it extracts. The static routers are the state `Routers`: a function that was
-- registered reads them when it is called.
pub mod Binary
pub mod Longest
pub mod Prefixes
mod Tests
use rocksolid.Base.{ℕ, Option, none, some, List, Bytes, String, Bool, true, false, if◌then◌else◌}
use rocksolid.Base.Outcome
use rocksolid.Base.Outcome.{Result, ok, err, map_err}
use rocksolid.Base.Action.{Action, lift, ◌>>=◌, ◌>>◌}
use rocksolid.Errors.{StoreError, StoreResult, Message, invalid_configuration, text, join}
use rocksolid.Merge.{default_full_merge, default_partial_merge}
use rocksolid.Config.Stores.{
  MergeFn, MergeOperatorConfig, FilterFn, FilterDecision, keep_entry, FilterRouterConfig,
}

-- `matchit::Router`, and `String::from_utf8`. An insertion that fails may change the router.
pub record Matchit (E : Type 0) : Type 1 where
  pub Router : Type 0 → Type 0
  pub Params : Type 0
  pub empty : {H : Type 0} → Router H
  pub insert : {H : Type 0} → String → H → Action (Router H) (Message E) (Unit {0})
  pub at : {H : Type 0} → Router H → String → Option (H × Params)
  pub from_utf8 : Bytes → Option String

module _ {E : Type 0} (m : Matchit E) where
  -- `MergeRouteHandlerFn` and `CompactionFilterRouteHandlerFn`
  abbrev pub MergeHandler : Type 0
  MergeHandler = Bytes → Option Bytes → List Bytes → m.Params → Option (Option Bytes)

  abbrev pub FilterHandler : Type 0
  FilterHandler = ℕ → Bytes → Bytes → m.Params → FilterDecision

  pub record Routers : Type 0 where
    pub full_merge : m.Router MergeHandler
    pub partial_merge : m.Router MergeHandler
    pub compaction_filter : m.Router FilterHandler

  unfoldable pub router_full_merge_fn : Routers → MergeFn
  unfolding default_full_merge
  router_full_merge_fn rs key_bytes existing_val_opt operands = elim (m.from_utf8 key_bytes) [
    | none ↦ default_full_merge existing_val_opt operands
    | some key_str ↦ elim (m.at rs.full_merge key_str) [
      | none ↦ default_full_merge existing_val_opt operands
      | some (handler, params) ↦ handler key_bytes existing_val_opt operands params
    ]
  ]

  unfoldable pub router_partial_merge_fn : Routers → MergeFn
  unfolding default_partial_merge
  router_partial_merge_fn rs key_bytes existing_val_opt operands = elim (m.from_utf8 key_bytes) [
    | none ↦ default_partial_merge existing_val_opt operands
    | some key_str ↦ elim (m.at rs.partial_merge key_str) [
      | none ↦ default_partial_merge existing_val_opt operands
      | some (handler, params) ↦ handler key_bytes existing_val_opt operands params
    ]
  ]

  unfoldable pub router_compaction_filter_fn : Routers → FilterFn
  router_compaction_filter_fn rs level key_bytes value_bytes = elim (m.from_utf8 key_bytes) [
    | none ↦ keep_entry
    | some key_str ↦ elim (m.at rs.compaction_filter key_str) [
      | none ↦ keep_entry
      | some (handler, params) ↦ handler level key_bytes value_bytes params
    ]
  ]

  -- `clear_compaction_filter_routes`, which does nothing without the feature `test-utils`.
  unfoldable pub clear_compaction_filter_routes : Bool → Routers → Routers
  clear_compaction_filter_routes test_utils rs =
      if test_utils then record rs { compaction_filter = m.empty } else rs

-- `MergeRouterBuilder`, and `CompactionFilterRouterBuilder`, which has the same fields.
pub record RouterBuilder : Type 0 where
  pub operator_name : Option String
  pub routes_added : Bool

unfoldable pub new_builder : RouterBuilder
new_builder = record { operator_name = none; routes_added = false }

unfoldable pub operator_name : String → RouterBuilder → RouterBuilder
operator_name name b = record b { operator_name = some name }

module _ {E : Type 0} (m : Matchit E) where
  abbrev pub BuilderAction : Type 0
  BuilderAction = Action (RouterBuilder × Routers m) (StoreError E) (Unit {0})

  -- The error of a pattern that the router refuses.
  abbrev pub invalid_pattern : String → String → Message E → StoreError E
  invalid_pattern before route_pattern e =
      invalid_configuration (join (text before) (join (text route_pattern) (join (text "': ") e)))

  unfoldable pub add_full_merge_route : String → MergeHandler m → BuilderAction
  add_full_merge_route route_pattern handler (b, rs) =
      let (r, router) = m.insert route_pattern handler rs.full_merge in
      let rs' = record rs { full_merge = router } in
      elim r [
        | err e ↦
            (err (invalid_pattern "Invalid full merge route pattern '" route_pattern e), (b, rs'))
        | ok _ ↦ (ok tt, (record b { routes_added = true }, rs'))
      ]

  unfoldable pub add_partial_merge_route : String → MergeHandler m → BuilderAction
  add_partial_merge_route route_pattern handler (b, rs) =
      let (r, router) = m.insert route_pattern handler rs.partial_merge in
      let rs' = record rs { partial_merge = router } in
      elim r [
        | err e ↦ (
          err (invalid_pattern "Invalid partial merge route pattern '" route_pattern e),
          (b, rs'),
        )
        | ok _ ↦ (ok tt, (record b { routes_added = true }, rs'))
      ]

  -- `add_route` of the merge router
  unfoldable pub add_merge_route : String → MergeHandler m → MergeHandler m → BuilderAction
  unfolding add_full_merge_route add_partial_merge_route
  add_merge_route route_pattern full_merge_handler partial_merge_handler =
      add_full_merge_route route_pattern full_merge_handler
      >> add_partial_merge_route route_pattern partial_merge_handler

  -- `add_route` of the compaction filter router
  unfoldable pub add_filter_route : String → FilterHandler m → BuilderAction
  add_filter_route route_pattern handler (b, rs) =
      let (r, router) = m.insert route_pattern handler rs.compaction_filter in
      let rs' = record rs { compaction_filter = router } in
      elim r [
        | err e ↦ (
          err (invalid_pattern "Invalid compaction filter route pattern '" route_pattern e),
          (b, rs'),
        )
        | ok _ ↦ (ok tt, (record b { routes_added = true }, rs'))
      ]

  -- `build` of the merge router; its functions read the static routers at each call.
  unfoldable pub build_merge : RouterBuilder → StoreResult E (Routers m → MergeOperatorConfig)
  unfolding router_full_merge_fn router_partial_merge_fn
  build_merge b = elim b.operator_name [
    | none ↦ err (invalid_configuration (text "Merge router operator name must be set"))
    | some name ↦ ok (λ rs. record {
      name = name;
      full_merge_fn = some (router_full_merge_fn m rs);
      partial_merge_fn = some (router_partial_merge_fn m rs);
    })
  ]

  -- `build` of the compaction filter router
  unfoldable pub build_filter : RouterBuilder → StoreResult E (Routers m → FilterRouterConfig)
  unfolding router_compaction_filter_fn
  build_filter b = elim b.operator_name [
    | none ↦ err (invalid_configuration (text "Compaction filter router operator name must be set"))
    | some name ↦
        ok (λ rs. record { name = name; filter_fn_ptr = router_compaction_filter_fn m rs })
  ]
