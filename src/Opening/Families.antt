-- ===== src/Opening/Families.antt =====
-- Which options each column family is opened with (src/cf_store.rs), and what that says of a store
-- of the default family, whose configuration is converted (src/config.rs).
use rocksolid.Base.{◌≡◌, refl, ap, Option, none, some, List, [], ◌∷◌, map, String, false}
use rocksolid.Base.Map.{Map, lookup, insert, modify, remove, after}
use rocksolid.Engine.{default_cf}
use rocksolid.Tuner.{Kinds, Tunable, contains}
use rocksolid.Config.Stores.{BaseCfConfig, CfStoreConfig, StoreConfig}
use rocksolid.Config.Convert.{cf_store_config, on_default_entry}
use rocksolid.Opening.{
  OpeningApi, db_options, cf_tunable, cf_options_map, ensure_default, customized, apply_config,
  apply_configs, unwrapped, cf_descriptors, descriptors, destroy_options,
}

-- No name occurs twice.
abbrev pub Distinct : List String → Type 0
Distinct [] = Unit
Distinct (n ∷ ns) = (contains ns n ≡ false) × Distinct ns

abbrev pub keys : {A : Type 0} → Map A → List String
keys [] = []
keys ((n, a) ∷ m) = n ∷ keys m

module _ {E : Type 0} {K : Kinds} {Db World : Type 0} (api : OpeningApi E K Db World) where
  abbrev configured : Option (BaseCfConfig K) → Option K.Options → Option K.Options
  configured none o = o
  configured (some c) o = after (apply_config api c) o

  names-cf_descriptors :
      (ns : List String) (m : Map K.Options) → map (λ d. d.0) (cf_descriptors api ns m) ≡ ns
  unfolding cf_descriptors
  names-cf_descriptors [] m = refl
  names-cf_descriptors (n ∷ ns) m = ap (λ xs. n ∷ xs) (names-cf_descriptors ns (remove n m))

  -- What a family is opened with: its profile or else that of the database, then its configuration.
  unfoldable pub family_options : CfStoreConfig K → String → K.Options
  unfolding cf_tunable lookup apply_config
  family_options cfg n = elim (lookup n cfg.column_family_configs) [
    | none ↦ (cf_tunable api cfg n).inner
    | some c ↦ apply_config api c (cf_tunable api cfg n).inner
  ]

  pub names-descriptors :
      (cfg : CfStoreConfig K) → map (λ d. d.0) (descriptors api cfg) ≡ cfg.column_families_to_open
  unfolding descriptors
  names-descriptors cfg = names-cf_descriptors cfg.column_families_to_open _

  -- A store of the default family opens that family alone. Its callback changes the options of the
  -- database and those of the family, before the configuration of the family is applied; when the
  -- files of the database are destroyed, the callback is not called.
  pub open_default-callback :
      (cfg : StoreConfig K) (user_fn : Tunable K × Tunable K → Tunable K × Tunable K)
      → cfg.custom_options_default_cf_and_db ≡ some user_fn
      → let full = cf_store_config cfg in
        let made = user_fn (db_options api full, cf_tunable api full default_cf) in
        ((customized api full).0 ≡ made.0)
        × (descriptors api full
            ≡ (
              default_cf,
              apply_config api
                  (record {
                    tuning_profile = cfg.default_cf_tuning_profile;
                    merge_operator = cfg.default_cf_merge_operator;
                    comparator = cfg.comparator;
                    compaction_filter_router = cfg.compaction_filter_router;
                  })
                  made.1.inner,
            )
              ∷ [])
        × (destroy_options api full
            ≡ destroy_options api (record full { custom_options_db_and_cf = none }))
  unfolding customized descriptors destroy_options cf_store_config on_default_entry cf_options_map
      ensure_default apply_configs unwrapped cf_descriptors lookup insert modify
  open_default-callback cfg user_fn h = (rw h refl, rw h refl, rw h refl)
