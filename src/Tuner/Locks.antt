-- ===== src/Tuner/Locks.antt =====
-- What a lock guarantees: the settings that a profile tunes (src/tuner/profiles.rs) leave the options
-- that were set before (src/tuner/tunable.rs), but for one call.
use rocksolid.Base.{
  ◌≡◌, refl, arith, Bool-cases, inl, inr, ℕ, List, [], ◌∷◌, true, false, str_eq_iff,
}
use rocksolid.Base.Int.{negsuc}
use rocksolid.Tuner.{
  Kinds, OptionsApi, Setting, by_macro, max_open_files, Tunable, key, macro_key, contains,
  is_locked, lock, set, tune, tune_all,
}
use rocksolid.Tuner.Profiles.{ProfileApi, TuningProfile, db_settings, tune_db_opts}
use rocksolid.Tuner.Families.{cf_settings, opens_all_files, tune_cf_opts}

module _ {K : Kinds} (api : OptionsApi K) where
  -- What the calls of all settings that are not locked keep, of the options.
  abbrev pub IsKept : Tunable K → (K.Options → Type 0) → Type 0
  IsKept t P =
      (s : Setting K) (o : K.Options) → is_locked t (key s) ≡ false → P o → P (api.call s o)

  tune-locked : (s : Setting K) (t : Tunable K) → (tune api s t).locked ≡ t.locked
  unfolding tune
  tune-locked s t = ground arith

  tune-keeps :
      (s : Setting K) (t : Tunable K) (P : K.Options → Type 0)
      → IsKept t P
      → P t.inner
      → P (tune api s t).inner
  unfolding tune
  tune-keeps s t P kept h = elim (Bool-cases (is_locked t (key s))) [
    | inl q ↦ rw q h
    | inr q ↦ rw q (kept s t.inner q h)
  ]

  tune_all-locked : (ss : List (Setting K)) (t : Tunable K) → (tune_all api ss t).locked ≡ t.locked
  unfolding tune_all
  tune_all-locked [] t = refl
  tune_all-locked (s ∷ ss) t = ground (arith, tune-locked s t, tune_all-locked ss (tune api s t))

  tune_all-keeps :
      (ss : List (Setting K)) (t : Tunable K) (P : K.Options → Type 0)
      → IsKept t P
      → P t.inner
      → P (tune_all api ss t).inner
  unfolding tune_all
  tune_all-keeps [] t P kept h = h
  tune_all-keeps (s ∷ ss) t P kept h =
      let same = tune-locked s t in
      let kept' : IsKept (tune api s t) P =
        unfold is_locked in (λ s' o q. kept s' o (rw⁻¹ same q)) in
      tune_all-keeps ss (tune api s t) P kept' (tune-keeps s t P kept h)

  -- A value that was set is locked, and holds after any number of settings are tuned: what its call
  -- brings about and the calls of the settings that are not locked then keep.
  pub tune_all-set :
      (s : Setting K) (ss : List (Setting K)) (t : Tunable K) (P : K.Options → Type 0)
      → IsKept (set api s t) P
      → P (api.call s t.inner)
      → (is_locked (tune_all api ss (set api s t)) (key s) ≡ true)
        × P (tune_all api ss (set api s t)).inner
  tune_all-set s ss t P kept h = (
    unfold is_locked in
        rw (tune_all-locked ss (set api s t))
          (unfold set lock contains in ground (arith, str_eq_iff (key s) (key s))),
    tune_all-keeps ss (set api s t) P kept (unfold set lock in h),
  )

  module _ (f : ProfileApi K) (p : TuningProfile K) (t : Tunable K) (P : K.Options → Type 0) where
    -- Tuning the options of a database by any profile leaves the locks as they are, and keeps all that
    -- the settings that are not locked keep of the options.
    pub tune_db_opts-keeps :
        (cpus : ℕ)
        → IsKept t P
        → P t.inner
        → ((tune_db_opts f api cpus p t).locked ≡ t.locked) × P (tune_db_opts f api cpus p t).inner
    unfolding tune_db_opts
    tune_db_opts-keeps cpus kept h =
        (tune_all-locked (db_settings f cpus p) t, tune_all-keeps (db_settings f cpus p) t P kept h)

    -- Tuning the options of a family by any profile, but that for time series with FIFO compaction,
    -- leaves the locks as they are, and keeps all that the settings that are not locked keep.
    pub tune_cf_opts-keeps :
        opens_all_files f p ≡ false
        → IsKept t P
        → P t.inner
        → ((tune_cf_opts f api p t).locked ≡ t.locked) × P (tune_cf_opts f api p t).inner
    unfolding tune_cf_opts
    tune_cf_opts-keeps q kept h =
        rw q (tune_all-locked (cf_settings f p) t, tune_all-keeps (cf_settings f p) t P kept h)

  module _ (f : ProfileApi K) (p : TuningProfile K) (t : Tunable K) where
    -- The profile for time series with FIFO compaction sets the number of open files of the options of
    -- a column family to -1, whether or not the caller had locked it, and leaves it locked.
    pub tune_cf_opts-fifo :
        opens_all_files f p ≡ true
        → ((tune_cf_opts f api p t).inner
            ≡ api.call
                (by_macro (max_open_files (negsuc 0)))
                (tune_all api (cf_settings f p) t).inner)
          × (is_locked (tune_cf_opts f api p t) "db_max_open_files" ≡ true)
    unfolding tune_cf_opts set lock key macro_key is_locked contains
    tune_cf_opts-fifo h =
        (rw h, rw h (ground (arith, str_eq_iff "db_max_open_files" "db_max_open_files")))
