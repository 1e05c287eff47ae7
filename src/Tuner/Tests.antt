-- ===== src/Tuner/Tests.antt =====
-- The theorems on tuning at concrete data, over options that are two numbers.
use rocksolid.Base.{◌≡◌, ◌∙◌, refl, arith, none, [], ◌∷◌, true, str_eq_iff}
use rocksolid.Base.Int.{pos}
use rocksolid.Tuner.{Tunable, key, is_locked, contains}
use rocksolid.Tuner.Profiles.{TuningProfile, latest_value}
use rocksolid.Tuner.Families.{tune_cf_opts, opens_all_files}
use rocksolid.Tuner.Threads.{kinds, options, profiles, threads_apart}
use rocksolid.Tuner.Locks.{IsKept, tune_cf_opts-keeps}

abbrev eight_threads : Tunable kinds
eight_threads = record {
  inner = record { threads = pos 8; open_files = pos 1000 };
  locked = "db_increase_parallelism" ∷ [];
}

eight_kept : IsKept options eight_threads (λ o. o.threads ≡ pos 8)
unfolding is_locked contains
eight_kept s o q h =
    threads_apart s o (λ e. ground (arith, str_eq_iff "db_increase_parallelism" (key s))) ∙ h

abbrev profile : TuningProfile kinds
profile = latest_value 64 true true none

tune_cf_opts-keeps_example :
    ((tune_cf_opts profiles options profile eight_threads).locked ≡ eight_threads.locked)
    × ((tune_cf_opts profiles options profile eight_threads).inner.threads ≡ pos 8)
tune_cf_opts-keeps_example =
    tune_cf_opts-keeps options profiles profile eight_threads (λ o. o.threads ≡ pos 8)
      (unfold opens_all_files in refl) eight_kept refl
