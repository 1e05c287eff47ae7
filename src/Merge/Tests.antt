-- ===== src/Merge/Tests.antt =====
-- The theorems on merging at concrete data.
use rocksolid.Base.{ℕ, ◌≡◌, ◌↔◌, refl, none, some, List, [], ◌∷◌, Bytes, true, length}
use rocksolid.Base.Outcome.{Result, ok, err, try_map}
use rocksolid.Errors.{text}
use rocksolid.Serialization.{Codec, deserialize_value}
use rocksolid.Merge.{
  default_full_merge, MergeValue, add, validate_mergevalues_associativity,
  validate_expirable_mergevalues_associativity,
}
use rocksolid.Merge.Operands.{one_operator, validate_mergevalues_associativity-eq-ok_iff}
use rocksolid.Merge.Expirable.{NoneLater, attained, validate_expirable_latest}

abbrev ops : List Bytes
ops = (1 ∷ []) ∷ (2 ∷ []) ∷ []

merged_first : default_full_merge none ops ≡ some (some (1 ∷ 2 ∷ []))
unfolding default_full_merge
merged_first = refl

-- A codec of one byte for the operator, and the rest for the patch.
read_merge : Bytes → Result ℕ (MergeValue Bytes)
read_merge [] = err 0
read_merge (b ∷ bs) = ok (record { operator = add; patch = bs })

abbrev patches : Codec ℕ (MergeValue Bytes)
unfolding read_merge
patches = record {
  serialize = λ m. ok m.patch;
  deserialize = λ b. elim (read_merge b) [ ok m ↦ ok m | err e ↦ err (text "empty") ];
}

abbrev added : List (MergeValue Bytes)
added = record { operator = add; patch = [] } ∷ record { operator = add; patch = [] } ∷ []

validate_mergevalues_associativity-eq-ok_iff_example :
    (validate_mergevalues_associativity patches ops ≡ some (ok added))
    ↔ ((try_map (deserialize_value patches) ops ≡ ok added) × (one_operator added ≡ true))
validate_mergevalues_associativity-eq-ok_iff_example =
    validate_mergevalues_associativity-eq-ok_iff patches ops added

abbrev timed : List Bytes
timed =
    (0 ∷ 0 ∷ 0 ∷ 0 ∷ 0 ∷ 0 ∷ 0 ∷ 9 ∷ 1 ∷ [])
    ∷ (0 ∷ 0 ∷ 0 ∷ 0 ∷ 0 ∷ 0 ∷ 1 ∷ 0 ∷ 1 ∷ [])
    ∷ (0 ∷ 0 ∷ 0 ∷ 0 ∷ 0 ∷ 0 ∷ 0 ∷ 200 ∷ 1 ∷ [])
    ∷ []

abbrev three : List (MergeValue Bytes)
three = record { operator = add; patch = [] } ∷ added

validated : validate_expirable_mergevalues_associativity patches timed ≡ some (ok (three, 256))
unfolding validate_expirable_mergevalues_associativity patches
validated = refl

validate_expirable_latest_example :
    (length three ≡ length timed)
    × (one_operator three ≡ true)
    × NoneLater 256 timed
    × (attained 256 timed ≡ true)
validate_expirable_latest_example = validate_expirable_latest patches timed three 256 validated
