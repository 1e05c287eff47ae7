-- ===== src/Merge.antt =====
-- The validators of operands of src/merge.rs and the default merge functions of src/config.rs. The
-- operands of a merge are the list of byte strings that `rocksdb` hands over; a panic is `none` of an
-- outer `Option`.
pub mod Default
pub mod Operands
pub mod Expirable
mod Tests
use rocksolid.Base.{
  ℕ, zero, suc, ◌+◌, ◌-◌, Option, none, some, List, [], ◌∷◌, ◌++◌, Bytes, String, Bool, true, false,
  not, ltb, length, if◌then◌else◌, str_append,
}
use rocksolid.Base.Outcome.{Result, ok, err, map_err, ◌>>=◌}
use rocksolid.Errors.{StoreResult, Message, merge_error, invalid_configuration, text, join}
use rocksolid.Serialization.{Codec, deserialize_value}
use rocksolid.Expiry.{ValueWithExpiry, from_vec, get_value}

-- `operands.iter().nth(i)`
unfoldable pub nth : {A : Type 0} → List A → ℕ → Option A
nth [] i = none
nth (a ∷ as') zero = some a
nth (a ∷ as') (suc i) = nth as' i

-- `for op in operands { result_val.extend_from_slice(op) }`
unfoldable pub extend_all : Bytes → List Bytes → Bytes
extend_all result_val [] = result_val
extend_all result_val (op ∷ ops) = extend_all (result_val ++ op) ops

-- The loop over the indices from `op_idx` on, `n` of them.
unfoldable pub extend_nth : List Bytes → Bytes → ℕ → ℕ → Option Bytes
unfolding nth
extend_nth operands result_val op_idx zero = some result_val
extend_nth operands result_val op_idx (suc n) = elim (nth operands op_idx) [
  | none ↦ none
  | some op ↦ extend_nth operands (result_val ++ op) (suc op_idx) n
]

unfoldable pub default_full_merge : Option Bytes → List Bytes → Option (Option Bytes)
unfolding extend_all extend_nth
default_full_merge (some existing) operands = some (some (extend_all existing operands))
default_full_merge none [] = some none
default_full_merge none (first ∷ rest) =
    elim (extend_nth (first ∷ rest) first 1 (length (first ∷ rest) - 1)) [
      | none ↦ none
      | some result_val ↦ some (some result_val)
    ]

unfoldable pub default_partial_merge : Option Bytes → List Bytes → Option (Option Bytes)
default_partial_merge existing operands = some none

-- `MergeValueOperator` and `MergeValue` of src/types.rs
pub data MergeValueOperator : Type 0 where
  add remove union intersect : MergeValueOperator

pub record MergeValue (V : Type 0) : Type 0 where
  pub operator : MergeValueOperator
  pub patch : V

unfoldable pub same_operator : MergeValueOperator → MergeValueOperator → Bool
same_operator add add = true
same_operator remove remove = true
same_operator union union = true
same_operator intersect intersect = true
same_operator _ _ = false

module _ {E V : Type 0} (c : Codec E (MergeValue V)) where
  -- The loop over the operands after the first.
  unfoldable pub check_rest :
      MergeValueOperator → List (MergeValue V) → List Bytes → StoreResult E (List (MergeValue V))
  unfolding deserialize_value same_operator
  check_rest op merge_values [] = ok merge_values
  check_rest op merge_values (b ∷ bs) = deserialize_value c b >>= λ r.
      if not (same_operator op r.operator)
      then err (merge_error (text "merge lvalue != merge rvalue"))
      else check_rest op (merge_values ++ (r ∷ [])) bs

  unfoldable pub validate_mergevalues_associativity :
      List Bytes → Option (StoreResult E (List (MergeValue V)))
  unfolding deserialize_value check_rest
  validate_mergevalues_associativity [] = none
  validate_mergevalues_associativity (b ∷ bs) =
      some (deserialize_value c b >>= λ l. check_rest l.operator (l ∷ []) bs)

  unfoldable pub check_expirable_rest :
      MergeValueOperator
      → ℕ
      → List (MergeValue V)
      → List Bytes
      → Option (StoreResult E (List (MergeValue V) × ℕ))
  unfolding from_vec get_value same_operator
  check_expirable_rest op expire_time merge_values [] = some (ok (merge_values, expire_time))
  check_expirable_rest op expire_time merge_values (b ∷ bs) = elim (from_vec b) [
    | none ↦ none
    | some r_op ↦ elim (get_value c r_op) [
      | err e ↦ some (err e)
      | ok r ↦
          let later = if ltb expire_time r_op.expire_time then r_op.expire_time else expire_time in
          if not (same_operator op r.operator)
          then some (err (merge_error (text "merge lvalue != merge rvalue")))
          else check_expirable_rest op later (merge_values ++ (r ∷ [])) bs
    ]
  ]

  unfoldable pub validate_expirable_mergevalues_associativity :
      List Bytes → Option (StoreResult E (List (MergeValue V) × ℕ))
  unfolding from_vec get_value check_expirable_rest
  validate_expirable_mergevalues_associativity [] = none
  validate_expirable_mergevalues_associativity (b ∷ bs) = elim (from_vec b) [
    | none ↦ none
    | some l_op ↦ elim (get_value c l_op) [
      | err e ↦ some (err e)
      | ok l ↦ check_expirable_rest l.operator l_op.expire_time (l ∷ []) bs
    ]
  ]
