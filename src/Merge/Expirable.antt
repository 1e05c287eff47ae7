-- ===== src/Merge/Expirable.antt =====
-- The validator of merge operands with an expiry time, of src/merge.rs.
use rocksolid.Base.{
  ℕ, suc, ◌≤◌, ◌⊎◌, ◌==◌, ◌||◌, All, Option-cases, ◌≡◌, ◌∙◌, refl, ap, arith, some, List, [], ◌∷◌,
  ◌++◌, Bytes, Bool, true, false, ltb, length, every, if◌then◌else◌, inl, inr, Bool-cases,
}
use rocksolid.Base.Outcome.{ok, Result-cases}
use rocksolid.Serialization.{Codec}
use rocksolid.Expiry.{ValueWithExpiry, expire_time_from_slice, from_vec, get_value}
use rocksolid.Merge.{
  MergeValue, MergeValueOperator, same_operator, check_expirable_rest,
  validate_expirable_mergevalues_associativity,
}
use rocksolid.Expiry.Storage.{readers_short, readers_long}
use rocksolid.Merge.Operands.{one_operator, append_one, append_none}

-- No operand expires later.
abbrev pub NoneLater : ℕ → List Bytes → Type 0
NoneLater t bs = All (λ b. expire_time_from_slice b ≤ t) bs

-- Whether the time is that of one of the operands.
abbrev pub attained : ℕ → List Bytes → Bool
attained t [] = false
attained t (b ∷ bs) = expire_time_from_slice b == t || attained t bs

module _ {E V : Type 0} (c : Codec E (MergeValue V)) where
  from_vec-time :
      (b : Bytes) (v : ValueWithExpiry)
      → from_vec b ≡ some v
      → v.expire_time ≡ expire_time_from_slice b
  from_vec-time b v h = ground (arith, readers_short {E = E} b, readers_long {E = E} b)

  expirable_rest :
      (op : MergeValueOperator) (t : ℕ) (acc vs : List (MergeValue V)) (t' : ℕ) (bs : List Bytes)
      → check_expirable_rest c op t acc bs ≡ some (ok (vs, t'))
      → (t ≤ t')
        × NoneLater t' bs
        × ((t' ≡ t) ⊎ (attained t' bs ≡ true))
        × ((rs : List (MergeValue V)) × (vs ≡ acc ++ rs)
            × (every (λ r. same_operator op r.operator) rs ≡ true)
            × (length rs ≡ length bs))
  unfolding check_expirable_rest every
  expirable_rest op t acc vs t' [] h =
      (ground arith, tt, inl (ground arith), ([], ground (arith, append_none acc), refl, refl))
  expirable_rest op t acc vs t' (b ∷ bs) h = elim (Option-cases (from_vec b)) [
    | inl q ↦ absurd (ground arith)
    | inr (w, q) ↦ elim (Result-cases (get_value c w)) [
      | inr (e, p) ↦ absurd (ground arith)
      | inl (r, p) ↦
          let later : ℕ = if ltb t w.expire_time then w.expire_time else t in
          let (a, n, m, (rs, v, o, l)) =
            expirable_rest op later (acc ++ (r ∷ [])) vs t' bs (ground arith) in
          let tm = from_vec-time b w q in
          (
            ground arith,
            (ground arith, n),
            elim m [
              | inl e ↦ elim (Bool-cases (ltb t w.expire_time)) [
                | inl y ↦ inr (ground arith)
                | inr y ↦ inl (ground arith)
              ]
              | inr e ↦ inr (ground arith)
            ],
            (r ∷ rs, v ∙ append_one acc r rs, ground arith, ap suc l),
          )
    ]
  ]

  -- When the validator of expirable operands returns values and a time, there is one value for each
  -- operand, their operators are all that of the first, and the time is the latest of the operands'.
  pub validate_expirable_latest :
      (bs : List Bytes) (vs : List (MergeValue V)) (t : ℕ)
      → validate_expirable_mergevalues_associativity c bs ≡ some (ok (vs, t))
      → (length vs ≡ length bs) × (one_operator vs ≡ true) × NoneLater t bs × (attained t bs ≡ true)
  unfolding validate_expirable_mergevalues_associativity
  validate_expirable_latest [] vs t h = absurd (ground arith)
  validate_expirable_latest (b ∷ bs) vs t h = elim (Option-cases (from_vec b)) [
    | inl q ↦ absurd (ground arith)
    | inr (w, q) ↦ elim (Result-cases (get_value c w)) [
      | inr (e, p) ↦ absurd (ground arith)
      | inl (r, p) ↦
          let (a, n, m, (rs, v, o, l)) =
            expirable_rest r.operator w.expire_time (r ∷ []) vs t bs (ground arith) in
          let tm = from_vec-time b w q in (rw v (ap suc l), rw v o, (ground arith, n), ground arith)
    ]
  ]
