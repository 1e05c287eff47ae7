-- ===== src/Merge/Operands.antt =====
-- The validators of merge operands in src/merge.rs.
use rocksolid.Base.{
  ◌≡◌, ◌∙◌, refl, ap, arith, ◌↔◌, some, List, [], ◌∷◌, ◌++◌, Bytes, Bool, true, false, every, inl,
  inr,
}
use rocksolid.Base.Outcome.{ok, try_map, Result-cases}
use rocksolid.Errors.{StoreResult}
use rocksolid.Serialization.{Codec, deserialize_value}
use rocksolid.Merge.{
  MergeValue, MergeValueOperator, same_operator, check_rest, validate_mergevalues_associativity,
}

-- The operators are all that of the first.
abbrev pub one_operator : {V : Type 0} → List (MergeValue V) → Bool
one_operator [] = false
one_operator (m ∷ ms) = every (λ r. same_operator m.operator r.operator) ms

pub append_one :
    {A : Type 0} (xs : List A) (y : A) (ys : List A) → (xs ++ (y ∷ [])) ++ ys ≡ xs ++ (y ∷ ys)
append_one [] y ys = refl
append_one (x ∷ xs) y ys = ap (λ zs. x ∷ zs) (append_one xs y ys)

pub append_none : {A : Type 0} (xs : List A) → xs ++ [] ≡ xs
append_none [] = refl
append_none (x ∷ xs) = ap (λ zs. x ∷ zs) (append_none xs)

module _ {E V : Type 0} (c : Codec E (MergeValue V)) where
  checked :
      (op : MergeValueOperator) (acc vs : List (MergeValue V)) (bs : List Bytes)
      → check_rest c op acc bs ≡ ok vs
      → (rs : List (MergeValue V)) × (try_map (deserialize_value c) bs ≡ ok rs)
        × (every (λ r. same_operator op r.operator) rs ≡ true)
        × (vs ≡ acc ++ rs)
  unfolding check_rest try_map every
  checked op acc vs [] h = ([], refl, refl, ground (arith, append_none acc))
  checked op acc vs (b ∷ bs) h = elim (Result-cases (deserialize_value c b)) [
    | inr (e, q) ↦ absurd (ground arith)
    | inl (r, q) ↦
        let (rs, t, p, v) = checked op (acc ++ (r ∷ [])) vs bs (ground arith) in
        (r ∷ rs, rw (q, t), ground arith, v ∙ append_one acc r rs)
  ]

  accepted :
      (op : MergeValueOperator) (acc rs : List (MergeValue V)) (bs : List Bytes)
      → try_map (deserialize_value c) bs ≡ ok rs
      → every (λ r. same_operator op r.operator) rs ≡ true
      → check_rest c op acc bs ≡ ok (acc ++ rs)
  unfolding check_rest try_map every
  accepted op acc rs [] t p = ground (arith, append_none acc)
  accepted op acc rs (b ∷ bs) t p = elim (Result-cases (deserialize_value c b)) [
    | inr (e, q) ↦ absurd (ground arith)
    | inl (r, q) ↦ elim (Result-cases (try_map (deserialize_value c) bs)) [
      | inr (e, q') ↦ absurd (ground arith)
      | inl (rs', q') ↦
          let tail : List (MergeValue V) = rs' in
          let same : rs ≡ r ∷ tail = ground arith in
          rw same (ground (arith, accepted op (acc ++ (r ∷ [])) tail bs q', append_one acc r tail))
    ]
  ]

  refused :
      (vs : List (MergeValue V))
      → ◌≡◌ {A = StoreResult E (List (MergeValue V))} (ok []) (ok vs) × (one_operator vs ≡ true)
      → ⊥
  refused [] h = ground arith
  refused (v ∷ vs) h = ground arith

  sound :
      (b : Bytes) (bs : List Bytes) (vs : List (MergeValue V))
      → validate_mergevalues_associativity c (b ∷ bs) ≡ some (ok vs)
      → (try_map (deserialize_value c) (b ∷ bs) ≡ ok vs) × (one_operator vs ≡ true)
  unfolding validate_mergevalues_associativity try_map
  sound b bs vs h = elim (Result-cases (deserialize_value c b)) [
    | inr (e, q) ↦ absurd (ground arith)
    | inl (r, q) ↦
        let (rs, t, p, v) = checked r.operator (r ∷ []) vs bs (ground arith) in
        (rw (q, t, v) refl, rw v p)
  ]

  complete :
      (b : Bytes) (bs : List Bytes) (vs : List (MergeValue V))
      → try_map (deserialize_value c) (b ∷ bs) ≡ ok vs
      → one_operator vs ≡ true
      → validate_mergevalues_associativity c (b ∷ bs) ≡ some (ok vs)
  unfolding validate_mergevalues_associativity try_map
  complete b bs vs t p = elim (Result-cases (deserialize_value c b)) [
    | inr (e, q) ↦ absurd (ground arith)
    | inl (r, q) ↦ elim (Result-cases (try_map (deserialize_value c) bs)) [
      | inr (e, q') ↦ absurd (ground arith)
      | inl (rs', q') ↦
          let tail : List (MergeValue V) = rs' in
          let same : vs ≡ r ∷ tail = ground arith in
          rw (q, same) (ap some (accepted r.operator (r ∷ []) tail bs q' (rw same at p)))
    ]
  ]

  -- The validator accepts operands, and returns their values in order, exactly when there is one at
  -- least, all of them deserialize, and their operators are all that of the first.
  pub validate_mergevalues_associativity-eq-ok_iff :
      (bs : List Bytes) (vs : List (MergeValue V))
      → (validate_mergevalues_associativity c bs ≡ some (ok vs))
        ↔ ((try_map (deserialize_value c) bs ≡ ok vs) × (one_operator vs ≡ true))
  unfolding validate_mergevalues_associativity try_map
  validate_mergevalues_associativity-eq-ok_iff [] vs =
      ((λ h. absurd (ground arith)), λ h. absurd (refused vs h))
  validate_mergevalues_associativity-eq-ok_iff (b ∷ bs) vs =
      (sound b bs vs, λ h. complete b bs vs h.0 h.1)
