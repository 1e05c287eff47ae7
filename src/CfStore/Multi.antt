-- ===== src/CfStore/Multi.antt =====
-- The `multiget` family against single reads, and the answer for a family that is not open.
use rocksolid.Base.{
  ◌≡◌, refl, sym, ◌∙◌, ap, arith, inl, inr, Bool-cases, Option-cases, Option, none, List, [], ◌∷◌,
  map, Bytes, String, str_eq,
}
use mathlib.Core.Path.{fun_ext}
use rocksolid.Base.Outcome.{Result, ok, err, map_err, map_or_none, try_map}
use rocksolid.Errors.{StoreResult, rocks_db}
use rocksolid.Serialization.{Codec, KeyType, serialize_key, deserialize_value}
use rocksolid.Engine.{Engine, default_cf}
use rocksolid.Engine.Laws.{IsKeyValue}
use rocksolid.CfStore.{CfStore, get_raw, decode_answer, read_many, multiget, multiget_raw}

module _ {E : Type 0} {A B C : Type 0} where
  try_map-map :
      (f : A → B) (h : B → StoreResult E C) (xs : List A)
      → try_map h (map f xs) ≡ try_map (λ a. h (f a)) xs
  unfolding try_map
  try_map-map f h [] = refl
  try_map-map f h (x ∷ xs) = rw (try_map-map f h xs)

module _ {E : Type 0} {A B : Type 0} where
  try_map_err :
      (f : A → Result E B) (xs : List A)
      → map_err rocks_db (try_map (λ (r : Result E B). r) (map f xs))
        ≡ try_map (λ a. map_err rocks_db (f a)) xs
  unfolding try_map
  try_map_err f [] = refl
  try_map_err f (x ∷ xs) = ground (arith, try_map_err f xs)

  try_map_ext :
      (f h : A → StoreResult E B) (xs : List A)
      → ((a : A) → f a ≡ h a)
      → try_map f xs ≡ try_map h xs
  try_map_ext f h xs p = ap (λ (q : A → StoreResult E B). try_map q xs) (fun_ext p)

pub serialize_all :
    {E K : Type 0} (kt : KeyType E K) (ks : List K)
    → try_map (serialize_key {E = E} kt) ks ≡ ok (map kt.as_bytes ks)
unfolding try_map serialize_key
serialize_all kt [] = refl
serialize_all kt (k ∷ ks) = rw (serialize_all kt ks)

-- What `multiget` makes of one key's `get_raw`: a database error counts as an absent key.
abbrev pub forgiven :
    {E V : Type 0} → Codec E V → StoreResult E (Option Bytes) → StoreResult E (Option V)
forgiven c (ok o) = map_or_none (deserialize_value c) o
forgiven c (err (rocks_db e)) = ok none
forgiven c (err e) = err e

decoded :
    {E V : Type 0} (c : Codec E V) (r : Result E (Option Bytes))
    → decode_answer c r ≡ forgiven c (map_err rocks_db r)
decoded c (ok o) = refl
decoded c (err e) = refl

module _ {E : Type 0} {g : Engine E} {K : Type 0} (kt : KeyType E K) where
  -- Both halves of the theorem below, for a family whose keys are read by `read`.
  module _ {V : Type 0} (c : Codec E V) (st : CfStore g) (n : String) (k : K) (ks : List K)
      (read : Bytes → Result E (Option Bytes))
      (many : read_many g st n (map kt.as_bytes (k ∷ ks))
        ≡ ok (map read (map kt.as_bytes (k ∷ ks))))
      (each : (j : K) → get_raw g kt st n j ≡ map_err rocks_db (read (kt.as_bytes j))) where
    raw_of_read : multiget_raw g kt st n (k ∷ ks) ≡ try_map (get_raw g kt st n) (k ∷ ks)
    unfolding multiget_raw
    raw_of_read =
        rw (serialize_all kt (k ∷ ks), many)
          (rw (try_map_err read (map kt.as_bytes (k ∷ ks)), try_map-map kt.as_bytes)
            (try_map_ext _ _ (k ∷ ks) (λ j. sym (each j))))

    typed_of_read :
        multiget g kt c st n (k ∷ ks) ≡ try_map (λ j. forgiven c (get_raw g kt st n j)) (k ∷ ks)
    unfolding multiget
    typed_of_read =
        rw (serialize_all kt (k ∷ ks), many)
          (rw
            (try_map-map read (decode_answer c) (map kt.as_bytes (k ∷ ks)), try_map-map kt.as_bytes)
            (try_map_ext (λ j. decode_answer c (read (kt.as_bytes j)))
              (λ j. forgiven c (get_raw g kt st n j)) (k ∷ ks)
              (λ j. rw (each j) (decoded c (read (kt.as_bytes j))))))

  module _ (law : IsKeyValue g) where
    many_open :
        (hd : g.Handle) (st : CfStore g) (bs : List Bytes)
        → g.multi_get_cf st.db (map (λ sk. (hd, sk)) bs) ≡ map (g.get_pinned_cf st.db hd) bs
    many_open hd st bs = law.multi_get_cf_each st.db (map (λ sk. (hd, sk)) bs) ∙ map_pairs bs
      where
        map_pairs :
            (bs : List Bytes)
            → map
                (λ (p : g.Handle × Bytes). g.get_pinned_cf st.db p.0 p.1)
                (map (λ sk. (hd, sk)) bs)
              ≡ map (g.get_pinned_cf st.db hd) bs
        map_pairs [] = refl
        map_pairs (b ∷ bs) = rw (map_pairs bs)

    module _ {V : Type 0} (c : Codec E V) (st : CfStore g) (n : String) (k : K) (ks : List K) where
      Both : Type 0
      Both =
          (multiget_raw g kt st n (k ∷ ks) ≡ try_map (get_raw g kt st n) (k ∷ ks))
          × (multiget g kt c st n (k ∷ ks)
              ≡ try_map (λ j. forgiven c (get_raw g kt st n j)) (k ∷ ks))

      both_of_read :
          (read : Bytes → Result E (Option Bytes))
          → read_many g st n (map kt.as_bytes (k ∷ ks)) ≡ ok (map read (map kt.as_bytes (k ∷ ks)))
          → ((j : K) → get_raw g kt st n j ≡ map_err rocks_db (read (kt.as_bytes j)))
          → Both
      unfolding Both
      both_of_read read many each =
          (raw_of_read c st n k ks read many each, typed_of_read c st n k ks read many each)

      both_cases : Both
      unfolding read_many get_raw
      both_cases = elim (Bool-cases (str_eq n default_cf)) [
        | inl e ↦ both_of_read (g.get_pinned st.db) (rw (e, law.multi_get_each st.db)) (λ j. rw e)
        | inr e ↦ elim (Option-cases (g.cf_handle st.db n)) [
          | inl q ↦
              unfold Both multiget_raw multiget try_map in
              ground (arith, serialize_all {E = E} kt (k ∷ ks))
          | inr (hd, q) ↦
              both_of_read (g.get_pinned_cf st.db hd)
                (ground (arith, many_open hd st (map kt.as_bytes (k ∷ ks)))) (λ j. ground arith)
        ]
      ]

    -- `multiget_raw` is `get_raw` of each key in order up to the first error, and `multiget` is the
    -- same with the deserializer, except that a key whose read meets an error of the database counts
    -- as absent.
    pub multiget-get_raw :
        {V : Type 0} (c : Codec E V) (st : CfStore g) (n : String) (ks : List K)
        → (multiget_raw g kt st n ks ≡ try_map (get_raw g kt st n) ks)
          × (multiget g kt c st n ks ≡ try_map (λ k. forgiven c (get_raw g kt st n k)) ks)
    multiget-get_raw c st n [] = unfold try_map multiget multiget_raw in (refl, refl)
    multiget-get_raw c st n (k ∷ ks) = unfold Both in both_cases c st n k ks
