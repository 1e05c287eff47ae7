-- ===== src/Migration/Valid.antt =====
-- What the validation of a migration (src/utils/mod.rs) accepts.
use rocksolid.Base.{
  ◌≡◌, ◌↔◌, ◌∙◌, refl, sym, arith, ap, Bool-cases, inl, inr, Option, none, some, List, [], ◌∷◌, map,
  All, Bytes, String, true, false, bytes_eq→eq, bytes_eq_refl,
}
use rocksolid.Base.Outcome.{ok, err, ◌>>=◌, ◌>>◌}
use rocksolid.Errors.{StoreResult}
use rocksolid.Engine.{Engine}
use rocksolid.Engine.Laws.{IsKeyValue}
use rocksolid.CfStore.{CfStore, get_raw}
use rocksolid.CfStore.Reads.{get_raw-content}
use rocksolid.Tuner.{contains}
use rocksolid.Migration.{byte_key, source_items, compare_value, validate_items, validate_families}
use rocksolid.Migration.Content.{Entries, Holds}

then_ok :
    {E : Type 0} (x y : StoreResult E (Unit {0})) → ((x >> y) ≡ ok tt) ↔ ((x ≡ ok tt) × (y ≡ ok tt))
then_ok (ok tt) y = (λ h. (refl, h), λ h. h.1)
then_ok (err e) y = (λ h. ground arith, λ h. ground (arith, h.0))

module _ {E : Type 0} {g : Engine E} (law : IsKeyValue g) (dst : CfStore g) where
  -- The read of a key does not fail.
  abbrev pub CanRead : String → Bytes → Type 0
  CanRead n k = (o : Option Bytes) × (get_raw g byte_key dst n k ≡ ok o)

  compare_value-eq-ok_iff :
      (n : String) (k v : Bytes) (o : Option Bytes)
      → (compare_value g n k v o ≡ ok tt) ↔ (o ≡ some v)
  unfolding compare_value
  compare_value-eq-ok_iff n k v none = (λ h. ground arith, λ h. ground arith)
  compare_value-eq-ok_iff n k v (some d) =
      (λ h. ground (arith, bytes_eq→eq v d), λ h. ground (arith, bytes_eq_refl v))

  items_cons :
      (n : String) (k v : Bytes) (es : Entries) (o : Option Bytes)
      → get_raw g byte_key dst n k ≡ ok o
      → validate_items g dst n (map ok ((k, v) ∷ es))
        ≡ (compare_value g n k v o >> validate_items g dst n (map ok es))
  unfolding validate_items get_raw
  items_cons n k v es o q =
      ap (λ r. (r >>= compare_value g n k v) >> validate_items g dst n (map ok es)) q

  validate_items-eq-ok_iff :
      (n : String) (es : Entries)
      → ((k : Bytes) → CanRead n k)
      → (validate_items g dst n (map ok es) ≡ ok tt) ↔ Holds n es (law.content dst.db)
  validate_items-eq-ok_iff n [] r = (λ h. tt, λ h. unfold validate_items in refl)
  validate_items-eq-ok_iff n ((k, v) ∷ es) r =
      let (o, q) = r k in
      let found = get_raw-content byte_key law dst n k o q in
      let step = items_cons n k v es o q in
      let (split, join) = then_ok (compare_value g n k v o) (validate_items g dst n (map ok es)) in
      let (only, all) = compare_value-eq-ok_iff n k v o in
      let (rest_only, rest_all) = validate_items-eq-ok_iff n es r in
      (
        λ h. (sym found ∙ only (split (sym step ∙ h)).0, rest_only (split (sym step ∙ h)).1),
        λ h. step ∙ join (all (found ∙ h.0), rest_all h.1),
      )

  module _ (opened : List String) (src : CfStore g) (entries : String → Entries) where
    families_opened :
        (x : String) (ns : List String)
        → contains opened x ≡ true
        → source_items g src x ≡ ok (map ok (entries x))
        → validate_families g opened src dst (x ∷ ns)
          ≡ (validate_items g dst x (map ok (entries x)) >> validate_families g opened src dst ns)
    unfolding validate_families
    families_opened x ns o q = rw (o, q) refl

    families_skipped :
        (x : String) (ns : List String)
        → contains opened x ≡ false
        → validate_families g opened src dst (x ∷ ns) ≡ validate_families g opened src dst ns
    unfolding validate_families
    families_skipped x ns o = rw o refl

    -- Validation, where the iterators of the source and the reads of the destination do not fail,
    -- succeeds if and only if the destination holds, in every family that it opens, all entries that
    -- the iterators of the source yield: it accepts no lost and no changed
    -- entry, and refuses none that is there.
    pub validate_families-eq-ok_iff :
        (ns : List String)
        → All (λ n. contains opened n ≡ true → source_items g src n ≡ ok (map ok (entries n))) ns
        → ((n : String) (k : Bytes) → contains opened n ≡ true → CanRead n k)
        → (validate_families g opened src dst ns ≡ ok tt)
          ↔ All (λ n. contains opened n ≡ true → Holds n (entries n) (law.content dst.db)) ns
    validate_families-eq-ok_iff [] y r = (λ h. tt, λ h. unfold validate_families in refl)
    validate_families-eq-ok_iff (x ∷ ns) y r =
        let (rest_only, rest_all) = validate_families-eq-ok_iff ns y.1 r in
        elim (Bool-cases (contains opened x)) [
          | inl o ↦
              let step = families_opened x ns o (y.0 o) in
              let (split, join) =
                then_ok (validate_items g dst x (map ok (entries x)))
                  (validate_families g opened src dst ns) in
              let (only, all) = validate_items-eq-ok_iff x (entries x) (λ k. r x k o) in
              (
                λ h. ((λ p. only (split (sym step ∙ h)).0), rest_only (split (sym step ∙ h)).1),
                λ h. step ∙ join (all (h.0 o), rest_all h.1),
              )
          | inr o ↦
              let step = families_skipped x ns o in
              (
                λ h. ((λ p. ground (arith, o, p)), rest_only (sym step ∙ h)),
                λ h. step ∙ rest_all h.1,
              )
        ]
