-- ===== src/Migration/Content.antt =====
-- What a migration (src/utils/mod.rs) leaves in the destination: every entry of the source in the
-- families that it copies, and the other families as they were.
use rocksolid.Base.{
  ◌≡◌, ◌≢◌, ◌∙◌, refl, arith, Bool-cases, inl, inr, some, List, [], ◌∷◌, map, All, Bytes, String,
  Bool, true, false, bytes_eq, bytes_eq_refl, str_eq, str_eq_iff, if◌then◌else◌,
}
use rocksolid.Base.Outcome.{ok, Result-cases}
use rocksolid.Engine.{Engine}
use rocksolid.Engine.Laws.{Content, IsKeyValue, assign}
use rocksolid.CfStore.{CfStore}
use rocksolid.CfStore.Write.{put_raw}
use rocksolid.CfStore.Writes.{put_raw-Does}
use rocksolid.Tuner.{contains}
use rocksolid.Migration.{byte_key, source_items, copy_items, copy_families, migrate_db}

abbrev pub Entries : Type 0
Entries = List (Bytes × Bytes)

abbrev pub has_key : Bytes → Entries → Bool
has_key k [] = false
has_key k ((j, v) ∷ es) = if bytes_eq j k then true else has_key k es

abbrev pub DistinctKeys : Entries → Type 0
DistinctKeys [] = Unit
DistinctKeys ((k, v) ∷ es) = (has_key k es ≡ false) × DistinctKeys es

-- The family holds the entries.
abbrev pub Holds : String → Entries → Content → Type 0
Holds n es c = All (λ e. c n e.0 ≡ some e.1) es

-- The entries written one after the other.
unfoldable pub stored : String → Entries → Content → Content
unfolding assign
stored n [] c = c
stored n ((k, v) ∷ es) c = stored n es (assign n k (some v) c)

All-imp :
    {A : Type 0} {P Q : A → Type 0} (xs : List A) → ((x : A) → P x → Q x) → All P xs → All Q xs
All-imp [] f h = tt
All-imp (x ∷ xs) f h = (f x h.0, All-imp xs f h.1)

stored_absent :
    (n : String) (k : Bytes) (es : Entries) (c : Content)
    → has_key k es ≡ false
    → stored n es c n k ≡ c n k
unfolding stored assign
stored_absent n k [] c h = refl
stored_absent n k ((j, v) ∷ es) c h =
    ground (arith, stored_absent n k es (assign n j (some v) c), str_eq_iff n n)

stored_other :
    (n m : String) (k : Bytes) (es : Entries) (c : Content) → n ≢ m → stored n es c m k ≡ c m k
unfolding stored assign
stored_other n m k [] c h = refl
stored_other n m k ((j, v) ∷ es) c h =
    ground (arith, stored_other n m k es (assign n j (some v) c), str_eq_iff n m)

stored-Holds :
    (n : String) (es : Entries) (c : Content) → DistinctKeys es → Holds n es (stored n es c)
unfolding stored assign
stored-Holds n [] c d = tt
stored-Holds n ((k, v) ∷ es) c d = (
  stored_absent n k es (assign n k (some v) c) d.0
      ∙ ground (arith, str_eq_iff n n, bytes_eq_refl k),
  stored-Holds n es (assign n k (some v) c) d.1,
)

module _ {E : Type 0} {g : Engine E} (law : IsKeyValue g) where
  copy_items-stored :
      (n : String) (es : Entries) (dst : CfStore g)
      → (copy_items g n (map ok es) dst).0 ≡ ok tt
      → law.content (copy_items g n (map ok es) dst).1.db ≡ stored n es (law.content dst.db)
  unfolding copy_items stored
  copy_items-stored n [] dst h = refl
  copy_items-stored n ((k, v) ∷ es) dst h =
      let does = put_raw-Does law byte_key n k v dst in
      let dst' = (put_raw g byte_key n k v dst).1 in
      elim (Result-cases (put_raw g byte_key n k v dst).0) [
        | inl (u, q) ↦ ground (arith, copy_items-stored n es dst')
        | inr (e, q) ↦ absurd (ground arith)
      ]

  module _ (opened : List String) (src : CfStore g) (entries : String → Entries)
      (distinct : (n : String) → DistinctKeys (entries n)) where
    -- The iterators of the families to be copied yield the entries without error.
    abbrev pub Yields : List String → Type 0
    Yields ns =
        All (λ n. contains opened n ≡ true → source_items g src n ≡ ok (map ok (entries n))) ns

    copied_cons :
        (x : String) (ns : List String) (dst : CfStore g)
        → contains opened x ≡ true
        → source_items g src x ≡ ok (map ok (entries x))
        → (copy_families g opened src (x ∷ ns) dst).0 ≡ ok tt
        → let copied = copy_items g x (map ok (entries x)) dst in
          (copied.0 ≡ ok tt)
          × (copy_families g opened src (x ∷ ns) dst ≡ copy_families g opened src ns copied.1)
    unfolding copy_families
    copied_cons x ns dst o y = elim (Result-cases (copy_items g x (map ok (entries x)) dst).0) [
      | inl (tt, q) ↦ rw (o, y, q) (λ h. (refl, refl))
      | inr (e, q) ↦ rw (o, y, q) (λ h. absurd (ground arith))
    ]

    skipped_cons :
        (x : String) (ns : List String) (dst : CfStore g)
        → contains opened x ≡ false
        → copy_families g opened src (x ∷ ns) dst ≡ copy_families g opened src ns dst
    unfolding copy_families
    skipped_cons x ns dst o = rw o refl

    copy_items-Holds :
        (x n : String) (dst : CfStore g)
        → (copy_items g x (map ok (entries x)) dst).0 ≡ ok tt
        → Holds n (entries n) (law.content dst.db)
        → Holds n (entries n) (law.content (copy_items g x (map ok (entries x)) dst).1.db)
    copy_items-Holds x n dst h b =
        let after = copy_items-stored x (entries x) dst h in
        elim (Bool-cases (str_eq x n)) [
          | inl e ↦ rw after (
              rw ((str_eq_iff x n).0 e)
                (stored-Holds n (entries n) (law.content dst.db) (distinct n)))
          | inr e ↦
              let other : x ≢ n = λ p. ground (arith, str_eq_iff x n) in
              All-imp (entries n)
                (λ y p. rw after (stored_other x n y.0 (entries x) (law.content dst.db) other ∙ p))
                b
        ]

    copy_families-keeps :
        (ns : List String) (n : String) (dst : CfStore g)
        → Yields ns
        → (copy_families g opened src ns dst).0 ≡ ok tt
        → Holds n (entries n) (law.content dst.db)
        → Holds n (entries n) (law.content (copy_families g opened src ns dst).1.db)
    copy_families-keeps [] n dst y h b = unfold copy_families in b
    copy_families-keeps (x ∷ ns) n dst y h b = elim (Bool-cases (contains opened x)) [
      | inl o ↦
          let (done, same) = copied_cons x ns dst o (y.0 o) h in
          rw same (
            copy_families-keeps ns n (copy_items g x (map ok (entries x)) dst).1 y.1 (rw⁻¹ same h)
              (copy_items-Holds x n dst done b))
      | inr o ↦
          let same = skipped_cons x ns dst o in
          rw same (copy_families-keeps ns n dst y.1 (rw⁻¹ same h) b)
    ]

    pub copy_families-Holds :
        (ns : List String) (n : String) (dst : CfStore g)
        → Yields ns
        → contains ns n ≡ true
        → contains opened n ≡ true
        → (copy_families g opened src ns dst).0 ≡ ok tt
        → Holds n (entries n) (law.content (copy_families g opened src ns dst).1.db)
    unfolding contains
    copy_families-Holds [] n dst y m o h = absurd (ground arith)
    copy_families-Holds (x ∷ ns) n dst y m o h = elim (Bool-cases (str_eq x n)) [
      | inl e ↦
          let x_is = (str_eq_iff x n).0 e in
          let ox : contains opened x ≡ true = rw x_is o in
          let (done, same) = copied_cons x ns dst ox (y.0 ox) h in
          let copied = (copy_items g x (map ok (entries x)) dst).1 in
          let fresh : Holds x (entries x) (law.content copied.db) =
            rw (copy_items-stored x (entries x) dst done)
              (stored-Holds x (entries x) (law.content dst.db) (distinct x)) in
          let kept : Holds x (entries x) (law.content (copy_families g opened src ns copied).1.db) =
            copy_families-keeps ns x copied y.1 (rw⁻¹ same h) fresh in
          rw (same, ← x_is) kept
      | inr e ↦
          let later : contains ns n ≡ true = ground arith in
          elim (Bool-cases (contains opened x)) [
            | inl ox ↦
                let (done, same) = copied_cons x ns dst ox (y.0 ox) h in
                rw same (
                  copy_families-Holds ns n (copy_items g x (map ok (entries x)) dst).1 y.1 later o
                    (rw⁻¹ same h))
            | inr ox ↦
                let same = skipped_cons x ns dst ox in
                rw same (copy_families-Holds ns n dst y.1 later o (rw⁻¹ same h))
          ]
    ]

    copied_of_ok :
        (ns : List String) (validate : Bool) (dst : CfStore g)
        → (migrate_db g (ok ns) opened validate src dst).0 ≡ ok tt
        → ((copy_families g opened src ns dst).0 ≡ ok tt)
          × ((migrate_db g (ok ns) opened validate src dst).1
              ≡ (copy_families g opened src ns dst).1)
    unfolding migrate_db
    copied_of_ok ns validate dst = elim (Result-cases (copy_families g opened src ns dst).0) [
      | inl (tt, q) ↦ rw q (λ h. (refl, ground arith))
      | inr (e, q) ↦ rw q (λ h. absurd (ground arith))
    ]

    -- A migration that reports success, with or without validation, leaves every entry that the
    -- iterators of the source yielded in each family that the destination opens, where no iterator
    -- yields a key twice or an error.
    pub migrate_db-Holds :
        (ns : List String) (validate : Bool) (dst : CfStore g) (n : String)
        → Yields ns
        → contains ns n ≡ true
        → contains opened n ≡ true
        → (migrate_db g (ok ns) opened validate src dst).0 ≡ ok tt
        → Holds n (entries n) (law.content (migrate_db g (ok ns) opened validate src dst).1.db)
    migrate_db-Holds ns validate dst n y m o h =
        let (done, same) = copied_of_ok ns validate dst h in
        rw same (copy_families-Holds ns n dst y m o done)
