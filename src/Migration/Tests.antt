-- ===== src/Migration/Tests.antt =====
-- The theorems on a migration at concrete data, over the engine in memory.
use mathlib.Core.Path.{subst}
use rocksolid.Base.{
  Bytes, str_eq, ◌≡◌, ◌↔◌, All, refl, arith, str_eq_iff, Bool-cases, inl, inr, none, some, List, [],
  ◌∷◌, String, true, bytes_eq, if◌then◌else◌,
}
use rocksolid.Base.Outcome.{ok}
use rocksolid.Engine.Laws.{Content, assign}
use rocksolid.Engine.Memory.{memory, memory-IsKeyValue, fresh}
use rocksolid.CfStore.{CfStore, get_raw}
use rocksolid.Tuner.{contains}
use rocksolid.Migration.{source_items, validate_families, migrate_db}
use rocksolid.Migration.Content.{Entries, DistinctKeys, Holds, Yields, migrate_db-Holds}
use rocksolid.Migration.Valid.{CanRead, validate_families-eq-ok_iff}

abbrev two_entries : Entries
two_entries = (1 ∷ [], 10 ∷ []) ∷ (2 ∷ [], 20 ∷ []) ∷ []

abbrev table : Content
unfolding bytes_eq
table n k =
    if bytes_eq k (1 ∷ [])
    then some (10 ∷ [])
    else if bytes_eq k (2 ∷ [])
    then some (20 ∷ [])
    else none

abbrev source : CfStore memory
source = record {
  db = record fresh { table = table; known = (1 ∷ []) ∷ (2 ∷ []) ∷ [] };
  cf_names = "default" ∷ "logs" ∷ [];
  path = "/tmp/from";
}

abbrev destination : CfStore memory
destination = record { db = fresh; cf_names = "default" ∷ "logs" ∷ []; path = "/tmp/to" }

abbrev families : List String
families = "default" ∷ "logs" ∷ []

entries_distinct : (n : String) → DistinctKeys two_entries
unfolding bytes_eq
entries_distinct n = (refl, (refl, tt))

source-Yields :
    Yields memory-IsKeyValue families source (λ n. two_entries) entries_distinct families
unfolding source_items table bytes_eq
source-Yields = ((λ q. refl), ((λ q. refl), tt))

migrated : (migrate_db memory (ok families) families true source destination).0 ≡ ok tt
unfolding migrate_db table bytes_eq assign
migrated = refl

migrate_db-Holds_example : Holds "logs" two_entries (
    memory-IsKeyValue.content
      (migrate_db memory (ok families) families true source destination).1.db)
migrate_db-Holds_example =
    migrate_db-Holds memory-IsKeyValue families source (λ n. two_entries) entries_distinct families
      true destination "logs" source-Yields (unfold contains in refl) (unfold contains in refl)
      migrated

default-CanRead : (k : Bytes) → CanRead memory-IsKeyValue destination "default" k
unfolding get_raw
default-CanRead k = (none, refl)

logs-CanRead : (k : Bytes) → CanRead memory-IsKeyValue destination "logs" k
unfolding get_raw
logs-CanRead k = (none, refl)

readable_at :
    (m n : String)
    → ((k : Bytes) → CanRead memory-IsKeyValue destination m k)
    → str_eq m n ≡ true
    → (k : Bytes) → CanRead memory-IsKeyValue destination n k
readable_at m n r e k =
    let same : m ≡ n = ground (arith, str_eq_iff m n) in
    subst (λ x. CanRead memory-IsKeyValue destination x k) same (r k)

families-CanRead :
    (n : String) (k : Bytes)
    → contains families n ≡ true
    → CanRead memory-IsKeyValue destination n k
unfolding contains
families-CanRead n k h = elim (Bool-cases (str_eq "default" n)) [
  | inl d ↦ readable_at "default" n default-CanRead d k
  | inr d ↦ elim (Bool-cases (str_eq "logs" n)) [
    | inl l ↦ readable_at "logs" n logs-CanRead l k
    | inr l ↦ absurd (ground arith)
  ]
]

validate_families-eq-ok_iff_example :
    (validate_families memory families source destination families ≡ ok tt)
    ↔ All
        (λ n.
          contains families n ≡ true
          → Holds n two_entries (memory-IsKeyValue.content destination.db))
        families
validate_families-eq-ok_iff_example =
    validate_families-eq-ok_iff memory-IsKeyValue destination families source (λ n. two_entries)
      families source-Yields families-CanRead
