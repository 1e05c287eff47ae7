-- ===== src/Engine/Memory.antt =====
-- An engine in memory that meets `IsKeyValue`. It stands in for `rocksdb` where a theorem is applied
-- at concrete data. Reads and writes fail with error 5 while it is broken. Its iterators go over the
-- keys `known` that are present, in that order.
use rocksolid.Base.{
  ℕ, ◌≡◌, refl, arith, Bool, true, false, Option, none, some, List, [], ◌∷◌, ◌++◌, map, Bytes,
  String, str_eq, str_eq_iff, if◌then◌else◌,
}
use rocksolid.Base.Outcome.{Result, ok, err, on_ok}
use rocksolid.Base.Action.{Action}
use rocksolid.Engine.{Engine, Item, default_cf}
use rocksolid.Engine.Laws.{Content, assign, clear_range, IsKeyValue}

pub record Memory : Type 0 where
  pub families : List String
  pub table : Content
  pub known : List Bytes
  pub broken : Bool

abbrev pub find_family : String → List String → Option String
find_family n [] = none
find_family n (m ∷ ms) = if str_eq m n then some m else find_family n ms

abbrev listed : (Bytes → Option Bytes) → List Bytes → List (Item ℕ)
listed f [] = []
listed f (k ∷ ks) = let rest = listed f ks in elim (f k) [ none ↦ rest | some v ↦ ok (k, v) ∷ rest ]

abbrev change : (Content → Content) → Action Memory ℕ (Unit {0})
change f db = if db.broken then (err 5, db) else (ok tt, record db { table = f db.table })

abbrev fetch : Memory → String → Bytes → Result ℕ (Option Bytes)
fetch db n k = if db.broken then err 5 else ok (db.table n k)

-- The merge operator of every family appends.
abbrev pub appended : Option Bytes → Bytes → Option Bytes
appended none op = some op
appended (some v) op = some (v ++ op)

abbrev pub merge_in : String → Bytes → Bytes → Content → Content
merge_in n k op c = assign n k (appended (c n k) op) c

abbrev pub memory : Engine ℕ
memory = record {
  Db = Memory;
  Handle = String;
  Batch = Content → Content;
  cf_handle = λ db n. find_family n db.families;
  get_pinned = λ db k. fetch db default_cf k;
  get_pinned_cf = λ db h k. fetch db h k;
  multi_get = λ db. map (fetch db default_cf);
  multi_get_cf = λ db. map (λ p. fetch db p.0 p.1);
  put = λ k v. change (assign default_cf k (some v));
  put_cf = λ h k v. change (assign h k (some v));
  delete = λ k. change (assign default_cf k none);
  delete_cf = λ h k. change (assign h k none);
  merge = λ k op. change (merge_in default_cf k op);
  merge_cf = λ h k op. change (merge_in h k op);
  write = change;
  empty_batch = λ c. c;
  batch_put = λ k v b c. assign default_cf k (some v) (b c);
  batch_put_cf = λ h k v b c. assign h k (some v) (b c);
  batch_merge = λ k op b c. merge_in default_cf k op (b c);
  batch_merge_cf = λ h k op b c. merge_in h k op (b c);
  batch_delete = λ k b c. assign default_cf k none (b c);
  batch_delete_cf = λ h k b c. assign h k none (b c);
  batch_delete_range = λ lo hi b c. clear_range default_cf lo hi (b c);
  batch_delete_range_cf = λ h lo hi b c. clear_range h lo hi (b c);
  iterator = λ db m. listed (db.table default_cf) db.known;
  iterator_cf = λ db h m. listed (db.table h) db.known;
  prefix_iterator = λ db p. listed (db.table default_cf) db.known;
  prefix_iterator_cf = λ db h p. listed (db.table h) db.known;
}

pub find_family_name : (n h : String) (fs : List String) → find_family n fs ≡ some h → h ≡ n
find_family_name n h [] e = ground arith
find_family_name n h (m ∷ ms) e = ground (arith, str_eq_iff m n, find_family_name n h ms)

change_content :
    (f : Content → Content) (db : Memory)
    → (change f db).1.table ≡ on_ok (change f db).0 (f db.table) db.table
change_content f db = ground arith

fetch_ok :
    (db : Memory) (n : String) (k : Bytes) (o : Option Bytes)
    → fetch db n k ≡ ok o
    → o ≡ db.table n k
fetch_ok db n k o h = ground arith

pub memory-IsKeyValue : IsKeyValue memory
memory-IsKeyValue = record {
  content = λ db. db.table;
  name = λ h. h;
  merged = λ c n k op. appended (c n k) op;
  effect = λ b. b;
  cf_handle_name = λ db n h e. find_family_name n h db.families e;
  get_pinned_ok = λ db k o h. fetch_ok db default_cf k o h;
  get_pinned_cf_ok = λ db n k o h. fetch_ok db n k o h;
  multi_get_each = λ db ks. refl;
  multi_get_cf_each = λ db ks. refl;
  put_content = λ k v db. change_content (assign default_cf k (some v)) db;
  put_cf_content = λ n k v db. change_content (assign n k (some v)) db;
  delete_content = λ k db. change_content (assign default_cf k none) db;
  delete_cf_content = λ n k db. change_content (assign n k none) db;
  merge_content = λ k op db. change_content (merge_in default_cf k op) db;
  merge_cf_content = λ n k op db. change_content (merge_in n k op) db;
  write_content = λ b db. change_content b db;
  effect_empty = λ c. refl;
  effect_put = λ k v b c. refl;
  effect_put_cf = λ n k v b c. refl;
  effect_merge = λ k op b c. refl;
  effect_merge_cf = λ n k op b c. refl;
  effect_delete = λ k b c. refl;
  effect_delete_cf = λ n k b c. refl;
  effect_delete_range = λ lo hi b c. refl;
  effect_delete_range_cf = λ n lo hi b c. refl;
}

-- A sound database with the families "default" and "logs", holding nothing.
abbrev pub fresh : Memory
fresh = record {
  families = default_cf ∷ "logs" ∷ [];
  table = λ n k. none;
  known = [];
  broken = false;
}

abbrev pub failing : Memory
failing = record fresh { broken = true }
