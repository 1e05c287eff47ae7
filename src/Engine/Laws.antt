-- ===== src/Engine/Laws.antt =====
-- The documented behaviour of `rocksdb` that theorems name as a hypothesis: a database is a map from
-- a column family and a key to a value; a write that reports success has its whole effect, and one
-- that reports an error has none. A read may fail at any time.
use rocksolid.Base.{
  ◌≡◌, ◌&&◌, Option, none, some, List, map, Bytes, String, bytes_eq, bytes_lt, not, str_eq,
  if◌then◌else◌,
}
use rocksolid.Base.Outcome.{ok, on_ok}
use rocksolid.Engine.{Engine, default_cf}

-- What each column family holds under each key.
abbrev pub Content : Type 0
Content = String → Bytes → Option Bytes

unfoldable pub assign : String → Bytes → Option Bytes → Content → Content
unfolding bytes_eq
assign n k v c m j = if str_eq n m && bytes_eq k j then v else c m j

-- Removes the keys of one family from `lo` on and below `hi`.
unfoldable pub clear_range : String → Bytes → Bytes → Content → Content
unfolding bytes_lt
clear_range n lo hi c m j =
    if str_eq n m && (not (bytes_lt j lo) && bytes_lt j hi) then none else c m j

-- `merged c n k op` is what the merge operator of family `n` leaves under `k`.
abbrev pub MergeOf : Type 0
MergeOf = Content → String → Bytes → Bytes → Option Bytes

pub record IsKeyValue {E : Type 0} (g : Engine E) : Type 1 where
  pub content : g.Db → Content
  pub name : g.Handle → String
  pub merged : MergeOf
  pub effect : g.Batch → Content → Content
  pub cf_handle_name :
      (db : g.Db) (n : String) (h : g.Handle) → g.cf_handle db n ≡ some h → name h ≡ n
  pub get_pinned_ok :
      (db : g.Db) (k : Bytes) (o : Option Bytes)
      → g.get_pinned db k ≡ ok o
      → o ≡ content db default_cf k
  pub get_pinned_cf_ok :
      (db : g.Db) (h : g.Handle) (k : Bytes) (o : Option Bytes)
      → g.get_pinned_cf db h k ≡ ok o
      → o ≡ content db (name h) k
  pub multi_get_each : (db : g.Db) (ks : List Bytes) → g.multi_get db ks ≡ map (g.get_pinned db) ks
  pub multi_get_cf_each :
      (db : g.Db) (ks : List (g.Handle × Bytes))
      → g.multi_get_cf db ks ≡ map (λ p. g.get_pinned_cf db p.0 p.1) ks
  pub put_content :
      (k v : Bytes) (db : g.Db)
      → content (g.put k v db).1
        ≡ on_ok (g.put k v db).0 (assign default_cf k (some v) (content db)) (content db)
  pub put_cf_content :
      (h : g.Handle) (k v : Bytes) (db : g.Db)
      → content (g.put_cf h k v db).1
        ≡ on_ok (g.put_cf h k v db).0 (assign (name h) k (some v) (content db)) (content db)
  pub delete_content :
      (k : Bytes) (db : g.Db)
      → content (g.delete k db).1
        ≡ on_ok (g.delete k db).0 (assign default_cf k none (content db)) (content db)
  pub delete_cf_content :
      (h : g.Handle) (k : Bytes) (db : g.Db)
      → content (g.delete_cf h k db).1
        ≡ on_ok (g.delete_cf h k db).0 (assign (name h) k none (content db)) (content db)
  pub merge_content :
      (k op : Bytes) (db : g.Db)
      → content (g.merge k op db).1
        ≡ on_ok
            (g.merge k op db).0
            (assign default_cf k (merged (content db) default_cf k op) (content db))
            (content db)
  pub merge_cf_content :
      (h : g.Handle) (k op : Bytes) (db : g.Db)
      → content (g.merge_cf h k op db).1
        ≡ on_ok
            (g.merge_cf h k op db).0
            (assign (name h) k (merged (content db) (name h) k op) (content db))
            (content db)
  pub write_content :
      (b : g.Batch) (db : g.Db)
      → content (g.write b db).1 ≡ on_ok (g.write b db).0 (effect b (content db)) (content db)
  pub effect_empty : (c : Content) → effect g.empty_batch c ≡ c
  pub effect_put :
      (k v : Bytes) (b : g.Batch) (c : Content)
      → effect (g.batch_put k v b) c ≡ assign default_cf k (some v) (effect b c)
  pub effect_put_cf :
      (h : g.Handle) (k v : Bytes) (b : g.Batch) (c : Content)
      → effect (g.batch_put_cf h k v b) c ≡ assign (name h) k (some v) (effect b c)
  pub effect_merge :
      (k op : Bytes) (b : g.Batch) (c : Content)
      → effect (g.batch_merge k op b) c
        ≡ assign default_cf k (merged (effect b c) default_cf k op) (effect b c)
  pub effect_merge_cf :
      (h : g.Handle) (k op : Bytes) (b : g.Batch) (c : Content)
      → effect (g.batch_merge_cf h k op b) c
        ≡ assign (name h) k (merged (effect b c) (name h) k op) (effect b c)
  pub effect_delete :
      (k : Bytes) (b : g.Batch) (c : Content)
      → effect (g.batch_delete k b) c ≡ assign default_cf k none (effect b c)
  pub effect_delete_cf :
      (h : g.Handle) (k : Bytes) (b : g.Batch) (c : Content)
      → effect (g.batch_delete_cf h k b) c ≡ assign (name h) k none (effect b c)
  pub effect_delete_range :
      (lo hi : Bytes) (b : g.Batch) (c : Content)
      → effect (g.batch_delete_range lo hi b) c ≡ clear_range default_cf lo hi (effect b c)
  pub effect_delete_range_cf :
      (h : g.Handle) (lo hi : Bytes) (b : g.Batch) (c : Content)
      → effect (g.batch_delete_range_cf h lo hi b) c ≡ clear_range (name h) lo hi (effect b c)
