-- ===== src/Txn/Laws.antt =====
-- The documented behaviour of transactions that theorems name as a hypothesis: a transaction reads
-- what it wrote, its writes reach the database at its commit, all of them or none, and a rollback
-- forgets them. A write that fails stages nothing. One transaction runs at a time here.
use rocksolid.Base.{◌≡◌, Option, none, some, Bytes, String}
use rocksolid.Base.Outcome.{ok, on_ok}
use rocksolid.Engine.{default_cf}
use rocksolid.Engine.Laws.{Content, MergeOf, assign}
use rocksolid.Txn.{TxnEngine}

pub record IsTransactional {E : Type 0} (g : TxnEngine E) : Type 1 where
  pub content : g.Db → Content
  pub view : g.Tx × g.Db → Content
  pub name : g.Handle → String
  pub merged : MergeOf
  pub cf_handle_name :
      (db : g.Db) (n : String) (h : g.Handle) → g.cf_handle db n ≡ some h → name h ≡ n
  pub begin_view : (db : g.Db) → view (g.begin db) ≡ content db
  pub begin_content : (db : g.Db) → content (g.begin db).1 ≡ content db
  pub get_pinned_ok :
      (t : g.Tx × g.Db) (k : Bytes) (o : Option Bytes)
      → g.get_pinned t k ≡ ok o
      → o ≡ view t default_cf k
  pub get_pinned_cf_ok :
      (t : g.Tx × g.Db) (h : g.Handle) (k : Bytes) (o : Option Bytes)
      → g.get_pinned_cf t h k ≡ ok o
      → o ≡ view t (name h) k
  -- `get` copies what `get_pinned` pins.
  pub get_ok : (t : g.Tx × g.Db) (k : Bytes) → g.get t k ≡ g.get_pinned t k
  pub get_cf_ok :
      (t : g.Tx × g.Db) (h : g.Handle) (k : Bytes) → g.get_cf t h k ≡ g.get_pinned_cf t h k
  pub put_view :
      (k v : Bytes) (t : g.Tx × g.Db)
      → view (g.put k v t).1
        ≡ on_ok (g.put k v t).0 (assign default_cf k (some v) (view t)) (view t)
  pub put_cf_view :
      (h : g.Handle) (k v : Bytes) (t : g.Tx × g.Db)
      → view (g.put_cf h k v t).1
        ≡ on_ok (g.put_cf h k v t).0 (assign (name h) k (some v) (view t)) (view t)
  pub delete_view :
      (k : Bytes) (t : g.Tx × g.Db)
      → view (g.delete k t).1 ≡ on_ok (g.delete k t).0 (assign default_cf k none (view t)) (view t)
  pub delete_cf_view :
      (h : g.Handle) (k : Bytes) (t : g.Tx × g.Db)
      → view (g.delete_cf h k t).1
        ≡ on_ok (g.delete_cf h k t).0 (assign (name h) k none (view t)) (view t)
  pub merge_view :
      (k op : Bytes) (t : g.Tx × g.Db)
      → view (g.merge k op t).1
        ≡ on_ok
            (g.merge k op t).0
            (assign default_cf k (merged (view t) default_cf k op) (view t))
            (view t)
  pub merge_cf_view :
      (h : g.Handle) (k op : Bytes) (t : g.Tx × g.Db)
      → view (g.merge_cf h k op t).1
        ≡ on_ok
            (g.merge_cf h k op t).0
            (assign (name h) k (merged (view t) (name h) k op) (view t))
            (view t)
  pub put_content : (k v : Bytes) (t : g.Tx × g.Db) → content (g.put k v t).1.1 ≡ content t.1
  pub put_cf_content :
      (h : g.Handle) (k v : Bytes) (t : g.Tx × g.Db) → content (g.put_cf h k v t).1.1 ≡ content t.1
  pub delete_content : (k : Bytes) (t : g.Tx × g.Db) → content (g.delete k t).1.1 ≡ content t.1
  pub delete_cf_content :
      (h : g.Handle) (k : Bytes) (t : g.Tx × g.Db) → content (g.delete_cf h k t).1.1 ≡ content t.1
  pub merge_content : (k op : Bytes) (t : g.Tx × g.Db) → content (g.merge k op t).1.1 ≡ content t.1
  pub merge_cf_content :
      (h : g.Handle) (k op : Bytes) (t : g.Tx × g.Db)
      → content (g.merge_cf h k op t).1.1 ≡ content t.1
  pub commit_content :
      (t : g.Tx) (db : g.Db)
      → content (g.commit t db).1 ≡ on_ok (g.commit t db).0 (view (t, db)) (content db)
  pub rollback_content : (t : g.Tx × g.Db) → content (g.rollback t).1.1 ≡ content t.1
  pub destroy_content : (t : g.Tx) (db : g.Db) → content (g.destroy t db) ≡ content db
