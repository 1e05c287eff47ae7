-- ===== src/Txn/Memory.antt =====
-- A transactional engine in memory that meets `IsTransactional`: the transaction holds a copy of the
-- table. It stands in for `rocksdb` where a theorem is applied at concrete data. A commit fails with
-- error 7 while the database is busy.
use rocksolid.Base.{
  ℕ, ◌≡◌, refl, arith, Bool, false, none, some, List, [], ◌∷◌, String, if◌then◌else◌,
}
use rocksolid.Base.Outcome.{ok, err, on_ok}
use rocksolid.Base.Action.{Action}
use rocksolid.Engine.{default_cf}
use rocksolid.Engine.Laws.{Content, assign}
use rocksolid.Engine.Memory.{find_family, find_family_name, appended, merge_in}
use rocksolid.Txn.{TxnEngine}
use rocksolid.Txn.Laws.{IsTransactional}

pub record Tables : Type 0 where
  pub families : List String
  pub table : Content
  pub busy : Bool

abbrev change : (Content → Content) → Action (Content × Tables) ℕ (Unit {0})
change f t = (ok tt, (f t.0, t.1))

abbrev publish : Content → Action Tables ℕ (Unit {0})
publish c db = if db.busy then (err 7, db) else (ok tt, record db { table = c })

abbrev pub copying : TxnEngine ℕ
copying = record {
  Db = Tables;
  Handle = String;
  Tx = Content;
  cf_handle = λ db n. find_family n db.families;
  begin = λ db. (db.table, db);
  get_pinned = λ t k. ok (t.0 default_cf k);
  get_pinned_cf = λ t h k. ok (t.0 h k);
  get = λ t k. ok (t.0 default_cf k);
  get_cf = λ t h k. ok (t.0 h k);
  iterator_opt = λ t m. [];
  iterator_cf_opt = λ t h m. [];
  prefix_iterator = λ t p. [];
  prefix_iterator_cf = λ t h p. [];
  put = λ k v. change (assign default_cf k (some v));
  put_cf = λ h k v. change (assign h k (some v));
  delete = λ k. change (assign default_cf k none);
  delete_cf = λ h k. change (assign h k none);
  merge = λ k op. change (merge_in default_cf k op);
  merge_cf = λ h k op. change (merge_in h k op);
  commit = publish;
  rollback = λ t. (ok tt, (t.1.table, t.1));
  destroy = λ t db. db;
}

published : (c : Content) (db : Tables) → (publish c db).1.table ≡ on_ok (publish c db).0 c db.table
published c db = ground arith

pub copying-IsTransactional : IsTransactional copying
copying-IsTransactional = record {
  content = λ db. db.table;
  view = λ t. t.0;
  name = λ h. h;
  merged = λ c n k op. appended (c n k) op;
  cf_handle_name = λ db n h e. find_family_name n h db.families e;
  begin_view = λ db. refl;
  begin_content = λ db. refl;
  get_pinned_ok = λ t k o h. ground arith;
  get_pinned_cf_ok = λ t n k o h. ground arith;
  get_ok = λ t k. refl;
  get_cf_ok = λ t n k. refl;
  put_view = λ k v t. refl;
  put_cf_view = λ n k v t. refl;
  delete_view = λ k t. refl;
  delete_cf_view = λ n k t. refl;
  merge_view = λ k op t. refl;
  merge_cf_view = λ n k op t. refl;
  put_content = λ k v t. refl;
  put_cf_content = λ n k v t. refl;
  delete_content = λ k t. refl;
  delete_cf_content = λ n k t. refl;
  merge_content = λ k op t. refl;
  merge_cf_content = λ n k op t. refl;
  commit_content = λ c db. published c db;
  rollback_content = λ t. refl;
  destroy_content = λ t db. refl;
}

-- A database with the families "default" and "logs", holding nothing.
abbrev pub empty_tables : Tables
empty_tables = record { families = default_cf ∷ "logs" ∷ []; table = λ n k. none; busy = false }
