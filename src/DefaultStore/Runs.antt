-- ===== src/DefaultStore/Runs.antt =====
-- Sequences of operations on the three stores of the default family (src/store.rs,
-- src/tx/tx_store.rs, src/tx/optimistic_tx_store.rs).
use mathlib.Core.Path.{fun_ext}
use rocksolid.Base.{ℕ, Bool, ◌≡◌, ap, refl, Option, List, [], ◌∷◌, Bytes}
use rocksolid.Errors.{StoreResult}
use rocksolid.Serialization.{Codec, KeyType}
use rocksolid.Expiry.{ValueWithExpiry}
use rocksolid.Engine.{Engine, default_cf}
use rocksolid.CfStore
use rocksolid.CfStore.{CfStore}
use rocksolid.CfStore.Write
use rocksolid.Transactional
use rocksolid.Transactional.Commits
use rocksolid.DefaultStore
use rocksolid.DefaultStore.Pessimistic
use rocksolid.DefaultStore.Optimistic
use rocksolid.DefaultStore.Agree.{
  plain, pessimistic, optimistic, plainly, pessimistically, optimistically, default_reads_agree,
  many, raws, default_writes_agree,
}

-- The operations on single keys of the default family, and its multigets.
pub data Op (K V : Type 0) : Type 0 where
  get_op get_raw_op get_with_expiry_op exists_op delete_op : K → Op K V
  multiget_op multiget_raw_op : List K → Op K V
  put_op merge_op : K → V → Op K V
  put_raw_op merge_raw_op : K → Bytes → Op K V
  put_with_expiry_op merge_with_expiry_op : K → V → ℕ → Op K V

pub data Answer (E V : Type 0) : Type 0 where
  value : StoreResult E (Option V) → Answer E V
  bytes : StoreResult E (Option Bytes) → Answer E V
  expiring : StoreResult E (Option ValueWithExpiry) → Answer E V
  present : StoreResult E Bool → Answer E V
  values : StoreResult E (List (Option V)) → Answer E V
  many_bytes : StoreResult E (List (Option Bytes)) → Answer E V
  written : StoreResult E (Unit {0}) → Answer E V

-- The answers of the operations in order, and what they leave.
abbrev pub run : {O A S : Type 0} → (O → S → A × S) → List O → S → List A × S
run step [] s = ([], s)
run step (x ∷ xs) s = let (a, s') = step x s in let (rest, s'') = run step xs s' in (a ∷ rest, s'')

module _ {E : Type 0} (g : Engine E) {K V : Type 0} (kt : KeyType E K) (c : Codec E V) where
  abbrev pub reported : StoreResult E (Unit {0}) × CfStore g → Answer E V × CfStore g
  reported (r, s) = (written r, s)

  abbrev pub on_plain : Op K V → CfStore g → Answer E V × CfStore g
  on_plain (get_op k) st = (value (DefaultStore.get g kt c (plain g kt c st) k), st)
  on_plain (get_raw_op k) st = (bytes (DefaultStore.get_raw g kt (plain g kt c st) k), st)
  on_plain (get_with_expiry_op k) st =
      (expiring (DefaultStore.get_with_expiry g kt (plain g kt c st) k), st)
  on_plain (exists_op k) st = (present (DefaultStore.exists g kt (plain g kt c st) k), st)
  on_plain (multiget_op ks) st = (values (DefaultStore.multiget g kt c (plain g kt c st) ks), st)
  on_plain (multiget_raw_op ks) st =
      (many_bytes (DefaultStore.multiget_raw g kt (plain g kt c st) ks), st)
  on_plain (put_op k v) st =
      reported (plainly g kt c st (DefaultStore.put g kt c k v (plain g kt c st)))
  on_plain (put_raw_op k b) st =
      reported (plainly g kt c st (DefaultStore.put_raw g kt k b (plain g kt c st)))
  on_plain (put_with_expiry_op k v t) st =
      reported (plainly g kt c st (DefaultStore.put_with_expiry g kt c k v t (plain g kt c st)))
  on_plain (merge_op k v) st =
      reported (plainly g kt c st (DefaultStore.merge g kt c k v (plain g kt c st)))
  on_plain (merge_raw_op k b) st =
      reported (plainly g kt c st (DefaultStore.merge_raw g kt k b (plain g kt c st)))
  on_plain (merge_with_expiry_op k v t) st =
      reported (
        plainly g kt c st
          (DefaultStore.merge_with_expiry g kt c default_cf k v t (plain g kt c st)))
  on_plain (delete_op k) st =
      reported (plainly g kt c st (DefaultStore.delete g kt k (plain g kt c st)))

  abbrev pub on_pessimistic : Op K V → CfStore g → Answer E V × CfStore g
  on_pessimistic (get_op k) st = (value (Pessimistic.get g kt c (pessimistic g kt c st) k), st)
  on_pessimistic (get_raw_op k) st =
      (bytes (Pessimistic.get_raw g kt (pessimistic g kt c st) k), st)
  on_pessimistic (get_with_expiry_op k) st =
      (expiring (Pessimistic.get_with_expiry g kt (pessimistic g kt c st) k), st)
  on_pessimistic (exists_op k) st =
      (present (Pessimistic.exists g kt (pessimistic g kt c st) k), st)
  on_pessimistic (multiget_op ks) st =
      (values (Pessimistic.multiget g kt c (pessimistic g kt c st) ks), st)
  on_pessimistic (multiget_raw_op ks) st =
      (many_bytes (Pessimistic.multiget_raw g kt (pessimistic g kt c st) ks), st)
  on_pessimistic (put_op k v) st =
      reported (pessimistically g kt c st (Pessimistic.put g kt c k v (pessimistic g kt c st)))
  on_pessimistic (put_raw_op k b) st =
      reported (pessimistically g kt c st (Pessimistic.put_raw g kt k b (pessimistic g kt c st)))
  on_pessimistic (put_with_expiry_op k v t) st =
      reported (
        pessimistically g kt c st
          (Pessimistic.put_with_expiry g kt c k v t (pessimistic g kt c st)))
  on_pessimistic (merge_op k v) st =
      reported (pessimistically g kt c st (Pessimistic.merge g kt c k v (pessimistic g kt c st)))
  on_pessimistic (merge_raw_op k b) st =
      reported (pessimistically g kt c st (Pessimistic.merge_raw g kt k b (pessimistic g kt c st)))
  on_pessimistic (merge_with_expiry_op k v t) st = reported (
      pessimistically g kt c st
        (Pessimistic.merge_with_expiry g kt c default_cf k v t (pessimistic g kt c st)))
  on_pessimistic (delete_op k) st =
      reported (pessimistically g kt c st (Pessimistic.delete g kt k (pessimistic g kt c st)))

  abbrev pub on_optimistic : Op K V → CfStore g → Answer E V × CfStore g
  on_optimistic (get_op k) st = (value (Optimistic.get g kt c (optimistic g kt c st) k), st)
  on_optimistic (get_raw_op k) st = (bytes (Optimistic.get_raw g kt (optimistic g kt c st) k), st)
  on_optimistic (get_with_expiry_op k) st =
      (expiring (Optimistic.get_with_expiry g kt (optimistic g kt c st) k), st)
  on_optimistic (exists_op k) st = (present (Optimistic.exists g kt (optimistic g kt c st) k), st)
  on_optimistic (multiget_op ks) st =
      (values (Optimistic.multiget g kt c (optimistic g kt c st) ks), st)
  on_optimistic (multiget_raw_op ks) st =
      (many_bytes (Optimistic.multiget_raw g kt (optimistic g kt c st) ks), st)
  on_optimistic (put_op k v) st =
      reported (optimistically g kt c st (Optimistic.put g kt c k v (optimistic g kt c st)))
  on_optimistic (put_raw_op k b) st =
      reported (optimistically g kt c st (Optimistic.put_raw g kt k b (optimistic g kt c st)))
  on_optimistic (put_with_expiry_op k v t) st =
      reported
        (optimistically g kt c st (Optimistic.put_with_expiry g kt c k v t (optimistic g kt c st)))
  on_optimistic (merge_op k v) st =
      reported (optimistically g kt c st (Optimistic.merge g kt c k v (optimistic g kt c st)))
  on_optimistic (merge_raw_op k b) st =
      reported (optimistically g kt c st (Optimistic.merge_raw g kt k b (optimistic g kt c st)))
  on_optimistic (merge_with_expiry_op k v t) st = reported (
      optimistically g kt c st
        (Optimistic.merge_with_expiry g kt c default_cf k v t (optimistic g kt c st)))
  on_optimistic (delete_op k) st =
      reported (optimistically g kt c st (Optimistic.delete g kt k (optimistic g kt c st)))

  raw_write_agrees :
      (k : K) (b : Bytes) (st : CfStore g)
      → (on_plain (put_raw_op k b) st ≡ on_pessimistic (put_raw_op k b) st)
        × (on_optimistic (put_raw_op k b) st ≡ on_pessimistic (put_raw_op k b) st)
        × (on_plain (merge_raw_op k b) st ≡ on_pessimistic (merge_raw_op k b) st)
        × (on_optimistic (merge_raw_op k b) st ≡ on_pessimistic (merge_raw_op k b) st)
        × (on_plain (delete_op k) st ≡ on_pessimistic (delete_op k) st)
        × (on_optimistic (delete_op k) st ≡ on_pessimistic (delete_op k) st)
  unfolding DefaultStore.put_raw Pessimistic.put_raw Optimistic.put_raw DefaultStore.merge_raw
      Pessimistic.merge_raw Optimistic.merge_raw DefaultStore.delete Pessimistic.delete
      Optimistic.delete Write.put_raw Commits.put_raw Write.merge_raw Commits.merge_raw Write.delete
      Commits.delete CfStore.write_at Transactional.write_at DefaultStore.inside Pessimistic.inside
      Optimistic.inside
  raw_write_agrees k b st = (refl, refl, refl, refl, refl, refl)

  step_agrees :
      (x : Op K V) (st : CfStore g)
      → (on_plain x st ≡ on_pessimistic x st) × (on_optimistic x st ≡ on_pessimistic x st)
  step_agrees (get_op k) st =
      let h = default_reads_agree g kt c st k [] in
      (ap (λ r. (value r, st)) h.0, ap (λ r. (value r, st)) h.1)
  step_agrees (get_raw_op k) st =
      let h = default_reads_agree g kt c st k [] in
      (ap (λ r. (bytes r, st)) h.2, ap (λ r. (bytes r, st)) h.3)
  step_agrees (get_with_expiry_op k) st =
      let h = default_reads_agree g kt c st k [] in
      (ap (λ r. (expiring r, st)) h.4, ap (λ r. (expiring r, st)) h.5)
  step_agrees (exists_op k) st =
      let h = default_reads_agree g kt c st k [] in
      (ap (λ r. (present r, st)) h.6, ap (λ r. (present r, st)) h.7)
  step_agrees (multiget_op ks) st =
      let h = many g kt c st ks in (ap (λ r. (values r, st)) h.0, ap (λ r. (values r, st)) h.1)
  step_agrees (multiget_raw_op ks) st =
      let h = raws g kt c st ks in
      (ap (λ r. (many_bytes r, st)) h.0, ap (λ r. (many_bytes r, st)) h.1)
  step_agrees (put_op k v) st =
      let h = default_writes_agree g kt c st k k v [] 0 in (ap reported h.0, ap reported h.1)
  step_agrees (put_raw_op k b) st = (let h = raw_write_agrees k b st in (h.0, h.1))
  step_agrees (put_with_expiry_op k v t) st =
      let h = default_writes_agree g kt c st k k v [] t in (ap reported h.4, ap reported h.5)
  step_agrees (merge_op k v) st =
      let h = default_writes_agree g kt c st k k v [] 0 in (ap reported h.6, ap reported h.7)
  step_agrees (merge_raw_op k b) st = (let h = raw_write_agrees k b st in (h.2, h.3))
  step_agrees (merge_with_expiry_op k v t) st =
      let h = default_writes_agree g kt c st k k v [] t in (ap reported h.10, ap reported h.11)
  step_agrees (delete_op k) st = (let h = raw_write_agrees k [] st in (h.4, h.5))

  -- Whatever sequence of `get`, `get_raw`, `get_with_expiry`, `exists`, `multiget`, `multiget_raw`,
  -- `put`, `put_raw`, `put_with_expiry`, `merge`, `merge_raw`, `delete`, and `merge_with_expiry` on the
  -- default family, runs on the three stores of the default family over the same database, failed
  -- operations included, the answers are the same and so is the database that it leaves.
  pub default_runs_agree :
      (xs : List (Op K V)) (st : CfStore g)
      → (run on_plain xs st ≡ run on_pessimistic xs st)
        × (run on_optimistic xs st ≡ run on_pessimistic xs st)
  default_runs_agree xs st = (
    ap (λ step. run step xs st) (fun_ext λ x. fun_ext λ s. (step_agrees x s).0),
    ap (λ step. run step xs st) (fun_ext λ x. fun_ext λ s. (step_agrees x s).1),
  )
