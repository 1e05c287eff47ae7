-- ===== src/CfStore/Writes.antt =====
-- What the writes of a store change: on success one key, or one range, of one column family, and on
-- an error nothing.
use rocksolid.Base.{
  ◌≡◌, arith, Bool-cases, Option-cases, inl, inr, none, some, Bytes, ℕ, String, str_eq, str_eq_iff,
}
use rocksolid.Base.Outcome.{ok, on_ok}
use rocksolid.Base.Action.{Action}
use rocksolid.Serialization.{Codec, KeyType}
use rocksolid.Expiry.{from_value, serialize_for_storage}
use rocksolid.Engine.{Engine, default_cf}
use rocksolid.Engine.Laws.{Content, IsKeyValue, assign, clear_range}
use rocksolid.CfStore.{CfStore, StoreAction, write_at}
use rocksolid.CfStore.Write.{
  put_raw, put, put_with_expiry, delete, delete_range, merge_raw, merge, merge_with_expiry,
}

module _ {E : Type 0} (g : Engine E) {K V : Type 0} (kt : KeyType E K) (c : Codec E V) (n : String)
    (k : K) (x : V) where
  -- The typed writes are the raw ones of the serialized value, `put_with_expiry` and
  -- `merge_with_expiry` those of the value's stored form with its expiry time.
  pub typed_writes :
      (t : ℕ) (b : Bytes)
      → c.serialize x ≡ ok b
      → (put g kt c n k x ≡ put_raw g kt n k b)
        × (merge g kt c n k x ≡ merge_raw g kt n k b)
        × (put_with_expiry g kt c n k x t
            ≡ put_raw g kt n k (serialize_for_storage (record { expire_time = t; raw_value = b })))
        × (merge_with_expiry g kt c n k x t
            ≡ merge_raw g kt n k
                (serialize_for_storage (record { expire_time = t; raw_value = b })))
  unfolding put merge put_with_expiry merge_with_expiry put_raw merge_raw from_value
  typed_writes t b e = (rw e, rw e, rw e, rw e)

module _ {E : Type 0} {g : Engine E} (law : IsKeyValue g) where
  -- The content of a store after the action is `change` of the content before where the action
  -- succeeded, and the content before where it failed.
  abbrev pub Does : StoreAction g → (Content → Content) → CfStore g → Type 0
  Does act change st =
      law.content (act st).1.db ≡ on_ok (act st).0 (change (law.content st.db)) (law.content st.db)

  -- The same of a call of the engine, on every database.
  abbrev EngineDoes : Action g.Db E (Unit {0}) → (Content → Content) → Type 0
  EngineDoes act change =
      (db : g.Db)
      → law.content (act db).1 ≡ on_ok (act db).0 (change (law.content db)) (law.content db)

  write_at-Does :
      (n : String) (plain : Action g.Db E (Unit {0}))
      (at_handle : g.Handle → Action g.Db E (Unit {0})) (change : String → Content → Content)
      → EngineDoes plain (change default_cf)
      → ((h : g.Handle) → EngineDoes (at_handle h) (change (law.name h)))
      → (st : CfStore g) → Does (write_at g n plain at_handle) (change n) st
  unfolding write_at
  write_at-Does n plain at_handle change dp dh st = elim (Bool-cases (str_eq n default_cf)) [
    | inl e ↦ ground (arith, str_eq_iff n default_cf, dp st.db)
    | inr e ↦ elim (Option-cases (g.cf_handle st.db n)) [
      | inl q ↦ ground arith
      | inr (hd, q) ↦ ground (arith, law.cf_handle_name st.db n hd, dh hd st.db)
    ]
  ]

  module _ {K : Type 0} (kt : KeyType E K) (n : String) (k : K) (v : Bytes) (st : CfStore g) where
    pub put_raw-Does : Does (put_raw g kt n k v) (assign n (kt.as_bytes k) (some v)) st
    unfolding put_raw
    put_raw-Does =
        let b = kt.as_bytes k in
        write_at-Does n (g.put b v) (λ h. g.put_cf h b v) (λ m. assign m b (some v))
          (law.put_content b v) (λ h. law.put_cf_content h b v) st

    merge_raw-Does :
        Does
          (merge_raw g kt n k v)
          (λ c. assign n (kt.as_bytes k) (law.merged c n (kt.as_bytes k) v) c)
          st
    unfolding merge_raw
    merge_raw-Does =
        let b = kt.as_bytes k in
        write_at-Does n (g.merge b v) (λ h. g.merge_cf h b v)
          (λ m c. assign m b (law.merged c m b v) c) (law.merge_content b v)
          (λ h. law.merge_cf_content h b v) st

  module _ {K : Type 0} (kt : KeyType E K) (n : String) (k k' : K) (st : CfStore g) where
    delete-Does : Does (delete g kt n k) (assign n (kt.as_bytes k) none) st
    unfolding delete
    delete-Does =
        let b = kt.as_bytes k in
        write_at-Does n (g.delete b) (λ h. g.delete_cf h b) (λ m. assign m b none)
          (law.delete_content b) (λ h. law.delete_cf_content h b) st

    delete_range-Does :
        Does (delete_range g kt n k k') (clear_range n (kt.as_bytes k) (kt.as_bytes k')) st
    unfolding delete_range
    delete_range-Does =
        let lo = kt.as_bytes k in
        let hi = kt.as_bytes k' in
        write_at-Does n (g.write (g.batch_delete_range lo hi g.empty_batch))
          (λ h. g.write (g.batch_delete_range_cf h lo hi g.empty_batch)) (λ m. clear_range m lo hi)
          (λ db. ground (
            arith,
            law.write_content (g.batch_delete_range lo hi g.empty_batch) db,
            law.effect_delete_range lo hi g.empty_batch (law.content db),
            law.effect_empty (law.content db),
          ))
          (λ h db. ground (
            arith,
            law.write_content (g.batch_delete_range_cf h lo hi g.empty_batch) db,
            law.effect_delete_range_cf h lo hi g.empty_batch (law.content db),
            law.effect_empty (law.content db),
          ))
          st

  -- `put_raw` writes its value under its key, `delete` empties its key, `merge_raw` leaves what the
  -- merge operator makes of its operand, and `delete_range` empties the keys from its start on and
  -- below its end: each in the named family and nowhere else, and nothing at all where it fails.
  pub raw_writes-Does :
      {K : Type 0} (kt : KeyType E K) (n : String) (k k' : K) (v : Bytes) (st : CfStore g)
      → Does (put_raw g kt n k v) (assign n (kt.as_bytes k) (some v)) st
        × Does (delete g kt n k) (assign n (kt.as_bytes k) none) st
        × Does
            (merge_raw g kt n k v)
            (λ c. assign n (kt.as_bytes k) (law.merged c n (kt.as_bytes k) v) c)
            st
        × Does (delete_range g kt n k k') (clear_range n (kt.as_bytes k) (kt.as_bytes k')) st
  raw_writes-Does kt n k k' v st = (
    put_raw-Does kt n k v st,
    delete-Does kt n k k' st,
    merge_raw-Does kt n k v st,
    delete_range-Does kt n k k' st,
  )
