-- ===== src/DefaultStore/Frame.antt =====
-- What the writes of `RocksDbStore` (src/store.rs) leave alone: every family but the default one, save
-- for `merge_with_expiry`, which takes the name of a family.
use rocksolid.Base.{
  ℕ, ◌≡◌, ◌≢◌, ◌∙◌, refl, ap, arith, inl, inr, Option, none, some, Bytes, String, str_eq_iff,
}
use rocksolid.Base.Outcome.{Result-cases}
use rocksolid.Serialization.{Codec, KeyType}
use rocksolid.Expiry.{from_value, serialize_for_storage}
use rocksolid.Engine.{Engine, default_cf}
use rocksolid.Engine.Laws.{Content, IsKeyValue, assign, clear_range}
use rocksolid.CfStore.{StoreAction}
use rocksolid.CfStore.Write
use rocksolid.CfStore.Writes.{Does, raw_writes-Does, typed_writes}
use rocksolid.DefaultStore.{
  RocksDbStore, DefaultAction, inside, put, put_raw, put_with_expiry, merge, merge_raw, delete,
  delete_range,
}

module _ {E : Type 0} {g : Engine E} (law : IsKeyValue g) (st : RocksDbStore g) where
  -- The action leaves the value under a key of a family as it is, whether it succeeds or fails.
  abbrev pub Spares : DefaultAction g → String → Bytes → Type 0
  Spares act n j = law.content (act st).1.cf_store.db n j ≡ law.content st.cf_store.db n j

  spares :
      (act : StoreAction g) (change : Content → Content) (n : String) (j : Bytes)
      → Does law act change st.cf_store
      → (change (law.content st.cf_store.db) n j ≡ law.content st.cf_store.db n j)
      → Spares (inside g act) n j
  unfolding inside
  spares act change n j does same = elim (Result-cases (act st.cf_store).0) [
    | inl (u, q) ↦ ap (λ (f : Content). f n j) (rw q at does) ∙ same
    | inr (e, q) ↦ ap (λ (f : Content). f n j) (rw q at does)
  ]

  assign_other :
      (n : String) (k j : Bytes) (v : Option Bytes) (c : Content)
      → n ≢ default_cf
      → assign default_cf k v c n j ≡ c n j
  unfolding assign
  assign_other n k j v c h = ground (arith, str_eq_iff default_cf n)

  clear_other :
      (n : String) (lo hi j : Bytes) (c : Content)
      → n ≢ default_cf
      → clear_range default_cf lo hi c n j ≡ c n j
  unfolding clear_range
  clear_other n lo hi j c h = ground (arith, str_eq_iff default_cf n)

  module _ {K V : Type 0} (kt : KeyType E K) (c : Codec E V) (n : String) (j : Bytes)
      (other : n ≢ default_cf) (k k' : K) where
    raw_Spares :
        (b : Bytes)
        → Spares (put_raw g kt k b) n j
          × Spares (merge_raw g kt k b) n j
          × Spares (delete g kt k) n j
          × Spares (delete_range g kt k k') n j
    unfolding put_raw merge_raw delete delete_range
    raw_Spares b =
        let x = law.content st.cf_store.db in
        let (p, d, m, r) = raw_writes-Does law kt default_cf k k' b st.cf_store in
        (
          spares (Write.put_raw g kt default_cf k b) (assign default_cf (kt.as_bytes k) (some b)) n
              j p (assign_other n (kt.as_bytes k) j (some b) x other),
          spares (Write.merge_raw g kt default_cf k b)
              (λ y. assign default_cf (kt.as_bytes k) (law.merged y default_cf (kt.as_bytes k) b) y)
              n j m
              (assign_other n (kt.as_bytes k) j (law.merged x default_cf (kt.as_bytes k) b) x
                other),
          spares (Write.delete g kt default_cf k) (assign default_cf (kt.as_bytes k) none) n j d
              (assign_other n (kt.as_bytes k) j none x other),
          spares (Write.delete_range g kt default_cf k k')
              (clear_range default_cf (kt.as_bytes k) (kt.as_bytes k')) n j r
              (clear_other n (kt.as_bytes k) (kt.as_bytes k') j x other),
        )

    -- Every write of a store of the default family that names no family leaves all other families as
    -- they are, whether it succeeds, fails in the database, or fails to serialize its value.
    pub writes-Spares :
        (v : V) (b : Bytes) (t : ℕ)
        → Spares (put_raw g kt k b) n j
          × Spares (merge_raw g kt k b) n j
          × Spares (delete g kt k) n j
          × Spares (delete_range g kt k k') n j
          × Spares (put g kt c k v) n j
          × Spares (merge g kt c k v) n j
          × Spares (put_with_expiry g kt c k v t) n j
    unfolding put merge put_with_expiry put_raw merge_raw
    writes-Spares v b t = elim (Result-cases (c.serialize v)) [
      | inl (x, q) ↦
          let same = typed_writes g kt c default_cf k v t x q in
          let stored = serialize_for_storage (record { expire_time = t; raw_value = x }) in
          let (p, m, d, r) = raw_Spares b in
          let (p', m', _, _) = raw_Spares x in
          let (p'', _, _, _) = raw_Spares stored in
          (p, m, d, r, rw same.0 p', rw same.1 m', rw same.2 p'')
      | inr (e, q) ↦
          let (p, m, d, r) = raw_Spares b in
          (
            p,
            m,
            d,
            r,
            unfold inside Write.put in (rw q refl),
            unfold inside Write.merge in (rw q refl),
            unfold inside Write.put_with_expiry from_value in (rw q refl),
          )
    ]
