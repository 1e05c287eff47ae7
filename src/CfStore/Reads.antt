-- ===== src/CfStore/Reads.antt =====
-- What the reads of a store return: what its database holds, and what was written last.
use rocksolid.Base.{
  ◌≡◌, ap, ◌∙◌, arith, Bool-cases, Option-cases, inl, inr, Option, none, some, Bytes, true, false,
  ℕ, String, str_eq, str_eq_iff, bytes_eq_refl,
}
use rocksolid.Base.Outcome.{ok, map_or_none, Result-cases}
use rocksolid.Serialization.{Codec, KeyType, IsRoundTrip, deserialize_value, serialize_value}
use rocksolid.Expiry.{
  ValueWithExpiry, IsU64, from_slice, from_value, serialize_for_storage, get_value,
}
use rocksolid.Expiry.Storage.{read-serialize}
use rocksolid.Engine.{Engine, default_cf}
use rocksolid.Engine.Laws.{Content, IsKeyValue, assign}
use rocksolid.CfStore.{CfStore, get_raw, get, get_with_expiry, exists}
use rocksolid.CfStore.Write.{put_raw, put, put_with_expiry}
use rocksolid.CfStore.Writes.{put_raw-Does, typed_writes}

assign_self : (n : String) (k : Bytes) (v : Option Bytes) (c : Content) → assign n k v c n k ≡ v
unfolding assign
assign_self n k v c = ground (arith, str_eq_iff n n, bytes_eq_refl k)

module _ {E : Type 0} {g : Engine E} {K : Type 0} (kt : KeyType E K) where
  -- `exists` is `get_raw` asked for presence, `get` is `get_raw` and then the deserializer, with the
  -- same errors.
  pub reads_agree :
      {V : Type 0} (c : Codec E V) (st : CfStore g) (n : String) (k : K) (o : Option Bytes)
      → get_raw g kt st n k ≡ ok o
      → (exists g kt st n k ≡ ok (elim o [ none ↦ false | some b ↦ true ]))
        × (get g kt c st n k ≡ map_or_none (deserialize_value c) o)
        × (get_with_expiry g kt st n k ≡ map_or_none from_slice o)
  unfolding get_raw get get_with_expiry exists
  reads_agree c st n k o h = ground arith

  module _ (law : IsKeyValue g) where
    -- A read that succeeds returns what the named family holds under the key.
    pub get_raw-content :
        (st : CfStore g) (n : String) (k : K) (o : Option Bytes)
        → get_raw g kt st n k ≡ ok o
        → o ≡ law.content st.db n (kt.as_bytes k)
    unfolding get_raw
    get_raw-content st n k o h = elim (Bool-cases (str_eq n default_cf)) [
      | inl e ↦ ground (arith, str_eq_iff n default_cf, law.get_pinned_ok st.db (kt.as_bytes k) o)
      | inr e ↦ elim (Option-cases (g.cf_handle st.db n)) [
        | inl q ↦ ground arith
        | inr (hd, q) ↦
            ground (
              arith,
              law.cf_handle_name st.db n hd,
              law.get_pinned_cf_ok st.db hd (kt.as_bytes k) o,
            )
      ]
    ]

    -- After a `put_raw` that succeeded, a `get_raw` of the same family and key that succeeds returns
    -- the value that was put.
    pub get_raw-put_raw :
        (st : CfStore g) (n : String) (k : K) (v : Bytes) (o : Option Bytes)
        → (put_raw g kt n k v st).0 ≡ ok tt
        → get_raw g kt (put_raw g kt n k v st).1 n k ≡ ok o
        → o ≡ some v
    get_raw-put_raw st n k v o p h =
        get_raw-content (put_raw g kt n k v st).1 n k o h
        ∙ ap (λ (f : Content). f n (kt.as_bytes k)) (rw p at (put_raw-Does law kt n k v st))
        ∙ assign_self n (kt.as_bytes k) (some v) (law.content st.db)

    module _ {V : Type 0} (c : Codec E V) (rt : IsRoundTrip c) (st : CfStore g) (n : String) (k : K)
        (x : V) where
      serialized_put : (put g kt c n k x st).0 ≡ ok tt → (b : Bytes) × (c.serialize x ≡ ok b)
      unfolding put
      serialized_put p = elim (Result-cases (c.serialize x)) [
        | inl q ↦ q
        | inr (e, q) ↦ absurd (ground arith)
      ]

      serialized_put_with_expiry :
          (t : ℕ)
          → (put_with_expiry g kt c n k x t st).0 ≡ ok tt
          → (b : Bytes) × (c.serialize x ≡ ok b)
      unfolding put_with_expiry from_value serialize_value
      serialized_put_with_expiry t p = elim (Result-cases (c.serialize x)) [
        | inl q ↦ q
        | inr (e, q) ↦ absurd (ground arith)
      ]

      -- After a `put` that succeeded, a `get` of the same family and key returns the value that was
      -- put, unless reading the bytes meets an error of the database.
      pub get-put :
          (o : Option Bytes)
          → (put g kt c n k x st).0 ≡ ok tt
          → get_raw g kt (put g kt c n k x st).1 n k ≡ ok o
          → get g kt c (put g kt c n k x st).1 n k ≡ ok (some x)
      unfolding deserialize_value
      get-put o p h =
          let (b, e) = serialized_put p in
          let w = (typed_writes g kt c n k x 0 b e).0 in
          let q = get_raw-put_raw st n k b o (rw w at p) (rw w at h) in
          (reads_agree c (put g kt c n k x st).1 n k o h).1 ∙ rw (q, rt.read_back x b e)

      -- After a `put_with_expiry` of a `u64` time that succeeded, `get_with_expiry` of the same family
      -- and key returns that time, with bytes that deserialize to the value that was put, unless
      -- reading the bytes meets an error of the database.
      pub get_with_expiry-put_with_expiry :
          (t : ℕ) (o : Option Bytes)
          → IsU64 t
          → (put_with_expiry g kt c n k x t st).0 ≡ ok tt
          → get_raw g kt (put_with_expiry g kt c n k x t st).1 n k ≡ ok o
          → (b : Bytes) × (get_with_expiry g kt (put_with_expiry g kt c n k x t st).1 n k
              ≡ ok (some (record { expire_time = t; raw_value = b })))
            × (get_value c (record { expire_time = t; raw_value = b }) ≡ ok x)
      unfolding deserialize_value get_value
      get_with_expiry-put_with_expiry t o u p h =
          let (b, e) = serialized_put_with_expiry t p in
          let v : ValueWithExpiry = record { expire_time = t; raw_value = b } in
          let w = (typed_writes g kt c n k x t b e).2 in
          let q = get_raw-put_raw st n k (serialize_for_storage v) o (rw w at p) (rw w at h) in
          (
            b,
            (reads_agree c (put_with_expiry g kt c n k x t st).1 n k o h).2
                ∙ rw (q, (read-serialize v u).0),
            rw (rt.read_back x b e),
          )
