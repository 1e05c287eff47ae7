-- ===== src/CfStore/Unknown.antt =====
-- The operations of `RocksDbCFStore` (src/cf_store.rs) on a family that is not open.
use rocksolid.Base.{
  ℕ, ◌≡◌, ◌≢◌, ◌∙◌, refl, ap, arith, map, inl, inr, none, List, ◌∷◌, Bytes, String, false, str_eq,
  str_eq_iff,
}
use rocksolid.Base.Outcome
use rocksolid.Base.Outcome.{Result, ok, err, Result-cases}
use rocksolid.Base.Action.{Action, lift, ◌>>=◌}
use rocksolid.CfStore.Multi.{serialize_all}
use rocksolid.Errors.{StoreResult, unknown_cf}
use rocksolid.Serialization.{Codec, KeyType, serialize_key, serialize_value}
use rocksolid.Expiry.{from_value, serialize_for_storage}
use rocksolid.Engine.{Engine, default_cf}
use rocksolid.CfStore.{
  CfStore, StoreAction, get_cf_handle, get_raw, get, get_with_expiry, exists, multiget,
  multiget_raw, multiget_with_expiry, read_at, write_at, read_many,
}
use rocksolid.CfStore.Write.{
  put_raw, put, put_with_expiry, delete, delete_range, merge_raw, merge, merge_with_expiry,
}

module _ {E : Type 0} {g : Engine E} {K V : Type 0} (kt : KeyType E K) (c : Codec E V)
    (st : CfStore g) (n : String) (other_family : n ≢ default_cf)
    (missing : g.cf_handle st.db n ≡ none) where
  abbrev unknown : StoreResult E (Unit {0})
  unknown = err (unknown_cf n)

  -- What a typed write answers: the error of its value, or else that the family is unknown.
  abbrev pub value_or_family : V → StoreResult E (Unit {0})
  value_or_family x = Outcome.◌>>=◌ (serialize_value c x) λ b. err (unknown_cf n)

  named : str_eq n default_cf ≡ false
  named = ground (arith, str_eq_iff n default_cf)

  read_at_unknown :
      {A : Type 0} (plain : g.Db → Result E A) (at_handle : g.Db → g.Handle → Result E A)
      → read_at g st n plain at_handle ≡ err (unknown_cf n)
  unfolding read_at get_cf_handle
  read_at_unknown plain at_handle = ground (arith, named)

  read_many_unknown : (bs : List Bytes) → read_many g st n bs ≡ err (unknown_cf n)
  unfolding read_many get_cf_handle
  read_many_unknown bs = ground (arith, named)

  write_at_unknown :
      (plain : Action g.Db E (Unit {0})) (at_handle : g.Handle → Action g.Db E (Unit {0}))
      → write_at g n plain at_handle st ≡ (err (unknown_cf n), st)
  unfolding write_at get_cf_handle
  write_at_unknown plain at_handle = ground (arith, named)

  -- After a value that may fail to be made.
  value_then_unknown :
      {A : Type 0} (r : StoreResult E A) (act : A → StoreAction g)
      → ((a : A) → act a st ≡ (err (unknown_cf n), st))
      → (lift r >>= act) st ≡ (Outcome.◌>>=◌ r (λ a. err (unknown_cf n)), st)
  value_then_unknown (ok a) act h = h a
  value_then_unknown (err e) act h = refl

  from_value_error :
      (t : ℕ) (x : V) → Outcome.◌>>=◌ (from_value {E = E} c t x) (λ a. unknown) ≡ value_or_family x
  unfolding from_value serialize_value
  from_value_error t x = elim (Result-cases (c.serialize x)) [
    | inl (b, q) ↦ rw q refl
    | inr (e, q) ↦ rw q refl
  ]

  -- In a family that is neither the default one nor open, every read of a key and every write of raw
  -- bytes answers `UnknownCf` with the family's name, and so does every `multiget` of one key or
  -- more; a typed write answers the error of its value, if that cannot be serialized, and `UnknownCf`
  -- otherwise. The writes leave the store as it is.
  pub unknown_family :
      (k k' : K) (ks : List K) (b : Bytes) (x : V) (t : ℕ)
      → (get_raw g kt st n k ≡ err (unknown_cf n))
        × (get g kt c st n k ≡ err (unknown_cf n))
        × (get_with_expiry g kt st n k ≡ err (unknown_cf n))
        × (exists g kt st n k ≡ err (unknown_cf n))
        × (multiget_raw g kt st n (k ∷ ks) ≡ err (unknown_cf n))
        × (multiget g kt c st n (k ∷ ks) ≡ err (unknown_cf n))
        × (multiget_with_expiry g kt st n (k ∷ ks) ≡ err (unknown_cf n))
        × (put_raw g kt n k b st ≡ (err (unknown_cf n), st))
        × (delete g kt n k st ≡ (err (unknown_cf n), st))
        × (merge_raw g kt n k b st ≡ (err (unknown_cf n), st))
        × (delete_range g kt n k k' st ≡ (err (unknown_cf n), st))
        × (put g kt c n k x st ≡ (value_or_family x, st))
        × (merge g kt c n k x st ≡ (value_or_family x, st))
        × (put_with_expiry g kt c n k x t st ≡ (value_or_family x, st))
        × (merge_with_expiry g kt c n k x t st ≡ (value_or_family x, st))
  unfolding get_raw get get_with_expiry exists multiget_raw multiget multiget_with_expiry put_raw
      delete merge_raw delete_range put merge put_with_expiry merge_with_expiry serialize_key
  unknown_family k k' ks b x t =
      let a = kt.as_bytes k in
      let single = read_at_unknown (λ db. g.get_pinned db a) (λ db h. g.get_pinned_cf db h a) in
      let raws : multiget_raw g kt st n (k ∷ ks) ≡ err (unknown_cf n) =
        rw (serialize_all {E = E} kt ks, read_many_unknown (map kt.as_bytes (k ∷ ks))) refl in
      let puts = λ (v : Bytes). write_at_unknown (g.put a v) (λ h. g.put_cf h a v) in
      let merges = λ (v : Bytes). write_at_unknown (g.merge a v) (λ h. g.merge_cf h a v) in
      (
        single,
        rw single refl,
        rw single refl,
        rw single refl,
        raws,
        rw (serialize_all {E = E} kt ks, read_many_unknown (map kt.as_bytes (k ∷ ks))) refl,
        rw raws refl,
        puts b,
        write_at_unknown (g.delete a) (λ h. g.delete_cf h a),
        merges b,
        write_at_unknown (g.write (g.batch_delete_range a (kt.as_bytes k') g.empty_batch))
            (λ h. g.write (g.batch_delete_range_cf h a (kt.as_bytes k') g.empty_batch)),
        value_then_unknown (serialize_value c x) _ puts,
        value_then_unknown (serialize_value c x) _ merges,
        value_then_unknown (from_value c t x) _ (λ vwe. puts (serialize_for_storage vwe))
            ∙ ap (λ r. (r, st)) (from_value_error t x),
        value_then_unknown (from_value c t x) _ (λ vwe. merges (serialize_for_storage vwe))
            ∙ ap (λ r. (r, st)) (from_value_error t x),
      )
