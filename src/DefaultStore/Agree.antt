-- ===== src/DefaultStore/Agree.antt =====
-- The three stores of the default family (src/store.rs, src/tx/tx_store.rs,
-- src/tx/optimistic_tx_store.rs) are one: over the same database they do the same.
use rocksolid.Base.{ℕ, ◌≡◌, refl, List, [], ◌∷◌, Bytes, inl, inr}
use rocksolid.Base.Outcome.{err, Result-cases}
use rocksolid.Errors.{StoreResult, other, text}
use rocksolid.Serialization.{Codec, KeyType, serialize_value}
use rocksolid.Expiry.{from_value}
use rocksolid.Engine.{Engine, default_cf}
use rocksolid.CfStore
use rocksolid.CfStore.{CfStore}
use rocksolid.CfStore.Write
use rocksolid.Transactional
use rocksolid.Transactional.Commits
use rocksolid.DefaultStore
use rocksolid.DefaultStore.Pessimistic
use rocksolid.DefaultStore.Optimistic

module _ {E : Type 0} (g : Engine E) {K V : Type 0} (kt : KeyType E K) (c : Codec E V)
    (st : CfStore g) where
  abbrev pub plain : DefaultStore.RocksDbStore g
  plain = record { cf_store = st }

  abbrev pub pessimistic : Pessimistic.RocksDbTxnStore g
  pessimistic = record { cf_store = st }

  abbrev pub optimistic : Optimistic.RocksDbOptimisticTxnStore g
  optimistic = record { cf_store = st }

  pub many :
      (ks : List K)
      → (DefaultStore.multiget g kt c plain ks ≡ Pessimistic.multiget g kt c pessimistic ks)
        × (Optimistic.multiget g kt c optimistic ks ≡ Pessimistic.multiget g kt c pessimistic ks)
  unfolding DefaultStore.multiget Pessimistic.multiget Optimistic.multiget CfStore.multiget
      Transactional.multiget CfStore.read_many Transactional.read_many
  many [] = (refl, refl)
  many (k ∷ ks) = (refl, refl)

  pub raws :
      (ks : List K)
      → (DefaultStore.multiget_raw g kt plain ks ≡ Pessimistic.multiget_raw g kt pessimistic ks)
        × (Optimistic.multiget_raw g kt optimistic ks
            ≡ Pessimistic.multiget_raw g kt pessimistic ks)
  unfolding DefaultStore.multiget_raw Pessimistic.multiget_raw Optimistic.multiget_raw
      CfStore.multiget_raw Transactional.multiget_raw CfStore.read_many Transactional.read_many
  raws [] = (refl, refl)
  raws (k ∷ ks) = (refl, refl)

  -- The reads of the three stores of the default family answer the same over the same database.
  pub default_reads_agree :
      (k : K) (ks : List K)
      → (DefaultStore.get g kt c plain k ≡ Pessimistic.get g kt c pessimistic k)
        × (Optimistic.get g kt c optimistic k ≡ Pessimistic.get g kt c pessimistic k)
        × (DefaultStore.get_raw g kt plain k ≡ Pessimistic.get_raw g kt pessimistic k)
        × (Optimistic.get_raw g kt optimistic k ≡ Pessimistic.get_raw g kt pessimistic k)
        × (DefaultStore.get_with_expiry g kt plain k
            ≡ Pessimistic.get_with_expiry g kt pessimistic k)
        × (Optimistic.get_with_expiry g kt optimistic k
            ≡ Pessimistic.get_with_expiry g kt pessimistic k)
        × (DefaultStore.exists g kt plain k ≡ Pessimistic.exists g kt pessimistic k)
        × (Optimistic.exists g kt optimistic k ≡ Pessimistic.exists g kt pessimistic k)
        × (DefaultStore.multiget g kt c plain ks ≡ Pessimistic.multiget g kt c pessimistic ks)
        × (Optimistic.multiget g kt c optimistic ks ≡ Pessimistic.multiget g kt c pessimistic ks)
        × (DefaultStore.multiget_raw g kt plain ks ≡ Pessimistic.multiget_raw g kt pessimistic ks)
        × (Optimistic.multiget_raw g kt optimistic ks
            ≡ Pessimistic.multiget_raw g kt pessimistic ks)
  unfolding DefaultStore.get Pessimistic.get Optimistic.get DefaultStore.get_raw Pessimistic.get_raw
      Optimistic.get_raw DefaultStore.get_with_expiry Pessimistic.get_with_expiry
      Optimistic.get_with_expiry DefaultStore.exists Pessimistic.exists Optimistic.exists
      DefaultStore.multiget Pessimistic.multiget Optimistic.multiget DefaultStore.multiget_raw
      Pessimistic.multiget_raw Optimistic.multiget_raw CfStore.get CfStore.get_raw CfStore.exists
      CfStore.get_with_expiry Transactional.get Transactional.get_raw Transactional.exists
      Transactional.get_with_expiry CfStore.read_at Transactional.read_at
  default_reads_agree k ks = (
    refl,
    refl,
    refl,
    refl,
    refl,
    refl,
    refl,
    refl,
    (many ks).0,
    (many ks).1,
    (raws ks).0,
    (raws ks).1,
  )

  -- What a write answers, and the store inside that it leaves.
  abbrev pub plainly :
      StoreResult E (Unit {0}) × DefaultStore.RocksDbStore g → StoreResult E (Unit {0}) × CfStore g
  plainly (r, s) = (r, s.cf_store)

  abbrev pub pessimistically :
      StoreResult E (Unit {0}) × Pessimistic.RocksDbTxnStore g
      → StoreResult E (Unit {0}) × CfStore g
  pessimistically (r, s) = (r, s.cf_store)

  abbrev pub optimistically :
      StoreResult E (Unit {0}) × Optimistic.RocksDbOptimisticTxnStore g
      → StoreResult E (Unit {0}) × CfStore g
  optimistically (r, s) = (r, s.cf_store)

  -- `put`, `put_raw`, `put_with_expiry`, `merge`, `merge_raw` and `delete` of the three stores of the
  -- default family, and `merge_with_expiry` with the default family as its argument, answer the same
  -- and leave the same database. `delete_range` of the two transactional stores is refused and
  -- changes nothing.
  pub default_writes_agree :
      (k k' : K) (v : V) (b : Bytes) (t : ℕ)
      → (plainly (DefaultStore.put g kt c k v plain)
          ≡ pessimistically (Pessimistic.put g kt c k v pessimistic))
        × (optimistically (Optimistic.put g kt c k v optimistic)
            ≡ pessimistically (Pessimistic.put g kt c k v pessimistic))
        × (plainly (DefaultStore.put_raw g kt k b plain)
            ≡ pessimistically (Pessimistic.put_raw g kt k b pessimistic))
        × (optimistically (Optimistic.put_raw g kt k b optimistic)
            ≡ pessimistically (Pessimistic.put_raw g kt k b pessimistic))
        × (plainly (DefaultStore.put_with_expiry g kt c k v t plain)
            ≡ pessimistically (Pessimistic.put_with_expiry g kt c k v t pessimistic))
        × (optimistically (Optimistic.put_with_expiry g kt c k v t optimistic)
            ≡ pessimistically (Pessimistic.put_with_expiry g kt c k v t pessimistic))
        × (plainly (DefaultStore.merge g kt c k v plain)
            ≡ pessimistically (Pessimistic.merge g kt c k v pessimistic))
        × (optimistically (Optimistic.merge g kt c k v optimistic)
            ≡ pessimistically (Pessimistic.merge g kt c k v pessimistic))
        × (plainly (DefaultStore.merge_raw g kt k b plain)
            ≡ pessimistically (Pessimistic.merge_raw g kt k b pessimistic))
        × (optimistically (Optimistic.merge_raw g kt k b optimistic)
            ≡ pessimistically (Pessimistic.merge_raw g kt k b pessimistic))
        × (plainly (DefaultStore.merge_with_expiry g kt c default_cf k v t plain)
            ≡ pessimistically (Pessimistic.merge_with_expiry g kt c default_cf k v t pessimistic))
        × (optimistically (Optimistic.merge_with_expiry g kt c default_cf k v t optimistic)
            ≡ pessimistically (Pessimistic.merge_with_expiry g kt c default_cf k v t pessimistic))
        × (plainly (DefaultStore.delete g kt k plain)
            ≡ pessimistically (Pessimistic.delete g kt k pessimistic))
        × (optimistically (Optimistic.delete g kt k optimistic)
            ≡ pessimistically (Pessimistic.delete g kt k pessimistic))
        × (optimistically (Optimistic.delete_range g kt k k' optimistic)
            ≡ pessimistically (Pessimistic.delete_range g kt k k' pessimistic))
        × (pessimistically (Pessimistic.delete_range g kt k k' pessimistic)
            ≡ (err (other (text "delete_range is not supported on a transactional store")), st))
  unfolding DefaultStore.put Pessimistic.put Optimistic.put DefaultStore.put_raw Pessimistic.put_raw
      Optimistic.put_raw DefaultStore.put_with_expiry Pessimistic.put_with_expiry
      Optimistic.put_with_expiry DefaultStore.merge Pessimistic.merge Optimistic.merge
      DefaultStore.merge_raw Pessimistic.merge_raw Optimistic.merge_raw DefaultStore.delete
      Pessimistic.delete Optimistic.delete Pessimistic.delete_range Optimistic.delete_range
      Write.put Commits.put Write.put_raw Commits.put_raw Write.put_with_expiry
      Commits.put_with_expiry Write.merge Commits.merge Write.merge_raw Commits.merge_raw
      DefaultStore.merge_with_expiry Pessimistic.merge_with_expiry Optimistic.merge_with_expiry
      Write.merge_with_expiry Commits.merge_with_expiry Write.delete Commits.delete
      Commits.delete_range CfStore.write_at Transactional.write_at DefaultStore.inside
      Pessimistic.inside Optimistic.inside
  default_writes_agree k k' v b t =
      let serialized = Result-cases (serialize_value {E = E} c v) in
      let stored = Result-cases (from_value {E = E} c t v) in
      (
        elim serialized [ inl (x, q) ↦ rw q refl | inr (e, q) ↦ rw q refl ],
        elim serialized [ inl (x, q) ↦ rw q refl | inr (e, q) ↦ rw q refl ],
        refl,
        refl,
        elim stored [ inl (x, q) ↦ rw q refl | inr (e, q) ↦ rw q refl ],
        elim stored [ inl (x, q) ↦ rw q refl | inr (e, q) ↦ rw q refl ],
        elim serialized [ inl (x, q) ↦ rw q refl | inr (e, q) ↦ rw q refl ],
        elim serialized [ inl (x, q) ↦ rw q refl | inr (e, q) ↦ rw q refl ],
        refl,
        refl,
        elim stored [ inl (x, q) ↦ rw q refl | inr (e, q) ↦ rw q refl ],
        elim stored [ inl (x, q) ↦ rw q refl | inr (e, q) ↦ rw q refl ],
        refl,
        refl,
        refl,
        refl,
      )
