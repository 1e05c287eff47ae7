-- ===== src/Transactional/Agree.antt =====
-- The transactional stores against the plain one: the same operations wherever the handle of the
-- family is found.
use rocksolid.Base.{
  ℕ, ◌≡◌, refl, ap, ◌∙◌, Option, none, some, List, [], ◌∷◌, Bytes, String, inl, inr,
}
use rocksolid.Base.Outcome.{Result, ok, err, try_map, Result-cases}
use rocksolid.Base.Action.{Action, lift, ◌>>=◌}
use rocksolid.Errors.{other, text}
use rocksolid.Serialization.{Codec, KeyType, serialize_key, serialize_value}
use rocksolid.Expiry.{from_value, serialize_for_storage}
use rocksolid.Engine.{Engine, Direction}
use rocksolid.Iter.Helpers.{execute}
use rocksolid.CfStore.Find.{collect_result, is_reverse}
use rocksolid.Iter.{ControlFn, IterConfig, new_deserializing}
use mathlib.Core.Path.{fun_ext}
use rocksolid.CfStore
use rocksolid.CfStore.{CfStore}
use rocksolid.CfStore.Write
use rocksolid.CfStore.Find
use rocksolid.Transactional
use rocksolid.Transactional.Commits
use rocksolid.Transactional.Find as TransactionalFind

lift_same :
    {S X A B : Type 0} (r : Result X A) (f h : A → Action S X B) (s : S)
    → ((a : A) → f a s ≡ h a s)
    → (lift r >>= f) s ≡ (lift r >>= h) s
lift_same (ok a) f h s p = p a
lift_same (err e) f h s p = refl

module _ {E : Type 0} (g : Engine E) {K : Type 0} (kt : KeyType E K) (st : CfStore g) (n : String)
    (same : Transactional.get_cf_handle g st n ≡ CfStore.get_cf_handle g st n) where
  read_at-CfStore :
      {A : Type 0} (plain : g.Db → Result E A) (at_handle : g.Db → g.Handle → Result E A)
      → Transactional.read_at g st n plain at_handle ≡ CfStore.read_at g st n plain at_handle
  unfolding Transactional.read_at CfStore.read_at
  read_at-CfStore plain at_handle = rw same

  write_at-CfStore :
      (plain : _) (at_handle : _)
      → Transactional.write_at g n plain at_handle st ≡ CfStore.write_at g n plain at_handle st
  unfolding Transactional.write_at CfStore.write_at
  write_at-CfStore plain at_handle = rw same

  read_many-CfStore :
      (bs : List Bytes) → Transactional.read_many g st n bs ≡ CfStore.read_many g st n bs
  unfolding Transactional.read_many CfStore.read_many
  read_many-CfStore bs = rw same

  module _ (k : K) where
    raw_read : Transactional.get_raw g kt st n k ≡ CfStore.get_raw g kt st n k
    unfolding Transactional.get_raw CfStore.get_raw
    raw_read =
        let b = kt.as_bytes k in
        read_at-CfStore (λ db. g.get_pinned db b) (λ db h. g.get_pinned_cf db h b)

  raw_reads :
      (ks : List K) → Transactional.multiget_raw g kt st n ks ≡ CfStore.multiget_raw g kt st n ks
  unfolding Transactional.multiget_raw CfStore.multiget_raw
  raw_reads [] = refl
  raw_reads (k ∷ ks) = elim (Result-cases (try_map (serialize_key {E = E} kt) (k ∷ ks))) [
    | inl (bs, q) ↦ rw (q, read_many-CfStore bs)
    | inr (e, q) ↦ rw q
  ]

  module _ {V : Type 0} (c : Codec E V) where
    typed_reads :
        (ks : List K) → Transactional.multiget g kt c st n ks ≡ CfStore.multiget g kt c st n ks
    unfolding Transactional.multiget CfStore.multiget
    typed_reads [] = refl
    typed_reads (k ∷ ks) = elim (Result-cases (try_map (serialize_key {E = E} kt) (k ∷ ks))) [
      | inl (bs, q) ↦ rw (q, read_many-CfStore bs)
      | inr (e, q) ↦ rw q
    ]

  -- Where the handle of a family is found, the reads of a transactional store are those of the plain
  -- store.
  pub reads-CfStore :
      {V : Type 0} (c : Codec E V) (k : K) (ks : List K)
      → (Transactional.get g kt c st n k ≡ CfStore.get g kt c st n k)
        × (Transactional.get_raw g kt st n k ≡ CfStore.get_raw g kt st n k)
        × (Transactional.get_with_expiry g kt st n k ≡ CfStore.get_with_expiry g kt st n k)
        × (Transactional.exists g kt st n k ≡ CfStore.exists g kt st n k)
        × (Transactional.multiget g kt c st n ks ≡ CfStore.multiget g kt c st n ks)
        × (Transactional.multiget_raw g kt st n ks ≡ CfStore.multiget_raw g kt st n ks)
        × (Transactional.multiget_with_expiry g kt st n ks
            ≡ CfStore.multiget_with_expiry g kt st n ks)
  unfolding Transactional.get Transactional.get_raw Transactional.get_with_expiry
      Transactional.exists CfStore.get CfStore.get_raw CfStore.get_with_expiry CfStore.exists
  reads-CfStore c k ks =
      let b = kt.as_bytes k in
      let r =
        read_at-CfStore {A = Option Bytes} (λ db. g.get_pinned db b)
          (λ db h. g.get_pinned_cf db h b) in
      (
        rw r,
        raw_read k,
        rw (raw_read k),
        rw r,
        typed_reads c ks,
        raw_reads ks,
        unfold Transactional.multiget_with_expiry CfStore.multiget_with_expiry in rw (raw_reads ks),
      )

  -- Where the handle of a family is found, the writes of a transactional store are those of the plain
  -- store, except that `delete_range` is refused.
  pub writes-CfStore :
      {V : Type 0} (c : Codec E V) (k k' : K) (b : Bytes) (v : V) (t : ℕ)
      → (Commits.put g kt c n k v st ≡ Write.put g kt c n k v st)
        × (Commits.put_raw g kt n k b st ≡ Write.put_raw g kt n k b st)
        × (Commits.put_with_expiry g kt c n k v t st ≡ Write.put_with_expiry g kt c n k v t st)
        × (Commits.delete g kt n k st ≡ Write.delete g kt n k st)
        × (Commits.merge g kt c n k v st ≡ Write.merge g kt c n k v st)
        × (Commits.merge_raw g kt n k b st ≡ Write.merge_raw g kt n k b st)
        × (Commits.merge_with_expiry g kt c n k v t st ≡ Write.merge_with_expiry g kt c n k v t st)
        × (Commits.delete_range g kt n k k' st
            ≡ (err (other (text "delete_range is not supported on a transactional store")), st))
  unfolding Commits.put Write.put Commits.put_raw Write.put_raw Commits.put_with_expiry
      Write.put_with_expiry Commits.delete Write.delete Commits.merge Write.merge Commits.merge_raw
      Write.merge_raw Commits.merge_with_expiry Write.merge_with_expiry Commits.delete_range
  writes-CfStore c k k' b v t =
      let x = kt.as_bytes k in
      let stored_put = λ (w : Bytes). write_at-CfStore (g.put x w) (λ h. g.put_cf h x w) in
      let stored_merge = λ (w : Bytes). write_at-CfStore (g.merge x w) (λ h. g.merge_cf h x w) in
      (
        lift_same (serialize_value c v) _ _ st stored_put,
        stored_put b,
        lift_same (from_value c t v) _ _ st (λ vwe. stored_put (serialize_for_storage vwe)),
        write_at-CfStore (g.delete x) (λ h. g.delete_cf h x),
        lift_same (serialize_value c v) _ _ st stored_merge,
        stored_merge b,
        lift_same (from_value c t v) _ _ st (λ vwe. stored_merge (serialize_for_storage vwe)),
        refl,
      )

  general_factory-CfStore : TransactionalFind.general_factory g st n ≡ Find.general_factory g st n
  unfolding TransactionalFind.general_factory Find.general_factory
  general_factory-CfStore = fun_ext λ mode. rw same

  prefix_factory-CfStore : TransactionalFind.prefix_factory g st n ≡ Find.prefix_factory g st n
  unfolding TransactionalFind.prefix_factory Find.prefix_factory
  prefix_factory-CfStore = fun_ext λ p. rw same

  iterate-CfStore :
      {S Out : Type 0} (config : IterConfig E S K Out) (s : S)
      → config.cf_name ≡ n
      → TransactionalFind.iterate g kt st config s ≡ Find.iterate g kt st config s
  unfolding TransactionalFind.iterate Find.iterate
  iterate-CfStore config s h =
      let gf : TransactionalFind.general_factory g st config.cf_name
          ≡ Find.general_factory g st config.cf_name =
        rw h general_factory-CfStore in
      let pf : TransactionalFind.prefix_factory g st config.cf_name
          ≡ Find.prefix_factory g st config.cf_name =
        rw h prefix_factory-CfStore in
      ap (λ f. execute kt f (TransactionalFind.prefix_factory g st config.cf_name) config s) gf
      ∙ ap (λ f. execute kt (Find.general_factory g st config.cf_name) f config s) pf

  -- Where the handle of a family is found, an iteration over it, `find_by_prefix` and `find_from` of a
  -- transactional store are those of the plain store.
  pub finds-CfStore :
      {V S Out : Type 0} (c : Codec E V) (k : K) (d : Direction) (control : ControlFn S) (s : S)
      (config : IterConfig E S K Out)
      → config.cf_name ≡ n
      → (TransactionalFind.iterate g kt st config s ≡ Find.iterate g kt st config s)
        × (TransactionalFind.find_by_prefix g kt c st n k d ≡ Find.find_by_prefix g kt c st n k d)
        × (TransactionalFind.find_from g kt c st n k d control s
            ≡ Find.find_from g kt c st n k d control s)
  unfolding TransactionalFind.find_by_prefix Find.find_by_prefix TransactionalFind.find_from
      Find.find_from new_deserializing
  finds-CfStore c k d control s config h = (
    iterate-CfStore config s h,
    ap (collect_result (text "find_by_prefix: Expected DeserializedItems")) (
        iterate-CfStore (new_deserializing n (some k) none (is_reverse d) none (Find.kv_fn g kt c))
          tt refl),
    ap (collect_result (text "find_from: Expected DeserializedItems")) (
        iterate-CfStore
          (new_deserializing n none (some k) (is_reverse d) (some control) (Find.kv_fn g kt c)) s
          refl),
  )
