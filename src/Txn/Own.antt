-- ===== src/Txn/Own.antt =====
-- What an operation within a transaction changes: the view of its transaction, not the database; and
-- that the transaction reads it.
use rocksolid.Base.{
  ◌≡◌, ◌∙◌, refl, ap, arith, Option-cases, inl, inr, Option, none, some, Bytes, String, str_eq_iff,
  bytes_eq_refl,
}
use rocksolid.Base.Outcome.{Result, ok, err, on_ok}
use rocksolid.Base.Action.{Action}
use rocksolid.Errors.{StoreError}
use rocksolid.Serialization.{KeyType}
use rocksolid.Engine.{default_cf}
use rocksolid.Engine.Laws.{Content, assign}
use rocksolid.Txn.{
  TxnEngine, TxnStore, Running, TxnAction, write_within, read_within, call_txn, get_cf_handle,
}
use rocksolid.Txn.Laws.{IsTransactional}
use rocksolid.Txn.Within.{get_raw_in_txn, put_raw_in_txn, delete_in_txn, merge_raw_in_txn}

module _ {E : Type 0} {g : TxnEngine E} (law : IsTransactional g) where
  abbrev pub view_of : Running g → Content
  view_of w = law.view (w.txn, w.store.db)

  -- The view of the transaction after the action is `change` of the one before where the action
  -- succeeded, and the one before where it failed; the content of the database stays.
  abbrev pub Stages : TxnAction g → (Content → Content) → Running g → Type 0
  Stages act change w =
      (view_of (act w).1 ≡ on_ok (act w).0 (change (view_of w)) (view_of w))
      × (law.content (act w).1.store.db ≡ law.content w.store.db)

  abbrev pub CallDoes : Action (g.Tx × g.Db) E (Unit {0}) → (Content → Content) → Type 0
  CallDoes act change =
      (t : g.Tx × g.Db)
      → (law.view (act t).1 ≡ on_ok (act t).0 (change (law.view t)) (law.view t))
        × (law.content (act t).1.1 ≡ law.content t.1)

  pub handle_name :
      (st : TxnStore g) (n : String) (h : g.Handle) → get_cf_handle g st n ≡ ok h → law.name h ≡ n
  unfolding get_cf_handle
  handle_name st n h e = elim (Option-cases (g.cf_handle st.db n)) [
    | inl q ↦ absurd (ground arith)
    | inr (hd, q) ↦ ground (arith, law.cf_handle_name st.db n hd q)
  ]

  write_within-Stages :
      (n : String) (plain : Action (g.Tx × g.Db) E (Unit {0}))
      (at_handle : g.Handle → Action (g.Tx × g.Db) E (Unit {0}))
      (change : String → Content → Content)
      → CallDoes plain (change default_cf)
      → ((h : g.Handle) → CallDoes (at_handle h) (change (law.name h)))
      → (w : Running g) → Stages (write_within g n plain at_handle) (change n) w
  unfolding write_within call_txn
  write_within-Stages n plain at_handle change dp dh w = go (get_cf_handle g w.store n) refl
    where
      go :
          (r : Result (StoreError E) g.Handle)
          → get_cf_handle g w.store n ≡ r
          → Stages (write_within g n plain at_handle) (change n) w
      go (ok h) q = ground (
        arith,
        handle_name w.store n h q,
        str_eq_iff n default_cf,
        dp (w.txn, w.store.db),
        dh h (w.txn, w.store.db),
      )
      go (err e) q = ground (arith, str_eq_iff n default_cf, dp (w.txn, w.store.db))

  module _ {K : Type 0} (kt : KeyType E K) (n : String) (k : K) (w : Running g) where
    -- Within a transaction, `put_raw` writes its value under its key, `delete` empties its key, and
    -- `merge_raw` leaves what the merge operator makes of its operand, in the view of the transaction
    -- alone: the database keeps its content, and an operation that fails changes the view neither.
    pub within-Stages :
        (v : Bytes)
        → Stages (put_raw_in_txn g kt n k v) (assign n (kt.as_bytes k) (some v)) w
          × Stages (delete_in_txn g kt n k) (assign n (kt.as_bytes k) none) w
          × Stages
              (merge_raw_in_txn g kt n k v)
              (λ c. assign n (kt.as_bytes k) (law.merged c n (kt.as_bytes k) v) c)
              w
    unfolding put_raw_in_txn delete_in_txn merge_raw_in_txn
    within-Stages v =
        let b = kt.as_bytes k in
        (
          write_within-Stages n (g.put b v) (λ h. g.put_cf h b v) (λ m. assign m b (some v))
              (λ t. (law.put_view b v t, law.put_content b v t))
              (λ h t. (law.put_cf_view h b v t, law.put_cf_content h b v t)) w,
          write_within-Stages n (g.delete b) (λ h. g.delete_cf h b) (λ m. assign m b none)
              (λ t. (law.delete_view b t, law.delete_content b t))
              (λ h t. (law.delete_cf_view h b t, law.delete_cf_content h b t)) w,
          write_within-Stages n (g.merge b v) (λ h. g.merge_cf h b v)
              (λ m c. assign m b (law.merged c m b v) c)
              (λ t. (law.merge_view b v t, law.merge_content b v t))
              (λ h t. (law.merge_cf_view h b v t, law.merge_cf_content h b v t)) w,
        )

    -- A read within a transaction that succeeds returns what its view holds.
    pub get_raw_in_txn-view :
        (o : Option Bytes) → get_raw_in_txn g kt w n k ≡ ok o → o ≡ view_of w n (kt.as_bytes k)
    unfolding get_raw_in_txn read_within
    get_raw_in_txn-view o h = go (get_cf_handle g w.store n) refl
      where
        go :
            (r : Result (StoreError E) g.Handle)
            → get_cf_handle g w.store n ≡ r
            → o ≡ view_of w n (kt.as_bytes k)
        go (ok hd) q = ground (
          arith,
          handle_name w.store n hd q,
          str_eq_iff n default_cf,
          law.get_pinned_ok (w.txn, w.store.db) (kt.as_bytes k) o,
          law.get_pinned_cf_ok (w.txn, w.store.db) hd (kt.as_bytes k) o,
        )
        go (err e) q = ground (
          arith,
          str_eq_iff n default_cf,
          law.get_pinned_ok (w.txn, w.store.db) (kt.as_bytes k) o,
        )

    assigned : (v : Option Bytes) (c : Content) → assign n (kt.as_bytes k) v c n (kt.as_bytes k) ≡ v
    unfolding assign
    assigned v c = ground (arith, str_eq_iff n n, bytes_eq_refl (kt.as_bytes k))

  -- A transaction reads its own writes: after a `put_raw` within it that succeeded, a `get_raw` within
  -- it of the same family and key that succeeds returns the value that was put.
  pub own_write :
      {K : Type 0} (kt : KeyType E K) (n : String) (k : K) (w : Running g) (v : Bytes)
      (o : Option Bytes)
      → (put_raw_in_txn g kt n k v w).0 ≡ ok tt
      → get_raw_in_txn g kt (put_raw_in_txn g kt n k v w).1 n k ≡ ok o
      → o ≡ some v
  own_write kt n k w v o p h =
      get_raw_in_txn-view kt n k (put_raw_in_txn g kt n k v w).1 o h
      ∙ ap (λ (f : Content). f n (kt.as_bytes k)) (rw p at ((within-Stages kt n k w v).0.0))
      ∙ assigned kt n k w (some v) (view_of w)
