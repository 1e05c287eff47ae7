-- ===== src/Txn/Context.antt =====
-- `TransactionContext` of src/tx/context.rs, but for its iteration. `moved` tells that `ptr::read` has
-- moved the transaction out, so that a further use of the field is undefined behaviour, `none` here.
use rocksolid.Base.{ℕ, Option, none, some, Bytes, String, Bool, true, false, if◌then◌else◌}
use rocksolid.Base.Outcome
use rocksolid.Base.Outcome.{Result, ok, err, map_err, map_ok, map_or_none}
use rocksolid.Base.Action.{Action, lift, ◌>>=◌}
use rocksolid.Errors.{StoreError, StoreResult, other, text, rocks_db}
use rocksolid.Serialization.{Codec, KeyType, serialize_key, serialize_value}
use rocksolid.Expiry.{ValueWithExpiry, from_value, from_slice, serialize_for_storage}
use rocksolid.Engine.{default_cf}
use rocksolid.Txn.{TxnEngine, TxnStore, Running, TxnAction, call_txn, begin_transaction}
use rocksolid.Txn.Within.{
  get_in_txn, get_raw_in_txn, get_with_expiry_in_txn, exists_in_txn, put_in_txn_cf, put_raw_in_txn,
  put_with_expiry_in_txn, delete_in_txn, merge_in_txn, merge_raw_in_txn,
}

-- `running` is the store and the transaction.
pub record TransactionContext {E : Type 0} (g : TxnEngine E) : Type 0 where
  pub running : Running g
  pub completed : Bool
  pub moved : Bool

module _ {E : Type 0} (g : TxnEngine E) where
  abbrev pub ContextAction : Type 0
  ContextAction = Action (TransactionContext g) (StoreError E) (Unit {0})

  unfoldable pub new : TxnStore g → TransactionContext g
  unfolding begin_transaction
  new st = record { running = begin_transaction g st; completed = false; moved = false }

  unfoldable pub check_completed : TransactionContext g → StoreResult E (Unit {0})
  check_completed ctx =
      if ctx.completed
      then err (other (text "TransactionContext already completed (committed or rolled back)"))
      else ok tt

  -- `self.check_completed()?` before a write, and before a read.
  unfoldable pub staged : TxnAction g → ContextAction
  unfolding check_completed
  staged act ctx =
      (lift (check_completed ctx) >>= λ _ c.
      (let (r, w) = act c.running in (r, record c { running = w })))
        ctx

  unfoldable pub read :
      {A : Type 0} → (Running g → StoreResult E A) → TransactionContext g → StoreResult E A
  unfolding check_completed
  read f ctx = Outcome.◌>>=◌ (check_completed ctx) λ _. f ctx.running

  module _ {K : Type 0} (kt : KeyType E K) where
    unfoldable pub set : {V : Type 0} → Codec E V → K → V → ContextAction
    unfolding staged put_in_txn_cf
    set c key val = staged (put_in_txn_cf g kt c default_cf key val)

    unfoldable pub set_raw : K → Bytes → ContextAction
    unfolding staged serialize_key call_txn
    set_raw key raw_val =
        staged (lift (serialize_key kt key) >>= λ ser_key. call_txn g (g.put ser_key raw_val))

    unfoldable pub set_with_expiry : {V : Type 0} → Codec E V → K → V → ℕ → ContextAction
    unfolding staged serialize_key from_value serialize_for_storage call_txn
    set_with_expiry c key val expire_time = staged (
        lift (serialize_key kt key) >>= λ ser_key. lift (from_value c expire_time val) >>= λ vwe.
        call_txn g (g.put ser_key (serialize_for_storage vwe)))

    unfoldable pub merge : {V : Type 0} → Codec E V → K → V → ContextAction
    unfolding staged serialize_key serialize_value call_txn
    merge c key merge_value = staged (
        lift (serialize_key kt key) >>= λ ser_key.
        lift (serialize_value c merge_value) >>= λ ser_op. call_txn g (g.merge ser_key ser_op))

    unfoldable pub merge_raw : K → Bytes → ContextAction
    unfolding staged serialize_key call_txn
    merge_raw key raw_merge_op =
        staged
          (lift (serialize_key kt key) >>= λ ser_key. call_txn g (g.merge ser_key raw_merge_op))

    unfoldable pub delete : K → ContextAction
    unfolding staged serialize_key call_txn
    delete key = staged (lift (serialize_key kt key) >>= λ ser_key. call_txn g (g.delete ser_key))

    unfoldable pub get :
        {V : Type 0} → Codec E V → K → TransactionContext g → StoreResult E (Option V)
    unfolding read get_in_txn
    get c key = read λ w. get_in_txn g kt c w default_cf key

    unfoldable pub get_raw : K → TransactionContext g → StoreResult E (Option Bytes)
    unfolding read serialize_key
    get_raw key = read λ w.
        Outcome.◌>>=◌ (serialize_key kt key)
          λ ser_key. map_err rocks_db (g.get_pinned (w.txn, w.store.db) ser_key)

    unfoldable pub get_with_expiry :
        K → TransactionContext g → StoreResult E (Option ValueWithExpiry)
    unfolding check_completed get_raw from_slice
    get_with_expiry key ctx =
        Outcome.◌>>=◌ (check_completed ctx)
          λ _. Outcome.◌>>=◌ (get_raw key ctx) (map_or_none from_slice)

    unfoldable pub exists : K → TransactionContext g → StoreResult E Bool
    unfolding read serialize_key
    exists key = read λ w. Outcome.◌>>=◌ (serialize_key kt key) λ ser_key.
        map_ok (elim [ none ↦ false | some b ↦ true ])
          (map_err rocks_db (g.get_pinned (w.txn, w.store.db) ser_key))

    unfoldable pub put_cf : {V : Type 0} → Codec E V → String → K → V → ContextAction
    unfolding staged put_in_txn_cf
    put_cf c cf_name key val = staged (put_in_txn_cf g kt c cf_name key val)

    unfoldable pub put_cf_raw : String → K → Bytes → ContextAction
    unfolding staged put_raw_in_txn
    put_cf_raw cf_name key raw_val = staged (put_raw_in_txn g kt cf_name key raw_val)

    unfoldable pub put_cf_with_expiry :
        {V : Type 0} → Codec E V → String → K → V → ℕ → ContextAction
    unfolding staged put_with_expiry_in_txn
    put_cf_with_expiry c cf_name key val expire_time =
        staged (put_with_expiry_in_txn g kt c cf_name key val expire_time)

    unfoldable pub merge_cf : {V : Type 0} → Codec E V → String → K → V → ContextAction
    unfolding staged merge_in_txn
    merge_cf c cf_name key merge_value = staged (merge_in_txn g kt c cf_name key merge_value)

    unfoldable pub merge_cf_raw : String → K → Bytes → ContextAction
    unfolding staged merge_raw_in_txn
    merge_cf_raw cf_name key raw_merge_op = staged (merge_raw_in_txn g kt cf_name key raw_merge_op)

    unfoldable pub delete_cf : String → K → ContextAction
    unfolding staged delete_in_txn
    delete_cf cf_name key = staged (delete_in_txn g kt cf_name key)

    unfoldable pub get_cf :
        {V : Type 0} → Codec E V → String → K → TransactionContext g → StoreResult E (Option V)
    unfolding read get_in_txn
    get_cf c cf_name key = read λ w. get_in_txn g kt c w cf_name key

    unfoldable pub get_cf_raw : String → K → TransactionContext g → StoreResult E (Option Bytes)
    unfolding read get_raw_in_txn
    get_cf_raw cf_name key = read λ w. get_raw_in_txn g kt w cf_name key

    unfoldable pub get_cf_with_expiry :
        String → K → TransactionContext g → StoreResult E (Option ValueWithExpiry)
    unfolding read get_with_expiry_in_txn
    get_cf_with_expiry cf_name key = read λ w. get_with_expiry_in_txn g kt w cf_name key

    unfoldable pub exists_cf : String → K → TransactionContext g → StoreResult E Bool
    unfolding read exists_in_txn
    exists_cf cf_name key = read λ w. exists_in_txn g kt w cf_name key

  -- `Drop for TransactionContext`: what it leaves of the store. A rollback that fails is only logged.
  unfoldable pub drop : TransactionContext g → Option (TxnStore g)
  drop ctx =
      let w = ctx.running in
      let (_, (txn, db)) = g.rollback (w.txn, w.store.db) in
      if ctx.completed
      then some w.store
      else if ctx.moved
      then none
      else some (record w.store { db = g.destroy txn db })

  -- The body of `commit`, before the context is dropped.
  unfoldable pub commit_body : ContextAction
  unfolding check_completed
  commit_body ctx =
      (lift (check_completed ctx) >>= λ _ c.
      (let w = c.running in
        let (r, db) = g.commit w.txn w.store.db in
        let c' = record c {
          running = record w { store = record w.store { db = db } };
          moved = true;
        } in
        elim r [ err e ↦ (err (rocks_db e), c') | ok _ ↦ (ok tt, record c' { completed = true }) ]))
        ctx

  unfoldable pub rollback_body : ContextAction
  unfolding check_completed call_txn
  rollback_body ctx =
      (lift (check_completed ctx) >>= λ _ c.
      (let (r, w) = call_txn g g.rollback c.running in
        let c' = record c { running = w } in
        elim r [ err e ↦ (err e, c') | ok _ ↦ (ok tt, record c' { completed = true }) ]))
        ctx

  -- `commit` and `rollback` consume the context: the body runs, and then the drop.
  abbrev consume :
      ContextAction → TransactionContext g → Option (StoreResult E (Unit {0}) × TxnStore g)
  unfolding drop
  consume body ctx =
      let (r, ctx') = body ctx in elim (drop ctx') [ none ↦ none | some st ↦ some (r, st) ]

  unfoldable pub commit : TransactionContext g → Option (StoreResult E (Unit {0}) × TxnStore g)
  unfolding commit_body consume
  commit ctx = consume commit_body ctx

  unfoldable pub rollback : TransactionContext g → Option (StoreResult E (Unit {0}) × TxnStore g)
  unfolding rollback_body consume
  rollback ctx = consume rollback_body ctx
