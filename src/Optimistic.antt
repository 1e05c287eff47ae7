-- ===== src/Optimistic.antt =====
-- The retry loop of src/tx/optimistic.rs and the policies of src/tx/policies.rs. `W` is the state of
-- the database and of what the closure captures, `T` a transaction of the crate `rocksdb` that was
-- begun; beginning, committing and dropping one are calls of that crate. The attempts are counted by
-- `usize` in the source, whose end a policy of fixed attempts never gets to. A backoff only waits.
-- The contexts of optimistic transactions are in Context.
pub mod Context
pub mod Retries
mod Tests
use rocksolid.Base.{ℕ, zero, suc, ◌+◌, Option, none, some, Bool, true, false, leb, if◌then◌else◌}
use rocksolid.Base.Outcome.{Result, ok, err}
use rocksolid.Base.Action.{Action}
use rocksolid.Errors.{StoreError, StoreResult, other, rocks_db, text, number, shown, join, clone}

-- `OptimisticTransactionDB`, as far as the loop calls it: `transaction_opt` is given whether the
-- transaction takes a snapshot.
pub record TransactionDb (E W : Type 0) : Type 1 where
  pub T : Type 0
  pub transaction_opt : Bool → W → T × W
  pub commit : T → Action W E (Unit {0})
  pub drop : T → W → W

-- The trait `RetryPolicy`: `ok` signals to retry, an error is what the caller gets.
pub record RetryPolicy (E : Type 0) : Type 0 where
  pub should_retry : StoreError E → ℕ → StoreResult E (Unit {0})

pub record FixedRetry : Type 0 where
  pub max_attempts : ℕ
  pub backoff_millis : ℕ

abbrev pub default : FixedRetry
default = record { max_attempts = 10; backoff_millis = 10 }

module _ {E : Type 0} where
  -- `attempts` and the error, in the text of a transaction that was given up.
  abbrev pub gave_up : ℕ → StoreError E → StoreError E
  gave_up attempts error = other (
      join (text "Optimistic transaction failed after ")
        (join (number attempts) (join (text " attempts. Last error: ") (shown error))))

  retry_rocks_db : StoreError E → StoreResult E (Unit {0})
  unfolding clone
  retry_rocks_db (rocks_db db_err) = ok tt
  retry_rocks_db error = err (clone error)

  unfoldable pub fixed_should_retry : FixedRetry → StoreError E → ℕ → StoreResult E (Unit {0})
  unfolding retry_rocks_db
  fixed_should_retry p error attempt =
      if leb p.max_attempts attempt
      then err (gave_up p.max_attempts error)
      else retry_rocks_db error

  abbrev pub fixed_retry : FixedRetry → RetryPolicy E
  unfolding fixed_should_retry
  fixed_retry p = record { should_retry = fixed_should_retry p }

  -- `NoRetry`
  abbrev pub no_retry : RetryPolicy E
  unfolding clone
  no_retry = record { should_retry = λ error attempt. err (clone error) }

module _ {E W : Type 0} (d : TransactionDb E W) {R : Type 0} (policy : RetryPolicy E) where
  -- The loop of both `execute_*` methods: `i` failed attempts were made. `none` is a loop that still
  -- goes on when the fuel is spent.
  unfoldable pub execute :
      Bool → (d.T → Action W (StoreError E) R) → ℕ → ℕ → W → Option (StoreResult E R × W)
  execute snapshot operation zero i w = none
  execute snapshot operation (suc fuel) i w =
      let (txn, w1) = d.transaction_opt snapshot w in
      let (r, w2) = operation txn w1 in
      let (committed, w3) = d.commit txn w2 in
      let again = execute snapshot operation fuel (i + 1) w3 in
      elim r [
        | err e ↦ some (err e, d.drop txn w2)
        | ok result ↦ elim committed [
          | ok _ ↦ some (ok result, w3)
          | err e ↦ elim (policy.should_retry (rocks_db e) (i + 1)) [
            | err stop ↦ some (err stop, w3)
            | ok _ ↦ again
          ]
        ]
      ]

  unfoldable pub execute_with_snapshot :
      (d.T → Action W (StoreError E) R) → ℕ → W → Option (StoreResult E R × W)
  unfolding execute
  execute_with_snapshot operation fuel w = execute true operation fuel 0 w

  unfoldable pub execute_unisolated :
      (d.T → Action W (StoreError E) R) → ℕ → W → Option (StoreResult E R × W)
  unfolding execute
  execute_unisolated operation fuel w = execute false operation fuel 0 w
