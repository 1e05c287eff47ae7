-- ===== src/Optimistic/Retries.antt =====
-- How often the retry loop of src/tx/optimistic.rs runs its closure, and what it returns.
use rocksolid.Base.{
  ℕ, zero, suc, ◌+◌, ◌≤◌, ◌<◌, ◌≡◌, ◌∙◌, refl, arith, ◌⊎◌, Option, some, Bool, false, leb,
  Bool-cases, inl, inr,
}
use rocksolid.Base.Outcome.{ok, err}
use rocksolid.Base.Action.{Action}
use rocksolid.Errors.{StoreError, StoreResult, rocks_db, clone}
use rocksolid.Optimistic.{
  TransactionDb, RetryPolicy, FixedRetry, execute, fixed_retry, fixed_should_retry, no_retry,
  gave_up, retry_rocks_db,
}

-- How one attempt ends: committed, with an error of the closure, or with a failed commit.
pub data Outcome (E R : Type 0) : Type 0 where
  committed : R → Outcome E R
  failed : StoreError E → Outcome E R
  conflict : E → Outcome E R

module _ {E R : Type 0} where
  -- What a loop under `FixedRetry` returns after its last attempt.
  abbrev pub answer : FixedRetry → Outcome E R → StoreResult E R
  answer p (committed r) = ok r
  answer p (failed e) = err e
  answer p (conflict e) = err (gave_up p.max_attempts (rocks_db e))

  -- The same without a retry.
  abbrev pub only_answer : Outcome E R → StoreResult E R
  only_answer (committed r) = ok r
  only_answer (failed e) = err e
  only_answer (conflict e) = err (rocks_db e)

module _ {E W : Type 0} (d : TransactionDb E W) {R : Type 0} (snapshot : Bool)
    (operation : d.T → Action W (StoreError E) R) where
  -- One attempt: a new transaction, the closure, and its commit unless the closure failed.
  unfoldable pub attempt : W → Outcome E R × W
  attempt w =
      let (txn, w1) = d.transaction_opt snapshot w in
      let (r, w2) = operation txn w1 in
      let (done, w3) = d.commit txn w2 in
      elim r [
        | err e ↦ (failed e, d.drop txn w2)
        | ok result ↦ elim done [ ok _ ↦ (committed result, w3) | err e ↦ (conflict e, w3) ]
      ]

  -- `k` attempts in a row failed to commit.
  pub data Conflicts : ℕ → W → W → Type 0 where
    none_yet : {w : W} → Conflicts zero w w
    after_conflict :
        {k : ℕ} {w w' w'' : W} (e : E)
        → attempt w ≡ (conflict e, w')
        → Conflicts k w' w''
        → Conflicts (suc k) w w''

  -- One turn of the loop.
  abbrev turn : RetryPolicy E → ℕ → ℕ → Outcome E R × W → Option (StoreResult E R × W)
  turn policy fuel i (committed r, w) = some (ok r, w)
  turn policy fuel i (failed e, w) = some (err e, w)
  turn policy fuel i (conflict e, w) =
      let again = execute d policy snapshot operation fuel (i + 1) w in
      elim (policy.should_retry (rocks_db e) (i + 1)) [
        | err stop ↦ some (err stop, w)
        | ok _ ↦ again
      ]

  execute-attempt :
      (policy : RetryPolicy E) (fuel i : ℕ) (w : W)
      → execute d policy snapshot operation (suc fuel) i w ≡ turn policy fuel i (attempt w)
  unfolding execute attempt
  execute-attempt policy fuel i w = ground arith

  module _ (p : FixedRetry) where
    -- The loop from attempt `i` on makes `k` attempts that fail to commit, and returns what the next
    -- one gives.
    abbrev pub Ends : ℕ → ℕ → W → Type 0
    Ends fuel i w =
        (k : ℕ) × (w' : W) × Conflicts k w w'
        × ((k ≡ 0) ⊎ (i + k < p.max_attempts))
        × (execute d (fixed_retry p) snapshot operation fuel i w
            ≡ some (answer p (attempt w').0, (attempt w').1))

    Ends-turn :
        (fuel i : ℕ) (w : W) (o : Outcome E R × W)
        → attempt w ≡ o
        → ((w1 : W) → leb p.max_attempts (i + 1) ≡ false → Ends fuel (i + 1) w1)
        → Ends (suc fuel) i w
    unfolding fixed_should_retry retry_rocks_db
    Ends-turn fuel i w (committed r, w1) q next =
        (0, w, none_yet, inl refl, execute-attempt (fixed_retry p) fuel i w ∙ rw q refl)
    Ends-turn fuel i w (failed e, w1) q next =
        (0, w, none_yet, inl refl, execute-attempt (fixed_retry p) fuel i w ∙ rw q refl)
    Ends-turn fuel i w (conflict e, w1) q next = elim (Bool-cases (leb p.max_attempts (i + 1))) [
      | inl m ↦
          (0, w, none_yet, inl refl, execute-attempt (fixed_retry p) fuel i w ∙ rw q (ground arith))
      | inr m ↦
          let (k, w', c, b, r) = next w1 m in
          (
            suc k,
            w',
            after_conflict e q c,
            inr (ground arith),
            execute-attempt (fixed_retry p) fuel i w ∙ ground arith,
          )
    ]

    Ends-from : (fuel i : ℕ) (w : W) → p.max_attempts ≤ i + fuel → 0 < fuel → Ends fuel i w
    Ends-from zero i w h l = absurd (omega arith)
    Ends-from (suc fuel) i w h l =
        Ends-turn fuel i w (attempt w) refl
          λ w1 m. Ends-from fuel (i + 1) w1 (ground arith) (ground arith)

    -- Under `FixedRetry` the loop ends, with as much fuel as the attempts that are allowed and one at
    -- least: some number of attempts in a row fail to commit, none or fewer than `max_attempts`, and
    -- the loop returns what the next one gives: the closure's result if it commits, the closure's
    -- error, or the error that the attempts are used up.
    pub fixed_retry-Ends : (fuel : ℕ) (w : W) → p.max_attempts ≤ fuel → 0 < fuel → Ends fuel 0 w
    fixed_retry-Ends fuel w h l = Ends-from fuel 0 w (ground arith) l

    -- Under `FixedRetry`, when fewer than `max_attempts` attempts in a row failed to commit, the loop
    -- goes on from the state that they left, with the same closure and the attempts counted.
    pub retries :
        (fuel k i : ℕ) (w w' : W)
        → Conflicts k w w'
        → i + k < p.max_attempts
        → execute d (fixed_retry p) snapshot operation (k + fuel) i w
          ≡ execute d (fixed_retry p) snapshot operation fuel (i + k) w'
    unfolding fixed_should_retry retry_rocks_db
    retries fuel zero i w w' none_yet h =
        let a : 0 + fuel ≡ fuel = omega arith in let b : i + 0 ≡ i = omega arith in rw (a, b) refl
    retries fuel (suc k) i w w' (after_conflict {w' = w1} e q c) h =
        let a : suc k + fuel ≡ suc (k + fuel) = omega arith in
        let b : i + suc k ≡ i + 1 + k = omega arith in
        let more : leb p.max_attempts (i + 1) ≡ false = ground arith in
        rw (a, b)
          (execute-attempt (fixed_retry p) (k + fuel) i w
            ∙ rw q (ground (arith, more, retries fuel k (i + 1) w1 w' c)))

  -- `NoRetry` makes one attempt, and returns what it gives, a failed commit as its own error.
  pub no_retry-attempt :
      (fuel i : ℕ) (w : W)
      → execute d no_retry snapshot operation (suc fuel) i w
        ≡ some (only_answer (attempt w).0, (attempt w).1)
  unfolding clone
  no_retry-attempt fuel i w = ground (arith, execute-attempt no_retry fuel i w)
