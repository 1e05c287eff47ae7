-- ===== src/Optimistic/Tests.antt =====
-- The theorems on the retry loop at a concrete database: a counter whose commits fail so many times.
use rocksolid.Base.{ℕ, zero, suc, ◌≡◌, refl, arith, some, true}
use rocksolid.Base.Outcome.{ok, err}
use rocksolid.Base.Action.{Action}
use rocksolid.Errors.{StoreError, rocks_db}
use rocksolid.Optimistic.{
  TransactionDb, FixedRetry, fixed_retry, gave_up, execute_with_snapshot, execute_unisolated,
}
use rocksolid.Optimistic.Retries.{
  conflict, attempt, Conflicts, none_yet, after_conflict, Ends, fixed_retry-Ends,
}

-- The commits that will still fail, and the number of calls of the closure.
abbrev World : Type 0
World = ℕ × ℕ

commit_step : ℕ → Action World ℕ (Unit {0})
commit_step t (zero, calls) = (ok tt, (zero, calls))
commit_step t (suc busy, calls) = (err 9, (busy, calls))

abbrev counter : TransactionDb ℕ World
counter = record {
  T = ℕ;
  transaction_opt = λ snapshot w. (w.1, w);
  commit = commit_step;
  drop = λ t w. w;
}

abbrev call : ℕ → Action World (StoreError ℕ) ℕ
call t w = (ok t, (w.0, suc w.1))

abbrev thrice : FixedRetry
thrice = record { max_attempts = 3; backoff_millis = 10 }

two_fail : execute_with_snapshot counter (fixed_retry thrice) call 3 (2, 0) ≡ some (ok 2, (0, 3))
unfolding execute_with_snapshot commit_step fixed_retry
two_fail = refl

three_fail :
    execute_unisolated counter (fixed_retry thrice) call 3 (3, 0)
    ≡ some (err (gave_up 3 (rocks_db 9)), (0, 3))
unfolding execute_unisolated commit_step fixed_retry
three_fail = refl

fixed_retry-Ends_example : Ends counter true call thrice 3 0 (2, 0)
fixed_retry-Ends_example =
    fixed_retry-Ends counter true call thrice 3 (2, 0) (omega arith) (omega arith)

first_conflict : attempt counter true call (2, 0) ≡ (conflict 9, (1, 1))
unfolding attempt commit_step
first_conflict = refl

one_conflict : Conflicts counter true call 1 (2, 0) (1, 1)
one_conflict = after_conflict 9 first_conflict none_yet
