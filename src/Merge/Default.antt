-- ===== src/Merge/Default.antt =====
-- The default full merge of src/config.rs: it appends the operands, and however a sequence of operands
-- is split over several merges, the outcome is the same.
use rocksolid.Base.{
  ℕ, zero, suc, ◌-◌, ◌≡◌, refl, ap, arith, Option, none, some, List, [], ◌∷◌, ◌++◌, Bytes, length,
  drop,
}
use rocksolid.Merge.{nth, extend_all, extend_nth, default_full_merge}

-- What a key holds after operands that append.
unfoldable pub appended_all : Option Bytes → List Bytes → Option Bytes
unfolding extend_all
appended_all e [] = e
appended_all none (op ∷ ops) = some (extend_all op ops)
appended_all (some v) (op ∷ ops) = some (extend_all (v ++ op) ops)

drop-cons :
    (ops : List Bytes) (i : ℕ) (x : Bytes) (suf : List Bytes)
    → drop i ops ≡ x ∷ suf
    → (nth ops i ≡ some x) × (drop (suc i) ops ≡ suf)
unfolding nth
drop-cons [] zero x suf h = ground arith
drop-cons [] (suc i) x suf h = ground arith
drop-cons (op ∷ ops) zero x suf h = ground arith
drop-cons (op ∷ ops) (suc i) x suf h = drop-cons ops i x suf h

extend_nth-drop :
    (ops : List Bytes) (acc : Bytes) (i : ℕ) (suf : List Bytes)
    → drop i ops ≡ suf
    → extend_nth ops acc i (length suf) ≡ some (extend_all acc suf)
unfolding extend_nth extend_all
extend_nth-drop ops acc i [] h = refl
extend_nth-drop ops acc i (x ∷ suf) h =
    let (a, b) = drop-cons ops i x suf h in
    rw (a, extend_nth) (extend_nth-drop ops (acc ++ x) (suc i) suf b)

extend_all-append :
    (v : Bytes) (xs ys : List Bytes) → extend_all (extend_all v xs) ys ≡ extend_all v (xs ++ ys)
unfolding extend_all
extend_all-append v [] ys = refl
extend_all-append v (x ∷ xs) ys = extend_all-append (v ++ x) xs ys

-- The default full merge does not panic, and appends the operands in order to the value that there
-- was, or else to the first operand; without either there is no value.
pub default_full_merge-appended_all :
    (e : Option Bytes) (ops : List Bytes) → default_full_merge e ops ≡ some (appended_all e ops)
unfolding default_full_merge appended_all
default_full_merge-appended_all (some v) [] = unfold extend_all in refl
default_full_merge-appended_all (some v) (x ∷ xs) = unfold extend_all in refl
default_full_merge-appended_all none [] = refl
default_full_merge-appended_all none (x ∷ xs) =
    let n : length (x ∷ xs) - 1 ≡ length xs = ground arith in
    ground (arith, n, extend_nth-drop (x ∷ xs) x 1 xs refl)

appended_all-append :
    (e : Option Bytes) (xs ys : List Bytes)
    → appended_all (appended_all e xs) ys ≡ appended_all e (xs ++ ys)
unfolding appended_all extend_all
appended_all-append e [] ys = refl
appended_all-append none (x ∷ xs) [] = ap some (extend_all-append x xs [])
appended_all-append none (x ∷ xs) (y ∷ ys) = ap some (extend_all-append x xs (y ∷ ys))
appended_all-append (some v) (x ∷ xs) [] = ap some (extend_all-append (v ++ x) xs [])
appended_all-append (some v) (x ∷ xs) (y ∷ ys) = ap some (extend_all-append (v ++ x) xs (y ∷ ys))

-- Merging some operands, and then more onto the outcome, gives what merging them all at once gives.
pub default_full_merge-append :
    (e m : Option Bytes) (xs ys : List Bytes)
    → default_full_merge e xs ≡ some m
    → default_full_merge m ys ≡ default_full_merge e (xs ++ ys)
default_full_merge-append e m xs ys h = ground (
  arith,
  default_full_merge-appended_all e xs,
  default_full_merge-appended_all m ys,
  default_full_merge-appended_all e (xs ++ ys),
  appended_all-append e xs ys,
)
