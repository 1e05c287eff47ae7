-- ===== src/Routing/Prefixes.antt =====
-- A map from byte strings that finds the longest prefix by trying each prefix of the key. It stands in
-- for `RadixMap` where a theorem is applied at concrete data.
use rocksolid.Base.{
  ℕ, zero, suc, ◌≡◌, ◌≢◌, ◌≤◌, refl, ap, arith, Option, none, some, List, [], ◌∷◌, Bytes, true,
  Option-cases, inl, inr, bytes_eq, length, take, starts_with, if◌then◌else◌,
}
use rocksolid.Config.Stores.{FilterFn}
use rocksolid.Routing.Binary.{Radix, IsRadix}

abbrev pub Entries : Type 0
Entries = List (Bytes × FilterFn)

unfoldable pub find_entry : Entries → Bytes → Option FilterFn
find_entry [] q = none
find_entry ((p, h) ∷ t) q = if bytes_eq p q then some h else find_entry t q

-- The entry of the longest prefix of `k` that has at most `n` bytes.
unfoldable pub try_prefixes : Entries → Bytes → ℕ → Option (Bytes × FilterFn)
unfolding find_entry
try_prefixes t k zero = elim (find_entry t []) [ none ↦ none | some h ↦ some ([], h) ]
try_prefixes t k (suc n) =
    let shorter = try_prefixes t k n in
    elim (find_entry t (take (suc n) k)) [ none ↦ shorter | some h ↦ some (take (suc n) k, h) ]

starts_with-take : (k : Bytes) (n : ℕ) → starts_with k (take n k) ≡ true
unfolding starts_with
starts_with-take k zero = refl
starts_with-take [] (suc n) = refl
starts_with-take (x ∷ k) (suc n) = ground (arith, starts_with-take k n)

take-length : (k q : Bytes) → starts_with k q ≡ true → take (length q) k ≡ q
unfolding starts_with
take-length k [] h = refl
take-length [] (x ∷ q) h = ground arith
take-length (y ∷ k) (x ∷ q) h = ground (arith, take-length k q)

length_prefix : (k q : Bytes) → starts_with k q ≡ true → length q ≤ length k
unfolding starts_with
length_prefix k [] h = omega arith
length_prefix [] (x ∷ q) h = ground arith
length_prefix (y ∷ k) (x ∷ q) h = ground (arith, length_prefix k q)

length-take_eq : (k : Bytes) (n : ℕ) → n ≤ length k → length (take n k) ≡ n
length-take_eq k zero h = refl
length-take_eq [] (suc n) h = omega arith
length-take_eq (x ∷ k) (suc n) h = omega (arith, length-take_eq k n (omega arith))

try_prefixes_found :
    (t : Entries) (k p : Bytes) (h : FilterFn) (n : ℕ)
    → try_prefixes t k n ≡ some (p, h)
    → (find_entry t p ≡ some h) × (starts_with k p ≡ true)
unfolding try_prefixes
try_prefixes_found t k p h zero e = elim (Option-cases (find_entry t [])) [
  | inl q ↦ absurd (ground arith)
  | inr (h', q) ↦ unfold starts_with in ground arith
]
try_prefixes_found t k p h (suc n) e = elim (Option-cases (find_entry t (take (suc n) k))) [
  | inl q ↦ try_prefixes_found t k p h n (ground arith)
  | inr (h', q) ↦ ground (arith, starts_with-take k (suc n))
]

try_prefixes_most :
    (t : Entries) (k p q : Bytes) (h h' : FilterFn) (n : ℕ)
    → n ≤ length k
    → try_prefixes t k n ≡ some (p, h)
    → find_entry t q ≡ some h'
    → starts_with k q ≡ true
    → length q ≤ n
    → length q ≤ length p
unfolding try_prefixes
try_prefixes_most t k p q h h' zero b e f s l = omega arith
try_prefixes_most t k p q h h' (suc n) b e f s l =
    elim (Option-cases (find_entry t (take (suc n) k))) [
      | inl r ↦
          let other : length q ≢ suc n =
            λ z. ground (arith, take-length k q s, ap (λ m. take m k) z) in
          try_prefixes_most t k p q h h' n (omega arith) (ground arith) f s (omega arith)
      | inr (h'', r) ↦
          let same : take (suc n) k ≡ p = ground arith in
          omega (arith, ap length same, length-take_eq k (suc n) b)
    ]

try_prefixes-none :
    (t : Entries) (k q : Bytes) (n : ℕ)
    → try_prefixes t k n ≡ none
    → starts_with k q ≡ true
    → length q ≤ n
    → find_entry t q ≡ none
unfolding try_prefixes
try_prefixes-none t k [] zero e s l = ground arith
try_prefixes-none t k (x ∷ q) zero e s l = absurd (omega arith)
try_prefixes-none t k q (suc n) e s l = elim (Option-cases (find_entry t (take (suc n) k))) [
  | inl r ↦ elim (Option-cases (find_entry t q)) [
    | inl a ↦ a
    | inr (h, a) ↦
        let other : length q ≢ suc n =
          λ z. ground (arith, take-length k q s, ap (λ m. take m k) z) in
        try_prefixes-none t k q n (ground arith) s (omega arith)
  ]
  | inr (h'', r) ↦ absurd (ground arith)
]

abbrev pub entries : Radix FilterFn
entries = record {
  Trie = Entries;
  empty = [];
  insert = λ p h t. (p, h) ∷ t;
  get_longest_common_prefix = λ t k. try_prefixes t k (length k);
}

pub entries-IsRadix : IsRadix entries
entries-IsRadix = record {
  find = find_entry;
  find_empty = λ q. unfold find_entry in refl;
  find_insert = λ p h t q. unfold find_entry in refl;
  longest_found = λ t k p h e. try_prefixes_found t k p h (length k) e;
  longest_most = λ t k p q h h' e f s.
      try_prefixes_most t k p q h h' (length k) (omega arith) e f s (length_prefix k q s);
  longest_none = λ t k q e s. try_prefixes-none t k q (length k) e s (length_prefix k q s);
}
