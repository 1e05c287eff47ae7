-- ===== src/Routing/Longest.antt =====
-- The binary compaction filter against a reference that searches the list of the registered routes.
use rocksolid.Base.{
  ℕ, ◌≡◌, ◌≤◌, ◌∙◌, refl, sym, ap, arith, Option, none, some, List, [], ◌∷◌, Bytes, true, false,
  Bool-cases, inl, inr, bytes_eq, bytes_eq→eq, bytes_eq_refl, length, starts_with, leb,
  if◌then◌else◌,
}
use rocksolid.Config.Stores.{FilterFn, FilterDecision, keep_entry}
use rocksolid.Routing.{RouterBuilder}
use rocksolid.Routing.Binary.{Radix, IsRadix, add_prefix_route, binary_router_fn, with_routes}

-- A newer route before the best of the older ones, unless that has a longer prefix.
abbrev pub prefer : Bytes → FilterFn → Option (Bytes × FilterFn) → Option (Bytes × FilterFn)
prefer p h none = some (p, h)
prefer p h (some (q, h')) = if leb (length q) (length p) then some (p, h) else some (q, h')

-- The route with the longest prefix of a key, among equal prefixes the newest.
unfoldable pub winner : List (Bytes × FilterFn) → Bytes → Option (Bytes × FilterFn)
unfolding starts_with
winner [] k = none
winner ((p, h) ∷ older) k = let w = winner older k in if starts_with k p then prefer p h w else w

unfoldable pub reference_filter : List (Bytes × FilterFn) → FilterFn
unfolding winner
reference_filter routes level key_bytes value_bytes = elim (winner routes key_bytes) [
  | none ↦ keep_entry
  | some (_, handler) ↦ handler level key_bytes value_bytes
]

starts_with_same :
    (k p q : Bytes) → starts_with k p ≡ true → starts_with k q ≡ true → length p ≡ length q → p ≡ q
unfolding starts_with
starts_with_same k [] [] hp hq e = refl
starts_with_same k [] (y ∷ q) hp hq e = absurd (omega arith)
starts_with_same k (x ∷ p) [] hp hq e = absurd (omega arith)
starts_with_same [] (x ∷ p) (y ∷ q) hp hq e = ground arith
starts_with_same (z ∷ k) (x ∷ p) (y ∷ q) hp hq e = ground (arith, starts_with_same k p q)

module _ (r : Radix FilterFn) (law : IsRadix r) where
  abbrev IsBest : r.Trie → Bytes → Option (Bytes × FilterFn) → Type 0
  IsBest t k none = (q : Bytes) → starts_with k q ≡ true → law.find t q ≡ none
  IsBest t k (some (p, h)) =
      (law.find t p ≡ some h)
      × (starts_with k p ≡ true)
      × ((q : Bytes) (h' : FilterFn)
          → law.find t q ≡ some h'
          → starts_with k q ≡ true
          → length q ≤ length p)

  longest-IsBest : (t : r.Trie) (k : Bytes) → IsBest t k (r.get_longest_common_prefix t k)
  longest-IsBest t k = go (r.get_longest_common_prefix t k) refl
    where
      go : (o : Option (Bytes × FilterFn)) → r.get_longest_common_prefix t k ≡ o → IsBest t k o
      go none e = λ q s. law.longest_none t k q e s
      go (some (p, h)) e =
          let (f, s) = law.longest_found t k p h e in
          (f, s, λ q h' f' s'. law.longest_most t k p q h h' e f' s')

  IsBest-unique :
      (t : r.Trie) (k : Bytes) (a b : Option (Bytes × FilterFn))
      → IsBest t k a
      → IsBest t k b
      → a ≡ b
  IsBest-unique t k none none u v = refl
  IsBest-unique t k none (some (p, h)) u (f, s, m) = absurd (ground (arith, u p s))
  IsBest-unique t k (some (p, h)) none (f, s, m) v = absurd (ground (arith, v p s))
  IsBest-unique t k (some (p, h)) (some (q, h')) (f, s, m) (f', s', m') =
      let same : p ≡ q = starts_with_same k p q s s' (omega (arith, m q h' f' s', m' p h f s)) in
      let f'' : law.find t q ≡ some h = rw⁻¹ same f in ground (arith, same)

  inserted_other :
      (t : r.Trie) (p : Bytes) (h : FilterFn) (k q : Bytes)
      → starts_with k p ≡ false
      → starts_with k q ≡ true
      → law.find (r.insert p h t) q ≡ law.find t q
  inserted_other t p h k q hp hq = elim (Bool-cases (bytes_eq p q)) [
    | inl e ↦ absurd (ground (arith, bytes_eq→eq p q))
    | inr e ↦ ground (arith, law.find_insert p h t q)
  ]

  -- Under another prefix than the one inserted, or else it is that one.
  inserted_length :
      (t : r.Trie) (p : Bytes) (h h' : FilterFn) (q : Bytes) (n : ℕ)
      → law.find (r.insert p h t) q ≡ some h'
      → length p ≤ n
      → (law.find t q ≡ some h' → length q ≤ n)
      → length q ≤ n
  inserted_length t p h h' q n f lp lq = elim (Bool-cases (bytes_eq p q)) [
    | inl e ↦ rw⁻¹ (bytes_eq→eq p q e) lp
    | inr e ↦ lq (ground (arith, law.find_insert p h t q))
  ]

  inserted_self : (t : r.Trie) (p : Bytes) (h : FilterFn) → law.find (r.insert p h t) p ≡ some h
  inserted_self t p h = ground (arith, law.find_insert p h t p, bytes_eq_refl p)

  insert-IsBest :
      (t : r.Trie) (p : Bytes) (h : FilterFn) (k : Bytes) (w : Option (Bytes × FilterFn))
      → IsBest t k w
      → IsBest (r.insert p h t) k (if starts_with k p then prefer p h w else w)
  insert-IsBest t p h k none b = elim (Bool-cases (starts_with k p)) [
    | inl s ↦ rw s (
      inserted_self t p h,
      s,
      λ q h' f s'.
          inserted_length t p h h' q (length p) f (omega arith)
            (λ f'. absurd (ground (arith, b q s'))),
    )
    | inr s ↦ rw s (λ q s'. inserted_other t p h k q s s' ∙ b q s')
  ]
  insert-IsBest t p h k (some (q0, h0)) (f0, s0, m0) = elim (Bool-cases (starts_with k p)) [
    | inr s ↦ rw s (
      inserted_other t p h k q0 s s0 ∙ f0,
      s0,
      λ q h' f s'. m0 q h' (sym (inserted_other t p h k q s s') ∙ f) s',
    )
    | inl s ↦ elim (Bool-cases (leb (length q0) (length p))) [
      | inl l ↦
          rw (s, l)
            (
              inserted_self t p h,
              s,
              λ q h' f s'.
                  inserted_length t p h h' q (length p) f (omega arith)
                    (λ f'. ground (arith, m0 q h' f' s')),
            )
      | inr l ↦
          rw (s, l)
            (
              kept l,
              s0,
              λ q h' f s'.
                  inserted_length t p h h' q (length q0) f (ground arith) (λ f'. m0 q h' f' s'),
            )
    ]
  ]
    where
      kept : leb (length q0) (length p) ≡ false → law.find (r.insert p h t) q0 ≡ some h0
      kept l = elim (Bool-cases (bytes_eq p q0)) [
        | inl e ↦ absurd (ground (arith, ap length (bytes_eq→eq p q0 e)))
        | inr e ↦ ground (arith, law.find_insert p h t q0)
      ]

  abbrev pub registered : List (Bytes × FilterFn) → RouterBuilder → r.Trie
  registered routes b = (with_routes r routes (b, r.empty)).1

  winner-IsBest :
      (routes : List (Bytes × FilterFn)) (b : RouterBuilder) (k : Bytes)
      → IsBest (registered routes b) k (winner routes k)
  unfolding with_routes winner add_prefix_route
  winner-IsBest [] b k = λ q s. law.find_empty q
  winner-IsBest ((p, h) ∷ older) b k =
      insert-IsBest (registered older b) p h k (winner older k) (winner-IsBest older b k)

  -- After any routes were added, the binary compaction filter decides as the route with the longest
  -- prefix of the key does, the newest among routes of the same prefix, and keeps the entry where no
  -- route has a prefix of the key.
  pub binary_router_fn-reference :
      (routes : List (Bytes × FilterFn)) (b : RouterBuilder) (level : ℕ) (k v : Bytes)
      → binary_router_fn r (registered routes b) level k v ≡ reference_filter routes level k v
  unfolding binary_router_fn reference_filter
  binary_router_fn-reference routes b level k v =
      let decide : Option (Bytes × FilterFn) → FilterDecision =
        λ o. elim o [ none ↦ keep_entry | some (_, handler) ↦ handler level k v ] in
      let t = registered routes b in
      ap decide (
        IsBest-unique t k (r.get_longest_common_prefix t k) (winner routes k) (longest-IsBest t k)
          (winner-IsBest routes b k))
