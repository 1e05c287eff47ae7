-- ===== src/Iter/Prefix.antt =====
-- Byte-wise order and prefixes: the keys with a prefix stand together in an ascending sequence.
use rocksolid.Base.{
  ◌≡◌, refl, arith, Bool, true, false, List, [], ◌∷◌, Bytes, All, bytes_lt, starts_with, take_while,
  keep_if, if◌then◌else◌, inl, inr, Bool-cases,
}

pub starts_with-not-lt : (k p : Bytes) → starts_with k p ≡ true → bytes_lt k p ≡ false
unfolding starts_with bytes_lt
starts_with-not-lt k [] h = ground arith
starts_with-not-lt [] (p ∷ ps) h = ground arith
starts_with-not-lt (k ∷ ks) (p ∷ ps) h = ground (arith, starts_with-not-lt ks ps)

pub not-lt_trans :
    (p k j : Bytes) → bytes_lt k p ≡ false → bytes_lt k j ≡ true → bytes_lt j p ≡ false
unfolding bytes_lt
not-lt_trans [] k j h l = ground arith
not-lt_trans (p ∷ ps) [] j h l = ground arith
not-lt_trans (p ∷ ps) (k ∷ ks) [] h l = ground arith
not-lt_trans (p ∷ ps) (k ∷ ks) (j ∷ js) h l = ground (arith, not-lt_trans ps ks js)

-- Beyond the keys with a prefix there are no more of them.
pub beyond_prefix :
    (p k j : Bytes)
    → bytes_lt k p ≡ false
    → starts_with k p ≡ false
    → bytes_lt k j ≡ true
    → starts_with j p ≡ false
unfolding bytes_lt starts_with
beyond_prefix [] k j h n l = ground arith
beyond_prefix (p ∷ ps) [] j h n l = ground arith
beyond_prefix (p ∷ ps) (k ∷ ks) [] h n l = ground arith
beyond_prefix (p ∷ ps) (k ∷ ks) (j ∷ js) h n l = ground (arith, beyond_prefix ps ks js)

abbrev pub Entries : Type 0
Entries = List (Bytes × Bytes)

-- The keys ascend strictly.
abbrev pub Ascending : Entries → Type 0
Ascending [] = Unit {0}
Ascending (e ∷ es) = All (λ (e' : Bytes × Bytes). bytes_lt e.0 e'.0 ≡ true) es × Ascending es

-- The entries from the first key on that is not below `p`: where a seek to `p` begins.
unfoldable pub seek : Bytes → Entries → Entries
seek p [] = []
seek p (e ∷ es) = if bytes_lt e.0 p then seek p es else e ∷ es

abbrev pub has_prefix : Bytes → Bytes × Bytes → Bool
has_prefix p e = starts_with e.0 p

none_beyond :
    (p : Bytes) (k : Bytes) (es : Entries)
    → bytes_lt k p ≡ false
    → starts_with k p ≡ false
    → All (λ (e : Bytes × Bytes). bytes_lt k e.0 ≡ true) es
    → keep_if (has_prefix p) es ≡ []
unfolding keep_if
none_beyond p k [] h n a = refl
none_beyond p k (e ∷ es) h n a = ground (arith, beyond_prefix p k e.0, none_beyond p k es)

take_prefix :
    (p : Bytes) (es : Entries)
    → Ascending es
    → All (λ (e : Bytes × Bytes). bytes_lt e.0 p ≡ false) es
    → take_while (has_prefix p) es ≡ keep_if (has_prefix p) es
unfolding keep_if take_while
take_prefix p [] a b = refl
take_prefix p (e ∷ es) a b = ground (arith, take_prefix p es, none_beyond p e.0 es)

not_below :
    (p k : Bytes) (es : Entries)
    → bytes_lt k p ≡ false
    → All (λ (e : Bytes × Bytes). bytes_lt k e.0 ≡ true) es
    → All (λ (e : Bytes × Bytes). bytes_lt e.0 p ≡ false) es
not_below p k [] h a = tt
not_below p k (e ∷ es) h a = (not-lt_trans p k e.0 h a.0, not_below p k es h a.1)

-- In an ascending sequence, the entries from a seek to `p` on, up to the first key without the prefix
-- `p`, are all entries whose key has it, in order.
pub take_prefix-seek :
    (p : Bytes) (es : Entries)
    → Ascending es
    → take_while (has_prefix p) (seek p es) ≡ keep_if (has_prefix p) es
unfolding seek keep_if
take_prefix-seek p [] a = unfold take_while in refl
take_prefix-seek p (e ∷ es) a = elim (Bool-cases (bytes_lt e.0 p)) [
  | inl l ↦ ground (arith, take_prefix-seek p es, starts_with-not-lt e.0 p)
  | inr m ↦ ground (arith, take_prefix p (e ∷ es) a (m, not_below p e.0 es m a.0))
]
