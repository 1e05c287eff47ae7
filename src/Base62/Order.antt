-- ===== src/Base62/Order.antt =====
-- The keys that src/utils/base62.rs makes of times have one width, sort as the times do, and are
-- decoded to them.
use rocksolid.Base.{
  ℕ, zero, suc, ◌+◌, ◌-◌, ◌*◌, ◌^◌, ◌≤◌, ◌<◌, ◌≡◌, ◌∙◌, refl, sym, ap, arith, ◌⊎◌, inl, inr, [],
  ◌∷◌, ◌++◌, All, Bytes, true, some, length, length-append, bytes_lt,
}
use native.Mathlib.Nat.{add-mul}
use rocksolid.Base.Outcome.{ok}
use rocksolid.Base62.{Crate, width_u64, zeros, encode_pad, encode_time, encode_fast_pad, decode}

power : (n : ℕ) → 62 ^ suc n ≡ 62 * 62 ^ n
power n = omega arith

trichotomy : (a c : ℕ) → (a < c) ⊎ ((a ≡ c) ⊎ (c < a))
trichotomy a c = ground arith

length-zeros : (n : ℕ) → length (zeros n) ≡ n
unfolding zeros
length-zeros zero = refl
length-zeros (suc n) = omega (arith, length-zeros n)

mul_step : (a c w : ℕ) → a < c → a * w + w ≤ c * w
mul_step a c w h =
    let d = c - suc a in
    let e : c ≡ a + (1 + d) = omega arith in
    let f : (a + (1 + d)) * w ≡ a * w + (w + d * w) =
      add-mul a (1 + d) w ∙ ap (λ z. a * w + z) (add-mul 1 d w ∙ omega arith) in
    rw e (rw f (omega arith))

module _ (digit : ℕ → ℕ) (IsDigit : ℕ → Type 0) where
  -- The number that digits stand for, the highest first.
  unfoldable pub number_of : Bytes → ℕ
  number_of [] = 0
  number_of (x ∷ xs) = digit x * 62 ^ length xs + number_of xs

  -- The documented behaviour of the crate: its alphabet is in the order of the bytes and begins with
  -- '0', an encoding is the digits of its number, that of a `u64` in at most eleven of them, and a
  -- string of digits is decoded to its number.
  pub record IsBase62 {X : Type 0} (b : Crate X) : Type 0 where
    pub digit_bound : (x : ℕ) → IsDigit x → digit x < 62
    pub digit_order : (x y : ℕ) → IsDigit x → IsDigit y → digit x < digit y → x < y
    pub digit_same : (x y : ℕ) → IsDigit x → IsDigit y → digit x ≡ digit y → x ≡ y
    pub zero_IsDigit : IsDigit 48
    pub zero_digit : digit 48 ≡ 0
    pub encode_digits : (n : ℕ) → All IsDigit (b.encode n)
    pub encode_number : (n : ℕ) → number_of (b.encode n) ≡ n
    pub encode_width : (n : ℕ) → n < 2 ^ 64 → length (b.encode n) ≤ 11
    pub decode_number :
        (x : ℕ) (s : Bytes)
        → All IsDigit (x ∷ s)
        → number_of (x ∷ s) < 2 ^ 128
        → b.decode (x ∷ s) ≡ ok (number_of (x ∷ s))

  module _ {X : Type 0} (b : Crate X) (law : IsBase62 b) where
    number_of_bound : (xs : Bytes) → All IsDigit xs → number_of xs < 62 ^ length xs
    unfolding number_of
    number_of_bound [] h = omega arith
    number_of_bound (x ∷ xs) h =
        let w = 62 ^ length xs in
        let step = mul_step (digit x) 62 w (law.digit_bound x h.0) in
        let rest = number_of_bound xs h.1 in
        let more : 62 ^ suc (length xs) ≡ 62 * w = power (length xs) in
        rw more (omega (arith, step, rest))

    number_of-bytes_lt :
        (xs ys : Bytes)
        → All IsDigit xs
        → All IsDigit ys
        → length xs ≡ length ys
        → number_of xs < number_of ys
        → bytes_lt xs ys ≡ true
    unfolding number_of bytes_lt
    number_of-bytes_lt [] [] hx hy e l = absurd (omega arith)
    number_of-bytes_lt [] (y ∷ ys) hx hy e l = absurd (omega arith)
    number_of-bytes_lt (x ∷ xs) [] hx hy e l = absurd (omega arith)
    number_of-bytes_lt (x ∷ xs) (y ∷ ys) hx hy e l =
        let w = 62 ^ length xs in
        let same : length ys ≡ length xs = omega arith in
        let l' : digit x * w + number_of xs < digit y * w + number_of ys =
          rw (ap (λ j. 62 ^ j) same) at l in
        let below_x = number_of_bound xs hx.1 in
        let below_y : number_of ys < w = rw (ap (λ j. 62 ^ j) same) at (number_of_bound ys hy.1) in
        elim (trichotomy (digit x) (digit y)) [
          | inl lt ↦ ground (arith, law.digit_order x y hx.0 hy.0 lt)
          | inr (inl eq) ↦
              let tail : number_of xs < number_of ys = omega (arith, l', ap (λ d. d * w) eq) in
              ground (
                arith,
                law.digit_same x y hx.0 hy.0 eq,
                number_of-bytes_lt xs ys hx.1 hy.1 (sym same) tail,
              )
          | inr (inr gt) ↦ absurd (omega (arith, l', mul_step (digit y) (digit x) w gt, below_y))
        ]

    zeros-IsDigit : (j : ℕ) (s : Bytes) → All IsDigit s → All IsDigit (zeros j ++ s)
    unfolding zeros
    zeros-IsDigit zero s h = h
    zeros-IsDigit (suc j) s h = (law.zero_IsDigit, zeros-IsDigit j s h)

    number_of-zeros : (j : ℕ) (s : Bytes) → number_of (zeros j ++ s) ≡ number_of s
    unfolding zeros number_of
    number_of-zeros zero s = refl
    number_of-zeros (suc j) s = rw law.zero_digit (omega (arith, number_of-zeros j s))

    encode_time-digits : (n : ℕ) → All IsDigit (encode_time b n)
    unfolding encode_time encode_pad
    encode_time-digits n =
        zeros-IsDigit (11 - length (b.encode n)) (b.encode n) (law.encode_digits n)

    encode_time-number : (n : ℕ) → number_of (encode_time b n) ≡ n
    unfolding encode_time encode_pad
    encode_time-number n =
        number_of-zeros (11 - length (b.encode n)) (b.encode n) ∙ law.encode_number n

    encode_time-length : (n : ℕ) → n < 2 ^ 64 → length (encode_time b n) ≡ 11
    unfolding encode_time encode_pad
    encode_time-length n h =
        length-append (zeros (11 - length (b.encode n))) (b.encode n)
        ∙ omega (arith, law.encode_width n h, length-zeros (11 - length (b.encode n)))

    -- The key of a `u64` has eleven characters, and the keys of two of them are in the order of the
    -- bytes as the numbers are.
    pub encode_time-bytes_lt :
        (n m : ℕ)
        → m < 2 ^ 64
        → n < m
        → (length (encode_time b n) ≡ 11)
          × (length (encode_time b m) ≡ 11)
          × (bytes_lt (encode_time b n) (encode_time b m) ≡ true)
    encode_time-bytes_lt n m h l =
        let len_n = encode_time-length n (omega arith) in
        let len_m = encode_time-length m h in
        (
          len_n,
          len_m,
          number_of-bytes_lt (encode_time b n) (encode_time b m) (encode_time-digits n)
              (encode_time-digits m) (len_n ∙ sym len_m)
              (rw (encode_time-number n, encode_time-number m) l),
        )

    -- A `u64` comes back from its key, and the encoder into a buffer makes the same key, without a
    -- panic, on a buffer of eleven bytes.
    pub decode-encode_time :
        (n : ℕ)
        → n < 2 ^ 64
        → (decode b (encode_time b n) ≡ ok n)
          × (encode_fast_pad b n width_u64 11 ≡ some (encode_time b n))
    decode-encode_time n h = (
      decoded (encode_time b n) refl,
      unfold encode_fast_pad encode_time encode_pad in ground (arith, law.encode_width n h),
    )
      where
        decoded : (s : Bytes) → encode_time b n ≡ s → decode b s ≡ ok n
        decoded [] e = absurd (omega (arith, ap length e, encode_time-length n h))
        decoded (x ∷ s) e =
            let number : number_of (x ∷ s) ≡ n = rw e at (encode_time-number n) in
            let digits : All IsDigit (x ∷ s) = rw e at (encode_time-digits n) in
            let known = law.decode_number x s digits (rw number (omega arith)) in
            let fits : n < 18446744073709551616 = h in
            let known' : b.decode (x ∷ s) ≡ ok n = known ∙ ap ok number in
            unfold decode in ground (arith, known', fits)
