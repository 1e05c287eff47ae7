-- ===== src/Base62/Digits.antt =====
-- An encoding in base 62 that meets `IsBase62`. It stands in for the crate `base62` where a theorem is
-- applied at concrete data.
use rocksolid.Base.{
  ℕ, zero, suc, ◌+◌, ◌-◌, ◌*◌, ◌/◌, ◌%◌, ◌^◌, ◌≤◌, ◌<◌, ◌≡◌, ◌∙◌, refl, ap, arith, [], ◌∷◌, All,
  Bytes, Bool-cases, true, inl, inr, ltb, length, if◌then◌else◌,
}
use native.Mathlib.Nat.{pow-succ', add-mul, mul_comm, mul_assoc}
use rocksolid.Base.Outcome.{ok}
use rocksolid.Base62.{Crate}
use rocksolid.Base62.Order.{number_of, IsBase62}

-- '0' to '9', 'A' to 'Z', 'a' to 'z'
unfoldable pub char : ℕ → ℕ
char d = if ltb d 10 then 48 + d else if ltb d 36 then 55 + d else 61 + d

unfoldable pub digit : ℕ → ℕ
digit x = if ltb x 58 then x - 48 else if ltb x 91 then x - 55 else x - 61

abbrev pub IsDigit : ℕ → Type 0
IsDigit x = (digit x < 62) × (char (digit x) ≡ x)

digit-char : (d : ℕ) → digit (char d) ≡ d
unfolding digit char
digit-char d = ground arith

char-IsDigit : (d : ℕ) → d < 62 → IsDigit (char d)
char-IsDigit d h = (omega (arith, digit-char d), ap char (digit-char d))

char_order : (d e : ℕ) → d < e → char d < char e
unfolding char
char_order d e h = ground arith

-- The digits of `n` before `acc`; `n` is fuel enough.
unfoldable pub encode_before : ℕ → ℕ → Bytes → Bytes
unfolding char
encode_before zero n acc = char n ∷ acc
encode_before (suc fuel) n acc =
    let rest = encode_before fuel (n / 62) (char (n % 62) ∷ acc) in
    if ltb n 62 then char n ∷ acc else rest

encode_before-digits :
    (fuel n : ℕ) (acc : Bytes) → n ≤ fuel → All IsDigit acc → All IsDigit (encode_before fuel n acc)
unfolding encode_before
encode_before-digits zero n acc h a = (char-IsDigit n (omega arith), a)
encode_before-digits (suc fuel) n acc h a = elim (Bool-cases (ltb n 62)) [
  | inl q ↦ rw q (char-IsDigit n (ground arith), a)
  | inr q ↦ rw q (
      encode_before-digits fuel (n / 62) (char (n % 62) ∷ acc) (omega arith)
        (char-IsDigit (n % 62) (omega arith), a))
]

recombine : (n w r : ℕ) → n / 62 * (62 * w) + (n % 62 * w + r) ≡ n * w + r
recombine n w r =
    let q = n / 62 in
    let e : n ≡ 62 * q + n % 62 = omega arith in
    let f : (62 * q + n % 62) * w ≡ 62 * q * w + n % 62 * w = add-mul (62 * q) (n % 62) w in
    let g : 62 * q * w ≡ q * (62 * w) = ap (λ z. z * w) (mul_comm 62 q) ∙ mul_assoc q 62 w in
    omega (arith, ap (λ m. m * w) e, f, g)

encode_before-number :
    (fuel n : ℕ) (acc : Bytes)
    → n ≤ fuel
    → number_of digit IsDigit (encode_before fuel n acc)
      ≡ n * 62 ^ length acc + number_of digit IsDigit acc
unfolding encode_before number_of
encode_before-number zero n acc h = rw (digit-char n) refl
encode_before-number (suc fuel) n acc h = elim (Bool-cases (ltb n 62)) [
  | inl q ↦ rw (q, digit-char n) refl
  | inr q ↦
      let rest = encode_before-number fuel (n / 62) (char (n % 62) ∷ acc) (omega arith) in
      let last = digit-char (n % 62) in
      let power = pow-succ' 62 (length acc) in
      rw q (rest ∙ rw (last, power) (recombine n (62 ^ length acc) (number_of digit IsDigit acc)))
]

ltb-true : (a c : ℕ) → a < c → ltb a c ≡ true
ltb-true a c h = ground arith

encode_before-length :
    (fuel n k : ℕ) (acc : Bytes)
    → n ≤ fuel
    → n < 62 ^ suc k
    → length (encode_before fuel n acc) ≤ suc k + length acc
unfolding encode_before
encode_before-length zero n k acc h b = omega arith
encode_before-length (suc fuel) n zero acc h b = rw (ltb-true n 62 (omega arith)) (omega arith)
encode_before-length (suc fuel) n (suc k) acc h b =
    let power = pow-succ' 62 (suc k) in
    let rest =
      encode_before-length fuel (n / 62) k (char (n % 62) ∷ acc) (omega arith) (omega arith) in
    elim (Bool-cases (ltb n 62)) [ inl q ↦ rw q (omega arith) | inr q ↦ rw q (omega arith) ]

abbrev pub crate : Crate (Unit {0})
unfolding encode_before
crate = record { encode = λ n. encode_before n n []; decode = λ s. ok (number_of digit IsDigit s) }

pub crate-IsBase62 : IsBase62 digit IsDigit crate
unfolding crate
crate-IsBase62 = record {
  digit_bound = λ x h. h.0;
  digit_order = λ x y hx hy l. rw (hx.1, hy.1) at (char_order (digit x) (digit y) l);
  digit_same = λ x y hx hy e. ground (arith, hx.1, hy.1, ap char e);
  zero_IsDigit = unfold char digit in (omega arith, refl);
  zero_digit = unfold digit in refl;
  encode_digits = λ n. encode_before-digits n n [] (omega arith) tt;
  encode_number = λ n. encode_before-number n n [] (omega arith) ∙ unfold number_of in omega arith;
  encode_width = λ n h. encode_before-length n n 10 [] (omega arith) (omega arith);
  decode_number = λ x s h b. refl;
}
