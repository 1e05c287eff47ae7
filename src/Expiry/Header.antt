-- ===== src/Expiry/Header.antt =====
-- The 8-byte header: writing and reading a `u64` in big-endian order.
use rocksolid.Base.{ℕ, zero, suc, ◌≡◌, refl, ap, arith, [], ◌∷◌, AreBytes, length}
use rocksolid.Expiry.{be_bytes, from_be, IsU64}

pub length-be_bytes : (k n : ℕ) → length (be_bytes k n) ≡ k
unfolding be_bytes
length-be_bytes zero n = refl
length-be_bytes (suc k) n = ap suc (length-be_bytes k n)

-- The bytes read back to the number below 2 ^ 64 that was written.
pub from_be-be_bytes : (n : ℕ) → IsU64 n → from_be 0 (be_bytes 8 n) ≡ n
unfolding be_bytes from_be
from_be-be_bytes n h = omega arith

-- Eight bytes written by the number that they stand for.
pub be_bytes-from_be :
    (a b c d e f g h : ℕ)
    → AreBytes (a ∷ b ∷ c ∷ d ∷ e ∷ f ∷ g ∷ h ∷ [])
    → be_bytes 8 (from_be 0 (a ∷ b ∷ c ∷ d ∷ e ∷ f ∷ g ∷ h ∷ []))
      ≡ a ∷ b ∷ c ∷ d ∷ e ∷ f ∷ g ∷ h ∷ []
unfolding be_bytes from_be
be_bytes-from_be a b c d e f g h p = ground arith

pub IsU64-from_be :
    (a b c d e f g h : ℕ)
    → AreBytes (a ∷ b ∷ c ∷ d ∷ e ∷ f ∷ g ∷ h ∷ [])
    → IsU64 (from_be 0 (a ∷ b ∷ c ∷ d ∷ e ∷ f ∷ g ∷ h ∷ []))
unfolding from_be
IsU64-from_be a b c d e f g h p = omega arith
