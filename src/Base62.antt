-- ===== src/Base62.antt =====
-- src/utils/base62.rs: times as keys of one width. A string is its bytes. The crate `base62` is the
-- record `Crate`: its encoding without padding, and its decoder; a `u128` is a number here.
pub mod Order
pub mod Digits
mod Tests
use rocksolid.Base.{
  ℕ, zero, suc, ◌-◌, ◌^◌, Option, none, some, List, [], ◌∷◌, ◌++◌, Bytes, ltb, leb, ◌==◌, length,
  if◌then◌else◌,
}
use rocksolid.Base.Outcome.{Result, ok, err}

-- `DecodeError`, as far as the code names it.
pub data DecodeError (X : Type 0) : Type 0 where
  arithmetic_overflow : DecodeError X
  of_crate : X → DecodeError X

pub record Crate (X : Type 0) : Type 0 where
  pub encode : ℕ → Bytes
  pub decode : Bytes → Result (DecodeError X) ℕ

abbrev pub width_u64 : ℕ
width_u64 = 11

-- `n` times the character '0'
unfoldable pub zeros : ℕ → Bytes
zeros zero = []
zeros (suc n) = 48 ∷ zeros n

module _ {X : Type 0} (b : Crate X) where
  -- `format!("{:0>width$}", s)` pads to the width on the left, and never cuts.
  unfoldable pub encode_pad : ℕ → ℕ → Bytes
  unfolding zeros
  encode_pad n width = let s = b.encode n in zeros (width - length s) ++ s

  unfoldable pub encode_time : ℕ → Bytes
  unfolding encode_pad
  encode_time ts = encode_pad ts width_u64

  -- On a buffer of `out_len` bytes. It panics, `none`, when that is not the width, when the encoding
  -- is longer than the temporary buffer, and when it is longer than the width.
  unfoldable pub encode_fast_pad : ℕ → ℕ → ℕ → Option Bytes
  unfolding zeros
  encode_fast_pad n width out_len =
      let tmp = b.encode n in
      if out_len == width
      then if leb (length tmp) 22
        then if leb (length tmp) width then some (zeros (width - length tmp) ++ tmp) else none
        else none
      else none

  unfoldable pub decode : Bytes → Result (DecodeError X) ℕ
  decode s = elim (b.decode s) [
    | ok value ↦ if ltb (2 ^ 64 - 1) value then err arithmetic_overflow else ok value
    | err e ↦ err e
  ]
