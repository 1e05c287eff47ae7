-- ===== src/Base62/Tests.antt =====
-- The theorems on keys made of times at concrete data.
use rocksolid.Base.{◌≡◌, arith, true, some, length, bytes_lt}
use rocksolid.Base.Outcome.{ok}
use rocksolid.Base62.{encode_time, encode_fast_pad, decode, width_u64}
use rocksolid.Base62.Digits.{digit, IsDigit, crate, crate-IsBase62}
use rocksolid.Base62.Order.{encode_time-bytes_lt, decode-encode_time}

encode_time-bytes_lt_example :
    (length (encode_time crate 7) ≡ 11)
    × (length (encode_time crate 63) ≡ 11)
    × (bytes_lt (encode_time crate 7) (encode_time crate 63) ≡ true)
encode_time-bytes_lt_example =
    encode_time-bytes_lt digit IsDigit crate crate-IsBase62 7 63 (omega arith) (omega arith)

decode-encode_time_example :
    (decode crate (encode_time crate 63) ≡ ok 63)
    × (encode_fast_pad crate 63 width_u64 11 ≡ some (encode_time crate 63))
decode-encode_time_example = decode-encode_time digit IsDigit crate crate-IsBase62 63 (omega arith)
