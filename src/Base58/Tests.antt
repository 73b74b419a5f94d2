-- ===== src/Base58/Tests.antt =====
-- Runs of src/nectargraphenebase/base58.py, and its theorems at concrete inputs.
use hive_nectar.Prelude.{
  ℕ, zero, suc, ◌>>=◌, ◌%◌, ◌<◌, ◌≡◌, ◌↔◌, refl, [], ◌∷◌, arith, Bool, true, false, replicate,
  length, All, ok, Result, bytes_eq, length-replicate,
}
use hive_nectar.Prelude.Int.{◌+ℤ◌}
use hive_nectar.Prelude.Bytes.{
  Bytes, Text, codes, IsByte, hexlify, unhexlify, hex_digit, hex_value, ascii,
}
use hive_nectar.Prelude.Digits.{to_digits}
use hive_nectar.Base58.{
  number, base58encode, base58decode, base58_check_encode, base58_check_decode, doublesha256,
  gph_base58_check_encode, gph_base58_check_decode, pad_hex, encode_loop, encode_result, symbols,
  base58_alphabet, decode_loop, decode_result, find,
}
use hive_nectar.Base58.RoundTrip.{base58decode-base58encode}
use hive_nectar.Base58.Check.{
  IsDigest, IsChecked, base58_check_decode-base58_check_encode,
  gph_base58_check_decode-gph_base58_check_encode, base58_check_decode_accepts,
}
use hive_nectar.Base58.Faults.{base58decode_zeroes}

-- All that a run computes with.
encode : Text → Result Text
unfolding base58encode pad_hex encode_loop encode_result symbols base58_alphabet to_digits ascii
    unhexlify hex_value
encode = base58encode

decode : Text → Result Text
unfolding base58decode decode_loop decode_result find to_digits ascii hexlify hex_digit ◌+ℤ◌
decode = base58decode

encode_runs : encode (codes "00ff01") ≡ ok (codes "1LQY")
unfolding encode
encode_runs = refl

decode_runs : decode (codes "1LQY") ≡ ok (codes "00ff01")
unfolding decode
decode_runs = refl

-- 58 * 57 - 1: the missing character counts for -1.
decode_outside : decode (codes "z0") ≡ decode (codes "yz")
unfolding decode
decode_outside = refl

-- A digest that is not a hash: the length of the data, 32 or 20 times.
abbrev repeat_length : ℕ → Bytes → Bytes
repeat_length size bs = replicate size (length bs % 256)

repeat_length-IsByte : (n b : ℕ) → b < 256 → All IsByte (replicate n b)
repeat_length-IsByte zero b h = tt
repeat_length-IsByte (suc n) b h = (h, repeat_length-IsByte n b h)

repeat_length-IsDigest : (size : ℕ) → IsDigest size (repeat_length size)
repeat_length-IsDigest size = record {
  bytes = λ bs. repeat_length-IsByte size (length bs % 256) (omega arith);
  sized = λ bs. length-replicate size (length bs % 256);
}

check_decode : Text → Bool → Result Text
unfolding base58_check_decode decode encode doublesha256 bytes_eq
check_decode = base58_check_decode (repeat_length 32)

skip_runs : base58_check_decode (repeat_length 32) (codes "W85mYgo") true ≡ ok (codes "02")
unfolding check_decode
skip_runs = refl

check_runs : base58_check_decode (repeat_length 32) (codes "W85mYgo") false ≡ ok (codes "0102")
unfolding check_decode
check_runs = refl

base58_check_decode_accepts_example :
    base58_check_decode (repeat_length 32) (codes "W85mYgo") true ≡ ok (codes "02")
    ↔ IsChecked (repeat_length 32) (codes "W85mYgo") true (codes "02")
base58_check_decode_accepts_example =
    base58_check_decode_accepts (repeat_length 32) (codes "W85mYgo") true (codes "02")
      (repeat_length-IsDigest 32)

-- The text is accepted, by the right side.
accepted_skipping : IsChecked (repeat_length 32) (codes "W85mYgo") true (codes "02")
accepted_skipping =
    (base58_check_decode_accepts (repeat_length 32) (codes "W85mYgo") true (codes "02")
        (repeat_length-IsDigest 32)).0
      skip_runs

base58decode-base58encode_example :
    (base58encode (hexlify (0 ∷ 255 ∷ 1 ∷ [])) >>= base58decode) ≡ ok (hexlify (0 ∷ 255 ∷ 1 ∷ []))
base58decode-base58encode_example =
    base58decode-base58encode (0 ∷ 255 ∷ 1 ∷ []) (omega arith) (omega arith)

base58_check_decode-base58_check_encode_example :
    (base58_check_encode (repeat_length 32) (number 0x80) (hexlify (0 ∷ 7 ∷ [])) >>= λ t.
    base58_check_decode (repeat_length 32) t true)
    ≡ ok (hexlify (0 ∷ 7 ∷ []))
base58_check_decode-base58_check_encode_example =
    base58_check_decode-base58_check_encode (repeat_length 32) (repeat_length-IsDigest 32) 0x80
      (0 ∷ 7 ∷ []) (omega arith) (omega arith) (omega arith)

gph_base58_check_decode-gph_base58_check_encode_example :
    (gph_base58_check_encode (repeat_length 20) (hexlify (2 ∷ 7 ∷ []))
      >>= gph_base58_check_decode (repeat_length 20))
    ≡ ok (hexlify (2 ∷ 7 ∷ []))
gph_base58_check_decode-gph_base58_check_encode_example =
    gph_base58_check_decode-gph_base58_check_encode (repeat_length 20) (repeat_length-IsDigest 20)
      (2 ∷ 7 ∷ []) (omega arith) (omega arith)

base58decode_zeroes_example :
    (base58encode (hexlify (0 ∷ [])) >>= base58decode) ≡ ok (hexlify (0 ∷ 0 ∷ 0 ∷ []))
base58decode_zeroes_example = base58decode_zeroes 1
