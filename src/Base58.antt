-- ===== src/Base58.antt =====
-- src/nectargraphenebase/base58.py: base-58 texts of hexadecimal data, with and without a checksum.
-- A text is the list of its code points. The hashes of `hashlib` are parameters.
pub mod Reading
pub mod RoundTrip
pub mod Check
pub mod Faults
mod Tests
use hive_nectar.Prelude.{
  ℕ, zero, suc, ◌+◌, ◌-◌, ◌*◌, ◌%◌, Bool, true, false, Option, none, some, List, [], ◌∷◌, ◌++◌, map,
  ltb, ◌==◌, if◌then◌else◌, length, get_elem?, take, drop, replicate, Result, ok, err, ◌>>=◌,
  value_error, index_error, assertion_error, bytes_eq, all, ◌||◌,
}
use hive_nectar.Prelude.Int.{ℤ, pos, negsuc, sub_ℕ, ◌+ℤ◌}
use hive_nectar.Prelude.Bytes.{Bytes, Text, codes, hex_digit, hex_value, hexlify, unhexlify, ascii}
use hive_nectar.Prelude.Digits.{to_digits}

unfoldable pub base58_alphabet : Bytes
base58_alphabet = codes "123456789ABCDEFGHJKLMNPQRSTUVWXYZabcdefghijkmnopqrstuvwxyz"

-- `alphabet.find(b)`, from index `i` on; -1 if it is missing.
unfoldable pub find_from : ℕ → Bytes → ℕ → ℤ
find_from i [] b = negsuc 0
find_from i (c ∷ cs) b = if c == b then pos i else find_from (i + 1) cs b

unfoldable pub find : ℕ → ℤ
unfolding find_from base58_alphabet
find = find_from 0 base58_alphabet

-- `n * 58` on an integer.
abbrev pub times_58 : ℤ → ℤ
times_58 (pos n) = pos (n * 58)
times_58 (negsuc n) = sub_ℕ 0 (suc n * 58)

abbrev pub is_zero : ℤ → Bool
is_zero (pos n) = n == 0
is_zero (negsuc n) = false

-- The first loop of `base58decode`, over `n` and `leading_zeroes_count`.
unfoldable pub decode_loop : Bytes → ℤ → ℕ → ℤ × ℕ
decode_loop [] n leading = (n, leading)
decode_loop (b ∷ bs) n leading =
    let n' = times_58 n +ℤ find b in decode_loop bs n' (if is_zero n' then leading + 1 else leading)

-- Its second loop and its result. `bytearray.insert` refuses a negative number.
unfoldable pub decode_result : ℤ × ℕ → Result Text
decode_result (pos n, leading) = ok (hexlify (replicate leading 0 ++ to_digits 256 n))
decode_result (negsuc n, leading) = err value_error

unfoldable pub base58decode : Text → Result Text
base58decode base58_str = do
  base58_text ← ascii base58_str
  decode_result (decode_loop base58_text (pos 0) 0)

-- Odd-length hexadecimal text gets a leading zero.
unfoldable pub pad_hex : Text → Text
pad_hex hexstring = if length hexstring % 2 == 1 then b'0' ∷ hexstring else hexstring

-- The first loop of `base58encode`.
unfoldable pub encode_loop : Bytes → ℕ → ℕ → ℕ × ℕ
encode_loop [] n leading = (n, leading)
encode_loop (c ∷ cs) n leading =
    let n' = n * 256 + c in encode_loop cs n' (if n' == 0 then leading + 1 else leading)

abbrev symbol : ℕ → Result ℕ
symbol d = elim (get_elem? base58_alphabet d) [ none ↦ err index_error | some c ↦ ok c ]

-- `BASE58_ALPHABET[d]` for every digit.
unfoldable pub symbols : List ℕ → Result Text
symbols [] = ok []
symbols (d ∷ ds) = do c ← symbol d; cs ← symbols ds; ok (c ∷ cs)

-- Its second loop and its result; `BASE58_ALPHABET[0:1]` is the symbol of 0.
unfoldable pub encode_result : ℕ × ℕ → Result Text
encode_result (n, leading) = do res ← symbols (to_digits 58 n); ok (replicate leading b'1' ++ res)

unfoldable pub base58encode : Text → Result Text
base58encode hexstring = do
  text ← ascii (pad_hex hexstring)
  byteseq ← unhexlify text
  encode_result (encode_loop byteseq 0 0)

-- `version` is a number or, passed on as it is, a text.
pub data Version : Type 0 where
  number : ℕ → Version
  text : Text → Version

-- `"%.2x" % version`.
unfoldable pub format_hex : ℕ → Text
format_hex v = if ltb v 16 then b'0' ∷ hex_digit v ∷ [] else map hex_digit (to_digits 16 v)

unfoldable pub version_text : Version → Text
version_text (number v) = format_hex v
version_text (text v) = v

-- `s[:-4]` and `s[-4:]`.
abbrev pub but_last_four : Bytes → Bytes
but_last_four s = take (length s - 4) s

abbrev pub last_four : Bytes → Bytes
last_four s = drop (length s - 4) s

module _ (sha256 : Bytes → Bytes) where
  -- The argument is a text of hexadecimal digits, as in both calls of this file.
  unfoldable pub doublesha256 : Text → Result Bytes
  doublesha256 s = do data' ← unhexlify (pad_hex s); ok (sha256 (sha256 data'))

  unfoldable pub base58_check_encode : Version → Text → Result Text
  base58_check_encode version payload = do
    let s = version_text version ++ payload
    digest ← doublesha256 s
    base58encode (s ++ hexlify (take 4 digest))

  unfoldable pub base58_check_decode : Text → Bool → Result Text
  base58_check_decode s skip_first_bytes = do
    hex ← base58decode s
    s_bytes ← unhexlify hex
    let dec = hexlify (but_last_four s_bytes)
    digest ← doublesha256 dec
    if bytes_eq (last_four s_bytes) (take 4 digest)
        then (if skip_first_bytes then ok (drop 2 dec) else ok dec)
        else err assertion_error

module _ (ripemd : Bytes → Bytes) where
  unfoldable pub ripemd160 : Text → Result Bytes
  ripemd160 s = do data' ← unhexlify s; ok (ripemd data')

  unfoldable pub gph_base58_check_encode : Text → Result Text
  gph_base58_check_encode s = do digest ← ripemd160 s; base58encode (s ++ hexlify (take 4 digest))

  unfoldable pub gph_base58_check_decode : Text → Result Text
  gph_base58_check_decode s = do
    hex ← base58decode s
    s_bytes ← unhexlify hex
    let dec = hexlify (but_last_four s_bytes)
    digest ← ripemd160 dec
    if bytes_eq (last_four s_bytes) (take 4 digest) then ok dec else err assertion_error

-- The class Base58 keeps hexadecimal data.
module _ (sha256 ripemd : Bytes → Bytes) where
  abbrev is_hex_digit : ℕ → Bool
  is_hex_digit c = elim (hex_value c) [ none ↦ false | some v ↦ true ]

  -- What `__init__` makes of a text that is not all hexadecimal digits, by its first character `c`.
  unfoldable pub load_encoded : Text → ℕ → Text → Result Text
  load_encoded prefix c given =
      if c == b'5' || c == b'6'
      then base58_check_decode sha256 given true
      else if c == b'K' || c == b'L'
      then (base58_check_decode sha256 given true >>= λ h. ok (take (length h - 2) h))
      else if bytes_eq (take (length prefix) given) prefix
      then gph_base58_check_decode ripemd (drop (length prefix) given)
      else err value_error

  -- `__init__`.
  unfoldable pub load : Text → Text → Result Text
  load prefix [] = ok []
  load prefix (c ∷ cs) =
      if all is_hex_digit (c ∷ cs) then ok (c ∷ cs) else load_encoded prefix c (c ∷ cs)

  -- `__format__`, for a format in upper case.
  unfoldable pub format_as : Text → Text → Result Text
  format_as format hex =
      if bytes_eq format (codes "WIF")
      then base58_check_encode sha256 (number 128) hex
      else if bytes_eq format (codes "ENCWIF")
      then base58encode hex
      else if bytes_eq format (codes "BTC")
      then base58_check_encode sha256 (number 0) hex
      else (gph_base58_check_encode ripemd hex >>= λ s. ok (format ++ s))
