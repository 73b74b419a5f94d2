-- ===== src/Base58/Faults.antt =====
-- Two inputs on which src/nectargraphenebase/base58.py does not do what base 58 asks for: data of
-- zero bytes alone, and texts with a character outside the alphabet.
use hive_nectar.Prelude.{
  ℕ, zero, suc, ◌+◌, ◌<◌, ◌≡◌, refl, sym, ap, ◌∙◌, [], ◌∷◌, ◌++◌, arith, replicate, All, append-nil,
  false, ok, ◌>>=◌,
}
use hive_nectar.Prelude.Int.{ℤ, pos, negsuc, ◌+ℤ◌}
use hive_nectar.Prelude.Bytes.{Bytes, Text, IsByte, hexlify, ascii_below}
use hive_nectar.Prelude.Digits.{to_digits}
use hive_nectar.Base58.{
  base58encode, base58decode, encode_result, symbols, base58_alphabet, find, decode_loop, times_58,
  is_zero,
}
use hive_nectar.Base58.Reading.{
  read_loop, read_loop_zeroes, base58encode_bytes, base58decode_spelled,
}

zeroes-IsByte : (k : ℕ) → All IsByte (replicate k 0)
zeroes-IsByte zero = tt
zeroes-IsByte (suc k) = (omega arith, zeroes-IsByte k)

one_more : (k : ℕ) → ◌++◌ {A = ℕ} (replicate k 0) (0 ∷ []) ≡ 0 ∷ replicate k 0
one_more zero = refl
one_more (suc k) = ap (◌∷◌ 0) (one_more k)

-- Data of k zero bytes, k above 0, is read back as k + 2 zero bytes.
pub base58decode_zeroes :
    (k : ℕ)
    → (base58encode (hexlify (replicate k 0)) >>= base58decode)
      ≡ ok (hexlify (replicate (suc (suc k)) 0))
base58decode_zeroes k =
    rw (base58encode_bytes (replicate k 0) (zeroes-IsByte k), counted, encoded)
      (base58decode_spelled (b'1' ∷ []) (0 ∷ []) k (k + 1) 0 (one, omega arith, tt) read
        ∙ ap (λ bs. ok (hexlify bs)) added)
  where
    counted : read_loop 256 (replicate k 0) 0 0 ≡ (0, k)
    counted =
        ap (λ bs. read_loop 256 bs 0 0) (sym (append-nil (replicate k 0)))
        ∙ read_loop_zeroes 256 k [] 0
        ∙ unfold read_loop in ap (λ m. (0, m)) (omega arith)

    encoded : encode_result (0, k) ≡ ok (replicate k b'1' ++ b'1' ∷ [])
    encoded = unfold encode_result symbols to_digits base58_alphabet in refl

    one : find b'1' ≡ pos 0
    one = unfold find in refl

    read : read_loop 58 (replicate k 0 ++ 0 ∷ []) 0 0 ≡ (0, k + 1)
    read = read_loop_zeroes 58 k (0 ∷ []) 0 ∙ unfold read_loop in ap (λ m. (0, m)) (omega arith)

    added : replicate (k + 1) 0 ++ to_digits 256 0 ≡ replicate (suc (suc k)) 0
    added = let up : k + 1 ≡ suc k = omega arith in unfold to_digits in rw up (one_more (suc k))

one_below :
    (n : ℤ) (d : ℕ)
    → times_58 (times_58 n +ℤ pos (suc d)) +ℤ negsuc 0 ≡ times_58 (times_58 n +ℤ pos d) +ℤ pos 57
unfolding ◌+ℤ◌
one_below (pos n) d = ground arith
one_below (negsuc n) d = ground arith

no_zero : (n : ℤ) (d : ℕ) → 0 < d → d < 58 → is_zero (times_58 n +ℤ pos d) ≡ false
unfolding ◌+ℤ◌
no_zero (pos n) d h l = ground arith
no_zero (negsuc n) d h l = ground arith

two_characters :
    (x c y : ℕ) (rest : Bytes) (d : ℕ) (n : ℤ) (k : ℕ)
    → find x ≡ pos (suc d)
    → find y ≡ pos d
    → find c ≡ negsuc 0
    → 0 < d
    → d < 57
    → decode_loop (x ∷ c ∷ rest) n k ≡ decode_loop (y ∷ b'z' ∷ rest) n k
unfolding decode_loop
two_characters x c y rest d n k p q r h l =
    let z : find b'z' ≡ pos 57 = unfold find in refl in
    rw
      (
        p,
        q,
        r,
        z,
        one_below n d,
        no_zero n d h (omega arith),
        no_zero n (suc d) (omega arith) (omega arith),
      )
      refl

same_behind :
    (before xs ys : Bytes) (n : ℤ) (k : ℕ)
    → ((m : ℤ) (j : ℕ) → decode_loop xs m j ≡ decode_loop ys m j)
    → decode_loop (before ++ xs) n k ≡ decode_loop (before ++ ys) n k
unfolding decode_loop
same_behind [] xs ys n k h = h n k
same_behind (b ∷ before) xs ys n k h = same_behind before xs ys _ _ h

-- A character outside the alphabet is no error: behind a character of digit `d + 1`, `d` positive,
-- it is read as `z` behind the character of digit `d`.
base58decode_outside :
    (before after : Text) (x c y d : ℕ)
    → All (λ b. b < 128) (before ++ x ∷ c ∷ after)
    → All (λ b. b < 128) (before ++ y ∷ b'z' ∷ after)
    → find x ≡ pos (suc d)
    → find y ≡ pos d
    → find c ≡ negsuc 0
    → 0 < d
    → d < 57
    → base58decode (before ++ x ∷ c ∷ after) ≡ base58decode (before ++ y ∷ b'z' ∷ after)
unfolding base58decode
base58decode_outside before after x c y d a b p q r h l =
    rw
      (
        ascii_below _ a,
        ascii_below _ b,
        same_behind before (x ∷ c ∷ after) (y ∷ b'z' ∷ after) (pos 0) 0
            (λ m j. two_characters x c y after d m j p q r h l),
      )
      refl
