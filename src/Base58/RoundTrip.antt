-- ===== src/Base58/RoundTrip.antt =====
-- `base58decode` after `base58encode`, in src/nectargraphenebase/base58.py.
use hive_nectar.Prelude.{
  ℕ, ◌+◌, ◌*◌, ◌<◌, ◌≡◌, sym, ap, ◌∙◌, inl, inr, List, [], ◌∷◌, ◌++◌, arith, length, replicate, All,
  ok, ◌>>=◌,
}
use mathlib.Core.Path.{subst}
use mathlib.Core.List.{foldl, foldl-append}
use hive_nectar.Prelude.Bytes.{Bytes, Text, IsByte, hexlify}
use hive_nectar.Prelude.Digits.{
  to_digits, from_digits, shift_in, foldl-digits_loop, digits_loop_shape,
}
use hive_nectar.Base58.{base58encode, base58decode, encode_result}
use hive_nectar.Base58.Reading.{
  read_loop_number, Spells, symbols-Spells, leading_zeroes, from_digits_zeroes, base58encode_bytes,
  base58decode_spelled, to_digits-from_digits, All-behind_zeroes,
}

-- What `base58encode` gives for `j` zero bytes before a number: ones, and the number's digits.
encode_result_lem :
    (n j : ℕ)
    → 0 < n
    → (t : Text) × (d : ℕ) × (ds : List ℕ) × (encode_result (n, j) ≡ ok (replicate j b'1' ++ t))
      × Spells t (d ∷ ds)
      × (0 < d)
      × (from_digits 58 (d ∷ ds) ≡ n)
unfolding encode_result to_digits
encode_result_lem n j p =
    let (d, ds, e, q, r, s) = digits_loop_shape 58 (omega arith) n n [] (omega arith) p tt in
    let (t, f, g) = symbols-Spells (d ∷ ds) (r, s) in
    (
      t,
      d,
      ds,
      rw (e, f),
      g,
      q,
      ap (from_digits 58) (sym e) ∙ foldl-digits_loop 58 (omega arith) n n [] (omega arith),
    )

foldl_pos : (ds : List ℕ) (n : ℕ) → 0 < n → 0 < foldl (shift_in 256) n ds
foldl_pos [] n p = p
foldl_pos (d ∷ ds) n p = foldl_pos ds (n * 256 + d) (omega arith)

pub from_digits_pos : (d : ℕ) (ds : List ℕ) → 0 < d → 0 < from_digits 256 (d ∷ ds)
from_digits_pos d ds p = foldl_pos ds (0 * 256 + d) (omega arith)

-- Bytes added behind a number that is not 0 leave it so.
pub from_digits-append_pos :
    (bs cs : Bytes) → 0 < from_digits 256 bs → 0 < from_digits 256 (bs ++ cs)
from_digits-append_pos bs cs p =
    subst (λ n. 0 < n) (sym (foldl-append (shift_in 256) 0 bs cs)) (foldl_pos cs _ p)

abbrev pub RoundTrips : Bytes → Type 0
RoundTrips bs = (t : Text) × (base58encode (hexlify bs) ≡ ok t) × (base58decode t ≡ ok (hexlify bs))

number_RoundTrips :
    (j d : ℕ) (ds : List ℕ)
    → All IsByte (replicate j 0 ++ d ∷ ds)
    → 0 < d
    → RoundTrips (replicate j 0 ++ d ∷ ds)
number_RoundTrips j d ds h p =
    let (q, hs) = All-behind_zeroes j (d ∷ ds) h in
    let n = from_digits 256 (d ∷ ds) in
    let (t, d', ds', e, s, r, f) = encode_result_lem n j (from_digits_pos d ds p) in
    (
      replicate j b'1' ++ t,
      base58encode_bytes _ h ∙ ap encode_result (read_loop_number 256 j d ds (omega arith) p) ∙ e,
      base58decode_spelled t (d' ∷ ds') j j n s
            (read_loop_number 58 j d' ds' (omega arith) r ∙ ap (λ m. (m, j)) f)
          ∙ ap (λ xs. ok (hexlify (replicate j 0 ++ xs))) (to_digits-from_digits d ds p q hs),
    )

pub encoded_text : (bs : Bytes) → All IsByte bs → 0 < from_digits 256 bs → RoundTrips bs
encoded_text bs h p = elim (leading_zeroes bs) [
  | inl e ↦ absurd (omega (arith, ap (from_digits 256) e, from_digits_zeroes 256 (length bs)))
  | inr (j, d, ds, e, q) ↦
      subst RoundTrips (sym e) (number_RoundTrips j d ds (subst (All IsByte) e h) q)
]

-- Data of any number of zero bytes and then a byte above 0 is read back from its base-58 text,
-- leading zeroes included.
pub base58decode-base58encode :
    (bs : Bytes)
    → All IsByte bs
    → 0 < from_digits 256 bs
    → (base58encode (hexlify bs) >>= base58decode) ≡ ok (hexlify bs)
base58decode-base58encode bs h p = let (t, e, d) = encoded_text bs h p in rw e d
