-- ===== src/Base58/Reading.antt =====
-- The loops of src/nectargraphenebase/base58.py as positional notation: what `base58encode` and
-- `base58decode` read and write, digit by digit.
use hive_nectar.Prelude.{
  ℕ, zero, suc, ◌+◌, ◌*◌, ◌<◌, ◌≡◌, refl, ap, ◌∙◌, Bool, true, false, ◌&&◌, ◌⊎◌, inl, inr, List, [],
  ◌∷◌, ◌++◌, arith, ltb, ◌==◌, if◌then◌else◌, length, replicate, All, ok, err, Result, append-nil,
}
use hive_nectar.Prelude.Int.{pos, negsuc, ◌+ℤ◌}
use hive_nectar.Prelude.Bytes.{
  Bytes, Text, IsByte, hexlify, unhexlify-hexlify, length-hexlify, ascii, ascii-hexlify,
}
use hive_nectar.Prelude.Digits.{
  to_digits, from_digits, shift_in, digits_loop, digits_loop-foldl, digits_loop_small,
}
use hive_nectar.Base58.{
  base58_alphabet, find, decode_loop, decode_result, base58decode, pad_hex, encode_loop, symbol,
  symbols, encode_result, base58encode,
}
use mathlib.Core.List.{foldl}

-- The loop that both directions run: a number read in from its digits, and the zeroes in front.
unfoldable pub read_loop : ℕ → List ℕ → ℕ → ℕ → ℕ × ℕ
read_loop base [] n k = (n, k)
read_loop base (d ∷ ds) n k =
    let n' = n * base + d in read_loop base ds n' (if n' == 0 then k + 1 else k)

read_loop_pos :
    (base : ℕ) (ds : List ℕ) (n k : ℕ)
    → 0 < base
    → 0 < n
    → read_loop base ds n k ≡ (foldl (shift_in base) n ds, k)
unfolding read_loop
read_loop_pos base [] n k h p = refl
read_loop_pos base (d ∷ ds) n k h p =
    let q : 0 < n * base + d = grind arith in
    ground (arith, q, read_loop_pos base ds (n * base + d) k h q)

pub read_loop_zeroes :
    (base j : ℕ) (ds : List ℕ) (k : ℕ)
    → read_loop base (replicate j 0 ++ ds) 0 k ≡ read_loop base ds 0 (k + j)
unfolding read_loop
read_loop_zeroes base zero ds k = ap (read_loop base ds 0) (omega arith)
read_loop_zeroes base (suc j) ds k = ground (arith, read_loop_zeroes base j ds (k + 1))

pub read_loop_number :
    (base j d : ℕ) (ds : List ℕ)
    → 0 < base
    → 0 < d
    → read_loop base (replicate j 0 ++ d ∷ ds) 0 0 ≡ (from_digits base (d ∷ ds), j)
unfolding read_loop
read_loop_number base j d ds h p =
    read_loop_zeroes base j (d ∷ ds) 0
    ∙ ground (arith, read_loop_pos base ds (0 * base + d) (0 + j) h (omega arith))

pub encode_loop_read : (bs : Bytes) (n k : ℕ) → encode_loop bs n k ≡ read_loop 256 bs n k
unfolding encode_loop read_loop
encode_loop_read [] n k = refl
encode_loop_read (b ∷ bs) n k = encode_loop_read bs (n * 256 + b) _

-- A text spells digits: character by character, each found where it stands in the alphabet.
abbrev pub Spells : Text → List ℕ → Type 0
Spells [] [] = Unit {0}
Spells [] (d ∷ ds) = ⊥
Spells (c ∷ cs) [] = ⊥
Spells (c ∷ cs) (d ∷ ds) = (find c ≡ pos d) × (c < 128) × Spells cs ds

is_spelled : ℕ → Result ℕ → Bool
is_spelled d (err e) = false
is_spelled d (ok c) = elim (find c) [ pos i ↦ i == d && ltb c 128 | negsuc i ↦ false ]

alphabet_good : ℕ → Bool
alphabet_good zero = true
alphabet_good (suc n) = is_spelled n (symbol n) && alphabet_good n

alphabet_table : alphabet_good 58 ≡ true
unfolding alphabet_good is_spelled find base58_alphabet
alphabet_table = refl

alphabet_good_at : (n d : ℕ) → alphabet_good n ≡ true → d < n → is_spelled d (symbol d) ≡ true
unfolding alphabet_good
alphabet_good_at zero d h p = absurd (omega arith)
alphabet_good_at (suc n) d h p = ground (arith, alphabet_good_at n d)

is_spelled_lem :
    (d : ℕ) (r : Result ℕ)
    → is_spelled d r ≡ true
    → (c : ℕ) × (r ≡ ok c) × (find c ≡ pos d) × (c < 128)
unfolding is_spelled
is_spelled_lem d (err e) h = cc
is_spelled_lem d (ok c) h = (c, refl, ground arith, ground arith)

pub symbols-Spells :
    (ds : List ℕ) → All (λ d. d < 58) ds → (t : Text) × (symbols ds ≡ ok t) × Spells t ds
unfolding symbols
symbols-Spells [] h = ([], refl, tt)
symbols-Spells (d ∷ ds) (p, h) =
    let (c, e, f, a) = is_spelled_lem d (symbol d) (alphabet_good_at 58 d alphabet_table p) in
    let (t, g, s) = symbols-Spells ds h in (c ∷ t, rw (e, g), (f, a, s))

pub Spells-ascii : (t : Text) (ds : List ℕ) → Spells t ds → ascii t ≡ ok t
unfolding ascii
Spells-ascii [] ds s = refl
Spells-ascii (c ∷ cs) [] s = absurd s
Spells-ascii (c ∷ cs) (d ∷ ds) (e, a, s) = ground (arith, Spells-ascii cs ds s)

pub Spells-zeroes :
    (k : ℕ) (t : Text) (ds : List ℕ)
    → Spells t ds
    → Spells (replicate k b'1' ++ t) (replicate k 0 ++ ds)
Spells-zeroes zero t ds s = s
Spells-zeroes (suc k) t ds s = (one, omega arith, Spells-zeroes k t ds s)
  where
    one : find b'1' ≡ pos 0
    one = unfold find in refl

-- On a text that spells digits, decoding reads them.
pub decode_loop_read :
    (t : Text) (ds : List ℕ) (n k : ℕ)
    → Spells t ds
    → decode_loop t (pos n) k ≡ (pos (read_loop 58 ds n k).0, (read_loop 58 ds n k).1)
unfolding decode_loop read_loop
decode_loop_read [] [] n k s = refl
decode_loop_read [] (d ∷ ds) n k s = absurd s
decode_loop_read (c ∷ cs) [] n k s = absurd s
decode_loop_read (c ∷ cs) (d ∷ ds) n k (e, a, s) =
    rw (e, plus) (decode_loop_read cs ds (n * 58 + d) _ s)
  where
    plus : pos (n * 58) +ℤ pos d ≡ pos (n * 58 + d)
    plus = unfold ◌+ℤ◌ in ground arith

-- Any list is zeroes, or has a first digit that is not.
pub leading_zeroes :
    (bs : List ℕ)
    → (bs ≡ replicate (length bs) 0)
      ⊎ ((j d : ℕ) × (ds : List ℕ) × (bs ≡ replicate j 0 ++ d ∷ ds) × (0 < d))
leading_zeroes [] = inl refl
leading_zeroes (suc d ∷ bs) = inr (0, suc d, bs, refl, omega arith)
leading_zeroes (zero ∷ bs) = elim (leading_zeroes bs) [
  | inl e ↦ inl (ap (◌∷◌ 0) e)
  | inr (j, d, ds, e, p) ↦ inr (suc j, d, ds, ap (◌∷◌ 0) e, p)
]

pub from_digits_zeroes : (base k : ℕ) → from_digits base (replicate k 0) ≡ 0
from_digits_zeroes base zero = refl
from_digits_zeroes base (suc k) = ground (arith, from_digits_zeroes base k)

pub pad_hex-hexlify : (bs : Bytes) → pad_hex (hexlify bs) ≡ hexlify bs
unfolding pad_hex
pad_hex-hexlify bs = ground (arith, length-hexlify bs)

pub base58encode_bytes :
    (bs : Bytes) → All IsByte bs → base58encode (hexlify bs) ≡ encode_result (read_loop 256 bs 0 0)
unfolding base58encode
base58encode_bytes bs h =
    rw (pad_hex-hexlify bs, ascii-hexlify bs h, unhexlify-hexlify bs h, encode_loop_read bs 0 0)

-- Decoding what spells the digits of `n` behind `j` zeroes, of which `i` are counted.
pub base58decode_spelled :
    (t : Text) (ds : List ℕ) (j i n : ℕ)
    → Spells t ds
    → read_loop 58 (replicate j 0 ++ ds) 0 0 ≡ (n, i)
    → base58decode (replicate j b'1' ++ t) ≡ ok (hexlify (replicate i 0 ++ to_digits 256 n))
unfolding base58decode decode_result
base58decode_spelled t ds j i n s e =
    let s' = Spells-zeroes j t ds s in rw (Spells-ascii _ _ s', decode_loop_read _ _ 0 0 s', e)

pub to_digits-from_digits :
    (d : ℕ) (ds : List ℕ)
    → 0 < d
    → d < 256
    → All IsByte ds
    → to_digits 256 (from_digits 256 (d ∷ ds)) ≡ d ∷ ds
unfolding to_digits
to_digits-from_digits d ds p q h =
    ap (λ n. digits_loop 256 (foldl (shift_in 256) n ds) (foldl (shift_in 256) n ds) [])
      (omega arith)
    ∙ digits_loop-foldl 256 (omega arith) ds _ d d [] p h (omega arith) (omega arith)
    ∙ digits_loop_small 256 (omega arith) d d (ds ++ []) q
    ∙ ap (◌∷◌ d) (append-nil ds)

pub All-behind_zeroes : (j : ℕ) (xs : List ℕ) → All IsByte (replicate j 0 ++ xs) → All IsByte xs
All-behind_zeroes zero xs h = h
All-behind_zeroes (suc j) xs h = All-behind_zeroes j xs h.1
