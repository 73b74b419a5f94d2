-- ===== src/Prelude/Bytes.antt =====
-- What the code takes from Python's `binascii`, `struct` and `bytes(text, encoding)`: hexadecimal,
-- little-endian words, UTF-8 and ASCII. A byte string is a list of numbers below 256, a text the
-- list of its code points.
use hive_nectar.Prelude.{
  ℕ, zero, suc, ◌+◌, ◌-◌, ◌*◌, ◌/◌, ◌%◌, ◌^◌, ◌<◌, ◌≡◌, refl, ap, ◌∙◌, ◌&&◌, List, [], ◌∷◌, ◌++◌,
  Option, none, some, arith, ltb, leb, if◌then◌else◌, Bool-cases, inl, inr, >>=-eq-ok, All, length,
  Result, ok, err, binascii_error, unicode_error, struct_error, ◌>>=◌,
}
use hive_nectar.Prelude.Int.{ℤ, pos, negsuc}
use Prim.Native.Char.{code}
use Prim.Native.String.{String}
use native.Mathlib.Nat.{pow-suc}

abbrev pub Bytes : Type 0
Bytes = List ℕ

abbrev pub Text : Type 0
Text = List ℕ

-- The code points of a literal.
abbrev pub codes : String → Text
codes String.[] = []
codes (String.◌∷◌ c s) = code c ∷ codes s

abbrev pub IsByte : ℕ → Type 0
IsByte b = b < 256

unfoldable pub hex_digit : ℕ → ℕ
hex_digit d = if ltb d 10 then 48 + d else 87 + d

-- Both cases are read, as `unhexlify` does.
unfoldable pub hex_value : ℕ → Option ℕ
hex_value c =
    if leb 48 c && leb c 57
    then some (c - 48)
    else if leb 97 c && leb c 102
    then some (c - 87)
    else if leb 65 c && leb c 70
    then some (c - 55)
    else none

unfoldable pub hexlify : Bytes → Text
hexlify [] = []
hexlify (b ∷ bs) = hex_digit (b / 16) ∷ hex_digit (b % 16) ∷ hexlify bs

abbrev pub hex_byte : Option ℕ → Option ℕ → Result ℕ
hex_byte (some h) (some l) = ok (16 * h + l)
hex_byte _ _ = err binascii_error

unfoldable pub unhexlify : Text → Result Bytes
unhexlify [] = ok []
unhexlify (c ∷ []) = err binascii_error
unhexlify (c ∷ d ∷ rest) = do
  b ← hex_byte (hex_value c) (hex_value d)
  bs ← unhexlify rest
  ok (b ∷ bs)

hex_value-hex_digit : (d : ℕ) → d < 16 → hex_value (hex_digit d) ≡ some d
unfolding hex_value hex_digit
hex_value-hex_digit d h = ground arith

unhexlify_pair :
    (h l : ℕ) (rest : Text) (bs : Bytes)
    → h < 16
    → l < 16
    → unhexlify rest ≡ ok bs
    → unhexlify (hex_digit h ∷ hex_digit l ∷ rest) ≡ ok ((16 * h + l) ∷ bs)
unfolding unhexlify
unhexlify_pair h l rest bs p q e = rw (hex_value-hex_digit h p, hex_value-hex_digit l q, e)

pub unhexlify-hexlify : (bs : Bytes) → All IsByte bs → unhexlify (hexlify bs) ≡ ok bs
unfolding hexlify
unhexlify-hexlify [] h = unfold unhexlify in refl
unhexlify-hexlify (b ∷ bs) (p, h) =
    unhexlify_pair (b / 16) (b % 16) (hexlify bs) bs (omega arith) (omega arith)
      (unhexlify-hexlify bs h)
    ∙ ap (λ x. ok (x ∷ bs)) (omega arith)

pub length-hexlify : (bs : Bytes) → length (hexlify bs) ≡ 2 * length bs
unfolding hexlify
length-hexlify [] = omega arith
length-hexlify (b ∷ bs) = omega (arith, length-hexlify bs)

-- `n` in `w` bytes, lowest first.
unfoldable pub le_bytes : ℕ → ℕ → Bytes
le_bytes zero n = []
le_bytes (suc w) n = n % 256 ∷ le_bytes w (n / 256)

-- The number that such bytes stand for.
unfoldable pub le_value : Bytes → ℕ
le_value [] = 0
le_value (b ∷ bs) = b + 256 * le_value bs

pub length-le_bytes : (w n : ℕ) → length (le_bytes w n) ≡ w
unfolding le_bytes
length-le_bytes zero n = refl
length-le_bytes (suc w) n = omega (arith, length-le_bytes w (n / 256))

pub le_bytes-IsByte : (w n : ℕ) → All IsByte (le_bytes w n)
unfolding le_bytes
le_bytes-IsByte zero n = tt
le_bytes-IsByte (suc w) n = (omega arith, le_bytes-IsByte w (n / 256))

pub le_value-le_bytes : (w n : ℕ) → n < 256 ^ w → le_value (le_bytes w n) ≡ n
unfolding le_bytes le_value
le_value-le_bytes zero n h = omega arith
le_value-le_bytes (suc w) n h =
    omega (arith, le_value-le_bytes w (n / 256) (omega (arith, pow-suc 256 w)))

-- `struct.pack("<B", n)` and its kin for `w` bytes, unsigned and signed. Signed values are packed in
-- two's complement. Out of range is `struct.error`.
unfoldable pub pack_unsigned : ℕ → ℤ → Result Bytes
pack_unsigned w (pos n) = if ltb n (256 ^ w) then ok (le_bytes w n) else err struct_error
pack_unsigned w (negsuc n) = err struct_error

unfoldable pub pack_signed : ℕ → ℤ → Result Bytes
pack_signed w (pos n) = if ltb (2 * n) (256 ^ w) then ok (le_bytes w n) else err struct_error
pack_signed w (negsuc n) =
    if ltb (2 * n) (256 ^ w) then ok (le_bytes w (256 ^ w - 1 - n)) else err struct_error

hex_value_small : (c d : ℕ) → hex_value c ≡ some d → d < 16
unfolding hex_value
hex_value_small c d h = ground arith

hex_byte-IsByte :
    (h l : Option ℕ) (b : ℕ)
    → ((d : ℕ) → h ≡ some d → d < 16)
    → ((d : ℕ) → l ≡ some d → d < 16)
    → hex_byte h l ≡ ok b
    → IsByte b
hex_byte-IsByte (some h) (some l) b p q e =
    let one = p h refl in let two = q l refl in let same : b ≡ 16 * h + l = cc in omega arith
hex_byte-IsByte none l b p q e = cc
hex_byte-IsByte (some h) none b p q e = cc

pub unhexlify-IsByte : (s : Text) (bs : Bytes) → unhexlify s ≡ ok bs → All IsByte bs
unfolding unhexlify
unhexlify-IsByte [] bs h = let same : bs ≡ [] = cc in rw same tt
unhexlify-IsByte (c ∷ []) bs h = cc
unhexlify-IsByte (c ∷ d ∷ s) bs h =
    let (x, e, h1) = >>=-eq-ok (hex_byte (hex_value c) (hex_value d)) _ h in
    let (xs, e', h2) = >>=-eq-ok (unhexlify s) _ h1 in
    let same : bs ≡ x ∷ xs = cc in
    rw same (
      hex_byte-IsByte (hex_value c) (hex_value d) x (λ v. hex_value_small c v)
          (λ v. hex_value_small d v) e,
      unhexlify-IsByte s xs e',
    )

-- `bytes(text, "ascii")`.
unfoldable pub ascii : Text → Result Bytes
ascii [] = ok []
ascii (c ∷ cs) = if ltb c 128 then (do rest ← ascii cs; ok (c ∷ rest)) else err unicode_error

-- One code point in UTF-8. A surrogate cannot be encoded.
unfoldable pub utf8_char : ℕ → Result Bytes
utf8_char c =
    if ltb c 0x80
    then ok (c ∷ [])
    else if ltb c 0x800
    then ok ((192 + c / 64) ∷ (128 + c % 64) ∷ [])
    else if leb 0xd800 c && ltb c 0xe000
    then err unicode_error
    else if ltb c 0x10000
    then ok ((224 + c / 4096) ∷ (128 + c / 64 % 64) ∷ (128 + c % 64) ∷ [])
    else if ltb c 0x110000
    then ok ((240 + c / 262144) ∷ (128 + c / 4096 % 64) ∷ (128 + c / 64 % 64) ∷ (128 + c % 64) ∷ [])
    else err unicode_error

unfoldable pub utf8 : Text → Result Bytes
utf8 [] = ok []
utf8 (c ∷ cs) = do b ← utf8_char c; rest ← utf8 cs; ok (b ++ rest)

hex_digit_ascii : (d : ℕ) → d < 16 → hex_digit d < 128
unfolding hex_digit
hex_digit_ascii d h = ground arith

pub hexlify_below : (bs : Bytes) → All IsByte bs → All (λ c. c < 128) (hexlify bs)
unfolding hexlify
hexlify_below [] h = tt
hexlify_below (b ∷ bs) (p, h) = (
  hex_digit_ascii (b / 16) (omega arith),
  (hex_digit_ascii (b % 16) (omega arith), hexlify_below bs h),
)

-- Characters below 128 are their own bytes, in ASCII and in UTF-8.
pub ascii_below : (s : Text) → All (λ c. c < 128) s → ascii s ≡ ok s
unfolding ascii
ascii_below [] h = refl
ascii_below (c ∷ s) (p, h) = ground (arith, ascii_below s h)

utf8_char_below : (c : ℕ) → c < 128 → utf8_char c ≡ ok (c ∷ [])
unfolding utf8_char
utf8_char_below c h = ground arith

pub utf8_below : (s : Text) → All (λ c. c < 128) s → utf8 s ≡ ok s
unfolding utf8
utf8_below [] h = refl
utf8_below (c ∷ s) (p, h) = rw (utf8_char_below c p, utf8_below s h)

pub ascii-hexlify : (bs : Bytes) → All IsByte bs → ascii (hexlify bs) ≡ ok (hexlify bs)
ascii-hexlify bs h = ascii_below (hexlify bs) (hexlify_below bs h)

pub utf8-hexlify : (bs : Bytes) → All IsByte bs → utf8 (hexlify bs) ≡ ok (hexlify bs)
utf8-hexlify bs h = utf8_below (hexlify bs) (hexlify_below bs h)

pub hexlify-append : (xs ys : Bytes) → hexlify (xs ++ ys) ≡ hexlify xs ++ hexlify ys
unfolding hexlify
hexlify-append [] ys = refl
hexlify-append (x ∷ xs) ys =
    ap (λ r. hex_digit (x / 16) ∷ hex_digit (x % 16) ∷ r) (hexlify-append xs ys)

pub length-ascii : (s : Text) {b : Bytes} → ascii s ≡ ok b → length b ≡ length s
unfolding ascii
length-ascii [] h = ground arith
length-ascii (c ∷ s) {b} h = elim (Bool-cases (ltb c 128)) [
  | inl low ↦
      let (t, e, f) = >>=-eq-ok (ascii s) (λ t. ok (c ∷ t)) (rw low at h) in
      let same : b ≡ c ∷ t = cc in rw same (ap suc (length-ascii s e))
  | inr high ↦ let bad : err unicode_error ≡ ok b = rw high at h in cc bad
]
