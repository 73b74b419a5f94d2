-- ===== src/Wire/Varint.antt =====
-- `varint` and `varintdecode` of src/nectargraphenebase/types.py: seven bits to a byte, lowest first.
-- `n & 0x7F` is `n % 128`, `n >>= 7` is `n / 128`; where the source joins bits that do not overlap by
-- `|`, the model adds.
use hive_nectar.Prelude.{
  ℕ, zero, suc, ◌+◌, ◌*◌, ◌/◌, ◌%◌, ◌^◌, ◌<◌, ◌≤◌, ◌≡◌, refl, ap, ◌∙◌, true, false, inl, inr, ◌⊎◌,
  le→leb, Bool-cases, [], ◌∷◌, ◌++◌, append_assoc, arith, leb, ◌==◌, if◌then◌else◌, length, All,
  Result, ok, err, ◌>>=◌, value_error,
}
use hive_nectar.Prelude.Int.{ℤ, pos, negsuc}
use hive_nectar.Prelude.Bytes.{Bytes, Text, IsByte, utf8}
use native.Mathlib.Numerals.{towards_suc}
use native.Mathlib.Nat.{pow-suc}

-- `while n >= 0x80`; each round divides by 128, so `n` rounds are enough.
varint_loop : ℕ → ℕ → Bytes → Bytes
varint_loop zero n data' = data' ++ n ∷ []
varint_loop (suc fuel) n data' = elim (leb 0x80 n) [
  | true ↦ varint_loop fuel (n / 128) (data' ++ (n % 128 + 128) ∷ [])
  | false ↦ data' ++ n ∷ []
]

-- A negative number ends the loop at once, and `bytes` refuses it.
unfoldable pub varint : ℤ → Result Bytes
unfolding varint_loop
varint (pos n) = ok (varint_loop n n [])
varint (negsuc n) = err value_error

-- The loop stops at the first byte without the top bit, or at the end.
unfoldable pub varintdecode_loop : Bytes → ℕ → ℕ → ℕ
varintdecode_loop [] shift result = result
varintdecode_loop (b ∷ bs) shift result =
    let result' = result + b % 128 * 2 ^ shift in
    let rest = varintdecode_loop bs (shift + 7) result' in
    if b / 128 % 2 == 0 then result' else rest

-- What `varintdecode` is given: nothing, a text or bytes.
pub data Encoded : Type 0 where
  missing : Encoded
  text : Text → Encoded
  raw : Bytes → Encoded

unfoldable pub varintdecode : Encoded → Result ℕ
unfolding varintdecode_loop
varintdecode missing = err value_error
varintdecode (text s) = do bs ← utf8 s; ok (varintdecode_loop bs 0 0)
varintdecode (raw bs) = ok (varintdecode_loop bs 0 0)

-- The groups of seven bits that the loop writes.
unfoldable pub groups : ℕ → ℕ → Bytes
groups zero n = n ∷ []
groups (suc fuel) n = elim (leb 0x80 n) [
  | true ↦ (n % 128 + 128) ∷ groups fuel (n / 128)
  | false ↦ n ∷ []
]

varint_loop-groups : (fuel n : ℕ) (out : Bytes) → varint_loop fuel n out ≡ out ++ groups fuel n
unfolding varint_loop groups
varint_loop-groups zero n out = refl
varint_loop-groups (suc fuel) n out = elim (Bool-cases (leb 0x80 n)) [
  | inl more ↦
      rw (more, varint_loop, groups)
        (varint_loop-groups fuel (n / 128) (out ++ (n % 128 + 128) ∷ [])
          ∙ append_assoc out ((n % 128 + 128) ∷ []) (groups fuel (n / 128)))
  | inr done ↦ rw (done, varint_loop, groups)
]

pub varint-groups : (n : ℕ) → varint (pos n) ≡ ok (groups n n)
unfolding varint
varint-groups n = ap ok (varint_loop-groups n n [])

shift_seven : (s : ℕ) → 2 ^ (s + 7) ≡ 128 * 2 ^ s
shift_seven s = simp towards_suc (omega arith)

-- The lowest group of `n` and the rest of it, at `shift`.
split_group : (n s : ℕ) → n * 2 ^ s ≡ n % 128 * 2 ^ s + n / 128 * 2 ^ (s + 7)
split_group n s =
    let whole : n ≡ n % 128 + n / 128 * 128 = omega arith in
    omega (arith, ap (λ (t : ℕ). t * 2 ^ s) whole, ap (λ (t : ℕ). n / 128 * t) (shift_seven s))

decode_groups :
    (fuel n shift result : ℕ) (rest : Bytes)
    → n ≤ fuel
    → varintdecode_loop (groups fuel n ++ rest) shift result ≡ result + n * 2 ^ shift
unfolding varintdecode_loop groups
decode_groups zero n shift result rest h = ground arith
decode_groups (suc fuel) n shift result rest h = elim (Bool-cases (leb 0x80 n)) [
  | inl more ↦
      rw (more, groups)
        (ground (
          arith,
          split_group n shift,
          decode_groups fuel (n / 128) (shift + 7) (result + (n % 128 + 128) % 128 * 2 ^ shift)
              rest,
        ))
  | inr done ↦ rw (done, groups) (ground arith)
]

-- Every natural number is decoded from its varint, whatever bytes follow.
pub varintdecode-varint :
    (n : ℕ) (rest : Bytes) → (varint (pos n) >>= λ bs. varintdecode (raw (bs ++ rest))) ≡ ok n
unfolding varintdecode
varintdecode-varint n rest =
    rw (varint-groups n) (ap ok (decode_groups n n 0 0 rest (omega arith) ∙ omega arith))

pub groups-IsByte : (fuel n : ℕ) → n ≤ fuel → All IsByte (groups fuel n)
unfolding groups
groups-IsByte zero n h = omega arith
groups-IsByte (suc fuel) n h = ground (arith, groups-IsByte fuel (n / 128))

pow_pos : (k : ℕ) → 0 < 128 ^ k
pow_pos zero = omega arith
pow_pos (suc k) = omega (arith, pow-suc 128 k, pow_pos k)

length-groups :
    (k fuel n : ℕ)
    → n ≤ fuel
    → n < 128 ^ suc k
    → (k ≡ 0) ⊎ (128 ^ k ≤ n)
    → length (groups fuel n) ≡ suc k
unfolding groups
length-groups zero zero n h p q = refl
length-groups zero (suc fuel) n h p q = ground arith
length-groups (suc k) zero n h p (inl e) = absurd (omega arith)
length-groups (suc k) zero n h p (inr q) = absurd (omega (arith, pow_pos (suc k)))
length-groups (suc k) (suc fuel) n h p (inl e) = absurd (omega arith)
length-groups (suc k) (suc fuel) n h p (inr q) =
    let steep : 128 ^ suc k ≡ 128 ^ k * 128 = pow-suc 128 k in
    let steeper : 128 ^ suc (suc k) ≡ 128 ^ suc k * 128 = pow-suc 128 (suc k) in
    let large : 128 ≤ n = omega (arith, pow_pos k) in
    rw (le→leb 128 n large, groups)
      (ap suc (length-groups k fuel (n / 128) (omega arith) (omega arith) (inr (omega arith))))

-- A varint has k + 1 bytes just where the number needs k + 1 groups of seven bits.
pub length-varint :
    (k n : ℕ)
    → n < 128 ^ suc k
    → (k ≡ 0) ⊎ (128 ^ k ≤ n)
    → (varint (pos n) >>= λ bs. ok (length bs)) ≡ ok (suc k)
length-varint k n p q = rw (varint-groups n) (ap ok (length-groups k n n (omega arith) p q))
