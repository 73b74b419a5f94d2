-- ===== src/Wire/Reading.antt =====
-- Writers of src/nectargraphenebase/types.py beside the readers of the format: each number, length
-- and buffer is read back, whatever follows it.
use hive_nectar.Prelude.{
  ℕ, zero, suc, ◌-◌, ◌*◌, ◌/◌, ◌^◌, ◌<◌, ◌≤◌, ◌≡◌, refl, false, inl, inr, ◌++◌, append_assoc, arith,
  ltb, lt→ltb, leb, Bool-cases, length, length-append, take-append_length, drop-append_length,
  Result, ok, ◌>>=◌,
}
use hive_nectar.Prelude.Int.{ℤ, pos, negsuc}
use hive_nectar.Prelude.Bytes.{
  Bytes, le_bytes, length-le_bytes, le_value-le_bytes, pack_unsigned, pack_signed,
}
use hive_nectar.Wire.{variable_buffer}
use hive_nectar.Wire.Varint.{varint, groups, varint-groups}
use hive_nectar.Wire.Format.{
  read_bytes, read_number, as_signed, read_signed, read_varint, read_buffer,
}

-- The writer succeeds, and the reader gives the value back and leaves what follows.
abbrev pub Reads {ℓ} : {A : Type ℓ} → Result Bytes → (Bytes → Result (A × Bytes)) → A → Type ℓ
Reads m reader a = (b : Bytes) × (m ≡ ok b) × ((rest : Bytes) → reader (b ++ rest) ≡ ok (a, rest))

module _ {ℓ κ μ} {A : Type ℓ} {B : Type κ} {C : Type μ} where
  pub then_Reads :
      (m m' : Result Bytes) (first : Bytes → Result (A × Bytes))
      (second : A → Bytes → Result (B × Bytes)) (make : A → B → C) (a : A) (b : B)
      → Reads m first a
      → Reads m' (second a) b
      → Reads
          (m >>= λ x. m' >>= λ y. ok (x ++ y))
          (λ bs. first bs >>= λ p. second p.0 p.1 >>= λ q. ok (make p.0 q.0, q.1))
          (make a b)
  then_Reads m m' first second make a b (x, e, r) (y, f, s) =
      (x ++ y, rw (e, f), λ rest. rw (append_assoc x y rest, r (y ++ rest), s rest))

module _ {ℓ κ} {A : Type ℓ} {B : Type κ} where
  pub map_Reads :
      (m : Result Bytes) (reader : Bytes → Result (A × Bytes)) (make : A → B) (a : A)
      → Reads m reader a
      → Reads m (λ bs. reader bs >>= λ p. ok (make p.0, p.1)) (make a)
  map_Reads m reader make a (x, e, r) = (x, e, λ rest. rw (r rest))

pub read_bytes_front :
    (n : ℕ) (b rest : Bytes) → length b ≡ n → read_bytes n (b ++ rest) ≡ ok (b, rest)
unfolding read_bytes
read_bytes_front n b rest e =
    let enough : ltb (length (b ++ rest)) (length b) ≡ false =
      ground (arith, length-append b rest) in
    rw (← e, enough, take-append_length b rest, drop-append_length b rest)

pub bytes_Reads : (n : ℕ) (b : Bytes) → length b ≡ n → Reads (ok b) (read_bytes n) b
bytes_Reads n b e = (b, refl, λ rest. read_bytes_front n b rest e)

pub le_Reads : (w n : ℕ) → n < 256 ^ w → Reads (ok (le_bytes w n)) (read_number w) n
unfolding read_number
le_Reads w n h = (
  le_bytes w n,
  refl,
  λ rest.
      rw (read_bytes_front w (le_bytes w n) rest (length-le_bytes w n), le_value-le_bytes w n h),
)

pub number_Reads : (w n : ℕ) → n < 256 ^ w → Reads (pack_unsigned w (pos n)) (read_number w) n
unfolding pack_unsigned
number_Reads w n h = rw (lt→ltb n (256 ^ w) h) (le_Reads w n h)

-- The integers that `w` bytes hold in two's complement.
abbrev pub IsSigned : ℕ → ℤ → Type 0
IsSigned w (pos n) = 2 * n < 256 ^ w
IsSigned w (negsuc n) = 2 * n < 256 ^ w

pub signed_Reads :
    (w half : ℕ) (z : ℤ)
    → 256 ^ w ≡ 2 * half
    → IsSigned w z
    → Reads (pack_signed w z) (read_signed w) z
unfolding pack_signed as_signed read_signed
signed_Reads w half (pos n) even h =
    let fits = lt→ltb (2 * n) (256 ^ w) h in
    let (b, e, r) = le_Reads w n (omega arith) in rw fits (b, e, λ rest. rw (r rest, fits))
signed_Reads w half (negsuc n) even h =
    let fits = lt→ltb (2 * n) (256 ^ w) h in
    let m = 256 ^ w - 1 - n in
    let (b, e, r) = le_Reads w m (omega arith) in
    let wraps : ltb (2 * m) (256 ^ w) ≡ false = ground arith in
    let back : 256 ^ w - 1 - m ≡ n = omega arith in rw fits (b, e, λ rest. rw (r rest, wraps, back))

groups_read :
    (fuel n : ℕ) (rest : Bytes) → n ≤ fuel → read_varint (groups fuel n ++ rest) ≡ ok (n, rest)
unfolding groups read_varint
groups_read zero n rest h = ground arith
groups_read (suc fuel) n rest h = elim (Bool-cases (leb 0x80 n)) [
  | inl more ↦ rw (more, groups) (ground (arith, groups_read fuel (n / 128) rest))
  | inr done ↦ rw (done, groups) (ground arith)
]

pub varint-Reads : (n : ℕ) → Reads (varint (pos n)) read_varint n
varint-Reads n = (groups n n, varint-groups n, λ rest. groups_read n n rest (omega arith))

pub buffer_Reads : (d : Bytes) → Reads (variable_buffer d) read_buffer d
unfolding variable_buffer read_buffer
buffer_Reads d =
    let (x, e, r) = varint-Reads (length d) in
    (
      x ++ d,
      rw e,
      λ rest. rw (append_assoc x d rest, r (d ++ rest)) (read_bytes_front (length d) d rest refl),
    )
