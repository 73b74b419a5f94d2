-- ===== src/Wire/Finding.antt =====
-- A reader finds where the bytes end that the code writes for the parts of an object.
use hive_nectar.Prelude.{
  ℕ, ◌-◌, ◌≤◌, ◌≡◌, ◌∙◌, ◌++◌, append_assoc, arith, length, length-append, length-replicate,
  replicate, Result, ok, ◌>>=◌, >>=-eq-ok,
}
use hive_nectar.Prelude.Int.{ℤ, pos, negsuc}
use hive_nectar.Prelude.Bytes.{
  Bytes, Text, ascii, unhexlify, utf8, length-ascii, length-le_bytes, pack_unsigned, pack_signed,
  le_value,
}
use hive_nectar.Wire.{amount, present, pack_time, variable_buffer, wire_symbol, pack_amount}
use hive_nectar.Wire.Varint.{varint}
use hive_nectar.Wire.Unicodify.{unicodify}
use hive_nectar.Wire.Format.{
  Format, maybe, read, read_bytes, read_buffer, read_varint, read_number, read_signed, as_signed,
  read_asset, until_zero, local_symbol,
}
use hive_nectar.Wire.Reading.{read_bytes_front, varint-Reads, buffer_Reads, number_Reads}
use hive_nectar.Wire.Fixed.{length-pack_signed}

-- The reader finds a value in what was written, and leaves what follows.
abbrev pub Finds {ℓ} : {A : Type ℓ} → (Bytes → Result (A × Bytes)) → Bytes → Type ℓ
Finds {A = A} reader b = (a : A) × ((rest : Bytes) → reader (b ++ rest) ≡ ok (a, rest))

module _ {ℓ κ} {A : Type ℓ} {B : Type κ} where
  pub map_Finds :
      (reader : Bytes → Result (A × Bytes)) (make : A → B) (b : Bytes)
      → Finds reader b
      → Finds (λ bs. reader bs >>= λ p. ok (make p.0, p.1)) b
  map_Finds reader make b (a, r) = (make a, λ rest. rw (r rest))

module _ {ℓ κ μ} {A : Type ℓ} {B : Type κ} {C : Type μ} where
  pub then_Finds :
      (m m' : Result Bytes) (first : Bytes → Result (A × Bytes))
      (second : A → Bytes → Result (B × Bytes)) (make : A → B → C) (b : Bytes)
      → (m >>= λ x. m' >>= λ y. ok (x ++ y)) ≡ ok b
      → ((x : Bytes) → m ≡ ok x → Finds first x)
      → ((a : A) (y : Bytes) → m' ≡ ok y → Finds (second a) y)
      → Finds (λ bs. first bs >>= λ p. second p.0 p.1 >>= λ q. ok (make p.0 q.0, q.1)) b
  then_Finds m m' first second make b h f g =
      let (x, e, h') = >>=-eq-ok m _ h in
      let (y, e', h'') = >>=-eq-ok m' _ h' in
      let (a, r) = f x e in
      let (c, s) = g a y e' in
      let same : b ≡ x ++ y = cc in
      rw same (make a c, λ rest. rw (append_assoc x y rest, r (y ++ rest), s rest))

module _ {κ μ} {B : Type κ} {C : Type μ} where
  -- A count, and then as much as it says.
  pub counted_Finds :
      (n : ℕ) (m' : Result Bytes) (second : ℕ → Bytes → Result (B × Bytes)) (make : ℕ → B → C)
      (b : Bytes)
      → (varint (pos n) >>= λ x. m' >>= λ y. ok (x ++ y)) ≡ ok b
      → ((y : Bytes) → m' ≡ ok y → Finds (second n) y)
      → Finds (λ bs. read_varint bs >>= λ p. second p.0 p.1 >>= λ q. ok (make p.0 q.0, q.1)) b
  counted_Finds n m' second make b h g =
      let (x, e, r) = varint-Reads n in
      let (y, e', h') = >>=-eq-ok m' (λ y. ok (x ++ y)) (rw e at h) in
      let (c, s) = g y e' in
      let same : b ≡ x ++ y = cc in
      rw same (make n c, λ rest. rw (append_assoc x y rest, r (y ++ rest), s rest))

pub bytes_Finds : (n : ℕ) (b : Bytes) → length b ≡ n → Finds (read_bytes n) b
bytes_Finds n b e = (b, λ rest. read_bytes_front n b rest e)

pub length-pack_unsigned : (w : ℕ) (z : ℤ) {b : Bytes} → pack_unsigned w z ≡ ok b → length b ≡ w
unfolding pack_unsigned
length-pack_unsigned w (pos n) h = ground (arith, length-le_bytes w n)
length-pack_unsigned w (negsuc n) h = cc

pub length-pack_time : (z : ℤ) {b : Bytes} → pack_time z ≡ ok b → length b ≡ 4
unfolding pack_time
length-pack_time (pos n) h = length-pack_unsigned 4 (pos n) h
length-pack_time (negsuc n) h = length-pack_signed 4 (negsuc n) h

pub number_Finds : (w : ℕ) (b : Bytes) → length b ≡ w → Finds (read_number w) b
unfolding read_number
number_Finds w b e = (le_value b, λ rest. rw (read_bytes_front w b rest e))

pub signed_Finds : (w : ℕ) (b : Bytes) → length b ≡ w → Finds (read_signed w) b
unfolding read_signed read_number
signed_Finds w b e = (as_signed w (le_value b), λ rest. rw (read_bytes_front w b rest e))

buffer_Finds : (d b : Bytes) → variable_buffer d ≡ ok b → Finds read_buffer b
buffer_Finds d b h = let (x, e, r) = buffer_Reads d in let same : b ≡ x = cc in rw same (d, r)

pub text_Finds :
    (s : Text) (b : Bytes)
    → (utf8 (unicodify s) >>= λ d. variable_buffer d) ≡ ok b
    → Finds read_buffer b
text_Finds s b h = let (d, e, h') = >>=-eq-ok (utf8 (unicodify s)) _ h in buffer_Finds d b h'

pub hex_Finds :
    (s : Text) (b : Bytes)
    → (ascii s >>= λ t. unhexlify t >>= λ d. variable_buffer d) ≡ ok b
    → Finds read_buffer b
hex_Finds s b h =
    let (t, e, h') = >>=-eq-ok (ascii s) _ h in
    let (d, e', h'') = >>=-eq-ok (unhexlify t) _ h' in buffer_Finds d b h''

pub asset_Finds :
    (value precision : ℤ) (symbol : Text) (b : Bytes)
    → length (wire_symbol symbol) ≤ 7
    → pack_amount value precision symbol ≡ ok b
    → Finds read_asset b
unfolding pack_amount read_asset
asset_Finds value precision symbol b n h =
    let name = wire_symbol symbol in
    let (x, e1, h1) = >>=-eq-ok (pack_signed 8 value) _ h in
    let (y, e2, h2) = >>=-eq-ok (pack_signed 1 precision) _ h1 in
    let (z, e3, h3) = >>=-eq-ok (ascii (name ++ replicate (7 - length name) 0)) _ h2 in
    let (v, r1) = signed_Finds 8 x (length-pack_signed 8 value e1) in
    let (p, r2) = signed_Finds 1 y (length-pack_signed 1 precision e2) in
    let seven : length z ≡ 7 =
      length-ascii _ e3
      ∙ length-append name _
      ∙ omega (arith, length-replicate {A = ℕ} (7 - length name) 0) in
    let same : b ≡ x ++ y ++ z = cc in
    rw same (
      amount v p (local_symbol (until_zero z)),
      λ rest. rw (
        append_assoc (x ++ y) z rest,
        append_assoc x y (z ++ rest),
        r1 (y ++ (z ++ rest)),
        r2 (z ++ rest),
        read_bytes_front 7 z rest seven,
      ),
    )

pub maybe_Finds :
    (f : Format) (m : Result Bytes) (b : Bytes)
    → (pack_unsigned 1 (pos 1) >>= λ x. m >>= λ y. ok (x ++ y)) ≡ ok b
    → ((y : Bytes) → m ≡ ok y → Finds (read f) y)
    → Finds (read (maybe f)) b
unfolding read
maybe_Finds f m b h g =
    let (x, e, r) = number_Reads 1 1 (omega arith) in
    let (y, e', h') = >>=-eq-ok m (λ y. ok (x ++ y)) (rw e at h) in
    let (w, s) = g y e' in
    let same : b ≡ x ++ y = cc in
    rw same (present w, λ rest. rw (append_assoc x y rest, r (y ++ rest), s rest))
