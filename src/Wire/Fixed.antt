-- ===== src/Wire/Fixed.antt =====
-- `Amount.__bytes__` of src/nectarbase/objects.py and `PointInTime.__bytes__` of
-- src/nectargraphenebase/types.py: records of a fixed size, and what they cannot tell apart.
use hive_nectar.Prelude.{
  ℕ, ◌-◌, ◌^◌, ◌<◌, ◌≤◌, ◌≡◌, refl, ◌∙◌, ◌++◌, arith, length, length-append, length-replicate,
  replicate, ok, >>=-eq-ok, bytes_eq,
}
use hive_nectar.Prelude.Int.{ℤ, pos, negsuc}
use hive_nectar.Prelude.Bytes.{
  Bytes, Text, codes, ascii, length-ascii, length-le_bytes, pack_unsigned, pack_signed,
}
use hive_nectar.Wire.{point_in_time, amount, to_bytes, pack_amount, pack_time, wire_symbol}

pub length-pack_signed : (w : ℕ) (z : ℤ) {b : Bytes} → pack_signed w z ≡ ok b → length b ≡ w
unfolding pack_signed
length-pack_signed w (pos n) h = ground (arith, length-le_bytes w n)
length-pack_signed w (negsuc n) h = ground (arith, length-le_bytes w (256 ^ w - 1 - n))

-- An amount whose symbol has at most seven characters on the wire takes 16 bytes.
length-amount :
    (value precision : ℤ) (symbol : Text) (b : Bytes)
    → length (wire_symbol symbol) ≤ 7
    → to_bytes (amount value precision symbol) ≡ ok b
    → length b ≡ 16
unfolding to_bytes pack_amount
length-amount value precision symbol b h e =
    let sym = wire_symbol symbol in
    let (v, e1, h1) = >>=-eq-ok (pack_signed 8 value) _ e in
    let (p, e2, h2) = >>=-eq-ok (pack_signed 1 precision) _ h1 in
    let (s, e3, h3) = >>=-eq-ok (ascii (sym ++ replicate (7 - length sym) 0)) _ h2 in
    sized v p s b h3 (length-pack_signed 8 value e1) (length-pack_signed 1 precision e2) (
      length-ascii _ e3
      ∙ length-append sym _
      ∙ omega (arith, length-replicate {A = ℕ} (7 - length sym) 0))
  where
    sized :
        (v p s b : Bytes)
        → ok (v ++ p ++ s) ≡ ok b
        → length v ≡ 8
        → length p ≡ 1
        → length s ≡ 7
        → length b ≡ 16
    sized v p s b q l m n =
        let whole : length b ≡ length (v ++ p ++ s) = cc in
        omega (arith, length-append (v ++ p) s, length-append v p)

-- The wire has one name for `HBD` and `SBD`, and one for `HIVE` and `STEEM`.
pub amount_symbols :
    (value precision : ℤ)
    → (to_bytes (amount value precision (codes "HBD"))
        ≡ to_bytes (amount value precision (codes "SBD")))
      × (to_bytes (amount value precision (codes "HIVE"))
          ≡ to_bytes (amount value precision (codes "STEEM")))
unfolding to_bytes pack_amount wire_symbol bytes_eq
amount_symbols value precision = (refl, refl)

-- A time before 1970 is written like a time 2 ^ 32 seconds later.
time_collides :
    (n : ℕ)
    → n < 2 ^ 31
    → to_bytes (point_in_time (negsuc n)) ≡ to_bytes (point_in_time (pos (2 ^ 32 - 1 - n)))
unfolding to_bytes pack_time pack_signed pack_unsigned
time_collides n h = ground arith
