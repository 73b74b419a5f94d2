-- ===== src/Wire/Assets.antt =====
-- `Amount.__bytes__` of src/nectarbase/objects.py beside the reader of the format.
use hive_nectar.Prelude.{
  ℕ, zero, suc, ◌-◌, ◌^◌, ◌<◌, ◌≤◌, ◌≡◌, refl, [], ◌∷◌, ◌++◌, append_assoc, arith, length,
  length-append, length-replicate, replicate, All, All-append,
}
use hive_nectar.Prelude.Int.{ℤ}
use hive_nectar.Prelude.Bytes.{Text, ascii_below}
use hive_nectar.Wire.{amount, pack_amount, wire_symbol}
use hive_nectar.Wire.Format.{read_asset, until_zero, local_symbol}
use hive_nectar.Wire.Reading.{Reads, IsSigned, signed_Reads, read_bytes_front}

-- A character that is read back from a symbol.
abbrev pub IsSymbolChar : ℕ → Type 0
IsSymbolChar c = (0 < c) × (c < 128)

symbol_ascii : (s : Text) → All IsSymbolChar s → All (λ c. c < 128) s
symbol_ascii [] h = tt
symbol_ascii (c ∷ s) ((p, q), h) = (q, symbol_ascii s h)

padding_ascii : (n : ℕ) → All (λ c. c < 128) (replicate n 0)
padding_ascii zero = tt
padding_ascii (suc n) = (omega arith, padding_ascii n)

until_zero_padding : (n : ℕ) → until_zero (replicate n 0) ≡ []
unfolding until_zero
until_zero_padding zero = refl
until_zero_padding (suc n) = refl

until_zero_symbol : (s : Text) (n : ℕ) → All IsSymbolChar s → until_zero (s ++ replicate n 0) ≡ s
unfolding until_zero
until_zero_symbol [] n h = until_zero_padding n
until_zero_symbol (c ∷ s) n ((p, q), h) = ground (arith, until_zero_symbol s n h)

-- An amount is read back with its symbol, once the zeros behind it are taken off.
pub asset_Reads :
    (value precision : ℤ) (symbol : Text)
    → IsSigned 8 value
    → IsSigned 1 precision
    → All IsSymbolChar (wire_symbol symbol)
    → length (wire_symbol symbol) ≤ 7
    → local_symbol (wire_symbol symbol) ≡ symbol
    → Reads (pack_amount value precision symbol) read_asset (amount value precision symbol)
unfolding pack_amount read_asset
asset_Reads value precision symbol v p s n e =
    let name = wire_symbol symbol in
    let padding = replicate (7 - length name) 0 in
    let (x, e1, r1) = signed_Reads 8 (2 ^ 63) value refl v in
    let (y, e2, r2) = signed_Reads 1 128 precision refl p in
    let below = All-append (λ c. c < 128) name padding (symbol_ascii name s) (padding_ascii _) in
    let seven : length (name ++ padding) ≡ 7 =
      omega (arith, length-append name padding, length-replicate {A = ℕ} (7 - length name) 0) in
    (
      x ++ y ++ (name ++ padding),
      rw (e1, e2, ascii_below (name ++ padding) below),
      λ rest. rw (
        append_assoc (x ++ y) (name ++ padding) rest,
        append_assoc x y ((name ++ padding) ++ rest),
        r1 (y ++ ((name ++ padding) ++ rest)),
        r2 ((name ++ padding) ++ rest),
        read_bytes_front 7 (name ++ padding) rest seven,
        until_zero_symbol name (7 - length name) s,
        e,
      ),
    )
