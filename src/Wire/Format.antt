-- ===== src/Wire/Format.antt =====
-- A reader of the wire format, written against the format and not against the code: what an object
-- of a known shape looks like as bytes, numbers little-endian, lengths and counts in front.
use hive_nectar.Prelude.{
  ℕ, zero, suc, ◌+◌, ◌-◌, ◌*◌, ◌^◌, [], ◌∷◌, ltb, ◌==◌, if◌then◌else◌, length, take, drop, Result,
  ok, err, ◌>>=◌, value_error, bytes_eq,
}
use hive_nectar.Prelude.Int.{ℤ, pos, negsuc}
use hive_nectar.Prelude.Bytes.{Bytes, codes, hexlify, le_value}
use hive_nectar.Wire.{
  Wire, uint8, int16, uint16, uint32, uint64, int64, varint32, id, point_in_time, hex_string,
  string, hex_bytes, hash, signature, public_key, amount, void, absent, array, present,
  static_variant, map, graphene_object, operation, Items, end, item, Pairs, empty, pair,
}

-- The shape of an object. A variant and an operation name the shape that each number stands for.
mutual
  pub data Format : Type 0 where
    u8 i16 u16 u32 u64 i64 var ident time text hex raw nothing asset key : Format
    digest sig : ℕ → Format
    list maybe : Format → Format
    dict : Format → Format → Format
    variant op : (ℕ → Format) → Format
    fields : Formats → Format

  pub data Formats : Type 0 where
    done : Formats
    field : Format → Formats → Formats

-- `n` bytes off the front.
unfoldable pub read_bytes : ℕ → Bytes → Result (Bytes × Bytes)
read_bytes n bs = if ltb (length bs) n then err value_error else ok (take n bs, drop n bs)

unfoldable pub read_number : ℕ → Bytes → Result (ℕ × Bytes)
read_number w bs = do (b, rest) ← read_bytes w bs; ok (le_value b, rest)

-- Two's complement in `w` bytes.
unfoldable pub as_signed : ℕ → ℕ → ℤ
as_signed w n = if ltb (2 * n) (256 ^ w) then pos n else negsuc (256 ^ w - 1 - n)

unfoldable pub read_signed : ℕ → Bytes → Result (ℤ × Bytes)
read_signed w bs = do (n, rest) ← read_number w bs; ok (as_signed w n, rest)

-- Groups of seven bits, lowest first, up to the first byte below 128.
unfoldable pub read_varint : Bytes → Result (ℕ × Bytes)
read_varint [] = err value_error
read_varint (b ∷ bs) =
    let more = (do (n, rest) ← read_varint bs; ok (b - 128 + 128 * n, rest)) in
    if ltb b 128 then ok (b, bs) else more

unfoldable pub read_buffer : Bytes → Result (Bytes × Bytes)
read_buffer bs = do (n, rest) ← read_varint bs; read_bytes n rest

module _ (one : Bytes → Result (Wire × Bytes)) where
  unfoldable pub read_items : ℕ → Bytes → Result (Items × Bytes)
  read_items zero bs = ok (end, bs)
  read_items (suc n) bs = do
    (w, rest) ← one bs
    (ws, rest') ← read_items n rest
    ok (item w ws, rest')

module _ (key value : Bytes → Result (Wire × Bytes)) where
  unfoldable pub read_pairs : ℕ → Bytes → Result (Pairs × Bytes)
  read_pairs zero bs = ok (empty, bs)
  read_pairs (suc n) bs = do
    (k, rest) ← key bs
    (v, rest') ← value rest
    (ps, rest'') ← read_pairs n rest'
    ok (pair k v ps, rest'')

-- An amount, its precision and its symbol, which zeros fill up to seven characters.
unfoldable pub until_zero : Bytes → Bytes
until_zero [] = []
until_zero (b ∷ bs) = let rest = until_zero bs in if b == 0 then [] else b ∷ rest

-- The symbol that the program has for one on the wire.
unfoldable pub local_symbol : Bytes → Bytes
local_symbol symbol =
    if bytes_eq symbol (codes "SBD")
    then codes "HBD"
    else if bytes_eq symbol (codes "STEEM")
    then codes "HIVE"
    else symbol

unfoldable pub read_asset : Bytes → Result (Wire × Bytes)
read_asset bs = do
  (value, rest) ← read_signed 8 bs
  (precision, rest') ← read_signed 1 rest
  (symbol, rest'') ← read_bytes 7 rest'
  ok (amount value precision (local_symbol (until_zero symbol)), rest'')

abbrev pub numbered : ℕ → (ℤ → Wire) → Bytes → Result (Wire × Bytes)
numbered w make bs = do (n, rest) ← read_number w bs; ok (make (pos n), rest)

abbrev pub signed : ℕ → (ℤ → Wire) → Bytes → Result (Wire × Bytes)
signed w make bs = do (z, rest) ← read_signed w bs; ok (make z, rest)

unfoldable mutual
  pub read : Format → Bytes → Result (Wire × Bytes)
  read u8 bs = numbered 1 uint8 bs
  read i16 bs = signed 2 int16 bs
  read u16 bs = numbered 2 uint16 bs
  read u32 bs = numbered 4 uint32 bs
  read u64 bs = numbered 8 uint64 bs
  read i64 bs = signed 8 int64 bs
  read var bs = do (n, rest) ← read_varint bs; ok (varint32 (pos n), rest)
  read ident bs = do (n, rest) ← read_varint bs; ok (id (pos n), rest)
  read time bs = numbered 4 point_in_time bs
  read text bs = do (b, rest) ← read_buffer bs; ok (string b, rest)
  read hex bs = do (b, rest) ← read_buffer bs; ok (hex_string (hexlify b), rest)
  read raw bs = do (b, rest) ← read_buffer bs; ok (hex_bytes (hexlify b), rest)
  read nothing bs = ok (void, bs)
  read (digest n) bs = do (b, rest) ← read_bytes n bs; ok (hash (hexlify b), rest)
  read (sig n) bs = do (b, rest) ← read_bytes n bs; ok (signature b, rest)
  read key bs = do (b, rest) ← read_bytes 33 bs; ok (public_key b, rest)
  read asset bs = read_asset bs
  read (list f) bs = do
    (n, rest) ← read_varint bs
    (ws, rest') ← read_items (read f) n rest
    ok (array ws, rest')
  read (maybe f) bs = do
    (n, rest) ← read_number 1 bs
    let inner = (do (w, rest') ← read f rest; ok (present w, rest'))
    if n == 0 then ok (absent, rest) else inner
  read (dict f g) bs = do
    (n, rest) ← read_varint bs
    (ps, rest') ← read_pairs (read f) (read g) n rest
    ok (map ps, rest')
  read (variant f) bs = do
    (n, rest) ← read_varint bs
    (w, rest') ← read (f n) rest
    ok (static_variant (pos n) w, rest')
  read (op f) bs = do
    (n, rest) ← read_varint bs
    (w, rest') ← read (f n) rest
    ok (operation (pos n) w, rest')
  read (fields fs) bs = do (ws, rest) ← read_fields fs bs; ok (graphene_object ws, rest)

  pub read_fields : Formats → Bytes → Result (Items × Bytes)
  read_fields done bs = ok (end, bs)
  read_fields (field f fs) bs = do
    (w, rest) ← read f bs
    (ws, rest') ← read_fields fs rest
    ok (item w ws, rest')
