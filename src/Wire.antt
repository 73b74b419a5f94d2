-- ===== src/Wire.antt =====
-- src/nectargraphenebase/types.py and the parts of objects.py, in src/nectargraphenebase and
-- src/nectarbase, that write an object to the wire: `bytes(x)` for every wire type.
pub mod Varint
pub mod Unicodify
pub mod Format
pub mod Reading
pub mod Assets
pub mod RoundTrip
pub mod Shape
pub mod Finding
pub mod Parsing
pub mod Fixed
mod Tests
use hive_nectar.Prelude.{
  ℕ, zero, suc, ◌+◌, ◌-◌, Bool, true, false, List, [], ◌∷◌, ◌++◌, ltb, ◌==◌, if◌then◌else◌, length,
  replicate, Result, ok, err, ◌>>=◌, assertion_error, bytes_eq, Error,
}
use hive_nectar.Prelude.Int.{ℤ, pos, negsuc}
use hive_nectar.Prelude.Bytes.{
  Bytes, Text, codes, unhexlify, utf8, ascii, pack_unsigned, pack_signed,
}
use Varint.{varint}
use Unicodify.{unicodify}

-- An object of the wire classes. `Bool` and `Enum8` are `Uint8`, `Set` is `Array`; an `Optional`
-- is `absent` or `present`; `point_in_time` holds the seconds that `timegm` gives; `plain` is a
-- Python text in a `GrapheneObject`, which is written with no length; `member` goes without the
-- names, which are not written; `public_key` holds the bytes of a key; `unwritable` is an object
-- around a value that its writer does not take, and raises when it is written.
mutual
  pub data Wire : Type 0 where
    uint8 int16 uint16 uint32 uint64 int64 varint32 id point_in_time : ℤ → Wire
    hex_string string hex_bytes hash plain : Text → Wire
    signature public_key : Bytes → Wire
    unwritable : Error → Wire
    void absent : Wire
    array : Items → Wire
    present : Wire → Wire
    static_variant : ℤ → Wire → Wire
    map : Pairs → Wire
    amount : ℤ → ℤ → Text → Wire
    graphene_object : Items → Wire
    operation : ℤ → Wire → Wire

  pub data Items : Type 0 where
    end : Items
    item : Wire → Items → Items

  pub data Pairs : Type 0 where
    empty : Pairs
    pair : Wire → Wire → Pairs → Pairs

unfoldable pub count_items : Items → ℕ
count_items end = 0
count_items (item w ws) = suc (count_items ws)

unfoldable pub count_pairs : Pairs → ℕ
count_pairs empty = 0
count_pairs (pair k v ps) = suc (count_pairs ps)

-- `variable_buffer`, and the like in `String` and `Bytes`: the length, then the bytes.
unfoldable pub variable_buffer : Bytes → Result Bytes
variable_buffer s = do n ← varint (pos (length s)); ok (n ++ s)

-- `PointInTime`: negative seconds are packed signed, others unsigned.
unfoldable pub pack_time : ℤ → Result Bytes
pack_time (negsuc n) = pack_signed 4 (negsuc n)
pack_time (pos n) = pack_unsigned 4 (pos n)

-- The symbol as the nodes write it.
unfoldable pub wire_symbol : Text → Text
wire_symbol symbol =
    if bytes_eq symbol (codes "HBD")
    then codes "SBD"
    else if bytes_eq symbol (codes "HIVE")
    then codes "STEEM"
    else symbol

-- `Amount.__bytes__`. Padding to seven characters adds nothing to a longer symbol.
unfoldable pub pack_amount : ℤ → ℤ → Text → Result Bytes
pack_amount value precision symbol = do
  let sym = wire_symbol symbol
  value' ← pack_signed 8 value
  precision' ← pack_signed 1 precision
  sym' ← ascii (sym ++ replicate (7 - length sym) 0)
  ok (value' ++ precision' ++ sym')

unfoldable mutual
  pub to_bytes : Wire → Result Bytes
  to_bytes (uint8 n) = pack_unsigned 1 n
  to_bytes (int16 n) = pack_signed 2 n
  to_bytes (uint16 n) = pack_unsigned 2 n
  to_bytes (uint32 n) = pack_unsigned 4 n
  to_bytes (uint64 n) = pack_unsigned 8 n
  to_bytes (int64 n) = pack_signed 8 n
  to_bytes (varint32 n) = varint n
  to_bytes (id n) = varint n
  to_bytes (point_in_time n) = pack_time n
  to_bytes (hex_string s) = do t ← ascii s; d ← unhexlify t; variable_buffer d
  to_bytes (string s) = do d ← utf8 (unicodify s); variable_buffer d
  to_bytes (hex_bytes s) = do t ← utf8 s; d ← unhexlify t; variable_buffer d
  to_bytes (hash s) = do t ← utf8 s; unhexlify t
  to_bytes (plain s) = utf8 s
  to_bytes (signature bs) = ok bs
  to_bytes (public_key bs) = ok bs
  to_bytes (unwritable raised) = err raised
  to_bytes void = ok []
  to_bytes absent = pack_unsigned 1 (pos 0)
  to_bytes (array ws) = do n ← varint (pos (count_items ws)); bs ← items_bytes ws; ok (n ++ bs)
  to_bytes (present w) = do flag ← pack_unsigned 1 (pos 1); bs ← to_bytes w; ok (flag ++ bs)
  to_bytes (static_variant type_id w) = do n ← varint type_id; bs ← to_bytes w; ok (n ++ bs)
  to_bytes (map ps) = do n ← varint (pos (count_pairs ps)); bs ← pairs_bytes ps; ok (n ++ bs)
  to_bytes (amount value precision symbol) = pack_amount value precision symbol
  to_bytes (graphene_object ws) = items_bytes ws
  to_bytes (operation op_id w) = do n ← varint op_id; bs ← to_bytes w; ok (n ++ bs)

  pub items_bytes : Items → Result Bytes
  items_bytes end = ok []
  items_bytes (item w ws) = do b ← to_bytes w; bs ← items_bytes ws; ok (b ++ bs)

  pub pairs_bytes : Pairs → Result Bytes
  pairs_bytes empty = ok []
  pairs_bytes (pair k v ps) = do
    b ← to_bytes k
    c ← to_bytes v
    bs ← pairs_bytes ps
    ok ((b ++ c) ++ bs)

-- `Ripemd160` and `Sha1` take 40 hexadecimal characters, `Sha256` 64.
pub fixed_hash : ℕ → Text → Result Wire
fixed_hash size a = if length a == size then ok (hash a) else err assertion_error
