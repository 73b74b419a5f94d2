-- ===== src/Wire/RoundTrip.antt =====
-- Every object of a known shape is read back from the bytes that the code writes for it.
use hive_nectar.Prelude.{
  ℕ, ◌^◌, ◌<◌, ◌≤◌, ◌≡◌, refl, [], ◌++◌, append_assoc, arith, length, ok, ◌>>=◌, All,
}
use hive_nectar.Prelude.Int.{ℤ, pos}
use hive_nectar.Prelude.Bytes.{
  Bytes, Text, IsByte, hexlify, unhexlify, unhexlify-hexlify, ascii-hexlify, utf8-hexlify, ascii,
  utf8, utf8_below,
}
use hive_nectar.Wire.{
  Wire, uint8, int16, uint16, uint32, uint64, int64, varint32, id, point_in_time, hex_string,
  string, hex_bytes, hash, signature, public_key, amount, void, absent, array, present,
  static_variant, map, graphene_object, operation, Items, end, item, Pairs, empty, pair, to_bytes,
  items_bytes, pairs_bytes, count_items, count_pairs, variable_buffer, pack_time, wire_symbol,
}
use hive_nectar.Wire.Varint.{varint}
use hive_nectar.Wire.Unicodify.{IsVisible, unicodify, unicodify_visible}
use hive_nectar.Wire.Format.{
  Format, u8, i16, u16, u32, u64, i64, var, ident, time, text, hex, raw, nothing, digest, sig,
  asset, key, list, maybe, dict, variant, op, fields, Formats, done, field, read, read_fields,
  read_items, read_pairs, read_bytes, read_buffer, read_varint, read_number, read_signed,
  local_symbol,
}
use hive_nectar.Wire.Assets.{IsSymbolChar, asset_Reads}
use hive_nectar.Wire.Reading.{
  Reads, then_Reads, map_Reads, bytes_Reads, number_Reads, IsSigned, signed_Reads, varint-Reads,
  buffer_Reads,
}

-- The objects of a shape: numbers in range, hexadecimal data in lower case, ASCII texts with no
-- control character but tab, line feed and carriage return, times from 1970 to 2106, keys of 33 bytes,
-- hashes and signatures of the length of the shape, amounts whose symbol fits into the seven bytes of the
-- wire and is not one that the wire has for another.
mutual
  pub data Fits : Format → Wire → Type 0 where
    u8_fits : (n : ℕ) → n < 256 ^ 1 → Fits u8 (uint8 (pos n))
    i16_fits : (z : ℤ) → IsSigned 2 z → Fits i16 (int16 z)
    u16_fits : (n : ℕ) → n < 256 ^ 2 → Fits u16 (uint16 (pos n))
    u32_fits : (n : ℕ) → n < 256 ^ 4 → Fits u32 (uint32 (pos n))
    u64_fits : (n : ℕ) → n < 256 ^ 8 → Fits u64 (uint64 (pos n))
    i64_fits : (z : ℤ) → IsSigned 8 z → Fits i64 (int64 z)
    var_fits : (n : ℕ) → Fits var (varint32 (pos n))
    ident_fits : (n : ℕ) → Fits ident (id (pos n))
    time_fits : (n : ℕ) → n < 256 ^ 4 → Fits time (point_in_time (pos n))
    text_fits : (s : Text) → All IsVisible s → All (λ c. c < 128) s → Fits text (string s)
    hex_fits : (d : Bytes) → All IsByte d → Fits hex (hex_string (hexlify d))
    raw_fits : (d : Bytes) → All IsByte d → Fits raw (hex_bytes (hexlify d))
    nothing_fits : Fits nothing void
    digest_fits :
        (n : ℕ) (d : Bytes) → All IsByte d → length d ≡ n → Fits (digest n) (hash (hexlify d))
    sig_fits : (n : ℕ) (d : Bytes) → length d ≡ n → Fits (sig n) (signature d)
    key_fits : (d : Bytes) → length d ≡ 33 → Fits key (public_key d)
    asset_fits :
        (value precision : ℤ) (symbol : Text)
        → IsSigned 8 value
        → IsSigned 1 precision
        → All IsSymbolChar (wire_symbol symbol)
        → length (wire_symbol symbol) ≤ 7
        → local_symbol (wire_symbol symbol) ≡ symbol
        → Fits asset (amount value precision symbol)
    list_fits : {f : Format} {ws : Items} → FitsAll f ws → Fits (list f) (array ws)
    absent_fits : (f : Format) → Fits (maybe f) absent
    present_fits : {f : Format} {w : Wire} → Fits f w → Fits (maybe f) (present w)
    dict_fits : {f g : Format} {ps : Pairs} → FitsPairs f g ps → Fits (dict f g) (map ps)
    variant_fits :
        (f : ℕ → Format) (n : ℕ) {w : Wire}
        → Fits (f n) w
        → Fits (variant f) (static_variant (pos n) w)
    op_fits : (f : ℕ → Format) (n : ℕ) {w : Wire} → Fits (f n) w → Fits (op f) (operation (pos n) w)
    fields_fits :
        {fs : Formats} {ws : Items} → FitsFields fs ws → Fits (fields fs) (graphene_object ws)

  pub data FitsAll : Format → Items → Type 0 where
    no_items : (f : Format) → FitsAll f end
    an_item : {f : Format} {w : Wire} {ws : Items} → Fits f w → FitsAll f ws → FitsAll f (item w ws)

  pub data FitsPairs : Format → Format → Pairs → Type 0 where
    no_pairs : (f g : Format) → FitsPairs f g empty
    a_pair :
        {f g : Format} {k v : Wire} {ps : Pairs}
        → Fits f k
        → Fits g v
        → FitsPairs f g ps
        → FitsPairs f g (pair k v ps)

  pub data FitsFields : Formats → Items → Type 0 where
    no_fields : FitsFields done end
    a_field :
        {f : Format} {fs : Formats} {w : Wire} {ws : Items}
        → Fits f w
        → FitsFields fs ws
        → FitsFields (field f fs) (item w ws)

text_Reads :
    (s : Text)
    → All IsVisible s
    → All (λ c. c < 128) s
    → Reads (utf8 (unicodify s) >>= λ d. variable_buffer d) read_buffer s
text_Reads s v a = rw (unicodify_visible s v, utf8_below s a) (buffer_Reads s)

hex_Reads :
    (d : Bytes)
    → All IsByte d
    → Reads (ascii (hexlify d) >>= λ t. unhexlify t >>= λ b. variable_buffer b) read_buffer d
hex_Reads d h = rw (ascii-hexlify d h, unhexlify-hexlify d h) (buffer_Reads d)

raw_Reads :
    (d : Bytes)
    → All IsByte d
    → Reads (utf8 (hexlify d) >>= λ t. unhexlify t >>= λ b. variable_buffer b) read_buffer d
raw_Reads d h = rw (utf8-hexlify d h, unhexlify-hexlify d h) (buffer_Reads d)

digest_Reads :
    (n : ℕ) (d : Bytes)
    → All IsByte d
    → length d ≡ n
    → Reads (utf8 (hexlify d) >>= λ t. unhexlify t) (read_bytes n) d
digest_Reads n d h e = rw (utf8-hexlify d h, unhexlify-hexlify d h) (bytes_Reads n d e)

mutual
  unfolding to_bytes pack_time count_items count_pairs read read_items read_pairs

  wire_Reads : {f : Format} {w : Wire} → Fits f w → Reads (to_bytes w) (read f) w
  wire_Reads (u8_fits n h) = map_Reads _ (read_number 1) (λ m. uint8 (pos m)) n (number_Reads 1 n h)
  wire_Reads (i16_fits z h) = map_Reads _ (read_signed 2) int16 z (signed_Reads 2 32768 z refl h)
  wire_Reads (u16_fits n h) =
      map_Reads _ (read_number 2) (λ m. uint16 (pos m)) n (number_Reads 2 n h)
  wire_Reads (u32_fits n h) =
      map_Reads _ (read_number 4) (λ m. uint32 (pos m)) n (number_Reads 4 n h)
  wire_Reads (u64_fits n h) =
      map_Reads _ (read_number 8) (λ m. uint64 (pos m)) n (number_Reads 8 n h)
  wire_Reads (i64_fits z h) = map_Reads _ (read_signed 8) int64 z (signed_Reads 8 (2 ^ 63) z refl h)
  wire_Reads (var_fits n) = map_Reads _ read_varint (λ m. varint32 (pos m)) n (varint-Reads n)
  wire_Reads (ident_fits n) = map_Reads _ read_varint (λ m. id (pos m)) n (varint-Reads n)
  wire_Reads (time_fits n h) =
      map_Reads _ (read_number 4) (λ m. point_in_time (pos m)) n (number_Reads 4 n h)
  wire_Reads (text_fits s v a) = map_Reads _ read_buffer string s (text_Reads s v a)
  wire_Reads (hex_fits d h) =
      map_Reads _ read_buffer (λ b. hex_string (hexlify b)) d (hex_Reads d h)
  wire_Reads (raw_fits d h) = map_Reads _ read_buffer (λ b. hex_bytes (hexlify b)) d (raw_Reads d h)
  wire_Reads nothing_fits = ([], refl, λ rest. refl)
  wire_Reads (digest_fits n d h e) =
      map_Reads _ (read_bytes n) (λ b. hash (hexlify b)) d (digest_Reads n d h e)
  wire_Reads (sig_fits n d e) = map_Reads _ (read_bytes n) signature d (bytes_Reads n d e)
  wire_Reads (key_fits d e) = map_Reads _ (read_bytes 33) public_key d (bytes_Reads 33 d e)
  wire_Reads (asset_fits value precision symbol v p s n e) =
      asset_Reads value precision symbol v p s n e
  wire_Reads (list_fits {f} {ws} h) =
      then_Reads (varint (pos (count_items ws))) (items_bytes ws) read_varint
        (λ n. read_items (read f) n) (λ n ws. array ws) (count_items ws) ws (varint-Reads _)
        (items_Reads h)
  wire_Reads (absent_fits f) =
      let (x, e, r) = number_Reads 1 0 (omega arith) in (x, e, λ rest. rw (r rest))
  wire_Reads (present_fits h) =
      let (x, e, r) = number_Reads 1 1 (omega arith) in
      let (y, e', r') = wire_Reads h in
      (x ++ y, rw (e, e'), λ rest. rw (append_assoc x y rest, r (y ++ rest), r' rest))
  wire_Reads (dict_fits {f} {g} {ps} h) =
      then_Reads (varint (pos (count_pairs ps))) (pairs_bytes ps) read_varint
        (λ n. read_pairs (read f) (read g) n) (λ n ps. map ps) (count_pairs ps) ps (varint-Reads _)
        (pairs_Reads h)
  wire_Reads (variant_fits f n {w} h) =
      then_Reads (varint (pos n)) (to_bytes w) read_varint (λ m. read (f m))
        (λ m v. static_variant (pos m) v) n w (varint-Reads n) (wire_Reads h)
  wire_Reads (op_fits f n {w} h) =
      then_Reads (varint (pos n)) (to_bytes w) read_varint (λ m. read (f m))
        (λ m v. operation (pos m) v) n w (varint-Reads n) (wire_Reads h)
  wire_Reads (fields_fits {fs} {ws} h) =
      map_Reads (items_bytes ws) (read_fields fs) graphene_object ws (fields_Reads h)

  items_Reads :
      {f : Format} {ws : Items}
      → FitsAll f ws
      → Reads (items_bytes ws) (read_items (read f) (count_items ws)) ws
  items_Reads (no_items f) = ([], refl, λ rest. refl)
  items_Reads (an_item {f} {w} {ws} h hs) =
      then_Reads (to_bytes w) (items_bytes ws) (read f) (λ _. read_items (read f) (count_items ws))
        item w ws (wire_Reads h) (items_Reads hs)

  pairs_Reads :
      {f g : Format} {ps : Pairs}
      → FitsPairs f g ps
      → Reads (pairs_bytes ps) (read_pairs (read f) (read g) (count_pairs ps)) ps
  pairs_Reads (no_pairs f g) = ([], refl, λ rest. refl)
  pairs_Reads (a_pair h k hs) =
      let (x, e, r) = wire_Reads h in
      let (y, e', r') = wire_Reads k in
      let (z, e'', r'') = pairs_Reads hs in
      (
        (x ++ y) ++ z,
        rw (e, e', e''),
        λ rest. rw (
          append_assoc (x ++ y) z rest,
          append_assoc x y (z ++ rest),
          r (y ++ (z ++ rest)),
          r' (z ++ rest),
          r'' rest,
        ),
      )

  fields_Reads :
      {fs : Formats} {ws : Items} → FitsFields fs ws → Reads (items_bytes ws) (read_fields fs) ws
  fields_Reads no_fields = ([], refl, λ rest. refl)
  fields_Reads (a_field {f} {fs} {w} {ws} h hs) =
      then_Reads (to_bytes w) (items_bytes ws) (read f) (λ _. read_fields fs) item w ws
        (wire_Reads h) (fields_Reads hs)

-- For every shape and every object of that shape with its numbers in range, its hexadecimal data in
-- lower case, its texts in ASCII without control characters but tab, line feed and carriage return,
-- its keys of 33 bytes, its hashes and signatures of the length that the shape says, and the
-- symbols of its amounts neither STEEM nor SBD and on the wire of at most seven ASCII characters
-- other than NUL, `bytes` succeeds, and a reader that knows only the shape gets the object back
-- from the bytes and leaves whatever follows them.
pub read-to_bytes :
    (f : Format) (w : Wire) (rest : Bytes)
    → Fits f w
    → (to_bytes w >>= λ b. read f (b ++ rest)) ≡ ok (w, rest)
read-to_bytes f w rest h = let (b, e, r) = wire_Reads h in rw e (r rest)
