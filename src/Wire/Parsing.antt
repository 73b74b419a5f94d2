-- ===== src/Wire/Parsing.antt =====
-- The bytes that the code writes for an object of a known shape: if it writes any, a reader of the
-- shape finds where they end.
use hive_nectar.Prelude.{◌≡◌, refl, [], ◌++◌, append_assoc, arith, ok, >>=-eq-ok}
use hive_nectar.Prelude.Int.{pos}
use hive_nectar.Prelude.Bytes.{Bytes, hexlify}
use hive_nectar.Wire.{
  Wire, uint8, int16, uint16, uint32, uint64, point_in_time, hex_string, string, public_key, absent,
  array, static_variant, map, graphene_object, operation, Items, end, item, Pairs, empty, pair,
  to_bytes, items_bytes, pairs_bytes, count_items, count_pairs,
}
use hive_nectar.Wire.Format.{
  Format, read, read_fields, read_items, read_pairs, read_bytes, read_buffer, read_number,
  read_signed, Formats,
}
use hive_nectar.Wire.Reading.{number_Reads}
use hive_nectar.Wire.Fixed.{length-pack_signed}
use hive_nectar.Wire.Shape.{
  Shaped, unwritable_shape, u8_shape, i16_shape, u16_shape, u32_shape, u64_shape, time_shape,
  text_shape, hex_shape, key_shape, asset_shape, list_shape, absent_shape, present_shape,
  dict_shape, variant_shape, op_shape, fields_shape, ShapedAll, no_items, an_item, ShapedPairs,
  no_pairs, a_pair, ShapedFields, no_fields, a_field, IsSized, IsSizedItems, IsSizedPairs,
}
use hive_nectar.Wire.Finding.{
  Finds, map_Finds, then_Finds, counted_Finds, bytes_Finds, length-pack_unsigned, length-pack_time,
  number_Finds, signed_Finds, text_Finds, hex_Finds, asset_Finds, maybe_Finds,
}

mutual
  unfolding to_bytes read read_items read_pairs count_items count_pairs IsSized

  wire_Finds :
      {f : Format} {w : Wire} {b : Bytes}
      → Shaped f w
      → IsSized w
      → to_bytes w ≡ ok b
      → Finds (read f) b
  wire_Finds (unwritable_shape f raised) z h = cc
  wire_Finds {b = b} (u8_shape n) z h =
      map_Finds (read_number 1) (λ m. uint8 (pos m)) b
        (number_Finds 1 b (length-pack_unsigned 1 n h))
  wire_Finds {b = b} (i16_shape n) z h =
      map_Finds (read_signed 2) int16 b (signed_Finds 2 b (length-pack_signed 2 n h))
  wire_Finds {b = b} (u16_shape n) z h =
      map_Finds (read_number 2) (λ m. uint16 (pos m)) b
        (number_Finds 2 b (length-pack_unsigned 2 n h))
  wire_Finds {b = b} (u32_shape n) z h =
      map_Finds (read_number 4) (λ m. uint32 (pos m)) b
        (number_Finds 4 b (length-pack_unsigned 4 n h))
  wire_Finds {b = b} (u64_shape n) z h =
      map_Finds (read_number 8) (λ m. uint64 (pos m)) b
        (number_Finds 8 b (length-pack_unsigned 8 n h))
  wire_Finds {b = b} (time_shape n) z h =
      map_Finds (read_number 4) (λ m. point_in_time (pos m)) b
        (number_Finds 4 b (length-pack_time n h))
  wire_Finds {b = b} (text_shape s) z h = map_Finds read_buffer string b (text_Finds s b h)
  wire_Finds {b = b} (hex_shape s) z h =
      map_Finds read_buffer (λ d. hex_string (hexlify d)) b (hex_Finds s b h)
  wire_Finds {b = b} (key_shape d) z h =
      let same : d ≡ b = cc in
      map_Finds (read_bytes 33) public_key b (bytes_Finds 33 b (rw same at z))
  wire_Finds {b = b} (asset_shape value precision symbol) z h =
      asset_Finds value precision symbol b z h
  wire_Finds {b = b} (list_shape {f} {ws} s) z h =
      counted_Finds (count_items ws) (items_bytes ws) (λ n. read_items (read f) n)
        (λ n ws. array ws) b h (λ y e. items_Finds s z e)
  wire_Finds {b = b} (absent_shape f) z h =
      let (x, e, r) = number_Reads 1 0 (omega arith) in
      let same : b ≡ x = cc in rw same (absent, λ rest. rw (r rest))
  wire_Finds {b = b} (present_shape {f} {w} s) z h =
      maybe_Finds f (to_bytes w) b h (λ y e. wire_Finds s z e)
  wire_Finds {b = b} (dict_shape {f} {g} {ps} s) z h =
      counted_Finds (count_pairs ps) (pairs_bytes ps) (λ n. read_pairs (read f) (read g) n)
        (λ n ps. map ps) b h (λ y e. pairs_Finds s z e)
  wire_Finds {b = b} (variant_shape f n {w} s) z h =
      counted_Finds n (to_bytes w) (λ m. read (f m)) (λ m v. static_variant (pos m) v) b h
        (λ y e. wire_Finds s z e)
  wire_Finds {b = b} (op_shape f n {w} s) z h =
      counted_Finds n (to_bytes w) (λ m. read (f m)) (λ m v. operation (pos m) v) b h
        (λ y e. wire_Finds s z e)
  wire_Finds {b = b} (fields_shape {fs} {ws} s) z h =
      map_Finds (read_fields fs) graphene_object b (fields_Finds s z h)

  items_Finds :
      {f : Format} {ws : Items} {b : Bytes}
      → ShapedAll f ws
      → IsSizedItems ws
      → items_bytes ws ≡ ok b
      → Finds (read_items (read f) (count_items ws)) b
  items_Finds {b = b} (no_items f) z h = let same : b ≡ [] = cc in rw same (end, λ rest. refl)
  items_Finds {b = b} (an_item {f} {w} {ws} s ss) (z, zs) h =
      then_Finds (to_bytes w) (items_bytes ws) (read f) (λ _. read_items (read f) (count_items ws))
        item b h (λ x e. wire_Finds s z e) (λ _ y e. items_Finds ss zs e)

  pairs_Finds :
      {f g : Format} {ps : Pairs} {b : Bytes}
      → ShapedPairs f g ps
      → IsSizedPairs ps
      → pairs_bytes ps ≡ ok b
      → Finds (read_pairs (read f) (read g) (count_pairs ps)) b
  pairs_Finds {b = b} (no_pairs f g) z h = let same : b ≡ [] = cc in rw same (empty, λ rest. refl)
  pairs_Finds {b = b} (a_pair {f} {g} {k} {v} {ps} s t ss) (z, z', zs) h =
      let (x, e, h1) = >>=-eq-ok (to_bytes k) _ h in
      let (y, e', h2) = >>=-eq-ok (to_bytes v) _ h1 in
      let (c, e'', h3) = >>=-eq-ok (pairs_bytes ps) _ h2 in
      let (a, r) = wire_Finds s z e in
      let (a', r') = wire_Finds t z' e' in
      let (as', r'') = pairs_Finds ss zs e'' in
      let same : b ≡ (x ++ y) ++ c = cc in
      rw same (
        pair a a' as',
        λ rest. rw (
          append_assoc (x ++ y) c rest,
          append_assoc x y (c ++ rest),
          r (y ++ (c ++ rest)),
          r' (c ++ rest),
          r'' rest,
        ),
      )

  fields_Finds :
      {fs : Formats} {ws : Items} {b : Bytes}
      → ShapedFields fs ws
      → IsSizedItems ws
      → items_bytes ws ≡ ok b
      → Finds (read_fields fs) b
  fields_Finds {b = b} no_fields z h = let same : b ≡ [] = cc in rw same (end, λ rest. refl)
  fields_Finds {b = b} (a_field {f} {fs} {w} {ws} s ss) (z, zs) h =
      then_Finds (to_bytes w) (items_bytes ws) (read f) (λ _. read_fields fs) item b h
        (λ x e. wire_Finds s z e) (λ _ y e. fields_Finds ss zs e)

pub read-written :
    (f : Format) (w : Wire) (b : Bytes)
    → Shaped f w
    → IsSized w
    → to_bytes w ≡ ok b
    → Finds (read f) b
read-written f w b s z h = wire_Finds s z h
