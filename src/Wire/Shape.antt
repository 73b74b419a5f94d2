-- ===== src/Wire/Shape.antt =====
-- The shapes of the objects that src/nectarbase/operations.py and objects.py make, whatever their
-- values.
use hive_nectar.Prelude.{ℕ, ◌≤◌, ◌≡◌, length, Error}
use hive_nectar.Prelude.Int.{ℤ, pos}
use hive_nectar.Prelude.Bytes.{Bytes, Text}
use hive_nectar.Wire.{
  Wire, uint8, int16, uint16, uint32, uint64, point_in_time, hex_string, string, public_key, amount,
  unwritable, absent, array, present, static_variant, map, graphene_object, operation, Items, end,
  item, Pairs, empty, pair, wire_symbol,
}
use hive_nectar.Wire.Format.{
  Format, u8, i16, u16, u32, u64, time, text, hex, asset, key, list, maybe, dict, variant, op,
  fields, Formats, done, field,
}

-- The shapes of the parts of an operation. An object that raises when it is written has any shape.
mutual
  pub data Shaped : Format → Wire → Type 0 where
    unwritable_shape : (f : Format) (raised : Error) → Shaped f (unwritable raised)
    u8_shape : (z : ℤ) → Shaped u8 (uint8 z)
    i16_shape : (z : ℤ) → Shaped i16 (int16 z)
    u16_shape : (z : ℤ) → Shaped u16 (uint16 z)
    u32_shape : (z : ℤ) → Shaped u32 (uint32 z)
    u64_shape : (z : ℤ) → Shaped u64 (uint64 z)
    time_shape : (z : ℤ) → Shaped time (point_in_time z)
    text_shape : (s : Text) → Shaped text (string s)
    hex_shape : (s : Text) → Shaped hex (hex_string s)
    key_shape : (d : Bytes) → Shaped key (public_key d)
    asset_shape :
        (value precision : ℤ) (symbol : Text) → Shaped asset (amount value precision symbol)
    list_shape : {f : Format} {ws : Items} → ShapedAll f ws → Shaped (list f) (array ws)
    absent_shape : (f : Format) → Shaped (maybe f) absent
    present_shape : {f : Format} {w : Wire} → Shaped f w → Shaped (maybe f) (present w)
    dict_shape : {f g : Format} {ps : Pairs} → ShapedPairs f g ps → Shaped (dict f g) (map ps)
    variant_shape :
        (f : ℕ → Format) (n : ℕ) {w : Wire}
        → Shaped (f n) w
        → Shaped (variant f) (static_variant (pos n) w)
    op_shape :
        (f : ℕ → Format) (n : ℕ) {w : Wire} → Shaped (f n) w → Shaped (op f) (operation (pos n) w)
    fields_shape :
        {fs : Formats} {ws : Items} → ShapedFields fs ws → Shaped (fields fs) (graphene_object ws)

  pub data ShapedAll : Format → Items → Type 0 where
    no_items : (f : Format) → ShapedAll f end
    an_item :
        {f : Format} {w : Wire} {ws : Items} → Shaped f w → ShapedAll f ws → ShapedAll f (item w ws)

  pub data ShapedPairs : Format → Format → Pairs → Type 0 where
    no_pairs : (f g : Format) → ShapedPairs f g empty
    a_pair :
        {f g : Format} {k v : Wire} {ps : Pairs}
        → Shaped f k
        → Shaped g v
        → ShapedPairs f g ps
        → ShapedPairs f g (pair k v ps)

  pub data ShapedFields : Formats → Items → Type 0 where
    no_fields : ShapedFields done end
    a_field :
        {f : Format} {fs : Formats} {w : Wire} {ws : Items}
        → Shaped f w
        → ShapedFields fs ws
        → ShapedFields (field f fs) (item w ws)

-- Every symbol in the object has at most seven characters on the wire, and every key 33 bytes.
unfoldable mutual
  pub IsSized : Wire → Type 0
  IsSized (amount value precision symbol) = length (wire_symbol symbol) ≤ 7
  IsSized (public_key d) = length d ≡ 33
  IsSized (array ws) = IsSizedItems ws
  IsSized (graphene_object ws) = IsSizedItems ws
  IsSized (map ps) = IsSizedPairs ps
  IsSized (present w) = IsSized w
  IsSized (static_variant type_id w) = IsSized w
  IsSized (operation op_id w) = IsSized w
  IsSized _ = Unit

  pub IsSizedItems : Items → Type 0
  IsSizedItems end = Unit
  IsSizedItems (item w ws) = IsSized w × IsSizedItems ws

  pub IsSizedPairs : Pairs → Type 0
  IsSizedPairs empty = Unit
  IsSizedPairs (pair k v ps) = IsSized k × IsSized v × IsSizedPairs ps
