-- ===== src/Wire/Tests.antt =====
-- Runs of src/nectargraphenebase/types.py, and its theorems at concrete inputs.
use hive_nectar.Prelude.{
  ◌≡◌, ◌≤◌, refl, [], ◌∷◌, ◌++◌, arith, inl, inr, length, ok, ◌>>=◌, bytes_eq,
}
use hive_nectar.Prelude.Int.{pos}
use hive_nectar.Prelude.Bytes.{Bytes, codes, pack_signed, le_bytes, ascii, hexlify}
use hive_nectar.Wire.{
  uint8, varint32, string, array, graphene_object, Items, item, end, amount, present, hash,
  to_bytes, wire_symbol, pack_amount,
}
use hive_nectar.Wire.Varint.{varint, varintdecode, raw, groups, varintdecode-varint, length-varint}
use hive_nectar.Wire.Unicodify.{unicodify, unicodify_char, escape}
use hive_nectar.Wire.Format.{Format, u8, var, text, list, fields, digest, maybe, field, done, read}
use hive_nectar.Wire.RoundTrip.{
  Fits, u8_fits, var_fits, text_fits, list_fits, fields_fits, a_field, no_fields, an_item, no_items,
  present_fits, digest_fits, read-to_bytes,
}

varint_runs : varint (pos 300) ≡ ok (172 ∷ 2 ∷ [])
unfolding varint groups
varint_runs = refl

unicodify_runs : unicodify (27 ∷ 8 ∷ codes "x") ≡ codes "u001bbx"
unfolding unicodify unicodify_char escape
unicodify_runs = refl

varintdecode-varint_example :
    (varint (pos 300) >>= λ bs. varintdecode (raw (bs ++ 7 ∷ []))) ≡ ok 300
varintdecode-varint_example = varintdecode-varint 300 (7 ∷ [])

length-varint_example : (varint (pos 300) >>= λ bs. ok (length bs)) ≡ ok 2
length-varint_example = length-varint 1 300 (omega arith) (inr (omega arith))

abbrev shape : Format
shape = fields (field u8 (field (list var) (field (maybe (digest 2)) (field text done))))

abbrev parts : Items
parts = item (uint8 (pos 5)) (
    item (array (item (varint32 (pos 300)) end))
      (item (present (hash (hexlify (1 ∷ 255 ∷ [])))) (item (string (codes "ab")) end)))

parts-Fits : Fits shape (graphene_object parts)
parts-Fits = fields_fits (
    a_field (u8_fits 5 (omega arith)) (
      a_field (list_fits (an_item (var_fits 300) (no_items var))) (
        a_field (present_fits (digest_fits 2 (1 ∷ 255 ∷ []) (omega arith) refl)) (
          a_field
            (text_fits (codes "ab") (inl (omega arith), (inl (omega arith), tt))
              (omega arith, (omega arith, tt)))
            no_fields))))

read-to_bytes_example :
    (to_bytes (graphene_object parts) >>= λ b. read shape (b ++ 9 ∷ []))
    ≡ ok (graphene_object parts, 9 ∷ [])
read-to_bytes_example = read-to_bytes shape (graphene_object parts) (9 ∷ []) parts-Fits

abbrev coin_bytes : Bytes
coin_bytes = 232 ∷ 3 ∷ 0 ∷ 0 ∷ 0 ∷ 0 ∷ 0 ∷ 0 ∷ 3 ∷ b'S' ∷ b'B' ∷ b'D' ∷ 0 ∷ 0 ∷ 0 ∷ 0 ∷ []

coin_runs : to_bytes (amount (pos 1000) (pos 3) (codes "HBD")) ≡ ok coin_bytes
unfolding to_bytes pack_amount wire_symbol bytes_eq pack_signed le_bytes ascii
coin_runs = refl

short_symbol : length (wire_symbol (codes "HBD")) ≤ 7
unfolding wire_symbol bytes_eq
short_symbol = omega arith
