-- ===== src/Transactions/Tests.antt =====
-- Runs of src/nectargraphenebase/signedtransactions.py, and its theorems at concrete inputs.
use hive_nectar.Prelude.{
  ◌≡◌, refl, [], ◌∷◌, ◌++◌, ok, arith, bytes_eq, replicate, List, Result, inl,
}
use hive_nectar.Prelude.Int.{pos}
use hive_nectar.Prelude.Bytes.{
  Bytes, Text, codes, unhexlify, hex_value, le_bytes, pack_signed, pack_unsigned, ascii, utf8,
  utf8_char,
}
use hive_nectar.Values.{
  Value, a_text, a_number, a_moment, Dict, no_entries, entry, get, get_or, lookup, has_truthy,
  truthy, int, iterate, to_list, traverse,
}
use hive_nectar.Wire.{
  Wire, string, amount, graphene_object, operation, item, end, array, uint16, uint32, point_in_time,
  to_bytes, wire_symbol, pack_amount, pack_time, variable_buffer, count_items,
}
use hive_nectar.Wire.Varint.{varint, groups}
use hive_nectar.Wire.Unicodify.{unicodify, unicodify_char}
use hive_nectar.Wire.Format.{local_symbol}
use hive_nectar.Wire.RoundTrip.{
  Fits, u16_fits, u32_fits, time_fits, text_fits, list_fits, fields_fits, a_field, no_fields,
  an_item, no_items, op_fits, asset_fits, sig_fits,
}
use hive_nectar.Objects.{to_items, number_of, time_of, field_at, uint16_at, uint32_at, time_at}
use hive_nectar.Operations.Layouts.{layout_of, row}
use hive_nectar.Transactions.{
  Transaction, signed_transaction, signatures_of, given_signatures, extensions_of, fields_with,
  derive_digest, chain_id_of, transaction_id, known_chain_id, sign, check_chain, unique, without,
}
use hive_nectar.Transactions.Messages.{
  derive_digest_injective, IsSameMessage, unsigned_layout, signed_fields,
}
use hive_nectar.Transactions.Signing.{IsSigned, sign-IsSigned, sign_kept}

abbrev sha256 : Bytes → Bytes
sha256 bs = replicate 32 0

abbrev sign_message : Bytes → Text → Result Bytes
sign_message message wif = ok (1 ∷ wif)

abbrev op : Wire
op = operation (pos 2) (
    graphene_object (
      item (string (codes "a")) (
        item (string (codes "b"))
          (item (amount (pos 1000) (pos 3) (codes "HIVE")) (item (string []) end)))))

abbrev tx_args : Dict
tx_args = entry (codes "ref_block_num") (a_number (pos 5)) (
    entry (codes "ref_block_prefix") (a_number (pos 7))
      (entry (codes "expiration") (a_moment (pos 9)) no_entries))

abbrev tx : Transaction
tx = record {
  ref_block_num = uint16 (pos 5);
  ref_block_prefix = uint32 (pos 7);
  expiration = point_in_time (pos 9);
  operations = array (item op end);
  extensions = array end;
  signatures = [];
}

signed_transaction_runs : signed_transaction tx_args (op ∷ []) ≡ ok tx
unfolding signed_transaction signatures_of given_signatures extensions_of get_or lookup bytes_eq
    iterate to_list traverse has_truthy uint16_at uint32_at time_at field_at get number_of int
    time_of to_items
signed_transaction_runs = refl

abbrev wifs : List Text
wifs = codes "x" ∷ codes "y" ∷ codes "x" ∷ []

abbrev chain : Value
chain = a_text (codes "HIVE")

abbrev signed_tx : Transaction
signed_tx = record tx { signatures = (1 ∷ codes "x") ∷ (1 ∷ codes "y") ∷ [] }

abbrev tx_bytes : Bytes
tx_bytes =
    5
      ∷ 0
      ∷ 7
      ∷ 0
      ∷ 0
      ∷ 0
      ∷ 9
      ∷ 0
      ∷ 0
      ∷ 0
      ∷ 1
      ∷ 2
      ∷ 1
      ∷ 97
      ∷ 1
      ∷ 98
      ∷ 232
      ∷ 3
      ∷ 0
      ∷ 0
      ∷ 0
      ∷ 0
      ∷ 0
      ∷ 0
      ∷ 3
      ∷ codes "STEEM"
    ++ 0 ∷ 0 ∷ 0 ∷ 0 ∷ []

abbrev tx_message : Bytes
tx_message = 190 ∷ 234 ∷ 176 ∷ 222 ∷ replicate 28 0 ++ tx_bytes

derived : derive_digest sha256 chain tx ≡ ok (tx_message, replicate 32 0)
unfolding derive_digest chain_id_of bytes_eq unhexlify hex_value fields_with to_bytes varint groups
    pack_unsigned pack_signed le_bytes pack_time utf8 utf8_char unicodify unicodify_char
    variable_buffer pack_amount wire_symbol ascii count_items
derived = refl

derived_signed : derive_digest sha256 chain signed_tx ≡ ok (tx_message, replicate 32 0)
unfolding derive_digest chain_id_of bytes_eq unhexlify hex_value fields_with to_bytes varint groups
    pack_unsigned pack_signed le_bytes pack_time utf8 utf8_char unicodify unicodify_char
    variable_buffer pack_amount wire_symbol ascii count_items
derived_signed = refl

signs : sign sha256 sign_message wifs chain tx ≡ ok signed_tx
unfolding sign check_chain truthy unique without bytes_eq traverse derive_digest chain_id_of
    unhexlify hex_value fields_with to_bytes varint groups pack_unsigned pack_signed le_bytes
    pack_time utf8 utf8_char unicodify unicodify_char variable_buffer pack_amount wire_symbol ascii
    count_items
signs = refl

sign-IsSigned_example : IsSigned sha256 sign_message wifs chain tx signed_tx
sign-IsSigned_example = sign-IsSigned sha256 sign_message wifs chain tx signed_tx signs

sign_kept_example :
    (transaction_id sha256 signed_tx ≡ transaction_id sha256 tx)
    × (derive_digest sha256 chain signed_tx ≡ derive_digest sha256 chain tx)
sign_kept_example = sign_kept sha256 sign_message wifs chain tx signed_tx signs

op-Fits : Fits (layout_of 2) (
    graphene_object (
      item (string (codes "a")) (
        item
          (string (codes "b"))
          (item (amount (pos 1000) (pos 3) (codes "HIVE")) (item (string []) end)))))
unfolding layout_of row local_symbol wire_symbol bytes_eq
op-Fits = fields_fits (
    a_field (text_fits (codes "a") (inl (omega arith), tt) (omega arith, tt)) (
      a_field (text_fits (codes "b") (inl (omega arith), tt) (omega arith, tt)) (
        a_field
          (asset_fits (pos 1000) (pos 3) (codes "HIVE") (omega arith) (omega arith) (ground arith)
            (omega arith) refl)
          (a_field (text_fits [] tt tt) no_fields))))

tx-Fits : Fits unsigned_layout (signed_fields tx)
unfolding row fields_with
tx-Fits = fields_fits (
    a_field (u16_fits 5 (omega arith)) (
      a_field (u32_fits 7 (omega arith)) (
        a_field (time_fits 9 (omega arith)) (
          a_field (list_fits (an_item (op_fits layout_of 2 op-Fits) (no_items _)))
            (a_field (list_fits (no_items _)) (a_field (sig_fits 0 [] refl) no_fields))))))

signed_tx-Fits : Fits unsigned_layout (signed_fields signed_tx)
unfolding fields_with
signed_tx-Fits = tx-Fits

derive_digest_injective_example : IsSameMessage known_chain_id known_chain_id tx signed_tx
unfolding chain_id_of bytes_eq
derive_digest_injective_example =
    derive_digest_injective sha256 chain chain tx signed_tx tx_message (replicate 32 0)
      (replicate 32 0) known_chain_id known_chain_id refl refl refl tx-Fits signed_tx-Fits derived
      derived_signed
