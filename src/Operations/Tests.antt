-- ===== src/Operations/Tests.antt =====
-- Runs of src/nectarbase/operations.py, and its theorems at concrete inputs.
use hive_nectar.Prelude.{
  ◌≡◌, ◌↔◌, refl, [], ◌∷◌, ◌++◌, ok, err, some, arith, bytes_eq, key_error, value_error,
  not_implemented, replicate,
}
use hive_nectar.Prelude.Int.{pos}
use hive_nectar.Prelude.Bytes.{Bytes, codes, utf8, utf8_char, pack_signed, le_bytes, ascii}
use hive_nectar.Values.{
  Value, a_text, a_number, a_list, a_dict, no_values, value_and, Dict, no_entries, entry, get,
  lookup, get_or, int, iterate, to_list, traverse, element, truthy, len,
}
use hive_nectar.Values.Json.{compact_dumps, dumps}
use hive_nectar.Wire.{
  Wire, string, amount, graphene_object, operation, item, end, to_bytes, wire_symbol, pack_amount,
  variable_buffer,
}
use hive_nectar.Wire.Varint.{varint, groups}
use hive_nectar.Wire.Unicodify.{unicodify, unicodify_char}
use hive_nectar.Wire.Shape.{Shaped, IsSized}
use hive_nectar.Wire.Format.{read}
use hive_nectar.Wire.Finding.{Finds}
use hive_nectar.Objects.{
  Outside, object, make_fields, after, field_at, text_at, texts_at, string_of, array_of, prefix_in,
}
use hive_nectar.Objects.Amounts.{
  amount_at, amount_of, amount_of_list, amount_object, amount_from, find_symbol,
}
use hive_nectar.Objects.Auths.{memo_field, memo_of}
use hive_nectar.Operations.Funds.{transfer}
use hive_nectar.Operations.Posts.{custom_json, json_field, json_text, dump_json}
use hive_nectar.Operations.Names.{operation_id, operation_name, index_from}
use hive_nectar.Operations.Numbering.{operation_name-operation_id}
use hive_nectar.Operations.Layouts.{any_operation}
use hive_nectar.Operations.Classes.{
  operation_of, operation_of_object, build_pair, build_named, build, get_class, find_class,
  class_name,
}
use hive_nectar.Operations.Written.{IsPlainOperation, operation_of-Shaped, read-operation_of}
use hive_nectar.Operations.Guards.{HasPayload, custom_json-HasPayload}

abbrev outside : Outside
outside = record {
  sha256 = λ bs. replicate 32 0;
  ripemd = λ bs. replicate 20 0;
  compress = λ bs. ok bs;
  scale = λ value precision. err value_error;
}

abbrev hive : Value
hive = a_list (
    value_and (a_number (pos 1000))
      (value_and (a_number (pos 3)) (value_and (a_text (codes "@@000000021")) no_values)))

abbrev transfer_args : Dict
transfer_args =
    entry (codes "from") (a_text (codes "ann"))
      (entry (codes "to") (a_text (codes "bob")) (entry (codes "amount") hive no_entries))

abbrev transfer_op : Value
transfer_op =
    a_list (value_and (a_text (codes "transfer")) (value_and (a_dict transfer_args) no_values))

abbrev transfer_wire : Wire
transfer_wire = operation (pos 2) (
    graphene_object (
      item (string (codes "ann")) (
        item (string (codes "bob"))
          (item (amount (pos 1000) (pos 3) (codes "HIVE")) (item (string []) end)))))

abbrev transfer_bytes : Bytes
transfer_bytes =
    2 ∷ 3 ∷ codes "ann"
    ++ 3 ∷ codes "bob"
    ++ 232 ∷ 3 ∷ 0 ∷ 0 ∷ 0 ∷ 0 ∷ 0 ∷ 0 ∷ 3 ∷ codes "STEEM"
    ++ 0 ∷ 0 ∷ 0 ∷ []

transfer_runs : operation_of outside transfer_op ≡ ok transfer_wire
unfolding operation_of build_pair build_named build get_class find_class class_name operation_id
    index_from bytes_eq transfer after object make_fields field_at text_at amount_at get lookup
    amount_of amount_of_list amount_object amount_from find_symbol memo_field memo_of prefix_in
    get_or string_of int element iterate to_list
transfer_runs = refl

transfer_writes : to_bytes transfer_wire ≡ ok transfer_bytes
unfolding to_bytes varint groups utf8 utf8_char unicodify unicodify_char variable_buffer pack_amount
    wire_symbol bytes_eq pack_signed le_bytes ascii
transfer_writes = refl

transfer_IsSized : IsSized transfer_wire
unfolding IsSized wire_symbol bytes_eq
transfer_IsSized = (tt, (tt, (omega arith, (tt, tt))))

transfer_IsPlain : IsPlainOperation transfer_op
unfolding lookup bytes_eq
transfer_IsPlain = (tt, tt)

operation_of-Shaped_example : Shaped any_operation transfer_wire
operation_of-Shaped_example =
    operation_of-Shaped outside transfer_op transfer_wire transfer_IsPlain transfer_runs

read-operation_of_example : Finds (read any_operation) transfer_bytes
read-operation_of_example =
    read-operation_of outside transfer_op transfer_wire transfer_bytes transfer_IsPlain
      transfer_runs transfer_IsSized transfer_writes

operation_name-operation_id_example :
    (operation_name (pos 18) ≡ some (codes "custom_json"))
    ↔ (operation_id (codes "custom_json") ≡ some 18)
operation_name-operation_id_example = operation_name-operation_id 18 (codes "custom_json")

abbrev json_args : Dict
json_args = entry (codes "required_auths") (a_list no_values) (
    entry (codes "required_posting_auths") (a_list (value_and (a_text (codes "ann")) no_values)) (
      entry (codes "id") (a_text (codes "follow"))
        (entry (codes "json") (a_list (value_and (a_number (pos 7)) no_values)) no_entries)))

custom_json-HasPayload_example : HasPayload json_args
unfolding custom_json object make_fields field_at text_at texts_at json_field json_text dump_json
    compact_dumps dumps get lookup bytes_eq truthy len iterate array_of traverse to_list
custom_json-HasPayload_example = custom_json-HasPayload json_args _ refl

-- The class of a recurring transfer has no number, and its name in the table no class.
recurring_transfer_unbuilt :
    (operation_of_object (codes "Recurring_transfer") transfer_wire ≡ err key_error)
    × (operation_of outside
          (a_list (value_and (a_text (codes "recurring_transfer")) (value_and hive no_values)))
        ≡ err value_error)
    × (operation_of outside
          (a_list (value_and (a_text (codes "recurrent_transfer")) (value_and hive no_values)))
        ≡ err not_implemented)
unfolding operation_of operation_of_object build_pair build_named build get_class find_class
    class_name operation_id index_from bytes_eq
recurring_transfer_unbuilt = (refl, refl, refl)
