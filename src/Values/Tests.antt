-- ===== src/Values/Tests.antt =====
-- Runs of the Python values.
use hive_nectar.Prelude.{◌≡◌, refl, ok, err, true, value_error, [], ◌∷◌, ◌++◌}
use hive_nectar.Prelude.Int.{negsuc}
use hive_nectar.Prelude.Bytes.{codes, hex_digit}
use hive_nectar.Prelude.Digits.{to_digits}
use hive_nectar.Values.{
  Value, a_text, a_number, a_flag, a_list, a_dict, no_values, value_and, no_entries, entry, int,
  read_digits, read_signed_digits, strip, trim_start, trim_end, is_space, null,
}
use hive_nectar.Values.Json.{
  json_dumps, compact_dumps, dumps, quoted, decimal, escape_text, escape_char, hex_escape,
  dump_values, dump_entries,
}

int_runs : int (a_text (codes " -1_024 ")) ≡ ok (negsuc 1023)
unfolding int read_digits read_signed_digits strip trim_start trim_end is_space
int_runs = refl

int_fails : int (a_text (codes "1__0")) ≡ err value_error
unfolding int read_digits read_signed_digits strip trim_start trim_end is_space
int_fails = refl

abbrev sample : Value
sample = a_dict (
    entry (codes "a") (a_list (value_and (a_number (negsuc 11)) (value_and null no_values)))
      (entry (codes "b") (a_flag true) no_entries))

json_dumps_runs :
    json_dumps sample
    ≡ ok (
        codes "{"
        ++ quoted (codes "a")
        ++ codes ": [-12, null], "
        ++ quoted (codes "b")
        ++ codes ": true}")
unfolding json_dumps dumps quoted decimal escape_text escape_char dump_values dump_entries to_digits
json_dumps_runs = refl

compact_dumps_runs : compact_dumps (a_text (233 ∷ [])) ≡ ok (34 ∷ 92 ∷ codes "u00e9" ++ 34 ∷ [])
unfolding compact_dumps dumps quoted escape_text escape_char hex_escape hex_digit
compact_dumps_runs = refl
