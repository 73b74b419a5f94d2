-- ===== src/Values/Json.antt =====
-- Python's `json.dumps`, with its separators, on values whose keys are texts. Characters outside ASCII
-- are escaped.
use hive_nectar.Prelude.{
  ℕ, suc, ◌+◌, ◌-◌, ◌/◌, ◌%◌, true, false, [], ◌∷◌, ◌++◌, map, leb, ltb, ◌==◌, ◌&&◌, if◌then◌else◌,
  Result, ok, err, ◌>>=◌, type_error,
}
use hive_nectar.Prelude.Int.{ℤ, pos, negsuc}
use hive_nectar.Prelude.Bytes.{Text, codes, hex_digit}
use hive_nectar.Prelude.Digits.{to_digits}
use hive_nectar.Values.{
  Value, null, a_text, a_number, a_moment, a_flag, a_list, a_dict, Values, no_values, value_and,
  Dict, no_entries, entry,
}

unfoldable pub decimal : ℤ → Text
decimal (pos n) = map (λ d. 48 + d) (to_digits 10 n)
decimal (negsuc n) = b'-' ∷ map (λ d. 48 + d) (to_digits 10 (suc n))

unfoldable pub hex_escape : ℕ → Text
hex_escape c =
    92
    ∷ b'u'
    ∷ hex_digit (c / 4096)
    ∷ hex_digit (c / 256 % 16)
    ∷ hex_digit (c / 16 % 16)
    ∷ hex_digit (c % 16)
    ∷ []

unfoldable pub escape_char : ℕ → Text
escape_char c =
    if c == 34
    then 92 ∷ 34 ∷ []
    else if c == 92
    then 92 ∷ 92 ∷ []
    else if c == 10
    then 92 ∷ b'n' ∷ []
    else if c == 13
    then 92 ∷ b'r' ∷ []
    else if c == 9
    then 92 ∷ b't' ∷ []
    else if c == 8
    then 92 ∷ b'b' ∷ []
    else if c == 12
    then 92 ∷ b'f' ∷ []
    else if leb 32 c && leb c 126
    then c ∷ []
    else if ltb c 0x10000
    then hex_escape c
    else hex_escape (0xd800 + (c - 0x10000) / 1024) ++ hex_escape (0xdc00 + (c - 0x10000) % 1024)

unfoldable pub escape_text : Text → Text
escape_text [] = []
escape_text (c ∷ cs) = escape_char c ++ escape_text cs

unfoldable pub quoted : Text → Text
quoted s = 34 ∷ escape_text s ++ 34 ∷ []

module _ (comma colon : Text) where
  unfoldable mutual
    pub dumps : Value → Result Text
    dumps null = ok (codes "null")
    dumps (a_text s) = ok (quoted s)
    dumps (a_number n) = ok (decimal n)
    dumps (a_moment n) = err type_error
    dumps (a_flag true) = ok (codes "true")
    dumps (a_flag false) = ok (codes "false")
    dumps (a_list vs) = do t ← dump_values [] vs; ok (b'[' ∷ t ++ b']' ∷ [])
    dumps (a_dict d) = do t ← dump_entries [] d; ok (b'{' ∷ t ++ b'}' ∷ [])

    pub dump_values : Text → Values → Result Text
    dump_values before no_values = ok []
    dump_values before (value_and v vs) = do
      t ← dumps v
      rest ← dump_values comma vs
      ok (before ++ t ++ rest)

    pub dump_entries : Text → Dict → Result Text
    dump_entries before no_entries = ok []
    dump_entries before (entry k v d) = do
      t ← dumps v
      rest ← dump_entries comma d
      ok (before ++ quoted k ++ colon ++ t ++ rest)

-- `json.dumps(value)`.
unfoldable pub json_dumps : Value → Result Text
json_dumps = dumps (codes ", ") (codes ": ")

-- `json.dumps(value, separators=(",", ":"))`.
unfoldable pub compact_dumps : Value → Result Text
compact_dumps = dumps (codes ",") (codes ":")
