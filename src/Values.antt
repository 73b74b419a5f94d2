-- ===== src/Values.antt =====
-- Python values as the constructors of src/nectarbase/operations.py and objects.py take them, with
-- what these use of the language: subscripts, `in`, truth, iteration and `int`. Lists and
-- dictionaries are shared by nothing that is modelled, so their changes are new values.
pub mod Json
mod Tests
use hive_nectar.Prelude.{
  ℕ, zero, suc, ◌+◌, ◌-◌, ◌*◌, Bool, true, false, not, ◌&&◌, ◌||◌, Option, none, some, List, [],
  ◌∷◌, ◌++◌, map, leb, ltb, ◌==◌, if◌then◌else◌, length, get_elem?, Result, ok, err, ◌>>=◌,
  key_error, type_error, value_error, index_error, bytes_eq,
}
use hive_nectar.Prelude.Int.{ℤ, pos, negsuc, sub_ℕ}
use hive_nectar.Prelude.Bytes.{Text, codes}

-- `a_moment` is a date, as a `datetime` or as a text in the format of the nodes, by the seconds that
-- `timegm` gives for it.
mutual
  pub data Value : Type 0 where
    null : Value
    a_text : Text → Value
    a_number a_moment : ℤ → Value
    a_flag : Bool → Value
    a_list : Values → Value
    a_dict : Dict → Value

  pub data Values : Type 0 where
    no_values : Values
    value_and : Value → Values → Values

  pub data Dict : Type 0 where
    no_entries : Dict
    entry : Text → Value → Dict → Dict

unfoldable pub to_list : Values → List Value
to_list no_values = []
to_list (value_and v vs) = v ∷ to_list vs

unfoldable pub keys : Dict → List Text
keys no_entries = []
keys (entry k v d) = k ∷ keys d

unfoldable pub lookup : Dict → Text → Option Value
lookup no_entries key = none
lookup (entry k v d) key = let rest = lookup d key in if bytes_eq k key then some v else rest

-- `d[key]`.
unfoldable pub get : Dict → Text → Result Value
get d key = elim (lookup d key) [ none ↦ err key_error | some v ↦ ok v ]

-- `d.get(key, default)`.
unfoldable pub get_or : Dict → Text → Value → Value
get_or d key default = elim (lookup d key) [ none ↦ default | some v ↦ v ]

-- `key in d`.
unfoldable pub has : Dict → Text → Bool
has d key = elim (lookup d key) [ none ↦ false | some v ↦ true ]

-- `d[key] = v`, in front of an entry that it hides.
abbrev pub put : Text → Value → Dict → Dict
put = entry

unfoldable pub truthy : Value → Bool
truthy null = false
truthy (a_text s) = not (length s == 0)
truthy (a_number (pos n)) = not (n == 0)
truthy (a_number (negsuc n)) = true
truthy (a_moment n) = true
truthy (a_flag b) = b
truthy (a_list no_values) = false
truthy (a_list (value_and v vs)) = true
truthy (a_dict no_entries) = false
truthy (a_dict (entry k v d)) = true

-- `key in d and d[key]`.
unfoldable pub has_truthy : Dict → Text → Bool
has_truthy d key = elim (lookup d key) [ none ↦ false | some v ↦ truthy v ]

-- `for x in value`.
unfoldable pub iterate : Value → Result (List Value)
iterate (a_list vs) = ok (to_list vs)
iterate (a_text s) = ok (map (λ c. a_text (c ∷ [])) s)
iterate (a_dict d) = ok (map a_text (keys d))
iterate _ = err type_error

-- `len(value)`.
unfoldable pub len : Value → Result ℕ
len value = do vs ← iterate value; ok (length vs)

-- `value[i]` for a number `i`. No key of a dictionary is a number.
unfoldable pub element : Value → ℕ → Result Value
element (a_dict d) i = err key_error
element value i = do
  vs ← iterate value
  elim (get_elem? vs i) [ none ↦ err index_error | some v ↦ ok v ]

-- `value[key]` for a text `key`.
unfoldable pub member : Value → Text → Result Value
member (a_dict d) key = get d key
member _ key = err type_error

-- The digits of a number, single underscores between them.
unfoldable pub read_digits : Bool → ℕ → Text → Result ℕ
read_digits after n [] = if after then ok n else err value_error
read_digits after n (c ∷ cs) =
    let digit = read_digits true (10 * n + (c - 48)) cs in
    let next = read_digits false n cs in
    if leb 48 c && leb c 57 then digit else if c == b'_' && after then next else err value_error

unfoldable pub is_space : ℕ → Bool
is_space c = (leb 9 c && leb c 13) || (leb 28 c && leb c 32)

unfoldable pub trim_start : Text → Text
trim_start [] = []
trim_start (c ∷ cs) = let rest = trim_start cs in if is_space c then rest else c ∷ cs

unfoldable pub trim_end : Text → Text
trim_end [] = []
trim_end (c ∷ cs) =
    let rest = trim_end cs in if is_space c && length rest == 0 then [] else c ∷ rest

-- `s.strip()`, of the spaces of ASCII.
unfoldable pub strip : Text → Text
strip s = trim_start (trim_end s)

unfoldable pub read_signed_digits : Text → Result ℤ
read_signed_digits [] = err value_error
read_signed_digits (c ∷ cs) =
    if c == b'-'
    then (do n ← read_digits false 0 cs; ok (sub_ℕ 0 n))
    else if c == b'+'
    then (do n ← read_digits false 0 cs; ok (pos n))
    else (do n ← read_digits false 0 (c ∷ cs); ok (pos n))

-- `int(value)`. Of texts the digits of ASCII are read.
unfoldable pub int : Value → Result ℤ
int (a_number n) = ok n
int (a_flag true) = ok (pos 1)
int (a_flag false) = ok (pos 0)
int (a_text s) = read_signed_digits (strip s)
int _ = err type_error

-- `f` of every element, up to the first that raises.
module _ {ℓ κ} {A : Type ℓ} {B : Type κ} (f : A → Result B) where
  unfoldable pub traverse : List A → Result (List B)
  traverse [] = ok []
  traverse (x ∷ xs) = do y ← f x; ys ← traverse xs; ok (y ∷ ys)
