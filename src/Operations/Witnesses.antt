-- ===== src/Operations/Witnesses.antt =====
-- `Witness_update` and `Witness_set_properties` of src/nectarbase/operations.py.
use hive_nectar.Prelude.{
  [], ◌∷◌, ◌++◌, ◌>>=◌, ok, err, type_error, Result, Bool, true, false, List, map, if◌then◌else◌,
  all, bytes_eq, none, some,
}
use mathlib.Core.List.{any}
use hive_nectar.Prelude.Bytes.{Text, codes, hexlify, hex_value}
use hive_nectar.Values.{
  Value, a_text, a_number, a_flag, a_dict, get, has_truthy, iterate, element, traverse,
}
use hive_nectar.Wire.{Wire, string, uint16, uint32, map as wire_map, to_bytes}
use hive_nectar.Pool.Sort.{sort}
use hive_nectar.Objects.{
  Outside, Field, object, after, text_at, prefix_in, number_of, string_of, hex_of, from_dict,
  no_extensions,
}
use hive_nectar.Objects.Amounts.{amount_at, amount_of, exchange_rate, witness_props, with_prefix}
use hive_nectar.Objects.Keys.{public_key_of, public_key_repr}
use hive_nectar.Objects.Auths.{to_pairs, key_leb}

abbrev pub null_key : Text
null_key = codes "1111111111111111111111111111111114T1Anm"

-- The names and values that are set, in the order in which they were set first.
unfoldable pub set_prop : Text → Value → List (Text × Value) → List (Text × Value)
set_prop name value [] = (name, value) ∷ []
set_prop name value ((k, v) ∷ props) =
    let rest = set_prop name value props in
    if bytes_eq k name then (k, value) ∷ props else (k, v) ∷ rest

-- The kind of a property, by its name.
pub data Prop : Type 0 where
  key_prop word_prop half_prop fee_prop rate_prop url_prop other_prop : Prop

abbrev pub one_of : Text → List Text → Bool
one_of name names = any names (bytes_eq name)

unfoldable pub prop_of : Text → Prop
prop_of name =
    if one_of name (codes "key" ∷ codes "new_signing_key" ∷ [])
    then key_prop
    else if one_of name (
        codes "account_subsidy_budget"
        ∷ codes "account_subsidy_decay"
        ∷ codes "maximum_block_size"
        ∷ [])
    then word_prop
    else if one_of name (codes "sbd_interest_rate" ∷ codes "hbd_interest_rate" ∷ [])
    then half_prop
    else if one_of name (codes "account_creation_fee" ∷ [])
    then fee_prop
    else if one_of name (codes "sbd_exchange_rate" ∷ codes "hbd_exchange_rate" ∷ [])
    then rate_prop
    else if one_of name (codes "url" ∷ [])
    then url_prop
    else other_prop

abbrev is_text_value : Value → Bool
is_text_value (a_text s) = true
is_text_value _ = false

abbrev is_integer : Value → Bool
is_integer (a_number n) = true
is_integer (a_flag b) = true
is_integer _ = false

-- `isinstance(value, str)` and `re.fullmatch(r"[0-9a-fA-F]+", value or "")`.
unfoldable pub is_hex : Value → Bool
is_hex (a_text (c ∷ cs)) = all (λ d. elim (hex_value d) [ none ↦ false | some v ↦ true ]) (c ∷ cs)
is_hex _ = false

-- `hexlify(object.__bytes__()).decode()`.
unfoldable pub hexed : Wire → Result Value
hexed w = do b ← to_bytes w; ok (a_text (hexlify b))

-- The name of a property, which is a text, and its value.
unfoldable pub name_and_value : Value → Result (Text × Value)
name_and_value prop = do
  name ← element prop 0
  value ← element prop 1
  elim name [ a_text s ↦ ok (s, value) | _ ↦ err type_error ]

-- A loop over the properties, up to the first that raises.
unfoldable pub loop :
    (List (Text × Value) → Text × Value → Result (List (Text × Value)))
    → List (Text × Value)
    → List (Text × Value)
    → Result (List (Text × Value))
loop step props [] = ok props
loop step props (p ∷ ps) = do props' ← step props p; loop step props' ps

module _ (outside : Outside) where
  unfoldable pub rate_value : Text → Value → Result Wire
  rate_value prefix (a_dict d) = exchange_rate outside (with_prefix prefix d)
  rate_value prefix _ = err type_error

  -- What a property that is no key is set to.
  unfoldable pub prop_value : Text → Prop → Value → Result Value
  prop_value prefix word_prop value =
      if is_integer value then (number_of uint32 value >>= λ w. hexed w) else ok value
  prop_value prefix half_prop value =
      if is_integer value then (number_of uint16 value >>= λ w. hexed w) else ok value
  prop_value prefix fee_prop value =
      if is_hex value then ok value else (amount_of outside prefix value >>= λ w. hexed w)
  prop_value prefix rate_prop value =
      if is_text_value value then ok value else (rate_value prefix value >>= λ w. hexed w)
  prop_value prefix url_prop value = if is_hex value then ok value else hexed (string_of value)
  prop_value prefix _ value = ok value

  -- The first loop sets the keys, the second the other properties.
  unfoldable pub set_key : Text → List (Text × Value) → Text × Value → Result (List (Text × Value))
  set_key prefix props (name, value) = elim (prop_of name) [
    | key_prop ↦ (do s ← public_key_repr outside prefix value; ok (set_prop name (a_text s) props))
    | _ ↦ ok props
  ]

  unfoldable pub set_other :
      Text → List (Text × Value) → Text × Value → Result (List (Text × Value))
  set_other prefix props (name, value) = elim (prop_of name) [
    | key_prop ↦ ok props
    | p ↦ (do v ← prop_value prefix p value; ok (set_prop name v props))
  ]

  -- The property list, sorted by name.
  unfoldable pub props_field : Field
  props_field kwargs = do
    props ← get kwargs (codes "props")
    vs ← iterate props
    given ← traverse name_and_value vs
    keys ← loop (set_key (prefix_in kwargs)) [] given
    all_props ← loop (set_other (prefix_in kwargs)) keys given
    ok (wire_map (to_pairs (map (λ p. (string p.0, hex_of p.1)) (sort key_leb all_props))))

  unfoldable pub witness_set_properties : Field
  witness_set_properties =
      after (props_field ∷ []) (object (text_at "owner" ∷ props_field ∷ no_extensions ∷ []))

  -- Without a signing key the null key is written.
  unfoldable pub signing_key_field : Field
  signing_key_field kwargs =
      if has_truthy kwargs (codes "block_signing_key")
      then (do
        key ← get kwargs (codes "block_signing_key")
        public_key_of outside (prefix_in kwargs) key)
      else public_key_of outside (prefix_in kwargs) (a_text (prefix_in kwargs ++ null_key))

  unfoldable pub props_dict : Field
  props_dict kwargs = do
    props ← get kwargs (codes "props")
    from_dict (λ d. witness_props outside (with_prefix (prefix_in kwargs) d)) props

  unfoldable pub check_props : Field
  check_props kwargs = do props ← get kwargs (codes "props"); from_dict (object []) props

  unfoldable pub witness_update : Field
  witness_update = after (signing_key_field ∷ check_props ∷ []) (
      object (
        text_at "owner"
        ∷ text_at "url"
        ∷ signing_key_field
        ∷ props_dict
        ∷ amount_at outside "fee"
        ∷ []))
