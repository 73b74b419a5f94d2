-- ===== src/Objects/Amounts.antt =====
-- `Amount`, `Price`, `ExchangeRate` and `WitnessProps` of src/nectarbase/objects.py, with the assets of
-- src/nectargraphenebase/chains.py. The texts that `str` gives for an amount are left out.
use hive_nectar.Prelude.{
  ℕ, [], ◌∷◌, ◌&&◌, Option, none, some, List, ◌==◌, if◌then◌else◌, Result, ok, err, ◌>>=◌, demand,
  type_error, value_error, struct_error, attribute_error, general, bytes_eq,
}
use hive_nectar.Prelude.Int.{ℤ, pos}
use hive_nectar.Prelude.Bytes.{Text, codes}
use hive_nectar.Values.{
  Value, Values, null, a_text, a_number, a_flag, a_list, a_dict, Dict, get, get_or, has, put,
  element, member, int, strip,
}
use hive_nectar.Values.Json.{json_dumps, decimal}
use hive_nectar.Wire.{Wire, amount, unwritable}
use hive_nectar.Objects.{Outside, Field, object, prefix_in, uint16_at, uint32_at, written}
use Prim.Native.String.{String}

pub record Asset : Type 0 where
  pub asset : Text
  pub symbol : Text
  pub precision : ℕ

abbrev pub chain_prefix : Text
chain_prefix = codes "STM"

abbrev pub chain_assets : List Asset
chain_assets =
    record { asset = codes "@@000000013"; symbol = codes "HBD"; precision = 3 }
    ∷ record { asset = codes "@@000000021"; symbol = codes "HIVE"; precision = 3 }
    ∷ record { asset = codes "@@000000037"; symbol = codes "VESTS"; precision = 6 }
    ∷ []

-- The assets of the known chains with a prefix: there is one chain.
abbrev pub assets_of : Text → List Asset
assets_of prefix = if bytes_eq chain_prefix prefix then chain_assets else []

-- The precision of the first asset that has the text as its symbol or its number.
unfoldable pub find_precision : Text → List Asset → Option ℕ
find_precision s [] = none
find_precision s (a ∷ assets) =
    let rest = find_precision s assets in
    if bytes_eq (Asset.symbol a) s
    then some (Asset.precision a)
    else if bytes_eq (Asset.asset a) s
    then some (Asset.precision a)
    else rest

-- The symbol of the last asset with the number.
unfoldable pub find_symbol : Value → List Asset → Option Text
find_symbol (a_text s) [] = none
find_symbol (a_text s) (a ∷ assets) = elim (find_symbol (a_text s) assets) [
  | some t ↦ some t
  | none ↦ if bytes_eq (Asset.asset a) s then some (Asset.symbol a) else none
]
find_symbol _ assets = none

-- `s.split(" ")`.
unfoldable pub split_spaces : Text → List Text
split_spaces [] = [] ∷ []
split_spaces (c ∷ cs) = elim (split_spaces cs) [
  | [] ↦ []
  | w ∷ ws ↦ if c == b' ' then [] ∷ w ∷ ws else (c ∷ w) ∷ ws
]

-- `struct.pack("<b", precision)` takes integers only.
abbrev index_of : Value → Result ℤ
index_of (a_number n) = ok n
index_of (a_flag b) = int (a_flag b)
index_of _ = err struct_error

-- The amount and the precision are looked at when the object is written.
unfoldable pub amount_from : Result ℤ → Result ℤ → Text → Wire
amount_from (err raised) precision symbol = unwritable raised
amount_from (ok n) precision symbol = written (λ p. amount n p symbol) precision

unfoldable pub amount_object : Value → Value → Text → Wire
amount_object value precision symbol = amount_from (int value) (index_of precision) symbol

-- `str(symbol)`, of a text or of nothing.
abbrev str : Value → Result Text
str (a_text s) = ok s
str null = ok (codes "None")
str (a_number n) = ok (decimal n)
str _ = err type_error

-- `asset_obj.get("symbol")`, as a text.
abbrev pub symbol_of : Value → Result Text
symbol_of (a_dict asset) = str (get_or asset (codes "symbol") null)
symbol_of _ = err attribute_error

module _ (outside : Outside) where
  unfoldable pub amount_of_parts : Text → List Text → Result Wire
  amount_of_parts prefix (number' ∷ symbol ∷ []) = do
    p ← demand general (find_precision symbol (assets_of prefix))
    n ← Outside.scale outside (a_text number') (a_number (pos p))
    ok (amount n (pos p) symbol)
  amount_of_parts prefix _ = err value_error

  -- The two kinds of dictionary, with a number and with an asset.
  unfoldable pub amount_of_nai : Text → Dict → Result Wire
  amount_of_nai prefix d = do
    nai ← get d (codes "nai")
    symbol ← demand value_error (find_symbol nai (assets_of prefix))
    value ← get d (codes "amount")
    precision ← get d (codes "precision")
    _ ← json_dumps (a_dict d)
    ok (amount_object value precision symbol)

  unfoldable pub amount_of_asset : Dict → Result Wire
  amount_of_asset d = do
    value ← get d (codes "amount")
    asset ← get d (codes "asset")
    precision ← member asset (codes "precision")
    symbol ← symbol_of asset
    n ← Outside.scale outside value precision
    _ ← json_dumps (a_dict d)
    ok (amount_object (a_number n) precision symbol)

  unfoldable pub amount_of_dict : Text → Dict → Result Wire
  amount_of_dict prefix d =
      if has d (codes "nai")
      then amount_of_nai prefix d
      else if has d (codes "amount") && has d (codes "asset")
      then amount_of_asset d
      else err attribute_error

  unfoldable pub amount_of_list : Text → Values → Result Wire
  amount_of_list prefix vs = do
    value ← element (a_list vs) 0
    asset ← element (a_list vs) 2
    precision ← element (a_list vs) 1
    symbol ← demand value_error (find_symbol asset (assets_of prefix))
    ok (amount_object value precision symbol)

  -- `Amount(value, prefix)`.
  unfoldable pub amount_of : Text → Value → Result Wire
  amount_of prefix (a_text s) = amount_of_parts prefix (split_spaces (strip s))
  amount_of prefix (a_list vs) = amount_of_list prefix vs
  amount_of prefix (a_dict d) = amount_of_dict prefix d
  amount_of prefix _ = err attribute_error

  -- `Amount(kwargs[key], prefix=prefix)`.
  unfoldable pub amount_at : String → Field
  amount_at key kwargs = do v ← get kwargs (codes key); amount_of (prefix_in kwargs) v

  -- `Price`, and `ExchangeRate` as well.
  unfoldable pub price : Dict → Result Wire
  price = object (amount_at "base" ∷ amount_at "quote" ∷ [])

  unfoldable pub exchange_rate : Dict → Result Wire
  exchange_rate = object (amount_at "base" ∷ amount_at "quote" ∷ [])

  unfoldable pub witness_props : Dict → Result Wire
  witness_props kwargs =
      if has kwargs (codes "sbd_interest_rate")
      then object
          (amount_at "account_creation_fee"
            ∷ uint32_at "maximum_block_size"
            ∷ uint16_at "sbd_interest_rate"
            ∷ [])
          kwargs
      else if has kwargs (codes "hbd_interest_rate")
      then object
          (amount_at "account_creation_fee"
            ∷ uint32_at "maximum_block_size"
            ∷ uint16_at "hbd_interest_rate"
            ∷ [])
          kwargs
      else object (amount_at "account_creation_fee" ∷ uint32_at "maximum_block_size" ∷ []) kwargs

-- `if "prefix" not in d: d["prefix"] = prefix`.
unfoldable pub with_prefix : Text → Dict → Dict
with_prefix prefix d = if has d (codes "prefix") then d else put (codes "prefix") (a_text prefix) d
