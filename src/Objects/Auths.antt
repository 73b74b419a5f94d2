-- ===== src/Objects/Auths.antt =====
-- `Permission` and `Memo` of src/nectarbase/objects.py.
use hive_nectar.Prelude.{
  [], ◌∷◌, Bool, true, false, List, map, ltb, ◌==◌, if◌then◌else◌, Result, ok, err, ◌>>=◌,
  type_error, Option, none, some,
}
use hive_nectar.Prelude.Bytes.{Text, codes}
use hive_nectar.Values.{
  Value, a_text, a_dict, Dict, get, has, has_truthy, lookup, put, iterate, element, traverse,
}
use hive_nectar.Wire.{
  Wire, string, uint16, map as wire_map, present, absent, graphene_object, end, Pairs, empty, pair,
}
use hive_nectar.Pool.Sort.{sort}
use hive_nectar.Objects.{
  Outside, Field, from_dict, object, field_at, number_of, string_of, raw_of, prefix_in, uint32_at,
  uint64_at,
}
use hive_nectar.Objects.Keys.{public_key_of, public_key_repr, public_key_at}
use Prim.Native.String.{String}

-- Texts are compared by their code points.
unfoldable pub text_leb : Text → Text → Bool
text_leb [] s = true
text_leb (c ∷ cs) [] = false
text_leb (c ∷ cs) (d ∷ ds) =
    let rest = text_leb cs ds in if ltb c d then true else if c == d then rest else false

-- `sorted(values, key=f)`, where `f` gives texts.
unfoldable pub with_key : (Value → Result Text) → Value → Result (Text × Value)
with_key f value = do k ← f value; ok (k, value)

abbrev pub key_leb : Text × Value → Text × Value → Bool
key_leb x y = text_leb x.0 y.0

unfoldable pub sorted_by : (Value → Result Text) → List Value → Result (List Value)
sorted_by f values = do
  keyed ← traverse (with_key f) values
  ok (map (λ p. p.1) (sort key_leb keyed))

-- `x[0]` of an account's authority, whose name is a text.
unfoldable pub account_name : Value → Result Text
account_name value = do name ← element value 0; elim name [ a_text s ↦ ok s | _ ↦ err type_error ]

unfoldable pub to_pairs : List (Wire × Wire) → Pairs
to_pairs [] = empty
to_pairs ((k, v) ∷ ps) = pair k v (to_pairs ps)

unfoldable pub account_auth : Value → Result (Wire × Wire)
account_auth value = do
  name ← element value 0
  weight ← element value 1
  w ← number_of uint16 weight
  ok (string_of name, w)

module _ (outside : Outside) where
  unfoldable pub key_text : Text → Value → Result Text
  key_text prefix value = do key ← element value 0; public_key_repr outside prefix key

  unfoldable pub key_auth : Text → Value → Result (Wire × Wire)
  key_auth prefix value = do
    key ← element value 0
    k ← public_key_of outside prefix key
    weight ← element value 1
    w ← number_of uint16 weight
    ok (k, w)

  -- The maps of a permission: the keys are sorted before the accounts, and written behind them.
  unfoldable pub auth_maps : Text → Dict → Result (Wire × Wire)
  auth_maps prefix kwargs = do
    keys ← get kwargs (codes "key_auths")
    keys' ← iterate keys
    key_auths ← sorted_by (key_text prefix) keys'
    accounts ← get kwargs (codes "account_auths")
    accounts' ← iterate accounts
    account_auths ← sorted_by account_name accounts'
    account_pairs ← traverse account_auth account_auths
    key_pairs ← traverse (key_auth prefix) key_auths
    ok (wire_map (to_pairs account_pairs), wire_map (to_pairs key_pairs))

  -- `Permission(kwargs, prefix=prefix)`.
  unfoldable pub permission : Text → Dict → Result Wire
  permission prefix kwargs = do
    (accounts, keys) ← auth_maps prefix kwargs
    object (uint32_at "weight_threshold" ∷ (λ _. ok accounts) ∷ (λ _. ok keys) ∷ []) kwargs

  unfoldable pub permission_at : String → Field
  permission_at key kwargs = do
    v ← get kwargs (codes key)
    from_dict (permission (prefix_in kwargs)) v

  -- `GrapheneOptional(f(kwargs[key])) if key in kwargs else GrapheneOptional(None)`.
  unfoldable pub optional_at : String → Field → Field
  optional_at key f kwargs =
      if has kwargs (codes key) then (do w ← f kwargs; ok (present w)) else ok absent

  -- `Memo(**kwargs)`. Without `encrypted` it has no data.
  unfoldable pub memo : Dict → Result Wire
  memo kwargs =
      if has_truthy kwargs (codes "encrypted")
      then object
          (public_key_at outside "from"
            ∷ public_key_at outside "to"
            ∷ uint64_at "nonce"
            ∷ uint32_at "check"
            ∷ field_at (λ v. ok (raw_of v)) "encrypted"
            ∷ [])
          kwargs
      else ok (graphene_object end)

  -- The memo of a transfer: a text, the fields of an encrypted memo, or a `Memo` around what is
  -- neither, which has no data.
  unfoldable pub memo_of : Text → Option Value → Result Wire
  memo_of prefix none = ok (string [])
  memo_of prefix (some (a_text s)) = ok (string s)
  memo_of prefix (some (a_dict d)) = do
    w ← memo (put (codes "prefix") (a_text prefix) d)
    ok (present w)
  memo_of prefix (some _) = ok (present (graphene_object end))

  unfoldable pub memo_field : Field
  memo_field kwargs = memo_of (prefix_in kwargs) (lookup kwargs (codes "memo"))
