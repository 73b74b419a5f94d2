-- ===== src/Operations/Shapes.antt =====
-- The shapes of the fields that belong to the classes of src/nectarbase/operations.py, and the keyword
-- arguments for which the classes make the layouts of their operations.
pub mod Funds
pub mod Creation
pub mod Accounts
pub mod Posts
pub mod Witnesses
pub mod Proposals
pub mod Markets
pub mod Escrow
use hive_nectar.Prelude.{
  [], ◌∷◌, ◌++◌, Bool, true, false, ◌||◌, Option, none, some, ◌≡◌, List, ok, ◌>>=◌, >>=-eq-ok,
  Result, Bool-cases, Option-cases, inl, inr, demand, arith, unbound_local_error, if◌then◌else◌,
  map,
}
use hive_nectar.Prelude.Bytes.{Text, codes}
use hive_nectar.Values.{
  Value, null, a_text, a_number, a_moment, a_flag, a_list, a_dict, Dict, get, get_or, has,
  has_truthy, lookup, iterate, traverse,
}
use hive_nectar.Wire.{Wire, string, hex_string}
use hive_nectar.Wire.Format.{
  Format, text, time, asset, key, u16, u32, list, dict, hex, variant, nothing,
}
use hive_nectar.Wire.Shape.{
  Shaped, ShapedPairs, no_pairs, a_pair, dict_shape, text_shape, list_shape, no_items, an_item,
}
use hive_nectar.Pool.Sort.{sort}
use hive_nectar.Objects.{
  Outside, Field, string_of, hex_of, prefix_in, object, from_dict, comment_option_extension,
}
use hive_nectar.Objects.Amounts.{amount_of, exchange_rate, witness_props, with_prefix}
use hive_nectar.Objects.Keys.{public_key_of}
use hive_nectar.Objects.Auths.{memo_field, memo_of, to_pairs, key_leb}
use hive_nectar.Objects.Shapes.{
  Yields, ok-Yields, err-Yields, bind-Yields, if-Yields, string_of-Shaped, hex_of-Shaped, Makes,
  object-Makes, array_of-Yields, field_at-Makes,
}
use hive_nectar.Objects.Shapes.Parts.{amount_of-Yields, public_key_of-Yields}
use hive_nectar.Objects.Shapes.Fields.{
  from_dict-Yields, exchange_rate-Makes, amount_at-Makes, uint32_at-Makes, uint16_at-Makes,
  comment_option_extension-Yields, update_proposal_extension-Yields,
}
use hive_nectar.Operations.{meta_at, meta_of}
use hive_nectar.Operations.Layouts.{rate, chain_properties, only, beneficiary_list, layout}
use hive_nectar.Operations.Funds.{reward_at}
use hive_nectar.Operations.Posts.{json_field, json_text, option_extensions}
use hive_nectar.Operations.Proposals.{end_date_field, end_date_extension}
use hive_nectar.Operations.Markets.{exchange_rate_field}
use hive_nectar.Operations.Witnesses.{
  signing_key_field, props_field, props_dict, null_key, name_and_value, loop, set_key, set_other,
}
use hive_nectar.Prelude.{bytes_eq}
use Prim.Native.String.{String}

abbrev pub Anything : Dict → Type 0
Anything d = Unit

-- A memo, if there is one, is a text.
abbrev pub IsMemo : Option Value → Type 0
IsMemo none = Unit
IsMemo (some (a_text s)) = Unit
IsMemo (some _) = ⊥

-- The properties of a witness, if they are a dictionary, name an interest rate.
abbrev pub IsProps : Option Value → Type 0
IsProps (some (a_dict d)) =
    (has d (codes "sbd_interest_rate") || has d (codes "hbd_interest_rate")) ≡ true
IsProps _ = Unit

-- Keyword arguments that have nothing that changes the layout.
abbrev pub IsPlain : Dict → Type 0
IsPlain d = IsMemo (lookup d (codes "memo")) × IsProps (lookup d (codes "props"))

pub lookup_found : (d : Dict) (k : Text) {v : Value} → get d k ≡ ok v → lookup d k ≡ some v
unfolding get
lookup_found d k h = ground arith

module _ (P : Dict → Type 0) where
  pub meta_at-Makes : (dump : Value → Result Value) (k : String) → Makes P text (meta_at dump k)
  unfolding meta_at
  meta_at-Makes dump k kwargs p w h =
      let (meta, _, h') = >>=-eq-ok (meta_of dump (lookup kwargs (codes k))) _ h in
      ok-Yields (string_of-Shaped meta) w h'

pub json_field-Makes : Makes IsPlain text json_field
unfolding json_field
json_field-Makes kwargs p w h =
    let (js, _, h1) = >>=-eq-ok (json_text (lookup kwargs (codes "json"))) _ h in
    let (v, _, h2) = >>=-eq-ok (demand unbound_local_error js) _ h1 in
    ok-Yields (string_of-Shaped v) w h2

pub option_extensions-Makes :
    Makes Anything (list (variant (only 0 beneficiary_list))) option_extensions
unfolding option_extensions
option_extensions-Makes kwargs p =
    if-Yields (has_truthy kwargs (codes "extensions"))
      (field_at-Makes Anything _ "extensions"
        (λ v. array_of-Yields _ v comment_option_extension-Yields) kwargs tt)
      (ok-Yields (list_shape (no_items _)))

pub end_date_field-Makes :
    Makes IsPlain (list (variant (only 1 (layout (time ∷ []))))) end_date_field
unfolding end_date_field
end_date_field-Makes kwargs p =
    if-Yields (has_truthy kwargs (codes "end_date"))
      (bind-Yields (λ v _. bind-Yields (λ x e. ok-Yields (
        list_shape
          (an_item (update_proposal_extension-Yields (end_date_extension v) x e) (no_items _))))))
      (ok-Yields (list_shape (no_items _)))

memo_of-Yields :
    (outside : Outside) (prefix : Text) (memo : Option Value)
    → IsMemo memo
    → Yields text (memo_of outside prefix memo)
unfolding memo_of
memo_of-Yields outside prefix none p = ok-Yields (text_shape [])
memo_of-Yields outside prefix (some (a_text s)) p = ok-Yields (text_shape s)
memo_of-Yields outside prefix (some null) p = absurd p
memo_of-Yields outside prefix (some (a_number n)) p = absurd p
memo_of-Yields outside prefix (some (a_moment n)) p = absurd p
memo_of-Yields outside prefix (some (a_flag b)) p = absurd p
memo_of-Yields outside prefix (some (a_list vs)) p = absurd p
memo_of-Yields outside prefix (some (a_dict d)) p = absurd p

text_pairs-ShapedPairs :
    (ps : List (Text × Value))
    → ShapedPairs text hex (to_pairs (map (λ p. (string p.0, hex_of p.1)) ps))
unfolding to_pairs
text_pairs-ShapedPairs [] = no_pairs text hex
text_pairs-ShapedPairs (p ∷ ps) =
    a_pair (text_shape p.0) (hex_of-Shaped p.1) (text_pairs-ShapedPairs ps)

module _ (outside : Outside) where
  pub memo_field-Makes : Makes IsPlain text (memo_field outside)
  unfolding memo_field
  memo_field-Makes kwargs p = memo_of-Yields outside (prefix_in kwargs) _ p.0

  pub reward_at-Makes : (k default : String) → Makes IsPlain asset (reward_at outside k default)
  unfolding reward_at
  reward_at-Makes k default kwargs p = amount_of-Yields outside (prefix_in kwargs) _

  pub exchange_rate_field-Makes : Makes IsPlain rate (exchange_rate_field outside)
  unfolding exchange_rate_field
  exchange_rate_field-Makes kwargs p w h =
      let (v, _, h') = >>=-eq-ok (get kwargs (codes "exchange_rate")) _ h in
      from_dict-Yields (λ d. exchange_rate outside (with_prefix (prefix_in kwargs) d)) v
        (λ d. exchange_rate-Makes Anything outside (with_prefix (prefix_in kwargs) d) tt) w h'

  pub signing_key_field-Makes : Makes IsPlain key (signing_key_field outside)
  unfolding signing_key_field
  signing_key_field-Makes kwargs p =
      if-Yields (has_truthy kwargs (codes "block_signing_key"))
        (bind-Yields (λ k _. public_key_of-Yields outside (prefix_in kwargs) k))
        (public_key_of-Yields outside (prefix_in kwargs) _)

  pub props_field-Makes : Makes IsPlain (dict text hex) (props_field outside)
  unfolding props_field
  props_field-Makes kwargs p w h =
      let (props, _, h1) = >>=-eq-ok (get kwargs (codes "props")) _ h in
      let (vs, _, h2) = >>=-eq-ok (iterate props) _ h1 in
      let (given, _, h3) = >>=-eq-ok (traverse name_and_value vs) _ h2 in
      let (keys, _, h4) = >>=-eq-ok (loop (set_key outside (prefix_in kwargs)) [] given) _ h3 in
      let (all_props, _, h5) =
        >>=-eq-ok (loop (set_other outside (prefix_in kwargs)) keys given) _ h4 in
      ok-Yields (dict_shape (text_pairs-ShapedPairs (sort key_leb all_props))) w h5

  rate_branches :
      (b c : Bool) {x y : Result Wire} (z : Result Wire)
      → (b || c) ≡ true
      → Yields chain_properties x
      → Yields chain_properties y
      → Yields chain_properties (if b then x else if c then y else z)
  rate_branches true c z h x y = x
  rate_branches false true z h x y = y
  rate_branches false false z h x y = cc

  witness_props-Yields :
      (d : Dict)
      → (has d (codes "sbd_interest_rate") || has d (codes "hbd_interest_rate")) ≡ true
      → Yields chain_properties (witness_props outside d)
  unfolding witness_props
  witness_props-Yields d h =
      rate_branches (has d (codes "sbd_interest_rate")) (has d (codes "hbd_interest_rate")) _ h
        (object-Makes Anything (asset ∷ u32 ∷ u16 ∷ []) _
          (
            amount_at-Makes Anything outside "account_creation_fee",
            (
              uint32_at-Makes Anything "maximum_block_size",
              (uint16_at-Makes Anything "sbd_interest_rate", tt),
            ),
          )
          d tt)
        (object-Makes Anything (asset ∷ u32 ∷ u16 ∷ []) _
          (
            amount_at-Makes Anything outside "account_creation_fee",
            (
              uint32_at-Makes Anything "maximum_block_size",
              (uint16_at-Makes Anything "hbd_interest_rate", tt),
            ),
          )
          d tt)

  with_prefix-IsProps :
      (prefix : Text) (d : Dict)
      → IsProps (some (a_dict d))
      → IsProps (some (a_dict (with_prefix prefix d)))
  unfolding with_prefix has lookup bytes_eq
  with_prefix-IsProps prefix d h = elim (Bool-cases (has d (codes "prefix"))) [
    | inl e ↦ rw e h
    | inr e ↦ rw e h
  ]

  props-Yields :
      (prefix : Text) (v : Value)
      → IsProps (some v)
      → Yields chain_properties (from_dict (λ d. witness_props outside (with_prefix prefix d)) v)
  props-Yields prefix (a_dict d) h =
      witness_props-Yields (with_prefix prefix d) (with_prefix-IsProps prefix d h)
  props-Yields prefix null h = err-Yields
  props-Yields prefix (a_text s) h = err-Yields
  props-Yields prefix (a_number n) h = err-Yields
  props-Yields prefix (a_moment n) h = err-Yields
  props-Yields prefix (a_flag b) h = err-Yields
  props-Yields prefix (a_list vs) h = err-Yields

  pub props_dict-Makes : Makes IsPlain chain_properties (props_dict outside)
  unfolding props_dict
  props_dict-Makes kwargs p w h =
      let (v, e, h') = >>=-eq-ok (get kwargs (codes "props")) _ h in
      props-Yields (prefix_in kwargs) v (rw (lookup_found kwargs (codes "props") e) at p.1) w h'
