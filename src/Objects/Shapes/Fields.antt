-- ===== src/Objects/Shapes/Fields.antt =====
-- The shapes of the fields that src/nectarbase/operations.py makes out of keyword arguments.
use hive_nectar.Prelude.{ℕ, [], ◌∷◌, Result, >>=-eq-ok}
use hive_nectar.Prelude.Bytes.{Text, codes}
use hive_nectar.Values.{
  Value, null, a_text, a_number, a_moment, a_flag, a_list, a_dict, Dict, get, has,
}
use hive_nectar.Wire.{Wire, uint8, int16, uint16, uint32, uint64}
use hive_nectar.Wire.Format.{
  Format, text, time, u8, i16, u16, u32, u64, list, maybe, dict, asset, key, variant, nothing,
}
use hive_nectar.Wire.Shape.{
  u8_shape, i16_shape, u16_shape, u32_shape, u64_shape, list_shape, no_items, present_shape,
  absent_shape, variant_shape,
}
use hive_nectar.Objects.{
  Outside, Field, text_at, time_at, truth_at, bool_at, int16_at, uint16_at, uint32_at, uint64_at,
  texts_at, uint64s_at, prefix_in, from_dict, no_extensions, beneficiary, beneficiaries, variant_of,
  variant_parts, is_id, comment_option_extension, update_proposal_extension,
  update_proposal_end_date,
}
use hive_nectar.Objects.Amounts.{amount_at, exchange_rate}
use hive_nectar.Objects.Keys.{public_key_at}
use hive_nectar.Objects.Auths.{permission, permission_at, optional_at, auth_maps}
use hive_nectar.Objects.Shapes.{
  Yields, ok-Yields, err-Yields, bind-Yields, if-Yields, string_of-Shaped, time_of-Shaped,
  truth_of-Shaped, number_of-Yields, array_of-Yields, Makes, object-Makes, field_at-Makes,
}
use hive_nectar.Objects.Shapes.Parts.{amount_of-Yields, public_key_of-Yields, auth_maps-Shaped}
use hive_nectar.Operations.Layouts.{
  layout, authority, rate, beneficiary_list, only, no_extensions as extension_list,
}
use Prim.Native.String.{String}

pub from_dict-Yields :
    {f : Format} (make : Dict → Result Wire) (v : Value)
    → ((d : Dict) → Yields f (make d))
    → Yields f (from_dict make v)
from_dict-Yields make (a_dict d) m = m d
from_dict-Yields make null m = err-Yields
from_dict-Yields make (a_text s) m = err-Yields
from_dict-Yields make (a_number n) m = err-Yields
from_dict-Yields make (a_moment n) m = err-Yields
from_dict-Yields make (a_flag b) m = err-Yields
from_dict-Yields make (a_list vs) m = err-Yields

module _ (P : Dict → Type 0) where
  pub text_at-Makes : (k : String) → Makes P text (text_at k)
  unfolding text_at
  text_at-Makes k = field_at-Makes P _ k (λ v. ok-Yields (string_of-Shaped v))

  pub time_at-Makes : (k : String) → Makes P time (time_at k)
  unfolding time_at
  time_at-Makes k = field_at-Makes P _ k (λ v. ok-Yields (time_of-Shaped v))

  pub truth_at-Makes : (k : String) → Makes P u8 (truth_at k)
  unfolding truth_at
  truth_at-Makes k = field_at-Makes P _ k (λ v. ok-Yields (truth_of-Shaped v))

  pub bool_at-Makes : (k : String) → Makes P u8 (bool_at k)
  unfolding bool_at
  bool_at-Makes k = field_at-Makes P _ k (λ v. number_of-Yields uint8 v u8_shape)

  pub int16_at-Makes : (k : String) → Makes P i16 (int16_at k)
  unfolding int16_at
  int16_at-Makes k = field_at-Makes P _ k (λ v. number_of-Yields int16 v i16_shape)

  pub uint16_at-Makes : (k : String) → Makes P u16 (uint16_at k)
  unfolding uint16_at
  uint16_at-Makes k = field_at-Makes P _ k (λ v. number_of-Yields uint16 v u16_shape)

  pub uint32_at-Makes : (k : String) → Makes P u32 (uint32_at k)
  unfolding uint32_at
  uint32_at-Makes k = field_at-Makes P _ k (λ v. number_of-Yields uint32 v u32_shape)

  pub uint64_at-Makes : (k : String) → Makes P u64 (uint64_at k)
  unfolding uint64_at
  uint64_at-Makes k = field_at-Makes P _ k (λ v. number_of-Yields uint64 v u64_shape)

  pub texts_at-Makes : (k : String) → Makes P (list text) (texts_at k)
  unfolding texts_at
  texts_at-Makes k =
      field_at-Makes P _ k (λ v. array_of-Yields _ v (λ v. ok-Yields (string_of-Shaped v)))

  pub uint64s_at-Makes : (k : String) → Makes P (list u64) (uint64s_at k)
  unfolding uint64s_at
  uint64s_at-Makes k =
      field_at-Makes P _ k (λ v. array_of-Yields _ v (λ v. number_of-Yields uint64 v u64_shape))

  pub no_extensions-Makes : Makes P extension_list no_extensions
  unfolding no_extensions
  no_extensions-Makes kwargs p = ok-Yields (list_shape (no_items nothing))

  module _ (outside : Outside) where
    pub amount_at-Makes : (k : String) → Makes P asset (amount_at outside k)
    unfolding amount_at
    amount_at-Makes k kwargs p w h =
        let (v, _, h') = >>=-eq-ok (get kwargs (codes k)) _ h in
        amount_of-Yields outside (prefix_in kwargs) v w h'

    pub exchange_rate-Makes : Makes P rate (exchange_rate outside)
    unfolding exchange_rate
    exchange_rate-Makes =
        object-Makes P (asset ∷ asset ∷ []) _
          (amount_at-Makes "base", (amount_at-Makes "quote", tt))

    pub public_key_at-Makes : (k : String) → Makes P key (public_key_at outside k)
    unfolding public_key_at
    public_key_at-Makes k kwargs p w h =
        let (v, _, h') = >>=-eq-ok (get kwargs (codes k)) _ h in
        public_key_of-Yields outside (prefix_in kwargs) v w h'

    pub optional_at-Makes :
        {f : Format} (k : String) (g : Field)
        → Makes P f g
        → Makes P (maybe f) (optional_at outside k g)
    unfolding optional_at
    optional_at-Makes {f} k g m kwargs p =
        if-Yields (has kwargs (codes k))
          (bind-Yields (λ w e. ok-Yields (present_shape (m kwargs p w e))))
          (ok-Yields (absent_shape f))

abbrev Anything : Dict → Type 0
Anything d = Unit

module _ (outside : Outside) where
  permission-Yields : (prefix : Text) (d : Dict) → Yields authority (permission outside prefix d)
  unfolding permission
  permission-Yields prefix d w h =
      let (maps, e, h') = >>=-eq-ok (auth_maps outside prefix d) _ h in
      let (accounts, keys) = auth_maps-Shaped outside prefix d maps e in
      object-Makes Anything (u32 ∷ dict text u16 ∷ dict key u16 ∷ []) _
        (
          uint32_at-Makes Anything "weight_threshold",
          (λ _ _. ok-Yields accounts, (λ _ _. ok-Yields keys, tt)),
        )
        d tt w h'

  pub permission_at-Makes :
      (P : Dict → Type 0) (k : String) → Makes P authority (permission_at outside k)
  unfolding permission_at
  permission_at-Makes P k kwargs p w h =
      let (v, _, h') = >>=-eq-ok (get kwargs (codes k)) _ h in
      from_dict-Yields _ v (permission-Yields (prefix_in kwargs)) w h'

variant_of-Yields :
    {f : Format} (name : String) (n : ℕ) (make : Dict → Result Wire) (v : Value)
    → ((d : Dict) → Yields f (make d))
    → Yields (variant (only n f)) (variant_of name n make v)
unfolding variant_of
variant_of-Yields name n make v m w h =
    let (parts, _, h') = >>=-eq-ok (variant_parts name n v) _ h in
    if-Yields (is_id n parts.0)
      (bind-Yields
        (λ x e. ok-Yields (variant_shape (only n _) n (from_dict-Yields make parts.1 m x e))))
      err-Yields w h'

beneficiaries-Yields : (d : Dict) → Yields beneficiary_list (beneficiaries d)
unfolding beneficiaries beneficiary
beneficiaries-Yields d =
    object-Makes Anything (list (layout (text ∷ i16 ∷ [])) ∷ []) _
      (
        field_at-Makes Anything _ "beneficiaries" (λ v. array_of-Yields _ v (λ v.
            from_dict-Yields _ v (λ d.
              object-Makes Anything (text ∷ i16 ∷ []) _
                (text_at-Makes Anything "account", (int16_at-Makes Anything "weight", tt)) d tt))),
        tt,
      )
      d tt

pub comment_option_extension-Yields :
    (v : Value) → Yields (variant (only 0 beneficiary_list)) (comment_option_extension v)
unfolding comment_option_extension
comment_option_extension-Yields v = variant_of-Yields _ 0 beneficiaries v beneficiaries-Yields

pub update_proposal_extension-Yields :
    (v : Value) → Yields (variant (only 1 (layout (time ∷ [])))) (update_proposal_extension v)
unfolding update_proposal_extension update_proposal_end_date
update_proposal_extension-Yields v =
    variant_of-Yields _ 1 _ v
      (λ d. object-Makes Anything (time ∷ []) _ (time_at-Makes Anything "end_date", tt) d tt)
