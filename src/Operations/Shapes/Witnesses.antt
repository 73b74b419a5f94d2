-- ===== src/Operations/Shapes/Witnesses.antt =====
-- The shapes of the operations of Operations/Witnesses.antt: each class makes the layout of its operation.
use hive_nectar.Prelude.{[], ◌∷◌}
use hive_nectar.Wire.Format.{text, asset, key, dict, hex}
use hive_nectar.Objects.{Outside}
use hive_nectar.Objects.Shapes.{Makes, object-Makes, after-Makes}
use hive_nectar.Objects.Shapes.Fields.{amount_at-Makes, no_extensions-Makes, text_at-Makes}
use hive_nectar.Operations.Layouts.{layout, chain_properties, no_extensions}
use hive_nectar.Operations.Witnesses.{witness_set_properties, witness_update}
use hive_nectar.Operations.Shapes.{
  IsPlain, props_dict-Makes, props_field-Makes, signing_key_field-Makes,
}

module _ (outside : Outside) where
  pub witness_set_properties-Makes :
      Makes IsPlain
        (layout (text ∷ dict text hex ∷ no_extensions ∷ []))
        (witness_set_properties outside)
  unfolding witness_set_properties
  witness_set_properties-Makes = after-Makes IsPlain _ _ (
      object-Makes IsPlain (text ∷ dict text hex ∷ no_extensions ∷ []) _ (
        text_at-Makes IsPlain "owner",
        (props_field-Makes outside, (no_extensions-Makes IsPlain, tt)),
      ))

  pub witness_update-Makes :
      Makes IsPlain
        (layout (text ∷ text ∷ key ∷ chain_properties ∷ asset ∷ []))
        (witness_update outside)
  unfolding witness_update
  witness_update-Makes = after-Makes IsPlain _ _ (
      object-Makes IsPlain (text ∷ text ∷ key ∷ chain_properties ∷ asset ∷ []) _ (
        text_at-Makes IsPlain "owner",
        (
          text_at-Makes IsPlain "url",
          (
            signing_key_field-Makes outside,
            (props_dict-Makes outside, (amount_at-Makes IsPlain outside "fee", tt)),
          ),
        ),
      ))
