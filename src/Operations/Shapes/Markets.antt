-- ===== src/Operations/Shapes/Markets.antt =====
-- The shapes of the operations of Operations/Markets.antt: each class makes the layout of its operation.
use hive_nectar.Prelude.{[], ◌∷◌}
use hive_nectar.Wire.Format.{text, time, asset, u8, u32}
use hive_nectar.Objects.{Outside}
use hive_nectar.Objects.Shapes.{Makes, object-Makes, after-Makes}
use hive_nectar.Objects.Shapes.Fields.{
  amount_at-Makes, bool_at-Makes, text_at-Makes, time_at-Makes, uint32_at-Makes,
}
use hive_nectar.Operations.Layouts.{layout, rate}
use hive_nectar.Operations.Markets.{
  limit_order_cancel, feed_publish, convert, collateralized_convert, limit_order_create,
  limit_order_create2,
}
use hive_nectar.Operations.Shapes.{IsPlain, exchange_rate_field-Makes}

module _ (outside : Outside) where
  pub feed_publish-Makes : Makes IsPlain (layout (text ∷ rate ∷ [])) (feed_publish outside)
  unfolding feed_publish
  feed_publish-Makes = after-Makes IsPlain _ _ (
      object-Makes IsPlain (text ∷ rate ∷ []) _
        (text_at-Makes IsPlain "publisher", (exchange_rate_field-Makes outside, tt)))

  pub convert-Makes : Makes IsPlain (layout (text ∷ u32 ∷ asset ∷ [])) (convert outside)
  unfolding convert
  convert-Makes = object-Makes IsPlain (text ∷ u32 ∷ asset ∷ []) _ (
    text_at-Makes IsPlain "owner",
    (uint32_at-Makes IsPlain "requestid", (amount_at-Makes IsPlain outside "amount", tt)),
  )

  pub collateralized_convert-Makes :
      Makes IsPlain (layout (text ∷ u32 ∷ asset ∷ [])) (collateralized_convert outside)
  unfolding collateralized_convert
  collateralized_convert-Makes = object-Makes IsPlain (text ∷ u32 ∷ asset ∷ []) _ (
    text_at-Makes IsPlain "owner",
    (uint32_at-Makes IsPlain "requestid", (amount_at-Makes IsPlain outside "amount", tt)),
  )

  pub limit_order_create-Makes :
      Makes IsPlain
        (layout (text ∷ u32 ∷ asset ∷ asset ∷ u8 ∷ time ∷ []))
        (limit_order_create outside)
  unfolding limit_order_create
  limit_order_create-Makes = object-Makes IsPlain (text ∷ u32 ∷ asset ∷ asset ∷ u8 ∷ time ∷ []) _ (
    text_at-Makes IsPlain "owner",
    (
      uint32_at-Makes IsPlain "orderid",
      (
        amount_at-Makes IsPlain outside "amount_to_sell",
        (
          amount_at-Makes IsPlain outside "min_to_receive",
          (bool_at-Makes IsPlain "fill_or_kill", (time_at-Makes IsPlain "expiration", tt)),
        ),
      ),
    ),
  )

  pub limit_order_create2-Makes :
      Makes IsPlain
        (layout (text ∷ u32 ∷ asset ∷ u8 ∷ rate ∷ time ∷ []))
        (limit_order_create2 outside)
  unfolding limit_order_create2
  limit_order_create2-Makes = after-Makes IsPlain _ _ (
      object-Makes IsPlain (text ∷ u32 ∷ asset ∷ u8 ∷ rate ∷ time ∷ []) _ (
        text_at-Makes IsPlain "owner",
        (
          uint32_at-Makes IsPlain "orderid",
          (
            amount_at-Makes IsPlain outside "amount_to_sell",
            (
              bool_at-Makes IsPlain "fill_or_kill",
              (exchange_rate_field-Makes outside, (time_at-Makes IsPlain "expiration", tt)),
            ),
          ),
        ),
      ))

pub limit_order_cancel-Makes : Makes IsPlain (layout (text ∷ u32 ∷ [])) limit_order_cancel
unfolding limit_order_cancel
limit_order_cancel-Makes =
    object-Makes IsPlain (text ∷ u32 ∷ []) _
      (text_at-Makes IsPlain "owner", (uint32_at-Makes IsPlain "orderid", tt))
