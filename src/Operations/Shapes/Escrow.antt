-- ===== src/Operations/Shapes/Escrow.antt =====
-- The shapes of the operations of Operations/Escrow.antt: each class makes the layout of its operation.
use hive_nectar.Prelude.{[], ◌∷◌}
use hive_nectar.Wire.Format.{text, time, asset, u8, u32}
use hive_nectar.Objects.{Outside}
use hive_nectar.Objects.Shapes.{Makes, object-Makes, after-Makes}
use hive_nectar.Objects.Shapes.Fields.{
  amount_at-Makes, bool_at-Makes, text_at-Makes, time_at-Makes, uint32_at-Makes,
}
use hive_nectar.Operations.{dumped}
use hive_nectar.Operations.Layouts.{layout}
use hive_nectar.Operations.Escrow.{escrow_transfer, escrow_release, escrow_dispute, escrow_approve}
use hive_nectar.Operations.Shapes.{IsPlain, meta_at-Makes}

module _ (outside : Outside) where
  pub escrow_transfer-Makes :
      Makes IsPlain
        (layout (text ∷ text ∷ text ∷ u32 ∷ asset ∷ asset ∷ asset ∷ time ∷ time ∷ text ∷ []))
        (escrow_transfer outside)
  unfolding escrow_transfer
  escrow_transfer-Makes = after-Makes IsPlain _ _ (
      object-Makes IsPlain
        (text ∷ text ∷ text ∷ u32 ∷ asset ∷ asset ∷ asset ∷ time ∷ time ∷ text ∷ []) _
        (
          text_at-Makes IsPlain "from",
          (
            text_at-Makes IsPlain "to",
            (
              text_at-Makes IsPlain "agent",
              (
                uint32_at-Makes IsPlain "escrow_id",
                (
                  amount_at-Makes IsPlain outside "hbd_amount",
                  (
                    amount_at-Makes IsPlain outside "hive_amount",
                    (
                      amount_at-Makes IsPlain outside "fee",
                      (
                        time_at-Makes IsPlain "ratification_deadline",
                        (
                          time_at-Makes IsPlain "escrow_expiration",
                          (meta_at-Makes IsPlain dumped "json_meta", tt),
                        ),
                      ),
                    ),
                  ),
                ),
              ),
            ),
          ),
        ))

  pub escrow_release-Makes :
      Makes IsPlain
        (layout (text ∷ text ∷ text ∷ u32 ∷ asset ∷ asset ∷ []))
        (escrow_release outside)
  unfolding escrow_release
  escrow_release-Makes = object-Makes IsPlain (text ∷ text ∷ text ∷ u32 ∷ asset ∷ asset ∷ []) _ (
    text_at-Makes IsPlain "from",
    (
      text_at-Makes IsPlain "to",
      (
        text_at-Makes IsPlain "who",
        (
          uint32_at-Makes IsPlain "escrow_id",
          (
            amount_at-Makes IsPlain outside "hbd_amount",
            (amount_at-Makes IsPlain outside "hive_amount", tt),
          ),
        ),
      ),
    ),
  )

pub escrow_dispute-Makes : Makes IsPlain (layout (text ∷ text ∷ text ∷ u32 ∷ [])) escrow_dispute
unfolding escrow_dispute
escrow_dispute-Makes = object-Makes IsPlain (text ∷ text ∷ text ∷ u32 ∷ []) _ (
  text_at-Makes IsPlain "from",
  (
    text_at-Makes IsPlain "to",
    (text_at-Makes IsPlain "who", (uint32_at-Makes IsPlain "escrow_id", tt)),
  ),
)

pub escrow_approve-Makes :
    Makes IsPlain (layout (text ∷ text ∷ text ∷ text ∷ u32 ∷ u8 ∷ [])) escrow_approve
unfolding escrow_approve
escrow_approve-Makes = object-Makes IsPlain (text ∷ text ∷ text ∷ text ∷ u32 ∷ u8 ∷ []) _ (
  text_at-Makes IsPlain "from",
  (
    text_at-Makes IsPlain "to",
    (
      text_at-Makes IsPlain "agent",
      (
        text_at-Makes IsPlain "who",
        (uint32_at-Makes IsPlain "escrow_id", (bool_at-Makes IsPlain "approve", tt)),
      ),
    ),
  ),
)
