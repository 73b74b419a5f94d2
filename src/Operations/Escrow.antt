-- ===== src/Operations/Escrow.antt =====
-- Escrow: src/nectarbase/operations.py. The two branches of a transfer and of a release differ in the
-- text of their amounts only, and not on the wire.
use hive_nectar.Prelude.{[], ◌∷◌}
use hive_nectar.Objects.{Outside, Field, object, after, text_at, time_at, bool_at, uint32_at}
use hive_nectar.Objects.Amounts.{amount_at}
use hive_nectar.Operations.{meta_at, dumped}

module _ (outside : Outside) where
  unfoldable pub escrow_transfer : Field
  escrow_transfer = after (meta_at dumped "json_meta" ∷ []) (
      object (
        text_at "from"
        ∷ text_at "to"
        ∷ text_at "agent"
        ∷ uint32_at "escrow_id"
        ∷ amount_at outside "hbd_amount"
        ∷ amount_at outside "hive_amount"
        ∷ amount_at outside "fee"
        ∷ time_at "ratification_deadline"
        ∷ time_at "escrow_expiration"
        ∷ meta_at dumped "json_meta"
        ∷ []))

  unfoldable pub escrow_release : Field
  escrow_release = object (
      text_at "from"
      ∷ text_at "to"
      ∷ text_at "who"
      ∷ uint32_at "escrow_id"
      ∷ amount_at outside "hbd_amount"
      ∷ amount_at outside "hive_amount"
      ∷ [])

unfoldable pub escrow_dispute : Field
escrow_dispute = object (text_at "from" ∷ text_at "to" ∷ text_at "who" ∷ uint32_at "escrow_id" ∷ [])

unfoldable pub escrow_approve : Field
escrow_approve = object (
    text_at "from"
    ∷ text_at "to"
    ∷ text_at "agent"
    ∷ text_at "who"
    ∷ uint32_at "escrow_id"
    ∷ bool_at "approve"
    ∷ [])
