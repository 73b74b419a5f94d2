-- ===== src/Operations/Shapes/Funds.antt =====
-- The shapes of the operations of Operations/Funds.antt: each class makes the layout of its operation.
use hive_nectar.Prelude.{[], ◌∷◌, >>=-eq-ok}
use hive_nectar.Prelude.Bytes.{codes}
use hive_nectar.Values.{get}
use hive_nectar.Wire.Format.{text, asset, u8, u16, u32}
use hive_nectar.Objects.{Outside}
use hive_nectar.Objects.Shapes.{Makes, object-Makes, after-Makes}
use hive_nectar.Objects.Shapes.Fields.{
  amount_at-Makes, bool_at-Makes, text_at-Makes, uint16_at-Makes, uint32_at-Makes,
}
use hive_nectar.Operations.Layouts.{layout}
use hive_nectar.Operations.Funds.{
  transfer, transfer_to_vesting, withdraw_vesting, delegate_vesting_shares,
  set_withdraw_vesting_route, transfer_to_savings, transfer_from_savings,
  cancel_transfer_from_savings, claim_reward_balance, with_memo,
}
use hive_nectar.Operations.Shapes.{IsPlain, Anything, memo_field-Makes, reward_at-Makes}

module _ (outside : Outside) where
  pub transfer-Makes : Makes IsPlain (layout (text ∷ text ∷ asset ∷ text ∷ [])) (transfer outside)
  unfolding transfer
  transfer-Makes = after-Makes IsPlain _ _ (
      object-Makes IsPlain (text ∷ text ∷ asset ∷ text ∷ []) _ (
        text_at-Makes IsPlain "from",
        (
          text_at-Makes IsPlain "to",
          (amount_at-Makes IsPlain outside "amount", (memo_field-Makes outside, tt)),
        ),
      ))

  pub transfer_to_vesting-Makes :
      Makes IsPlain (layout (text ∷ text ∷ asset ∷ [])) (transfer_to_vesting outside)
  unfolding transfer_to_vesting
  transfer_to_vesting-Makes = object-Makes IsPlain (text ∷ text ∷ asset ∷ []) _ (
    text_at-Makes IsPlain "from",
    (text_at-Makes IsPlain "to", (amount_at-Makes IsPlain outside "amount", tt)),
  )

  pub withdraw_vesting-Makes : Makes IsPlain (layout (text ∷ asset ∷ [])) (withdraw_vesting outside)
  unfolding withdraw_vesting
  withdraw_vesting-Makes =
      object-Makes IsPlain (text ∷ asset ∷ []) _
        (text_at-Makes IsPlain "account", (amount_at-Makes IsPlain outside "vesting_shares", tt))

  pub delegate_vesting_shares-Makes :
      Makes IsPlain (layout (text ∷ text ∷ asset ∷ [])) (delegate_vesting_shares outside)
  unfolding delegate_vesting_shares
  delegate_vesting_shares-Makes = object-Makes IsPlain (text ∷ text ∷ asset ∷ []) _ (
    text_at-Makes IsPlain "delegator",
    (text_at-Makes IsPlain "delegatee", (amount_at-Makes IsPlain outside "vesting_shares", tt)),
  )

  pub set_withdraw_vesting_route-Makes :
      Makes IsPlain (layout (text ∷ text ∷ u16 ∷ u8 ∷ [])) (set_withdraw_vesting_route outside)
  unfolding set_withdraw_vesting_route
  set_withdraw_vesting_route-Makes = object-Makes IsPlain (text ∷ text ∷ u16 ∷ u8 ∷ []) _ (
    text_at-Makes IsPlain "from_account",
    (
      text_at-Makes IsPlain "to_account",
      (uint16_at-Makes IsPlain "percent", (bool_at-Makes IsPlain "auto_vest", tt)),
    ),
  )

  pub transfer_to_savings-Makes :
      Makes IsPlain (layout (text ∷ text ∷ asset ∷ text ∷ [])) (transfer_to_savings outside)
  unfolding transfer_to_savings
  transfer_to_savings-Makes kwargs p =
      object-Makes Anything (text ∷ text ∷ asset ∷ text ∷ []) _
        (
          text_at-Makes Anything "from",
          (
            text_at-Makes Anything "to",
            (amount_at-Makes Anything outside "amount", (text_at-Makes Anything "memo", tt)),
          ),
        )
        (with_memo kwargs) tt

  pub transfer_from_savings-Makes :
      Makes IsPlain (layout (text ∷ u32 ∷ text ∷ asset ∷ text ∷ [])) (transfer_from_savings outside)
  unfolding transfer_from_savings
  transfer_from_savings-Makes kwargs p =
      object-Makes Anything (text ∷ u32 ∷ text ∷ asset ∷ text ∷ []) _
        (
          text_at-Makes Anything "from",
          (
            uint32_at-Makes Anything "request_id",
            (
              text_at-Makes Anything "to",
              (amount_at-Makes Anything outside "amount", (text_at-Makes Anything "memo", tt)),
            ),
          ),
        )
        (with_memo kwargs) tt

  pub cancel_transfer_from_savings-Makes :
      Makes IsPlain (layout (text ∷ u32 ∷ [])) (cancel_transfer_from_savings outside)
  unfolding cancel_transfer_from_savings
  cancel_transfer_from_savings-Makes =
      object-Makes IsPlain (text ∷ u32 ∷ []) _
        (text_at-Makes IsPlain "from", (uint32_at-Makes IsPlain "request_id", tt))

  pub claim_reward_balance-Makes :
      Makes IsPlain (layout (text ∷ asset ∷ asset ∷ asset ∷ [])) (claim_reward_balance outside)
  unfolding claim_reward_balance
  claim_reward_balance-Makes kwargs p w h =
      let (_, _, h1) = >>=-eq-ok (get kwargs (codes "account")) _ h in
      let (_, _, h2) = >>=-eq-ok (get kwargs (codes "reward_vests")) _ h1 in
      object-Makes IsPlain (text ∷ asset ∷ asset ∷ asset ∷ []) _
        (
          text_at-Makes IsPlain "account",
          (
            reward_at-Makes outside "reward_hive" "0.000 HIVE",
            (
              reward_at-Makes outside "reward_hbd" "0.000 HBD",
              (amount_at-Makes IsPlain outside "reward_vests", tt),
            ),
          ),
        )
        kwargs p w h2
