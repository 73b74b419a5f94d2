-- ===== src/Operations/Funds.antt =====
-- Transfers, savings, vesting and rewards of src/nectarbase/operations.py.
use hive_nectar.Prelude.{[], ◌∷◌, ◌>>=◌, if◌then◌else◌}
use hive_nectar.Prelude.Bytes.{codes}
use hive_nectar.Values.{a_text, Dict, get, get_or, has, put}
use hive_nectar.Objects.{
  Outside, Field, object, text_at, int16_at, uint16_at, uint32_at, bool_at, prefix_in, after,
}
use hive_nectar.Objects.Amounts.{amount_at, amount_of}
use hive_nectar.Objects.Auths.{memo_field}
use Prim.Native.String.{String}

-- `if "memo" not in kwargs: kwargs["memo"] = ""`.
unfoldable pub with_memo : Dict → Dict
with_memo kwargs =
    if has kwargs (codes "memo") then kwargs else put (codes "memo") (a_text []) kwargs

module _ (outside : Outside) where
  unfoldable pub transfer : Field
  transfer = after (memo_field outside ∷ []) (
      object (text_at "from" ∷ text_at "to" ∷ amount_at outside "amount" ∷ memo_field outside ∷ []))

  unfoldable pub recurring_transfer : Field
  recurring_transfer = after (memo_field outside ∷ []) (
      object (
        text_at "from"
        ∷ text_at "to"
        ∷ amount_at outside "amount"
        ∷ memo_field outside
        ∷ int16_at "recurrence"
        ∷ int16_at "executions"
        ∷ []))

  unfoldable pub transfer_to_vesting : Field
  transfer_to_vesting = object (text_at "from" ∷ text_at "to" ∷ amount_at outside "amount" ∷ [])

  unfoldable pub withdraw_vesting : Field
  withdraw_vesting = object (text_at "account" ∷ amount_at outside "vesting_shares" ∷ [])

  unfoldable pub delegate_vesting_shares : Field
  delegate_vesting_shares =
      object (text_at "delegator" ∷ text_at "delegatee" ∷ amount_at outside "vesting_shares" ∷ [])

  unfoldable pub set_withdraw_vesting_route : Field
  set_withdraw_vesting_route = object (
      text_at "from_account"
      ∷ text_at "to_account"
      ∷ uint16_at "percent"
      ∷ bool_at "auto_vest"
      ∷ [])

  unfoldable pub transfer_to_savings : Field
  transfer_to_savings kwargs =
      object (text_at "from" ∷ text_at "to" ∷ amount_at outside "amount" ∷ text_at "memo" ∷ [])
        (with_memo kwargs)

  unfoldable pub transfer_from_savings : Field
  transfer_from_savings kwargs =
      object
        (text_at "from"
          ∷ uint32_at "request_id"
          ∷ text_at "to"
          ∷ amount_at outside "amount"
          ∷ text_at "memo"
          ∷ [])
        (with_memo kwargs)

  unfoldable pub cancel_transfer_from_savings : Field
  cancel_transfer_from_savings = object (text_at "from" ∷ uint32_at "request_id" ∷ [])

  -- `Amount(kwargs.get(key, zero), prefix=prefix)`.
  unfoldable pub reward_at : String → String → Field
  reward_at key default kwargs =
      amount_of outside (prefix_in kwargs) (get_or kwargs (codes key) (a_text (codes default)))

  -- The account and the vests are read before the fields are made.
  unfoldable pub claim_reward_balance : Field
  claim_reward_balance kwargs = do
    _ ← get kwargs (codes "account")
    _ ← get kwargs (codes "reward_vests")
    object
        (text_at "account"
          ∷ reward_at "reward_hive" "0.000 HIVE"
          ∷ reward_at "reward_hbd" "0.000 HBD"
          ∷ amount_at outside "reward_vests"
          ∷ [])
        kwargs
