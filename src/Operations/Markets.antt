-- ===== src/Operations/Markets.antt =====
-- Orders of the internal market and conversions: src/nectarbase/operations.py.
use hive_nectar.Prelude.{[], ◌∷◌, ◌>>=◌}
use hive_nectar.Prelude.Bytes.{codes}
use hive_nectar.Values.{get}
use hive_nectar.Objects.{
  Outside, Field, object, after, from_dict, text_at, time_at, bool_at, uint32_at, prefix_in,
}
use hive_nectar.Objects.Amounts.{amount_at, exchange_rate, with_prefix}

unfoldable pub limit_order_cancel : Field
limit_order_cancel = object (text_at "owner" ∷ uint32_at "orderid" ∷ [])

module _ (outside : Outside) where
  -- A rate takes the prefix of the operation unless it has one.
  unfoldable pub exchange_rate_field : Field
  exchange_rate_field kwargs = do
    rate ← get kwargs (codes "exchange_rate")
    from_dict (λ d. exchange_rate outside (with_prefix (prefix_in kwargs) d)) rate

  -- The rate is looked at before the fields are made.
  unfoldable pub check_exchange_rate : Field
  check_exchange_rate kwargs = do
    rate ← get kwargs (codes "exchange_rate")
    from_dict (object []) rate

  unfoldable pub feed_publish : Field
  feed_publish =
      after (check_exchange_rate ∷ []) (object (text_at "publisher" ∷ exchange_rate_field ∷ []))

  unfoldable pub convert : Field
  convert = object (text_at "owner" ∷ uint32_at "requestid" ∷ amount_at outside "amount" ∷ [])

  unfoldable pub collateralized_convert : Field
  collateralized_convert =
      object (text_at "owner" ∷ uint32_at "requestid" ∷ amount_at outside "amount" ∷ [])

  unfoldable pub limit_order_create : Field
  limit_order_create = object (
      text_at "owner"
      ∷ uint32_at "orderid"
      ∷ amount_at outside "amount_to_sell"
      ∷ amount_at outside "min_to_receive"
      ∷ bool_at "fill_or_kill"
      ∷ time_at "expiration"
      ∷ [])

  unfoldable pub limit_order_create2 : Field
  limit_order_create2 = after (check_exchange_rate ∷ []) (
      object (
        text_at "owner"
        ∷ uint32_at "orderid"
        ∷ amount_at outside "amount_to_sell"
        ∷ bool_at "fill_or_kill"
        ∷ exchange_rate_field
        ∷ time_at "expiration"
        ∷ []))
