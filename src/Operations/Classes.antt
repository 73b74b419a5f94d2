-- ===== src/Operations/Classes.antt =====
-- `Operation.__init__` of src/nectargraphenebase/objects.py, with `_getklass`, `operations` and
-- `__bytes__` of `Operation` in src/nectarbase/objects.py: the class of an operation is found by its
-- name, and its number is written in front of it.
use hive_nectar.Prelude.{
  ℕ, ◌-◌, ◌+◌, [], ◌∷◌, List, Option, none, some, leb, ltb, ◌&&◌, if◌then◌else◌, bytes_eq, length,
  take, drop, Result, ok, err, ◌>>=◌, demand, map, value_error, type_error, key_error,
  not_implemented,
}
use hive_nectar.Prelude.Int.{ℤ, pos, negsuc}
use hive_nectar.Prelude.Bytes.{Text, codes}
use hive_nectar.Values.{
  Value, a_text, a_number, a_flag, a_list, a_dict, no_values, value_and, get, int,
}
use hive_nectar.Wire.{Wire, operation}
use hive_nectar.Objects.{Outside, Field, from_dict, object}
use hive_nectar.Operations.Names.{operation_id, operation_name}
use hive_nectar.Operations.Funds.{
  transfer, recurring_transfer, transfer_to_vesting, withdraw_vesting, set_withdraw_vesting_route,
  delegate_vesting_shares, transfer_from_savings, cancel_transfer_from_savings,
  claim_reward_balance, transfer_to_savings,
}
use hive_nectar.Operations.Posts.{
  vote, custom, custom_binary, comment, custom_json, comment_options, delete_comment,
}
use hive_nectar.Operations.Accounts.{
  account_witness_vote, account_witness_proxy, account_create, account_create_with_delegation,
  account_update, account_update2, claim_account, create_claimed_account, change_recovery_account,
  request_account_recovery, recover_account, decline_voting_rights,
}
use hive_nectar.Operations.Proposals.{
  create_proposal, update_proposal_votes, remove_proposal, update_proposal,
}
use hive_nectar.Operations.Witnesses.{witness_set_properties, witness_update}
use hive_nectar.Operations.Markets.{
  feed_publish, convert, collateralized_convert, limit_order_cancel, limit_order_create,
  limit_order_create2,
}
use hive_nectar.Operations.Escrow.{escrow_transfer, escrow_dispute, escrow_release, escrow_approve}

-- `c.upper()` and `c.lower()`, of the letters of ASCII.
abbrev upper : ℕ → ℕ
upper c = if leb 97 c && leb c 122 then c - 32 else c

abbrev pub lower : ℕ → ℕ
lower c = if leb 65 c && leb c 90 then c + 32 else c

-- `name[0].upper() + name[1:]`.
unfoldable pub class_name : Text → Text
class_name [] = []
class_name (c ∷ cs) = upper c ∷ cs

module _ (outside : Outside) where
  -- The classes of the module, by their names.
  abbrev classes : List (Text × Field)
  classes =
      (codes "Transfer", transfer outside)
      ∷ (codes "Recurring_transfer", recurring_transfer outside)
      ∷ (codes "Vote", vote)
      ∷ (codes "Transfer_to_vesting", transfer_to_vesting outside)
      ∷ (codes "Withdraw_vesting", withdraw_vesting outside)
      ∷ (codes "Account_witness_vote", account_witness_vote)
      ∷ (codes "Account_witness_proxy", account_witness_proxy)
      ∷ (codes "Custom", custom)
      ∷ (codes "Custom_binary", custom_binary)
      ∷ (codes "Account_create", account_create outside)
      ∷ (codes "Account_create_with_delegation", account_create_with_delegation outside)
      ∷ (codes "Account_update", account_update outside)
      ∷ (codes "Account_update2", account_update2 outside)
      ∷ (codes "Create_proposal", create_proposal outside)
      ∷ (codes "Update_proposal_votes", update_proposal_votes)
      ∷ (codes "Remove_proposal", remove_proposal)
      ∷ (codes "Update_proposal", update_proposal outside)
      ∷ (codes "Witness_set_properties", witness_set_properties outside)
      ∷ (codes "Witness_update", witness_update outside)
      ∷ (codes "Comment", comment)
      ∷ (codes "Custom_json", custom_json)
      ∷ (codes "Comment_options", comment_options outside)
      ∷ (codes "Delete_comment", delete_comment)
      ∷ (codes "Feed_publish", feed_publish outside)
      ∷ (codes "Convert", convert outside)
      ∷ (codes "Collateralized_convert", collateralized_convert outside)
      ∷ (codes "Set_withdraw_vesting_route", set_withdraw_vesting_route outside)
      ∷ (codes "Limit_order_cancel", limit_order_cancel)
      ∷ (codes "Claim_account", claim_account outside)
      ∷ (codes "Create_claimed_account", create_claimed_account outside)
      ∷ (codes "Delegate_vesting_shares", delegate_vesting_shares outside)
      ∷ (codes "Limit_order_create", limit_order_create outside)
      ∷ (codes "Limit_order_create2", limit_order_create2 outside)
      ∷ (codes "Change_recovery_account", change_recovery_account)
      ∷ (codes "Transfer_from_savings", transfer_from_savings outside)
      ∷ (codes "Cancel_transfer_from_savings", cancel_transfer_from_savings outside)
      ∷ (codes "Claim_reward_balance", claim_reward_balance outside)
      ∷ (codes "Transfer_to_savings", transfer_to_savings outside)
      ∷ (codes "Request_account_recovery", request_account_recovery outside)
      ∷ (codes "Recover_account", recover_account outside)
      ∷ (codes "Escrow_transfer", escrow_transfer outside)
      ∷ (codes "Escrow_dispute", escrow_dispute)
      ∷ (codes "Escrow_release", escrow_release outside)
      ∷ (codes "Escrow_approve", escrow_approve)
      ∷ (codes "Decline_voting_rights", decline_voting_rights)
      ∷ []

unfoldable pub find_class : List (Text × Field) → Text → Option Field
find_class [] name = none
find_class ((n, make) ∷ rest) name =
    let later = find_class rest name in if bytes_eq n name then some make else later

-- The name of an operation without the ending of its type.
unfoldable pub short_name : Text → Text
short_name type' =
    let n = length type' in
    if ltb 10 n && bytes_eq (drop (n - 9) type') (codes "operation")
    then take (n - 10) type'
    else type'

abbrev pub text_in : Value → Result Text
text_in (a_text s) = ok s
text_in _ = err type_error

module _ (outside : Outside) where
  -- `_getklass(name)`.
  unfoldable pub get_class : Text → Result Field
  get_class name = demand not_implemented (find_class (classes outside) name)

  -- The object of an operation with a number and a name. Data that is no dictionary is refused.
  unfoldable pub build : ℕ → Text → Value → Result Wire
  build op_id name value = do
    make ← get_class (class_name name)
    w ← from_dict make value
    ok (operation (pos op_id) w)

  -- The class of a name that has a number.
  unfoldable pub named_class : Text → Result Field
  named_class name = do _ ← demand value_error (operation_id name); get_class (class_name name)

  unfoldable pub build_named : Text → Value → Result Wire
  build_named name value = do op_id ← demand value_error (operation_id name); build op_id name value

  unfoldable pub build_numbered : ℤ → Value → Result Wire
  build_numbered (negsuc n) value = err not_implemented
  build_numbered (pos n) value = do
    name ← demand not_implemented (operation_name (pos n))
    build n name value

  -- A number or a name, and the data.
  unfoldable pub build_pair : Value → Value → Result Wire
  build_pair (a_number op_id) value = build_numbered op_id value
  build_pair (a_flag op_id) value = do n ← int (a_flag op_id); build_numbered n value
  build_pair (a_text name) value = build_named name value
  build_pair (a_list vs) value = err type_error
  build_pair (a_dict d) value = err type_error
  build_pair op_id value = err value_error

  -- `Operation(op)`, for a list of two and for a dictionary.
  unfoldable pub operation_of : Value → Result Wire
  operation_of (a_list (value_and op_id (value_and value no_values))) = build_pair op_id value
  operation_of (a_dict op) = do
    type' ← get op (codes "type")
    name ← text_in type'
    _ ← named_class (short_name name)
    value ← get op (codes "value")
    build_named (short_name name) value
  operation_of _ = err key_error

  -- The class `Op_wrapper`, which no operation has the name of.
  unfoldable pub op_wrapper : Field
  op_wrapper kwargs = do op ← get kwargs (codes "op"); object ((λ _. operation_of op) ∷ []) kwargs

-- `Operation(op)` around an object of a class, by the name of the class.
unfoldable pub operation_of_object : Text → Wire → Result Wire
operation_of_object class w = do
  op_id ← demand key_error (operation_id (map lower class))
  ok (operation (pos op_id) w)
