-- ===== src/Operations/Names.antt =====
-- The names and numbers of src/nectarbase/operationids.py.
use hive_nectar.Prelude.{ℕ, suc, [], ◌∷◌, List, Option, none, some, if◌then◌else◌, ◌==◌, bytes_eq}
use hive_nectar.Prelude.Int.{ℤ, pos, negsuc}
use hive_nectar.Prelude.Bytes.{Text, codes}

abbrev pub ops : List Text
ops =
    codes "vote"
    ∷ codes "comment"
    ∷ codes "transfer"
    ∷ codes "transfer_to_vesting"
    ∷ codes "withdraw_vesting"
    ∷ codes "limit_order_create"
    ∷ codes "limit_order_cancel"
    ∷ codes "feed_publish"
    ∷ codes "convert"
    ∷ codes "account_create"
    ∷ codes "account_update"
    ∷ codes "witness_update"
    ∷ codes "account_witness_vote"
    ∷ codes "account_witness_proxy"
    ∷ codes "pow"
    ∷ codes "custom"
    ∷ codes "report_over_production"
    ∷ codes "delete_comment"
    ∷ codes "custom_json"
    ∷ codes "comment_options"
    ∷ codes "set_withdraw_vesting_route"
    ∷ codes "limit_order_create2"
    ∷ codes "claim_account"
    ∷ codes "create_claimed_account"
    ∷ codes "request_account_recovery"
    ∷ codes "recover_account"
    ∷ codes "change_recovery_account"
    ∷ codes "escrow_transfer"
    ∷ codes "escrow_dispute"
    ∷ codes "escrow_release"
    ∷ codes "pow2"
    ∷ codes "escrow_approve"
    ∷ codes "transfer_to_savings"
    ∷ codes "transfer_from_savings"
    ∷ codes "cancel_transfer_from_savings"
    ∷ codes "custom_binary"
    ∷ codes "decline_voting_rights"
    ∷ codes "reset_account"
    ∷ codes "set_reset_account"
    ∷ codes "claim_reward_balance"
    ∷ codes "delegate_vesting_shares"
    ∷ codes "account_create_with_delegation"
    ∷ codes "witness_set_properties"
    ∷ codes "account_update2"
    ∷ codes "create_proposal"
    ∷ codes "update_proposal_votes"
    ∷ codes "remove_proposal"
    ∷ codes "update_proposal"
    ∷ codes "collateralized_convert"
    ∷ codes "recurrent_transfer"
    ∷ codes "fill_convert_request"
    ∷ codes "author_reward"
    ∷ codes "curation_reward"
    ∷ codes "comment_reward"
    ∷ codes "liquidity_reward"
    ∷ codes "interest"
    ∷ codes "fill_vesting_withdraw"
    ∷ codes "fill_order"
    ∷ codes "shutdown_witness"
    ∷ codes "fill_transfer_from_savings"
    ∷ codes "hardfork"
    ∷ codes "comment_payout_update"
    ∷ codes "return_vesting_delegation"
    ∷ codes "comment_benefactor_reward"
    ∷ codes "producer_reward"
    ∷ codes "clear_null_account_balance"
    ∷ codes "proposal_pay"
    ∷ codes "sps_fund"
    ∷ codes "hardfork_hive"
    ∷ codes "hardfork_hive_restore"
    ∷ codes "delayed_voting"
    ∷ codes "consolidate_treasury_balance"
    ∷ codes "effective_comment_vote"
    ∷ codes "ineffective_delete_comment"
    ∷ codes "sps_convert"
    ∷ codes "expired_account_notification"
    ∷ codes "changed_recovery_account"
    ∷ codes "transfer_to_vesting_completed"
    ∷ codes "pow_reward"
    ∷ codes "vesting_shares_split"
    ∷ codes "account_created"
    ∷ codes "fill_collateralized_convert_request"
    ∷ codes "system_warning"
    ∷ codes "fill_recurrent_transfer"
    ∷ codes "failed_recurrent_transfer"
    ∷ []

-- `names.index(name)`, counted from `i` on.
unfoldable pub index_from : ℕ → List Text → Text → Option ℕ
index_from i [] name = none
index_from i (o ∷ os) name =
    let rest = index_from (suc i) os name in if bytes_eq o name then some i else rest

-- `operations.get(name)`.
unfoldable pub operation_id : Text → Option ℕ
operation_id = index_from 0 ops

-- The first of the names whose number is `n`.
unfoldable pub name_with_id : List Text → ℕ → Option Text
name_with_id [] n = none
name_with_id (o ∷ os) n =
    let rest = name_with_id os n in
    elim (operation_id o) [ none ↦ rest | some i ↦ if i == n then some o else rest ]

-- `getOperationNameForId`; no operation has the name that stands for an unknown number.
unfoldable pub operation_name : ℤ → Option Text
operation_name (pos n) = name_with_id ops n
operation_name (negsuc n) = none
