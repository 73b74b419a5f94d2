-- ===== src/Operations/Entries.antt =====
-- Every class of src/nectarbase/operations.py makes the layout of its number.
use hive_nectar.Prelude.{
  ℕ, suc, ◌≡◌, [], ◌∷◌, Bool-cases, inl, inr, List, some, Result, ok, err, bytes_eq, bytes_eq→eq,
}
use hive_nectar.Prelude.Bytes.{Text}
use hive_nectar.Wire.Format.{Format}
use hive_nectar.Objects.{Outside, Field}
use hive_nectar.Objects.Shapes.{Makes}
use hive_nectar.Operations.Names.{ops, index_from}
use hive_nectar.Operations.Layouts.{layout_of}
use hive_nectar.Operations.Classes.{class_name, find_class, get_class}
use hive_nectar.Operations.Shapes.{IsPlain}
use hive_nectar.Operations.Shapes.Funds.{
  transfer-Makes, transfer_to_vesting-Makes, withdraw_vesting-Makes, delegate_vesting_shares-Makes,
  set_withdraw_vesting_route-Makes, transfer_to_savings-Makes, transfer_from_savings-Makes,
  cancel_transfer_from_savings-Makes, claim_reward_balance-Makes,
}
use hive_nectar.Operations.Shapes.Creation.{
  account_create-Makes, account_create_with_delegation-Makes, create_claimed_account-Makes,
}
use hive_nectar.Operations.Shapes.Accounts.{
  account_update-Makes, account_update2-Makes, claim_account-Makes, request_account_recovery-Makes,
  recover_account-Makes, change_recovery_account-Makes, decline_voting_rights-Makes,
  account_witness_vote-Makes, account_witness_proxy-Makes,
}
use hive_nectar.Operations.Shapes.Posts.{
  vote-Makes, comment-Makes, delete_comment-Makes, custom-Makes, custom_binary-Makes,
  custom_json-Makes, comment_options-Makes,
}
use hive_nectar.Operations.Shapes.Witnesses.{witness_set_properties-Makes, witness_update-Makes}
use hive_nectar.Operations.Shapes.Proposals.{
  update_proposal_votes-Makes, remove_proposal-Makes, create_proposal-Makes, update_proposal-Makes,
}
use hive_nectar.Operations.Shapes.Markets.{
  limit_order_cancel-Makes, feed_publish-Makes, convert-Makes, collateralized_convert-Makes,
  limit_order_create-Makes, limit_order_create2-Makes,
}
use hive_nectar.Operations.Shapes.Escrow.{
  escrow_transfer-Makes, escrow_release-Makes, escrow_dispute-Makes, escrow_approve-Makes,
}

abbrev pub Implements : Format → Result Field → Type 0
Implements f (err raised) = Unit
Implements f (ok make) = Makes IsPlain f make

-- Two proofs as one, for long rows of them.
◌∷∷◌ {ℓ} : {A B : Type ℓ} → A → B → A × B
a ∷∷ b = (a, b)

infixr 5 ◌∷∷◌
module _ (outside : Outside) where
  -- From number `k` on, the class of each name, if there is one, makes the layout of its number.
  abbrev pub Entries : ℕ → List Text → Type 0
  Entries k [] = Unit
  Entries k (o ∷ os) =
      Implements (layout_of k) (get_class outside (class_name o)) × Entries (suc k) os

  pub all_Entries : Entries 0 ops
  unfolding get_class find_class class_name bytes_eq layout_of
  all_Entries =
      vote-Makes
      ∷∷ comment-Makes
      ∷∷ transfer-Makes outside
      ∷∷ transfer_to_vesting-Makes outside
      ∷∷ withdraw_vesting-Makes outside
      ∷∷ limit_order_create-Makes outside
      ∷∷ limit_order_cancel-Makes
      ∷∷ feed_publish-Makes outside
      ∷∷ convert-Makes outside
      ∷∷ account_create-Makes outside
      ∷∷ account_update-Makes outside
      ∷∷ witness_update-Makes outside
      ∷∷ account_witness_vote-Makes
      ∷∷ account_witness_proxy-Makes
      ∷∷ tt
      ∷∷ custom-Makes
      ∷∷ tt
      ∷∷ delete_comment-Makes
      ∷∷ custom_json-Makes
      ∷∷ comment_options-Makes outside
      ∷∷ set_withdraw_vesting_route-Makes outside
      ∷∷ limit_order_create2-Makes outside
      ∷∷ claim_account-Makes outside
      ∷∷ create_claimed_account-Makes outside
      ∷∷ request_account_recovery-Makes outside
      ∷∷ recover_account-Makes outside
      ∷∷ change_recovery_account-Makes
      ∷∷ escrow_transfer-Makes outside
      ∷∷ escrow_dispute-Makes
      ∷∷ escrow_release-Makes outside
      ∷∷ tt
      ∷∷ escrow_approve-Makes
      ∷∷ transfer_to_savings-Makes outside
      ∷∷ transfer_from_savings-Makes outside
      ∷∷ cancel_transfer_from_savings-Makes outside
      ∷∷ custom_binary-Makes
      ∷∷ decline_voting_rights-Makes
      ∷∷ tt
      ∷∷ tt
      ∷∷ claim_reward_balance-Makes outside
      ∷∷ delegate_vesting_shares-Makes outside
      ∷∷ account_create_with_delegation-Makes outside
      ∷∷ witness_set_properties-Makes outside
      ∷∷ account_update2-Makes outside
      ∷∷ create_proposal-Makes outside
      ∷∷ update_proposal_votes-Makes
      ∷∷ remove_proposal-Makes
      ∷∷ update_proposal-Makes outside
      ∷∷ collateralized_convert-Makes outside
      ∷∷ tt
      ∷∷ tt
      ∷∷ tt
      ∷∷ tt
      ∷∷ tt
      ∷∷ tt
      ∷∷ tt
      ∷∷ tt
      ∷∷ tt
      ∷∷ tt
      ∷∷ tt
      ∷∷ tt
      ∷∷ tt
      ∷∷ tt
      ∷∷ tt
      ∷∷ tt
      ∷∷ tt
      ∷∷ tt
      ∷∷ tt
      ∷∷ tt
      ∷∷ tt
      ∷∷ tt
      ∷∷ tt
      ∷∷ tt
      ∷∷ tt
      ∷∷ tt
      ∷∷ tt
      ∷∷ tt
      ∷∷ tt
      ∷∷ tt
      ∷∷ tt
      ∷∷ tt
      ∷∷ tt
      ∷∷ tt
      ∷∷ tt
      ∷∷ tt
      ∷∷ tt

  pub entry_of :
      (k : ℕ) (os : List Text) (name : Text) (i : ℕ)
      → Entries k os
      → index_from k os name ≡ some i
      → Implements (layout_of i) (get_class outside (class_name name))
  unfolding index_from
  entry_of k [] name i es h = cc
  entry_of k (o ∷ os) name i (e, es) h = elim (Bool-cases (bytes_eq o name)) [
    | inl s ↦
        let here : some k ≡ some i = rw s at h in
        let same : k ≡ i = cc in rw (← same, ← bytes_eq→eq o name s) e
    | inr s ↦ entry_of (suc k) os name i es (rw s at h)
  ]
