-- ===== src/Operations/Accounts.antt =====
-- Creating, changing and recovering accounts: src/nectarbase/operations.py.
use hive_nectar.Prelude.{[], ◌∷◌, ◌>>=◌}
use hive_nectar.Objects.{Outside, Field, object, text_at, truth_at, bool_at, no_extensions, after}
use Prim.Native.String.{String}
use hive_nectar.Objects.Amounts.{amount_at}
use hive_nectar.Objects.Keys.{public_key_at}
use hive_nectar.Objects.Auths.{permission_at, optional_at}
use hive_nectar.Operations.{meta_at, dumped_dict, check_account_name}

module _ (outside : Outside) where
  unfoldable pub account_create : Field
  account_create kwargs = do
    _ ← check_account_name kwargs
    after (meta_at dumped_dict "json_metadata" ∷ [])
        (object (
          amount_at outside "fee"
          ∷ text_at "creator"
          ∷ text_at "new_account_name"
          ∷ permission_at outside "owner"
          ∷ permission_at outside "active"
          ∷ permission_at outside "posting"
          ∷ public_key_at outside "memo_key"
          ∷ meta_at dumped_dict "json_metadata"
          ∷ []))
        kwargs

  unfoldable pub account_create_with_delegation : Field
  account_create_with_delegation kwargs = do
    _ ← check_account_name kwargs
    after (meta_at dumped_dict "json_metadata" ∷ [])
        (object (
          amount_at outside "fee"
          ∷ amount_at outside "delegation"
          ∷ text_at "creator"
          ∷ text_at "new_account_name"
          ∷ permission_at outside "owner"
          ∷ permission_at outside "active"
          ∷ permission_at outside "posting"
          ∷ public_key_at outside "memo_key"
          ∷ meta_at dumped_dict "json_metadata"
          ∷ no_extensions
          ∷ []))
        kwargs

  unfoldable pub create_claimed_account : Field
  create_claimed_account kwargs = do
    _ ← check_account_name kwargs
    after (meta_at dumped_dict "json_metadata" ∷ [])
        (object (
          text_at "creator"
          ∷ text_at "new_account_name"
          ∷ permission_at outside "owner"
          ∷ permission_at outside "active"
          ∷ permission_at outside "posting"
          ∷ public_key_at outside "memo_key"
          ∷ meta_at dumped_dict "json_metadata"
          ∷ no_extensions
          ∷ []))
        kwargs

  abbrev authority_if_given : String → Field
  authority_if_given key = optional_at outside key (permission_at outside key)

  unfoldable pub account_update : Field
  account_update =
      after
        (authority_if_given "owner"
          ∷ authority_if_given "active"
          ∷ authority_if_given "posting"
          ∷ meta_at dumped_dict "json_metadata"
          ∷ [])
        (object (
          text_at "account"
          ∷ authority_if_given "owner"
          ∷ authority_if_given "active"
          ∷ authority_if_given "posting"
          ∷ public_key_at outside "memo_key"
          ∷ meta_at dumped_dict "json_metadata"
          ∷ []))

  unfoldable pub account_update2 : Field
  account_update2 =
      after
        (authority_if_given "owner"
          ∷ authority_if_given "active"
          ∷ authority_if_given "posting"
          ∷ optional_at outside "memo_key" (public_key_at outside "memo_key")
          ∷ meta_at dumped_dict "json_metadata"
          ∷ meta_at dumped_dict "posting_json_metadata"
          ∷ [])
        (object (
          text_at "account"
          ∷ authority_if_given "owner"
          ∷ authority_if_given "active"
          ∷ authority_if_given "posting"
          ∷ optional_at outside "memo_key" (public_key_at outside "memo_key")
          ∷ meta_at dumped_dict "json_metadata"
          ∷ meta_at dumped_dict "posting_json_metadata"
          ∷ no_extensions
          ∷ []))

  unfoldable pub claim_account : Field
  claim_account = object (text_at "creator" ∷ amount_at outside "fee" ∷ no_extensions ∷ [])

  unfoldable pub request_account_recovery : Field
  request_account_recovery = after (permission_at outside "new_owner_authority" ∷ []) (
      object (
        text_at "recovery_account"
        ∷ text_at "account_to_recover"
        ∷ permission_at outside "new_owner_authority"
        ∷ no_extensions
        ∷ []))

  unfoldable pub recover_account : Field
  recover_account =
      after
        (permission_at outside "new_owner_authority"
          ∷ permission_at outside "recent_owner_authority"
          ∷ [])
        (object (
          text_at "account_to_recover"
          ∷ permission_at outside "new_owner_authority"
          ∷ permission_at outside "recent_owner_authority"
          ∷ no_extensions
          ∷ []))

unfoldable pub change_recovery_account : Field
change_recovery_account =
    object (text_at "account_to_recover" ∷ text_at "new_recovery_account" ∷ no_extensions ∷ [])

unfoldable pub decline_voting_rights : Field
decline_voting_rights = object (text_at "account" ∷ bool_at "decline" ∷ [])

unfoldable pub account_witness_vote : Field
account_witness_vote = object (text_at "account" ∷ text_at "witness" ∷ truth_at "approve" ∷ [])

unfoldable pub account_witness_proxy : Field
account_witness_proxy = object (text_at "account" ∷ text_at "proxy" ∷ [])
