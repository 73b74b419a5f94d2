-- ===== src/Operations/Shapes/Accounts.antt =====
-- The shapes of the other operations of Operations/Accounts.antt: each class makes the layout of its
-- operation.
use hive_nectar.Prelude.{[], ◌∷◌}
use hive_nectar.Wire.Format.{text, asset, key, u8, maybe}
use hive_nectar.Objects.{Outside}
use hive_nectar.Objects.Shapes.{Makes, object-Makes, after-Makes}
use hive_nectar.Objects.Shapes.Fields.{
  amount_at-Makes, bool_at-Makes, no_extensions-Makes, optional_at-Makes, permission_at-Makes,
  public_key_at-Makes, text_at-Makes, truth_at-Makes,
}
use hive_nectar.Operations.{dumped_dict}
use hive_nectar.Operations.Layouts.{layout, authority, no_extensions}
use hive_nectar.Operations.Accounts.{
  account_update, account_update2, claim_account, request_account_recovery, recover_account,
  change_recovery_account, decline_voting_rights, account_witness_vote, account_witness_proxy,
}
use hive_nectar.Operations.Shapes.{IsPlain, meta_at-Makes}

module _ (outside : Outside) where
  pub account_update-Makes :
      Makes IsPlain
        (layout (text ∷ maybe authority ∷ maybe authority ∷ maybe authority ∷ key ∷ text ∷ []))
        (account_update outside)
  unfolding account_update
  account_update-Makes = after-Makes IsPlain _ _ (
      object-Makes IsPlain
        (text ∷ maybe authority ∷ maybe authority ∷ maybe authority ∷ key ∷ text ∷ []) _
        (
          text_at-Makes IsPlain "account",
          (
            optional_at-Makes IsPlain outside "owner" _
                (permission_at-Makes outside IsPlain "owner"),
            (
              optional_at-Makes IsPlain outside "active" _
                  (permission_at-Makes outside IsPlain "active"),
              (
                optional_at-Makes IsPlain outside "posting" _
                    (permission_at-Makes outside IsPlain "posting"),
                (
                  public_key_at-Makes IsPlain outside "memo_key",
                  (meta_at-Makes IsPlain dumped_dict "json_metadata", tt),
                ),
              ),
            ),
          ),
        ))

  pub account_update2-Makes :
      Makes IsPlain
        (layout (
          text
          ∷ maybe authority
          ∷ maybe authority
          ∷ maybe authority
          ∷ maybe key
          ∷ text
          ∷ text
          ∷ no_extensions
          ∷ []))
        (account_update2 outside)
  unfolding account_update2
  account_update2-Makes = after-Makes IsPlain _ _ (
      object-Makes IsPlain
        (text
          ∷ maybe authority
          ∷ maybe authority
          ∷ maybe authority
          ∷ maybe key
          ∷ text
          ∷ text
          ∷ no_extensions
          ∷ [])
        _
        (
          text_at-Makes IsPlain "account",
          (
            optional_at-Makes IsPlain outside "owner" _
                (permission_at-Makes outside IsPlain "owner"),
            (
              optional_at-Makes IsPlain outside "active" _
                  (permission_at-Makes outside IsPlain "active"),
              (
                optional_at-Makes IsPlain outside "posting" _
                    (permission_at-Makes outside IsPlain "posting"),
                (
                  optional_at-Makes IsPlain outside "memo_key" _
                      (public_key_at-Makes IsPlain outside "memo_key"),
                  (
                    meta_at-Makes IsPlain dumped_dict "json_metadata",
                    (
                      meta_at-Makes IsPlain dumped_dict "posting_json_metadata",
                      (no_extensions-Makes IsPlain, tt),
                    ),
                  ),
                ),
              ),
            ),
          ),
        ))

  pub claim_account-Makes :
      Makes IsPlain (layout (text ∷ asset ∷ no_extensions ∷ [])) (claim_account outside)
  unfolding claim_account
  claim_account-Makes = object-Makes IsPlain (text ∷ asset ∷ no_extensions ∷ []) _ (
    text_at-Makes IsPlain "creator",
    (amount_at-Makes IsPlain outside "fee", (no_extensions-Makes IsPlain, tt)),
  )

  pub request_account_recovery-Makes :
      Makes IsPlain
        (layout (text ∷ text ∷ authority ∷ no_extensions ∷ []))
        (request_account_recovery outside)
  unfolding request_account_recovery
  request_account_recovery-Makes = after-Makes IsPlain _ _ (
      object-Makes IsPlain (text ∷ text ∷ authority ∷ no_extensions ∷ []) _ (
        text_at-Makes IsPlain "recovery_account",
        (
          text_at-Makes IsPlain "account_to_recover",
          (
            permission_at-Makes outside IsPlain "new_owner_authority",
            (no_extensions-Makes IsPlain, tt),
          ),
        ),
      ))

  pub recover_account-Makes :
      Makes IsPlain
        (layout (text ∷ authority ∷ authority ∷ no_extensions ∷ []))
        (recover_account outside)
  unfolding recover_account
  recover_account-Makes = after-Makes IsPlain _ _ (
      object-Makes IsPlain (text ∷ authority ∷ authority ∷ no_extensions ∷ []) _ (
        text_at-Makes IsPlain "account_to_recover",
        (
          permission_at-Makes outside IsPlain "new_owner_authority",
          (
            permission_at-Makes outside IsPlain "recent_owner_authority",
            (no_extensions-Makes IsPlain, tt),
          ),
        ),
      ))

pub change_recovery_account-Makes :
    Makes IsPlain (layout (text ∷ text ∷ no_extensions ∷ [])) change_recovery_account
unfolding change_recovery_account
change_recovery_account-Makes = object-Makes IsPlain (text ∷ text ∷ no_extensions ∷ []) _ (
  text_at-Makes IsPlain "account_to_recover",
  (text_at-Makes IsPlain "new_recovery_account", (no_extensions-Makes IsPlain, tt)),
)

pub decline_voting_rights-Makes : Makes IsPlain (layout (text ∷ u8 ∷ [])) decline_voting_rights
unfolding decline_voting_rights
decline_voting_rights-Makes =
    object-Makes IsPlain (text ∷ u8 ∷ []) _
      (text_at-Makes IsPlain "account", (bool_at-Makes IsPlain "decline", tt))

pub account_witness_vote-Makes : Makes IsPlain (layout (text ∷ text ∷ u8 ∷ [])) account_witness_vote
unfolding account_witness_vote
account_witness_vote-Makes = object-Makes IsPlain (text ∷ text ∷ u8 ∷ []) _ (
  text_at-Makes IsPlain "account",
  (text_at-Makes IsPlain "witness", (truth_at-Makes IsPlain "approve", tt)),
)

pub account_witness_proxy-Makes : Makes IsPlain (layout (text ∷ text ∷ [])) account_witness_proxy
unfolding account_witness_proxy
account_witness_proxy-Makes =
    object-Makes IsPlain (text ∷ text ∷ []) _
      (text_at-Makes IsPlain "account", (text_at-Makes IsPlain "proxy", tt))
