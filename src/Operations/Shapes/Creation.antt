-- ===== src/Operations/Shapes/Creation.antt =====
-- The shapes of the operations of Operations/Accounts.antt that make an account.
use hive_nectar.Prelude.{[], ◌∷◌, >>=-eq-ok}
use hive_nectar.Wire.Format.{text, asset, key}
use hive_nectar.Objects.{Outside}
use hive_nectar.Objects.Shapes.{Makes, object-Makes, after-Makes}
use hive_nectar.Objects.Shapes.Fields.{
  amount_at-Makes, no_extensions-Makes, permission_at-Makes, public_key_at-Makes, text_at-Makes,
}
use hive_nectar.Operations.{check_account_name, dumped_dict}
use hive_nectar.Operations.Layouts.{layout, authority, no_extensions}
use hive_nectar.Operations.Accounts.{
  account_create, account_create_with_delegation, create_claimed_account,
}
use hive_nectar.Operations.Shapes.{IsPlain, meta_at-Makes}

module _ (outside : Outside) where
  pub account_create-Makes :
      Makes IsPlain
        (layout (asset ∷ text ∷ text ∷ authority ∷ authority ∷ authority ∷ key ∷ text ∷ []))
        (account_create outside)
  unfolding account_create
  account_create-Makes kwargs p w h =
      let (_, _, h') = >>=-eq-ok (check_account_name kwargs) _ h in
      after-Makes IsPlain _ _
        (object-Makes IsPlain
          (asset ∷ text ∷ text ∷ authority ∷ authority ∷ authority ∷ key ∷ text ∷ []) _
          (
            amount_at-Makes IsPlain outside "fee",
            (
              text_at-Makes IsPlain "creator",
              (
                text_at-Makes IsPlain "new_account_name",
                (
                  permission_at-Makes outside IsPlain "owner",
                  (
                    permission_at-Makes outside IsPlain "active",
                    (
                      permission_at-Makes outside IsPlain "posting",
                      (
                        public_key_at-Makes IsPlain outside "memo_key",
                        (meta_at-Makes IsPlain dumped_dict "json_metadata", tt),
                      ),
                    ),
                  ),
                ),
              ),
            ),
          ))
        kwargs p w h'

  pub account_create_with_delegation-Makes :
      Makes IsPlain
        (layout (
          asset ∷ asset ∷ text ∷ text ∷ authority ∷ authority ∷ authority ∷ key ∷ text
          ∷ no_extensions ∷ []))
        (account_create_with_delegation outside)
  unfolding account_create_with_delegation
  account_create_with_delegation-Makes kwargs p w h =
      let (_, _, h') = >>=-eq-ok (check_account_name kwargs) _ h in
      after-Makes IsPlain _ _
        (object-Makes IsPlain
          (asset ∷ asset ∷ text ∷ text ∷ authority ∷ authority ∷ authority ∷ key ∷ text
            ∷ no_extensions ∷ [])
          _
          (
            amount_at-Makes IsPlain outside "fee",
            (
              amount_at-Makes IsPlain outside "delegation",
              (
                text_at-Makes IsPlain "creator",
                (
                  text_at-Makes IsPlain "new_account_name",
                  (
                    permission_at-Makes outside IsPlain "owner",
                    (
                      permission_at-Makes outside IsPlain "active",
                      (
                        permission_at-Makes outside IsPlain "posting",
                        (
                          public_key_at-Makes IsPlain outside "memo_key",
                          (
                            meta_at-Makes IsPlain dumped_dict "json_metadata",
                            (no_extensions-Makes IsPlain, tt),
                          ),
                        ),
                      ),
                    ),
                  ),
                ),
              ),
            ),
          ))
        kwargs p w h'

  pub create_claimed_account-Makes :
      Makes IsPlain
        (layout (text ∷ text ∷ authority ∷ authority ∷ authority ∷ key ∷ text ∷ no_extensions ∷ []))
        (create_claimed_account outside)
  unfolding create_claimed_account
  create_claimed_account-Makes kwargs p w h =
      let (_, _, h') = >>=-eq-ok (check_account_name kwargs) _ h in
      after-Makes IsPlain _ _
        (object-Makes IsPlain
          (text ∷ text ∷ authority ∷ authority ∷ authority ∷ key ∷ text ∷ no_extensions ∷ []) _
          (
            text_at-Makes IsPlain "creator",
            (
              text_at-Makes IsPlain "new_account_name",
              (
                permission_at-Makes outside IsPlain "owner",
                (
                  permission_at-Makes outside IsPlain "active",
                  (
                    permission_at-Makes outside IsPlain "posting",
                    (
                      public_key_at-Makes IsPlain outside "memo_key",
                      (
                        meta_at-Makes IsPlain dumped_dict "json_metadata",
                        (no_extensions-Makes IsPlain, tt),
                      ),
                    ),
                  ),
                ),
              ),
            ),
          ))
        kwargs p w h'
