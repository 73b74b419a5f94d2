-- ===== src/Builder/Methods.antt =====
-- `appendSigner`, `addSigningInformation` and `appendMissingSignatures` of
-- src/nectar/transactionbuilder.py, without a hardware wallet.
use hive_nectar.Prelude.{
  ℕ, Bool, true, false, not, ◌&&◌, ◌||◌, Option, none, some, List, [], ◌∷◌, ◌++◌, map, Result, ok,
  err, bytes_eq, if◌then◌else◌, assertion_error, wallet_locked, missing_key,
}
use hive_nectar.Prelude.Bytes.{Text, codes}
use hive_nectar.Builder.{
  Authority, Account, Client, Signer, named, whole, Run, after, ◌>>=◌, pass, raise, lift, self,
  is_constructed, append_wif,
}
use hive_nectar.Builder.Blocks.{Moment, construct_tx}
use hive_nectar.Builder.Signers.{fetch_keys, authority_of}

-- `account["name"] not in self.signing_accounts`: a name is never equal to a whole account.
unfoldable pub lists : Text → List Signer → Bool
lists name [] = false
lists name (named other ∷ signers) = bytes_eq other name || lists name signers
lists name (whole other ∷ signers) = lists name signers

abbrev pub note_signers : List Signer → Run Unit
note_signers signers b = (record b { signing_accounts = b.signing_accounts ++ signers }, ok tt)

module _ (client : Client) where
  unfoldable pub append_wifs : List (Text × ℕ) → Run Unit
  append_wifs [] b = (b, ok tt)
  append_wifs ((wif, w) ∷ keys) b = after (append_wif client wif b) (λ _. append_wifs keys)

  -- The keys of the permission, or those of a higher one if there are none.
  unfoldable pub fetched : ℕ → Text → Account → Run (List (Text × ℕ))
  fetched threshold perm account = do
    (keys, signers) ← lift (fetch_keys client 3 perm account threshold)
    _ ← note_signers signers
    pass keys

  abbrev pub is_nil : List (Text × ℕ) → Bool
  is_nil [] = true
  is_nil (k ∷ keys) = false

  unfoldable pub fetched_if : Bool → ℕ → Text → Account → List (Text × ℕ) → Run (List (Text × ℕ))
  fetched_if missing threshold perm account keys =
      if missing
      then (fetched threshold perm account >>= λ more. pass (keys ++ more))
      else pass keys

  unfoldable pub add_signer : Text → Account → Run Unit
  add_signer permission account = do
    let threshold = Authority.weight_threshold (authority_of account permission)
    own ← fetched threshold permission account
    or_active ←
        fetched_if (is_nil own && bytes_eq permission (codes "posting")) threshold (codes "active")
          account own
    or_owner ←
        fetched_if (is_nil or_active && not (bytes_eq permission (codes "owner"))) threshold
          (codes "owner") account or_active
    _ ← append_wifs or_owner
    note_signers (named (Account.name account) ∷ [])

  unfoldable pub is_permission : Text → Bool
  is_permission permission =
      bytes_eq permission (codes "active")
      || (bytes_eq permission (codes "owner") || bytes_eq permission (codes "posting"))

  unfoldable pub sign_by_wallet : Text → Account → Run Unit
  sign_by_wallet permission account =
      if Client.locked client
      then raise wallet_locked
      else (self >>= λ b.
          if lists (Account.name account) b.signing_accounts
          then pass tt
          else add_signer permission account)

  -- `appendSigner`, of the name of an account.
  unfoldable pub append_signer : Text → Text → Run Unit
  append_signer name permission =
      if not (Client.connected client)
      then pass tt
      else if not (is_permission permission)
      then raise assertion_error
      else lift (Client.account client name) >>= λ account. sign_by_wallet permission account

  abbrev pub keys_of : Authority → List Text
  keys_of authority = map (λ x. x.0) (Authority.key_auths authority)

  -- `self["required_authorities"].update(...)`, and `self["missing_signatures"].extend(...)`.
  abbrev pub require : Text → Authority → Run Unit
  require name authority b = (
    record b {
      content = record b.content {
        required_authorities = b.content.required_authorities ++ (name, authority) ∷ [];
      };
    },
    ok tt,
  )

  abbrev pub extend_missing : List Text → Run Unit
  extend_missing keys b = (
    record b {
      content = record b.content { missing_signatures = b.content.missing_signatures ++ keys };
    },
    ok tt,
  )

  abbrev pub forget_signers : Run Unit
  forget_signers b = (record b { content = record b.content { required_authorities = [] } }, ok tt)

  abbrev pub forget_missing : Run Unit
  forget_missing b = (record b { content = record b.content { missing_signatures = [] } }, ok tt)

  -- One of the two loops over the accounts in an authority.
  unfoldable pub for_accounts : (Text → Authority → Run Unit) → Text → List (Text × ℕ) → Run Unit
  for_accounts each permission [] b = (b, ok tt)
  for_accounts each permission ((name, w) ∷ auths) b =
      after (lift (Client.account client name) b) (λ account.
        each name (authority_of account permission) >>= λ _. for_accounts each permission auths)

  -- `addSigningInformation`, of the name of an account. The entry `blockchain` is left out.
  unfoldable pub add_signing_information : Moment → Text → Text → Bool → Run Unit
  add_signing_information moment name permission reconstruct_tx = do
    b ← self
    _ ← (if not (is_constructed b) || reconstruct_tx then construct_tx client moment else pass tt)
    account ← lift (Client.account client name)
    let authority = authority_of account permission
    _ ← forget_signers
    _ ← require (Account.name account) authority
    _ ← for_accounts require permission (Authority.account_auths authority)
    _ ← forget_missing
    _ ← extend_missing (keys_of authority)
    for_accounts (λ _ other. extend_missing (keys_of other)) permission
        (Authority.account_auths authority)

  -- `appendMissingSignatures`: a key that the wallet does not have is passed over.
  unfoldable pub append_key : Result (Option Text) → Run Unit
  append_key (ok none) b = (b, ok tt)
  append_key (ok (some wif)) b = append_wif client wif b
  append_key (err missing_key) b = (b, ok tt)
  append_key (err raised) b = (b, err raised)

  unfoldable pub append_missing : List Text → Run Unit
  append_missing [] b = (b, ok tt)
  append_missing (pub' ∷ keys) b =
      after (append_key (Client.private_key client pub') b) (λ _. append_missing keys)

  unfoldable pub append_missing_signatures : Run Unit
  append_missing_signatures b = append_missing b.content.missing_signatures b
