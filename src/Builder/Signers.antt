-- ===== src/Builder/Signers.antt =====
-- Which keys sign: `_fetchkeys`, `appendSigner`, `addSigningInformation` and `appendMissingSignatures`
-- of src/nectar/transactionbuilder.py, without a hardware wallet.
use hive_nectar.Prelude.{
  ℕ, zero, suc, ◌+◌, Bool, true, false, Option, none, some, List, [], ◌∷◌, ◌++◌, leb, length,
  replicate, Result, ok, err, ◌>>=◌, bytes_eq, if◌then◌else◌, value_error, binascii_error,
  unicode_error, missing_key, Error,
}
use hive_nectar.Prelude.Bytes.{Text, codes}
use hive_nectar.Builder.{Authority, Account, Client, Signer, whole}

abbrev pub weight : List (Text × ℕ) → ℕ
weight [] = 0
weight ((k, w) ∷ rest) = w + weight rest

unfoldable pub is_truthy : Option Text → Bool
is_truthy none = false
is_truthy (some []) = false
is_truthy (some (c ∷ cs)) = true

-- The classes that `except ValueError` catches.
unfoldable pub is_value_error : Error → Bool
is_value_error value_error = true
is_value_error binascii_error = true
is_value_error unicode_error = true
is_value_error raised = false

-- The variable `wif` after the look into the wallet: it is left alone if the key is missing.
unfoldable pub looked_up : Option Text → Result (Option Text) → Result (Option Text)
looked_up wif (ok found) = ok found
looked_up wif (err missing_key) = ok wif
looked_up wif (err raised) = if is_value_error raised then ok wif else err raised

unfoldable pub taken : Option Text → ℕ → List (Text × ℕ) → List (Text × ℕ)
taken none w r = r
taken (some []) w r = r
taken (some (c ∷ cs)) w r = r ++ (c ∷ cs, w) ∷ []

-- The permissions of an account.
unfoldable pub authority_of : Account → Text → Authority
authority_of account perm =
    if bytes_eq perm (codes "owner")
    then Account.owner account
    else if bytes_eq perm (codes "active")
    then Account.active account
    else Account.posting account

module _ (client : Client) where
  -- The loop over `key_auths`, with its variables `wif` and `r`.
  unfoldable pub own_keys :
      ℕ → Option Text → List (Text × ℕ) → List (Text × ℕ) → Result (List (Text × ℕ))
  own_keys threshold wif r [] = ok r
  own_keys threshold wif r ((pub', w) ∷ auths) = do
    wif' ← looked_up wif (Client.private_key client pub')
    let r' = taken wif' w r
    let rest = own_keys threshold wif' r' auths
    if leb threshold (weight r') then ok r' else rest

  -- The loop that takes over the keys of another account.
  unfoldable pub add_keys : ℕ → List (Text × ℕ) → List (Text × ℕ) → List (Text × ℕ)
  add_keys threshold r [] = r
  add_keys threshold r (key ∷ keys) =
      let rest = add_keys threshold (r ++ key ∷ []) keys in
      if leb threshold (weight (r ++ key ∷ [])) then r ++ key ∷ [] else rest

  -- The loop over `account_auths`.
  unfoldable pub account_keys :
      (Account → ℕ → Result (List (Text × ℕ) × List Signer))
      → Text
      → List (Text × ℕ)
      → List Signer
      → List (Text × ℕ)
      → Result (List (Text × ℕ) × List Signer)
  account_keys fetch perm r signers [] = ok (r, signers)
  account_keys fetch perm r signers ((name, w) ∷ auths) = do
    auth_account ← Client.account client name
    let required = Authority.weight_threshold (authority_of auth_account perm)
    (keys, more) ← fetch auth_account required
    account_keys fetch perm (add_keys required r keys) (signers ++ more) auths

  -- `_fetchkeys`, with the levels that are left in place of `level`: the keys with their weights, and
  -- what is appended to `signing_accounts`.
  unfoldable pub fetch_keys : ℕ → Text → Account → ℕ → Result (List (Text × ℕ) × List Signer)
  fetch_keys zero perm account threshold = ok ([], [])
  fetch_keys (suc levels) perm account threshold = do
    r ← own_keys threshold none [] (Authority.key_auths (authority_of account perm))
    let signers = replicate (length r) (whole (Account.name account))
    let rest =
        account_keys (λ a t. fetch_keys levels perm a t) perm r signers
          (Authority.account_auths (authority_of account perm))
    if leb threshold (weight r) then ok (r, signers) else rest
