-- ===== src/MasterPassword.antt =====
-- `MasterPassword` of src/nectarstorage/masterpassword.py: a random master key, kept in the configuration
-- encrypted with the user's password. The cipher (with the random bytes it starts from), the hash and the
-- random keys are parameters. Passwords and texts are ones that UTF-8 encodes. The configuration is the
-- one entry that the class uses. A password in the environment or a keyring is not given, and
-- `split("$")` is at the one `$` that the writer puts in.
mod Unlocking
mod Tests
use hive_nectar.Prelude.{
  ℕ, Bool, true, false, not, Option, none, some, List, [], ◌∷◌, if◌then◌else◌, bytes_eq, Result, ok,
  err, ◌>>=◌, take, wallet_locked, wrong_master_password, type_error,
}
use hive_nectar.Prelude.Bytes.{Bytes, Text, ascii, hexlify}

-- The stored text: the checksum of the master key, and the encrypted master key.
pub record Stored : Type 0 where
  pub checksum : Text
  pub encrypted_master : Text

pub record MasterPassword : Type 0 where
  pub config : Option Stored
  pub password : Option Text
  pub decrypted_master : Option Text

-- An object without password, over a configuration.
abbrev pub locked_master : Option Stored → MasterPassword
locked_master config = record { config = config; password = none; decrypted_master = none }

-- `bool(self.password)`: no password, or the empty one, does not unlock.
unfoldable pub is_set : Option Text → Bool
is_set none = false
is_set (some []) = false
is_set (some (c ∷ cs)) = true

unfoldable pub unlocked : MasterPassword → Bool
unlocked s = is_set s.password

unfoldable pub lock : MasterPassword → MasterPassword
lock s = record s { password = none; decrypted_master = none }

unfoldable pub wipe_masterpassword : MasterPassword → MasterPassword
wipe_masterpassword s = record s { config = none }

-- What is to be stored, if making it does not raise.
unfoldable pub put_entry : MasterPassword → Result Stored → MasterPassword × Result (Unit {0})
put_entry s (err e) = (s, err e)
put_entry s (ok entry) = (record s { config = some entry }, ok tt)

module _ (sha256 : Bytes → Bytes) where
  -- `_derive_checksum` and `deriveChecksum`, which raise for a text that is not ASCII.
  unfoldable pub derive_checksum : Text → Result Text
  derive_checksum s = do b ← ascii s; ok (take 4 (hexlify (sha256 b)))

  -- The comparison of a checksum with that of a text.
  unfoldable pub has_checksum : Text → Text → Result Bool
  has_checksum checksum s = do d ← derive_checksum s; ok (bytes_eq checksum d)

  -- What the decrypted master key leads to: an exception out of the checksum is not caught, and leaves
  -- the password as it was set.
  unfoldable pub after_check :
      MasterPassword → Text → Result Bool → MasterPassword × Result (Unit {0})
  after_check s master (err e) = (s, err e)
  after_check s master (ok true) = (record s { decrypted_master = some master }, ok tt)
  after_check s master (ok false) = (record s { password = none }, err wrong_master_password)

  -- What the decryption of the entry leads to.
  unfoldable pub accept_master :
      MasterPassword → Text → Option Text → MasterPassword × Result (Unit {0})
  accept_master s checksum none = (record s { password = none }, err wrong_master_password)
  accept_master s checksum (some master) = after_check s master (has_checksum checksum master)

  unfoldable pub check_text : Text → Option Text → Result Text
  check_text checksum none = err wrong_master_password
  check_text checksum (some txt) = do
    same ← has_checksum checksum txt
    if same then ok txt else err wrong_master_password

module _ (encrypt_with : Text → Text → Text → Text) (decrypt_with : Text → Text → Option Text)
    (sha256 : Bytes → Bytes) where
  unfoldable pub encrypted_entry : Text → Text → Text → Result Stored
  encrypted_entry seed password master = do
    checksum ← derive_checksum sha256 master
    ok (record { checksum = checksum; encrypted_master = encrypt_with seed password master })

  -- `_save_encrypted_masterpassword`; a master key that is not there raises in the checksum.
  unfoldable pub save_entry : Text → MasterPassword → MasterPassword × Result (Unit {0})
  save_entry seed s =
      if unlocked s
      then elim s.password [
        | none ↦ (s, err wallet_locked)
        | some p ↦ elim s.decrypted_master [
          | none ↦ (s, err type_error)
          | some master ↦ put_entry s (encrypted_entry seed p master)
        ]
      ]
      else (s, err wallet_locked)

  -- The second save of `unlock`, if the first one did not raise.
  unfoldable pub save_again :
      Text → MasterPassword × Result (Unit {0}) → MasterPassword × Result (Unit {0})
  save_again seed (s, err e) = (s, err e)
  save_again seed (s, ok u) = save_entry seed s

  -- `unlock`; `random` is what the new master key is made of, which `_new_masterpassword` saves once and
  -- `unlock` again, `first` and `second` the random starts of the cipher.
  unfoldable pub unlock :
      Bytes → Text → Text → Text → MasterPassword → MasterPassword × Result (Unit {0})
  unlock random first second password s = elim s.config [
    | some entry ↦
        accept_master sha256 (record s { password = some password }) entry.checksum
          (decrypt_with password entry.encrypted_master)
    | none ↦ save_again second (
        save_entry first
          (record s { password = some password; decrypted_master = some (hexlify random) }))
  ]

  unfoldable pub change_password : Text → Text → MasterPassword → MasterPassword × Result (Unit {0})
  change_password seed newpassword s =
      if unlocked s
      then save_entry seed (record s { password = some newpassword })
      else (s, err wallet_locked)

  -- `encrypt_text`, with the master key as the password; the cipher refuses a key that is not there.
  unfoldable pub encrypt_text : Text → Text → MasterPassword → Result Stored
  encrypt_text seed txt s =
      if unlocked s
      then elim s.decrypted_master [
        | none ↦ err type_error
        | some master ↦ encrypted_entry seed master txt
      ]
      else err wallet_locked

  unfoldable pub decrypt_text : Stored → MasterPassword → Result Text
  decrypt_text entry s =
      if unlocked s
      then elim s.decrypted_master [
        | none ↦ err type_error
        | some master ↦
            check_text sha256 entry.checksum (decrypt_with master entry.encrypted_master)
      ]
      else err wallet_locked
