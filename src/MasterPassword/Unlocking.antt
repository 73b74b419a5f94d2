-- ===== src/MasterPassword/Unlocking.antt =====
-- Who can unlock the master key of src/nectarstorage/masterpassword.py.
use hive_nectar.Prelude.{
  ℕ, ◌<◌, ◌≡◌, refl, ap, true, false, Option, none, some, Option-cases, inl, inr, [], ◌∷◌, All,
  take, bytes_eq, bytes_eq_refl, Result, ok, err, wallet_locked, wrong_master_password,
  unicode_error, type_error,
}
use hive_nectar.Prelude.Bytes.{Bytes, Text, IsByte, ascii, hexlify, ascii_below, hexlify_below}
use hive_nectar.MasterPassword.{
  Stored, MasterPassword, locked_master, is_set, unlocked, put_entry, derive_checksum, has_checksum,
  after_check, encrypted_entry, save_entry, save_again, accept_master, unlock, change_password,
  encrypt_text,
}

-- A text that `bytes(text, "ascii")` takes.
abbrev pub IsAscii : Text → Type 0
IsAscii s = All (λ c. c < 128) s

module _ (sha256 : Bytes → Bytes) where
  -- The checksum of a text.
  abbrev pub checksum_of : Text → Text
  checksum_of s = take 4 (hexlify (sha256 s))

  derive_checksum-ascii : (s : Text) → IsAscii s → derive_checksum sha256 s ≡ ok (checksum_of s)
  unfolding derive_checksum
  derive_checksum-ascii s a = rw (ascii_below s a) refl

module _ (encrypt_with : Text → Text → Text → Text) (decrypt_with : Text → Text → Option Text)
    (sha256 : Bytes → Bytes) where
  -- The object after an unlocking, over the configuration that was left.
  abbrev pub reopened :
      Bytes → Text → Text → Text → MasterPassword → MasterPassword × Result (Unit {0})
  reopened random first second password s =
      unlock encrypt_with decrypt_with sha256 random first second password (locked_master s.config)

  abbrev entry_for : Text → Text → Text → Stored
  entry_for seed p master = record {
    checksum = checksum_of sha256 master;
    encrypted_master = encrypt_with seed p master;
  }

  entry_made :
      (seed p master : Text)
      → IsAscii master
      → encrypted_entry encrypt_with decrypt_with sha256 seed p master
        ≡ ok (entry_for seed p master)
  unfolding encrypted_entry
  entry_made seed p master a = rw (derive_checksum-ascii sha256 master a) refl

  saved :
      (seed : Text) (c : ℕ) (cs : Text) (o : Option Stored) (master : Text)
      → IsAscii master
      → save_entry encrypt_with decrypt_with sha256 seed
          (record { config = o; password = some (c ∷ cs); decrypted_master = some master })
        ≡ (
          record {
            config = some (entry_for seed (c ∷ cs) master);
            password = some (c ∷ cs);
            decrypted_master = some master;
          },
          ok tt,
        )
  unfolding save_entry unlocked is_set put_entry
  saved seed c cs o master a = rw (entry_made seed (c ∷ cs) master a) refl

  module _
      (decrypt-encrypt : (seed p t : Text) → decrypt_with p (encrypt_with seed p t) ≡ some t) where
    accept_entry :
        (s : MasterPassword) (seed p master : Text)
        → IsAscii master
        → accept_master sha256 s
            (checksum_of sha256 master)
            (decrypt_with p (encrypt_with seed p master))
          ≡ (record s { decrypted_master = some master }, ok tt)
    unfolding accept_master after_check has_checksum
    accept_entry s seed p master a =
        rw
          (
            decrypt-encrypt seed p master,
            derive_checksum-ascii sha256 master a,
            bytes_eq_refl (checksum_of sha256 master),
          )
          refl

    reopened_entry :
        (random : Bytes) (first second seed p : Text) (master : Text)
        → IsAscii master
        → unlock encrypt_with decrypt_with sha256 random first second p
            (locked_master (some (entry_for seed p master)))
          ≡ (
            record {
              config = some (entry_for seed p master);
              password = some p;
              decrypted_master = some master;
            },
            ok tt,
          )
    unfolding unlock
    reopened_entry random first second seed p master a =
        accept_entry (record (locked_master (some (entry_for seed p master))) { password = some p })
          seed p master a

    -- For a cipher that decrypts what it encrypts, a new store that is unlocked with a password
    -- that is not empty keeps its master key: the same password gets it back from the
    -- configuration, whatever is random then.
    pub unlock-unlock :
        (random random' : Bytes) (first second first' second' : Text) (c : ℕ) (cs : Text)
        → All IsByte random
        → let opened =
            (unlock encrypt_with decrypt_with sha256 random first second
              (c ∷ cs)
              (locked_master none)).0 in
          reopened random' first' second' (c ∷ cs) opened ≡ (
            record opened { password = some (c ∷ cs); decrypted_master = some (hexlify random) },
            ok tt,
          )
    unfolding unlock save_again
    unlock-unlock random random' first second first' second' c cs b =
        let master = hexlify random in
        let a = hexlify_below random b in
        rw
          (
            saved first c cs none master a,
            saved second c cs (some (entry_for first (c ∷ cs) master)) master a,
          )
          (reopened_entry random' first' second' second (c ∷ cs) master a)

    -- For a cipher that decrypts what it encrypts, a change of the password of an unlocked store,
    -- whose master key is ASCII, to a password that is not empty succeeds, and the new password
    -- then gets the same master key.
    pub unlock-change_password :
        (seed : Text) (random : Bytes) (first second : Text) (c : ℕ) (cs : Text)
        (s : MasterPassword) (master : Text)
        → IsAscii master
        → unlocked s ≡ true
        → s.decrypted_master ≡ some master
        → let changed = change_password encrypt_with decrypt_with sha256 seed (c ∷ cs) s in
          (changed.1 ≡ ok tt)
          × ((reopened random first second (c ∷ cs) changed.0).0.decrypted_master ≡ some master)
    unfolding change_password
    unlock-change_password seed random first second c cs s master a u m =
        rw (u, m, saved seed c cs s.config master a)
          (
            refl,
            ap (λ r. r.0.decrypted_master)
                (reopened_entry random first second seed (c ∷ cs) master a),
          )

  -- A password with which the entry does not decrypt, or decrypts only to an ASCII text of another
  -- checksum, is refused, and leaves the store locked.
  pub unlock_refused :
      (random : Bytes) (first second p : Text) (s : MasterPassword) (entry : Stored)
      → s.config ≡ some entry
      → ((m : Text)
          → decrypt_with p entry.encrypted_master ≡ some m
          → IsAscii m × (bytes_eq entry.checksum (checksum_of sha256 m) ≡ false))
      → let result = unlock encrypt_with decrypt_with sha256 random first second p s in
        (unlocked result.0 ≡ false) × (result.1 ≡ err wrong_master_password)
  unfolding unlock accept_master after_check has_checksum unlocked is_set
  unlock_refused random first second p s entry e h =
      elim (Option-cases (decrypt_with p entry.encrypted_master)) [
        | inl d ↦ rw (e, d) (refl, refl)
        | inr (m, d) ↦
            let (a, differs) = h m d in
            rw (e, d, derive_checksum-ascii sha256 m a, differs) (refl, refl)
      ]

  -- If the entry of a store without a master key decrypts under a password that is not empty to a
  -- text that is not ASCII, the unlocking raises UnicodeEncodeError and not the exception for a
  -- wrong password, and the store then says that it is unlocked, but raises TypeError when it is to
  -- encrypt a text.
  pub unlock_undecodable :
      (random : Bytes) (first second seed txt : Text) (c : ℕ) (cs : Text) (s : MasterPassword)
      (entry : Stored) (m : Text)
      → s.config ≡ some entry
      → s.decrypted_master ≡ none
      → decrypt_with (c ∷ cs) entry.encrypted_master ≡ some m
      → ascii m ≡ err unicode_error
      → let result = unlock encrypt_with decrypt_with sha256 random first second (c ∷ cs) s in
        (result.1 ≡ err unicode_error)
        × (unlocked result.0 ≡ true)
        × (encrypt_text encrypt_with decrypt_with sha256 seed txt result.0 ≡ err type_error)
  unfolding unlock accept_master after_check has_checksum derive_checksum unlocked is_set
      encrypt_text
  unlock_undecodable random first second seed txt c cs s entry m e n d a =
      rw (e, d, a, n) (refl, refl, refl)

  -- A change of the password of an unlocked store to the empty password raises, leaves what is
  -- stored as it was, and locks the store.
  pub change_password_blank :
      (seed : Text) (s : MasterPassword)
      → unlocked s ≡ true
      → let result = change_password encrypt_with decrypt_with sha256 seed [] s in
        (result.1 ≡ err wallet_locked) × (unlocked result.0 ≡ false) × (result.0.config ≡ s.config)
  unfolding change_password save_entry unlocked is_set
  change_password_blank seed s u = rw u (refl, refl, refl)
