-- ===== src/MasterPassword/Tests.antt =====
-- `MasterPassword` of src/nectarstorage/masterpassword.py with a cipher that puts the password in front.
use hive_nectar.Prelude.{
  ◌≡◌, refl, sym, ◌∙◌, arith, true, false, Option, none, some, [], ◌∷◌, ◌++◌, if◌then◌else◌, ◌==◌,
  ok, err, ◌>>=◌, take, bytes_eq, wallet_locked, wrong_master_password, unicode_error, type_error,
  Result,
}
use hive_nectar.Prelude.Bytes.{Bytes, Text, codes, ascii, hexlify, hex_digit}
use hive_nectar.MasterPassword.{
  MasterPassword, locked_master, is_set, unlocked, unlock, change_password, encrypt_text,
  decrypt_text, encrypted_entry, derive_checksum, has_checksum, check_text,
}
use hive_nectar.MasterPassword.Unlocking.{
  reopened, unlock-unlock, unlock-change_password, unlock_refused, unlock_undecodable,
  change_password_blank,
}

abbrev encrypt_with : Text → Text → Text → Text
encrypt_with seed p t = p ++ t

unfoldable strip : Text → Text → Option Text
strip [] t = some t
strip (c ∷ cs) [] = none
strip (c ∷ cs) (d ∷ ds) = let rest = strip cs ds in if c == d then rest else none

strip-append : (seed p t : Text) → strip p (encrypt_with seed p t) ≡ some t
unfolding strip
strip-append seed [] t = refl
strip-append seed (c ∷ cs) t =
    let same : (c == c) ≡ true = ground arith in rw same (strip-append seed cs t)

abbrev hash : Bytes → Bytes
hash bs = bs

abbrev opened : MasterPassword
opened = (unlock encrypt_with strip hash (1 ∷ 255 ∷ []) [] [] (codes "pw") (locked_master none)).0

unlock-unlock_example : reopened encrypt_with strip hash (7 ∷ []) [] [] (codes "pw") opened ≡ (
  record opened { password = some (codes "pw"); decrypted_master = some (hexlify (1 ∷ 255 ∷ [])) },
  ok tt,
)
unlock-unlock_example =
    unlock-unlock encrypt_with strip hash strip-append (1 ∷ 255 ∷ []) (7 ∷ []) [] [] [] [] b'p'
      (codes "w") (omega arith)

-- The checksum stands for 4 digits of "key".
abbrev ready : MasterPassword
ready = record {
  config = some (record { checksum = codes "6b65"; encrypted_master = codes "pwkey" });
  password = some (codes "pw");
  decrypted_master = some (codes "key");
}

ready-unlocked : unlocked ready ≡ true
unfolding unlocked is_set
ready-unlocked = refl

text_back : Result Text
unfolding encrypt_text decrypt_text unlocked is_set encrypted_entry derive_checksum has_checksum
    check_text ascii bytes_eq hexlify hex_digit strip
text_back = encrypt_text encrypt_with strip hash [] (codes "5Jx") ready >>= λ e.
    decrypt_text encrypt_with strip hash e ready

text_back_runs : text_back ≡ ok (codes "5Jx")
unfolding text_back
text_back_runs = refl

unlock-change_password_example :
    ((change_password encrypt_with strip hash [] (codes "new") ready).1 ≡ ok tt)
    × ((reopened encrypt_with strip hash [] [] []
          (codes "new")
          (change_password encrypt_with strip hash [] (codes "new") ready).0).0.decrypted_master
        ≡ some (codes "key"))
unlock-change_password_example =
    unlock-change_password encrypt_with strip hash strip-append [] [] [] [] b'n' (codes "ew") ready
      (codes "key") (omega arith) ready-unlocked refl

wrong_password : strip (codes "p") (codes "pwkey") ≡ some (codes "wkey")
unfolding strip
wrong_password = refl

differs : bytes_eq (codes "6b65") (take 4 (hexlify (codes "wkey"))) ≡ false
unfolding bytes_eq hexlify hex_digit
differs = refl

some_eq : (m m' : Text) → some m ≡ some m' → m ≡ m'
some_eq m m' e = cc

unlock_refused_example :
    (unlocked (unlock encrypt_with strip hash [] [] [] (codes "p") ready).0 ≡ false)
    × ((unlock encrypt_with strip hash [] [] [] (codes "p") ready).1 ≡ err wrong_master_password)
unlock_refused_example =
    unlock_refused encrypt_with strip hash [] [] [] (codes "p") ready
      (record { checksum = codes "6b65"; encrypted_master = codes "pwkey" }) refl
      (λ m d. let same = some_eq _ m (sym wrong_password ∙ d) in rw (← same) (omega arith, differs))

-- A master key of one character that is not ASCII.
abbrev foreign : MasterPassword
foreign =
    locked_master
      (some (record { checksum = codes "c3a9"; encrypted_master = codes "pw" ++ 233 ∷ [] }))

foreign_text : strip (codes "pw") (codes "pw" ++ 233 ∷ []) ≡ some (233 ∷ [])
unfolding strip
foreign_text = refl

foreign_raises : ascii (233 ∷ []) ≡ err unicode_error
unfolding ascii
foreign_raises = refl

unlock_undecodable_example :
    ((unlock encrypt_with strip hash [] [] [] (codes "pw") foreign).1 ≡ err unicode_error)
    × (unlocked (unlock encrypt_with strip hash [] [] [] (codes "pw") foreign).0 ≡ true)
    × (encrypt_text encrypt_with strip hash []
          (codes "5Jx")
          (unlock encrypt_with strip hash [] [] [] (codes "pw") foreign).0
        ≡ err type_error)
unlock_undecodable_example =
    unlock_undecodable encrypt_with strip hash [] [] [] [] (codes "5Jx") b'p' (codes "w") foreign
      (record { checksum = codes "c3a9"; encrypted_master = codes "pw" ++ 233 ∷ [] }) (233 ∷ [])
      refl refl foreign_text foreign_raises

change_password_blank_example :
    ((change_password encrypt_with strip hash [] [] ready).1 ≡ err wallet_locked)
    × (unlocked (change_password encrypt_with strip hash [] [] ready).0 ≡ false)
    × ((change_password encrypt_with strip hash [] [] ready).0.config ≡ ready.config)
change_password_blank_example =
    change_password_blank encrypt_with strip hash [] ready ready-unlocked
