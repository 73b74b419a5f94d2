-- ===== src/Objects/Keys.antt =====
-- `PublicKey.__init__`, `__repr__` and `__bytes__` of src/nectargraphenebase/account.py.
use hive_nectar.Prelude.{
  [], ◌∷◌, ◌++◌, if◌then◌else◌, take, Result, ok, err, ◌>>=◌, type_error, bytes_eq,
}
use hive_nectar.Prelude.Bytes.{Text, codes, hexlify, unhexlify}
use hive_nectar.Values.{Value, a_text, get}
use hive_nectar.Wire.{Wire, public_key}
use hive_nectar.Base58.{load, gph_base58_check_encode}
use hive_nectar.Objects.{Outside, Field, prefix_in, written}
use Prim.Native.String.{String}

-- `Prefix.set_prefix`: an empty prefix leaves that of the class.
abbrev pub set_prefix : Text → Text
set_prefix [] = codes "STM"
set_prefix (c ∷ cs) = c ∷ cs

module _ (outside : Outside) where
  abbrev load_key : Text → Text → Result Text
  load_key = load (Outside.sha256 outside) (Outside.ripemd outside)

  -- The data of a key, in hexadecimal digits. A key that starts with 04 is compressed first.
  unfoldable pub public_key_data : Text → Value → Result Text
  public_key_data prefix (a_text pk) =
      if bytes_eq (take 2 pk) (codes "04")
      then (do
        point ← unhexlify pk
        pk_bytes ← Outside.compress outside point
        load_key (set_prefix prefix) (hexlify pk_bytes))
      else load_key (set_prefix prefix) pk
  public_key_data prefix _ = err type_error

  -- `repr(PublicKey(value, prefix))`.
  unfoldable pub public_key_repr : Text → Value → Result Text
  public_key_repr prefix value = do
    data' ← public_key_data prefix value
    s ← gph_base58_check_encode (Outside.ripemd outside) data'
    ok (set_prefix prefix ++ s)

  unfoldable pub public_key_of : Text → Value → Result Wire
  public_key_of prefix value = do
    data' ← public_key_data prefix value
    ok (written public_key (unhexlify data'))

  -- `PublicKey(kwargs[key], prefix=prefix)`.
  unfoldable pub public_key_at : String → Field
  public_key_at key kwargs = do v ← get kwargs (codes key); public_key_of (prefix_in kwargs) v
