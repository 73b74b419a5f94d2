-- ===== src/Transactions.antt =====
-- src/nectargraphenebase/signedtransactions.py: transactions, the message that is signed, and signing.
-- The signing of a message (`sign_message`) is a parameter, and the operations are objects already.
pub mod Messages
pub mod Signing
mod Tests
use hive_nectar.Prelude.{
  ℕ, [], ◌∷◌, ◌++◌, Bool, true, false, List, map, if◌then◌else◌, take, ltb, Result, ok, err, ◌>>=◌,
  type_error, value_error, general, bytes_eq,
}
use hive_nectar.Prelude.Int.{ℤ, pos}
use hive_nectar.Prelude.Bytes.{Bytes, Text, codes, hexlify, unhexlify}
use hive_nectar.Values.{
  Value, null, a_text, a_number, a_flag, a_moment, a_list, a_dict, Dict, get, get_or, has,
  has_truthy, truthy, iterate, traverse, no_values,
}
use hive_nectar.Wire.{
  Wire, uint16, uint32, signature, array, graphene_object, unwritable, Items, end, item, to_bytes,
}
use hive_nectar.Objects.{written, to_items, uint16_at, uint32_at, time_at}

pub record Transaction : Type 0 where
  pub ref_block_num : Wire
  pub ref_block_prefix : Wire
  pub expiration : Wire
  pub operations : Wire
  pub extensions : Wire
  pub signatures : List Bytes

-- Extensions that are given stay a list, which is written if it is one of bytes.
unfoldable pub raw_byte : Value → Result ℕ
raw_byte (a_number (pos n)) = if ltb n 256 then ok n else err value_error
raw_byte (a_number z) = err value_error
raw_byte _ = err type_error

unfoldable pub extensions_of : Dict → Wire
extensions_of kwargs =
    if has_truthy kwargs (codes "extensions")
    then written signature
        (iterate (get_or kwargs (codes "extensions") null) >>= λ vs. traverse raw_byte vs)
    else array end

-- `Signature(unhexlify(a))`.
unfoldable pub signature_bytes : Value → Result Bytes
signature_bytes (a_text a) = unhexlify a
signature_bytes _ = err type_error

unfoldable pub given_signatures : Value → Result (List Bytes)
given_signatures (a_text s) = err type_error
given_signatures value = do vs ← iterate value; traverse signature_bytes vs

unfoldable pub signatures_of : Dict → Result (List Bytes)
signatures_of kwargs = given_signatures (get_or kwargs (codes "signatures") (a_list no_values))

-- `__init__`, of operations that are objects of the class of operations.
unfoldable pub signed_transaction : Dict → List Wire → Result Transaction
signed_transaction kwargs operations = do
  signatures ← signatures_of kwargs
  ref_block_num ← uint16_at "ref_block_num" kwargs
  ref_block_prefix ← uint32_at "ref_block_prefix" kwargs
  expiration ← time_at "expiration" kwargs
  ok record {
    ref_block_num = ref_block_num;
    ref_block_prefix = ref_block_prefix;
    expiration = expiration;
    operations = array (to_items operations);
    extensions = extensions_of kwargs;
    signatures = signatures;
  }

-- The fields in their order, with `last` where the signatures stand.
unfoldable pub fields_with : Items → Transaction → Wire
fields_with last tx = graphene_object (
    item (Transaction.ref_block_num tx) (
      item (Transaction.ref_block_prefix tx) (
        item (Transaction.expiration tx)
          (item (Transaction.operations tx) (item (Transaction.extensions tx) last)))))

-- `bytes(tx)`.
unfoldable pub transaction_bytes : Transaction → Result Bytes
transaction_bytes tx =
    to_bytes
      (fields_with (item (array (to_items (map signature (Transaction.signatures tx)))) end) tx)

-- `getChainParams`: a known chain by its name, or a dictionary.
abbrev pub known_chain_id : Text
known_chain_id = codes "beeab0de00000000000000000000000000000000000000000000000000000000"

unfoldable pub chain_id_of : Value → Result Text
chain_id_of (a_text name) = if bytes_eq name (codes "HIVE") then ok known_chain_id else err general
chain_id_of (a_dict params) =
    if has params (codes "chain_id")
    then (do id ← get params (codes "chain_id"); elim id [ a_text s ↦ ok s | _ ↦ err type_error ])
    else err general
chain_id_of _ = err general

module _ (sha256 : Bytes → Bytes) where
  -- `id`, for which the signatures are taken out.
  unfoldable pub transaction_id : Transaction → Result Text
  transaction_id tx = do b ← to_bytes (fields_with end tx); ok (hexlify (take 20 (sha256 b)))

  -- `deriveDigest`, for which the signatures are an empty list, of no bytes: the message and its
  -- digest.
  unfoldable pub derive_digest : Value → Transaction → Result (Bytes × Bytes)
  derive_digest chain tx = do
    chain_id ← chain_id_of chain
    c ← unhexlify chain_id
    b ← to_bytes (fields_with (item (signature []) end) tx)
    ok (c ++ b, sha256 (c ++ b))

-- `list(dict.fromkeys(wifkeys))`: every key once, where it stands first.
unfoldable pub without : Text → List Text → List Text
without wif [] = []
without wif (x ∷ xs) = let rest = without wif xs in if bytes_eq wif x then rest else x ∷ rest

unfoldable pub unique : List Text → List Text
unique [] = []
unique (wif ∷ wifs) = wif ∷ without wif (unique wifs)

-- `if not chain: raise`.
unfoldable pub check_chain : Value → Result Value
check_chain chain = if truthy chain then ok chain else err general

module _ (sha256 : Bytes → Bytes) (sign_message : Bytes → Text → Result Bytes) where
  -- `sign`, of a list of keys.
  unfoldable pub sign : List Text → Value → Transaction → Result Transaction
  sign wifkeys chain tx = do
    given ← check_chain chain
    (message, digest) ← derive_digest sha256 given tx
    sigs ← traverse (sign_message message) (unique wifkeys)
    ok record tx { signatures = sigs }
