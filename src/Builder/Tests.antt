-- ===== src/Builder/Tests.antt =====
-- Runs of src/nectar/transactionbuilder.py, and its theorems at concrete inputs.
use hive_nectar.Prelude.{
  ℕ, ◌≡◌, refl, arith, true, false, not, ◌||◌, Option, none, some, [], ◌∷◌, ◌++◌, Result, ok, err,
  missing_key, attribute_error, replicate, take, if◌then◌else◌, bytes_eq,
}
use hive_nectar.Prelude.Int.{pos}
use hive_nectar.Prelude.Bytes.{
  Text, codes, unhexlify, hex_value, pack_unsigned, le_bytes, hexlify, hex_digit,
}
use hive_nectar.Values.{
  null, a_text, no_entries, traverse, get_or, lookup, iterate, to_list, get, int, has_truthy,
  truthy,
}
use hive_nectar.Wire.{
  to_bytes, graphene_object, operation, array, uint16, uint32, point_in_time, item, end, pack_time,
  count_items,
}
use hive_nectar.Transactions.{
  Transaction, signed_transaction, signatures_of, given_signatures, extensions_of, sign as sign_tx,
  check_chain, derive_digest, chain_id_of, fields_with, unique, without, transaction_id,
}
use hive_nectar.Objects.{
  Outside, uint16_at, field_at, number_of, uint32_at, time_at, time_of, to_items,
}
use hive_nectar.Operations.Classes.{operation_of_object}
use hive_nectar.Operations.Names.{operation_id, index_from}
use hive_nectar.Wire.Varint.{varint, groups}
use hive_nectar.Builder.{
  Given, made, Authority, Account, Client, Content, whole, Builder, new_builder, load, append_ops,
  append_wif, clear, is_signed, no_content, add, is_constructed, has_no_operations,
}
use hive_nectar.Builder.Blocks.{
  Moment, get_block_params, expiration_at, construct_tx, built, to_operation, params_of, reference,
  unpack_second, exp_seconds, first_truthy, later, json,
}
use hive_nectar.Builder.Signers.{is_truthy, fetch_keys, own_keys, authority_of, looked_up, taken}
use hive_nectar.Builder.Methods.{
  append_signer, is_permission, sign_by_wallet, lists, add_signer, fetched, fetched_if, append_wifs,
}
use hive_nectar.Builder.Broadcast.{
  Receipt, transaction, sign, broadcast, finalize_op, finalize_sent, send_buffer, finalized,
  sign_constructed, any_wif, sign_by_wifs, broadcast_signed, deliver, delivered, without_reply,
  id_of, has_id, give_id, clear_and_return,
}
use hive_nectar.Builder.Sending.{Sent, finalize_op-Sent, broadcast_unsigned}
use hive_nectar.Builder.Threshold.{keyed, IsLeast, fetch_keys-IsLeast}

abbrev outside : Outside
outside = record {
  sha256 = λ _. replicate 32 0;
  ripemd = λ _. replicate 20 0;
  compress = λ b. ok b;
  scale = λ v p. ok (pos 1000);
}

abbrev authority : Authority
authority = record {
  weight_threshold = 2;
  account_auths = [];
  key_auths = (codes "p", 1) ∷ (codes "q", 1) ∷ (codes "r", 1) ∷ [];
}

abbrev alice : Account
alice = record { name = codes "alice"; owner = authority; active = authority; posting = authority }

-- The wallet has the private key `k` of each public key `k`, or all but that of `q`.
abbrev client_with : (Text → Result (Option Text)) → Client
client_with private_key = record {
  outside = outside;
  sign_message = λ m wif. ok wif;
  json_of = λ w. null;
  is_wif = λ wif. true;
  private_key = private_key;
  account = λ name. ok alice;
  chain_params = a_text (codes "HIVE");
  expiration = none;
  connected = true;
  locked = false;
  offline = false;
  unsigned = false;
  bundle = false;
  nobroadcast = false;
  blocking = false;
}

abbrev client : Client
client = client_with (λ pub'. ok (some pub'))

without_q : Text → Result (Option Text)
without_q pub' = if bytes_eq pub' (codes "q") then err missing_key else ok (some pub')

-- The variable `wif` is not reset: the key of `p` is taken a second time in place of that of `q`, which
-- is missing, and counts as much as both, so that the key of `r` is not looked for.
stale_key :
    own_keys (client_with without_q) 2 none [] (Authority.key_auths authority)
    ≡ ok ((codes "p", 1) ∷ (codes "p", 1) ∷ [])
unfolding own_keys looked_up taken without_q bytes_eq
stale_key = refl

fetch_keys-IsLeast_example :
    (n : ℕ) × (fetch_keys client 3 (codes "active") alice 2
      ≡ ok (
        keyed (λ p. p) (take n (Authority.key_auths authority)),
        replicate n (whole (codes "alice")),
      ))
    × IsLeast 2 (Authority.key_auths authority) n
unfolding is_truthy authority_of bytes_eq
fetch_keys-IsLeast_example =
    fetch_keys-IsLeast client (λ p. p) 2 2 (codes "active") alice (omega arith)
      ((refl, refl), ((refl, refl), ((refl, refl), tt))) (omega arith)

abbrev moment : Moment
moment = record {
  now = 900;
  properties = some record {
    head_block_number = 65541;
    last_irreversible_block_num = 65520;
    head_block_id = codes "0001000507000000";
    time = 1000;
  };
  previous = λ n. ok [];
}

abbrev vote : Given
vote = made (codes "Vote") (graphene_object end)

abbrev content : Content
content = record no_content {
  block = some (5, 7);
  expiration = some 1300;
  operations = null ∷ [];
  signatures = codes "p" ∷ codes "q" ∷ [];
}

abbrev signed_tx : Transaction
signed_tx = record {
  ref_block_num = uint16 (pos 5);
  ref_block_prefix = uint32 (pos 7);
  expiration = point_in_time (pos 1300);
  operations = array (item (operation (pos 0) (graphene_object end)) end);
  extensions = array end;
  signatures = codes "p" ∷ codes "q" ∷ [];
}

abbrev finished : Builder
finished = record (new_builder none) {
  content = record content { expiration = none };
  require_reconstruction = false;
  tx = some signed_tx;
  sent = content ∷ [];
}

abbrev receipt : Receipt
receipt = record { body = transaction content; trx_id = some (replicate 40 48) }

finalizes :
    finalize_op client false moment moment
      (ok no_entries)
      (vote ∷ [])
      (codes "alice")
      (codes "active")
      (new_builder none)
    ≡ (finished, ok (finalized (some receipt)))
unfolding finalize_op finalize_sent send_buffer append_ops append_signer is_permission bytes_eq
    sign_by_wallet lists new_builder add_signer fetched fetch_keys own_keys authority_of looked_up
    taken fetched_if append_wifs append_wif add sign is_signed is_constructed has_no_operations
    construct_tx built traverse to_operation get_block_params params_of reference unhexlify
    hex_value unpack_second expiration_at exp_seconds first_truthy later signed_transaction
    signatures_of given_signatures get_or lookup iterate to_list uint16_at field_at get number_of
    int uint32_at time_at time_of extensions_of has_truthy to_items operation_of_object operation_id
    index_from sign_constructed any_wif sign_by_wifs sign_tx check_chain truthy derive_digest
    chain_id_of to_bytes fields_with varint groups pack_unsigned le_bytes pack_time count_items
    unique without broadcast broadcast_signed json deliver delivered without_reply id_of has_id
    transaction_id hexlify hex_digit give_id clear_and_return clear
finalizes = refl

finalize_op-Sent_example :
    (b1 : Builder) × (append_signer client
        (codes "alice")
        (codes "active")
        (append_ops (vote ∷ []) (new_builder none)).0
      ≡ (b1, ok tt))
    × Sent client ((new_builder none).ops ++ vote ∷ []) (new_builder none).sent b1.wifs finished
finalize_op-Sent_example =
    finalize_op-Sent client moment moment (ok no_entries) (vote ∷ []) (codes "alice")
      (codes "active") (new_builder none) finished receipt (refl, refl, refl, refl) finalizes

-- The builder is used a second time.
abbrev reused : Builder
reused = record finished { ops = vote ∷ []; wifs = codes "p" ∷ []; require_reconstruction = true }

reuses : append_wif client (codes "p") (append_ops (vote ∷ []) finished).0 ≡ (reused, ok tt)
unfolding append_wif append_ops add new_builder
reuses = refl

abbrev unsigned_content : Content
unsigned_content = record content { signatures = [] }

abbrev finished_again : Builder
finished_again = record finished {
  content = record unsigned_content { expiration = none };
  tx = some (record signed_tx { signatures = [] });
  sent = content ∷ unsigned_content ∷ [];
}

broadcasts :
    broadcast client moment moment (ok no_entries) true reused
    ≡ (finished_again, ok (some record { body = transaction unsigned_content; trx_id = none }))
unfolding finalize_op finalize_sent send_buffer append_ops append_signer is_permission bytes_eq
    sign_by_wallet lists new_builder add_signer fetched fetch_keys own_keys authority_of looked_up
    taken fetched_if append_wifs append_wif add sign is_signed is_constructed has_no_operations
    construct_tx built traverse to_operation get_block_params params_of reference unhexlify
    hex_value unpack_second expiration_at exp_seconds first_truthy later signed_transaction
    signatures_of given_signatures get_or lookup iterate to_list uint16_at field_at get number_of
    int uint32_at time_at time_of extensions_of has_truthy to_items operation_of_object operation_id
    index_from sign_constructed any_wif sign_by_wifs sign_tx check_chain truthy derive_digest
    chain_id_of to_bytes fields_with varint groups pack_unsigned le_bytes pack_time count_items
    unique without broadcast broadcast_signed json deliver delivered without_reply id_of has_id
    transaction_id hexlify hex_digit give_id clear_and_return clear
broadcasts = refl

reused_signed : is_signed reused ≡ true
unfolding is_signed
reused_signed = refl

reused_stale : (not (is_constructed reused) || reused.require_reconstruction) ≡ true
unfolding is_constructed
reused_stale = refl

broadcast_unsigned_example :
    (trx : Content) × (finished_again.sent ≡ reused.sent ++ trx ∷ []) × (trx.signatures ≡ [])
broadcast_unsigned_example =
    broadcast_unsigned client moment moment (ok no_entries) true reused finished_again
      record { body = transaction unsigned_content; trx_id = none } refl reused_signed reused_stale
      broadcasts

abbrev loaded : Builder
loaded = record (load none content) { wifs = codes "p" ∷ [] }

-- A transaction that was loaded has no object to sign, unless it is built anew.
loaded_unsignable : sign client moment false loaded ≡ (loaded, err attribute_error)
unfolding sign is_constructed load new_builder sign_constructed has_no_operations any_wif
    sign_by_wifs
loaded_unsignable = refl
