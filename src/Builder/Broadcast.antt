-- ===== src/Builder/Broadcast.antt =====
-- `sign` and `broadcast` of src/nectar/transactionbuilder.py, and `finalizeOp` of
-- src/nectar/blockchaininstance/core.py, without a hardware wallet.
use hive_nectar.Prelude.{
  Bool, true, false, not, ◌&&◌, ◌||◌, Option, none, some, List, [], ◌∷◌, ◌++◌, Result, ok, err,
  demand, if◌then◌else◌, type_error, attribute_error, missing_key,
}
use hive_nectar.Prelude.Bytes.{Text, codes}
use hive_nectar.Values.{a_dict, Dict, entry, no_entries, lookup, has}
use hive_nectar.Objects.{Outside}
use hive_nectar.Transactions.{Transaction, transaction_id}
use hive_nectar.Transactions as Signed
use hive_nectar.Builder.{
  Given, Client, Content, Run, ◌>>=◌, pass, raise, lift, self, is_signed, is_constructed,
  has_no_operations, clear, append_ops,
}
use hive_nectar.Builder.Blocks.{Moment, construct_tx, json}
use hive_nectar.Builder.Methods.{append_signer, add_signing_information}

-- `any(self.wifs)`.
unfoldable pub any_wif : List Text → Bool
any_wif [] = false
any_wif ([] ∷ wifs) = any_wif wifs
any_wif ((c ∷ cs) ∷ wifs) = true

-- What a broadcast returns: the JSON of the transaction or the reply of the node, with an id that is added.
pub data Body : Type 0 where
  transaction : Content → Body
  reply : Dict → Body

pub record Receipt : Type 0 where
  pub body : Body
  pub trx_id : Option Text

-- `ret.update(**ret.get("trx"))`.
unfoldable pub merged : Dict → Dict → Dict
merged no_entries d = d
merged (entry k v t) d = entry k v (merged t d)

unfoldable pub merge_trx : Dict → Result Dict
merge_trx d = elim (lookup d (codes "trx")) [
  | none ↦ ok d
  | some (a_dict t) ↦ ok (merged t d)
  | some _ ↦ err type_error
]

unfoldable pub with_reply : Result Dict → Result Body
with_reply (err raised) = err raised
with_reply (ok d) = elim (merge_trx d) [ err raised ↦ err raised | ok d' ↦ ok (reply d') ]

unfoldable pub without_reply : Content → Result Dict → Result Body
without_reply ret (err raised) = err raised
without_reply ret (ok d) = ok (transaction ret)

unfoldable pub has_id : Body → Bool
has_id (transaction ret) = false
has_id (reply d) = has d (codes "trx_id")

abbrev pub keep_signed : Transaction → Run (Option Transaction)
keep_signed tx b = (
  record b {
    tx = some tx;
    content = record b.content { signatures = b.content.signatures ++ Transaction.signatures tx };
  },
  ok (some tx),
)

abbrev pub hand_over : Content → Run Unit
hand_over trx b = (record b { sent = b.sent ++ trx ∷ [] }, ok tt)

unfoldable pub delivered : Result Body → Run Body
delivered (ok body) b = (b, ok body)
delivered (err raised) b = ((clear b).0, err raised)

module _ (client : Client) where
  -- The signatures go into the transaction and, behind those there, into the dictionary.
  unfoldable pub sign_by_wifs : Run (Option Transaction)
  sign_by_wifs = do
    b ← self
    tx ← lift (demand attribute_error b.tx)
    tx' ← lift (
        Signed.sign (Outside.sha256 (Client.outside client)) (Client.sign_message client) b.wifs
          (Client.chain_params client) tx)
    keep_signed tx'

  unfoldable pub sign_constructed : Run (Option Transaction)
  sign_constructed = do
    b ← self
    if has_no_operations b
        then pass none
        else if any_wif b.wifs
        then sign_by_wifs
        else raise missing_key

  -- `sign`.
  unfoldable pub sign : Moment → Bool → Run (Option Transaction)
  sign moment reconstruct_tx = do
    b ← self
    _ ← (if not (is_constructed b) || reconstruct_tx then construct_tx client moment else pass tt)
    sign_constructed

  -- The call of the node, after which the builder is cleared if it raised.
  unfoldable pub deliver : Content → Content → Result Dict → Run Body
  deliver ret trx answer b =
      delivered (if Client.blocking client then with_reply answer else without_reply ret answer)
        (hand_over trx b).0

  -- `ret["trx_id"] = sign_ret.id`.
  unfoldable pub id_of : Bool → Option Transaction → Body → Result (Option Text)
  id_of trx_id none body = ok none
  id_of trx_id (some tx) body =
      if trx_id && not (has_id body)
      then elim (transaction_id (Outside.sha256 (Client.outside client)) tx) [
        | ok id ↦ ok (some id)
        | err raised ↦ err raised
      ]
      else ok none

  unfoldable pub clear_and_return : Receipt → Run (Option Receipt)
  clear_and_return ret = clear >>= λ _. pass (some ret)

  unfoldable pub broadcast_signed :
      Moment → Result Dict → Bool → Option Transaction → Run (Option Receipt)
  broadcast_signed moment answer trx_id signed = do
    ret ← json client moment
    trx ← json client moment
    if Client.nobroadcast client
        then clear_and_return record { body = transaction ret; trx_id = none }
        else (do
          body ← deliver ret trx answer
          id ← lift (id_of trx_id signed body)
          clear_and_return record { body = body; trx_id = id })

  -- `broadcast`, with what is met when it signs and when it makes the JSON.
  unfoldable pub broadcast : Moment → Moment → Result Dict → Bool → Run (Option Receipt)
  broadcast first second answer trx_id = do
    b ← self
    signed ← (if is_signed b then pass none else sign first true)
    b' ← self
    if has_no_operations b' then pass none else broadcast_signed second answer trx_id signed

  -- `ret["trx_id"] = ret_sign.id`, on what `broadcast` returned.
  unfoldable pub give_id : Option Transaction → Option Receipt → Result (Option Receipt)
  give_id none ret = ok ret
  give_id (some tx) none = err type_error
  give_id (some tx) (some ret) = elim (transaction_id (Outside.sha256 (Client.outside client)) tx) [
    | ok id ↦ ok (some (record ret { trx_id = some id }))
    | err raised ↦ err raised
  ]

  -- The end of `finalizeOp` when it signs and broadcasts.
  unfoldable pub send_buffer : Moment → Moment → Result Dict → Text → Text → Run (Option Receipt)
  send_buffer first second answer account permission = do
    _ ← append_signer client account permission
    signed ← sign first true
    ret ← broadcast first second answer true
    lift (give_id signed ret)

-- What `finalizeOp` returns: an empty dictionary, the builder, its JSON, or what was broadcast.
pub data Finalized : Type 0 where
  nothing buffered : Finalized
  bundled : Content → Finalized
  finalized : Option Receipt → Finalized

module _ (client : Client) where
  -- Where `append_to` names another builder, that one is the builder here.
  unfoldable pub finalize_appended : Text → Text → Run Finalized
  finalize_appended account permission = do
    _ ← append_signer client account permission
    pass buffered

  unfoldable pub finalize_unsigned : Moment → Text → Text → Run Finalized
  finalize_unsigned first account permission = do
    _ ← add_signing_information client first account permission false
    pass buffered

  unfoldable pub finalize_bundled : Moment → Text → Text → Run Finalized
  finalize_bundled first account permission = do
    _ ← append_signer client account permission
    ret ← json client first
    pass (bundled ret)

  unfoldable pub finalize_sent : Moment → Moment → Result Dict → Text → Text → Run Finalized
  finalize_sent first second answer account permission = do
    ret ← send_buffer client first second answer account permission
    pass (finalized ret)

  -- `finalizeOp`.
  unfoldable pub finalize_op :
      Bool → Moment → Moment → Result Dict → List Given → Text → Text → Run Finalized
  finalize_op append_to first second answer ops account permission =
      if Client.offline client then pass nothing else (do
        _ ← append_ops ops
        if append_to
            then finalize_appended account permission
            else if Client.unsigned client
            then finalize_unsigned first account permission
            else if Client.bundle client
            then finalize_bundled first account permission
            else finalize_sent first second answer account permission)
