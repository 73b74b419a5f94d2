-- ===== src/Builder/Sending.antt =====
-- What `finalizeOp` of src/nectar/blockchaininstance/core.py and `broadcast` of
-- src/nectar/transactionbuilder.py send.
mod Built
mod Delivery
use hive_nectar.Prelude.{
  ℕ, Bool, Bool-cases, inl, inr, true, false, not, ◌&&◌, ◌||◌, ◌≡◌, refl, sym, ap, ◌∙◌, ◌⊎◌, Option,
  Option-cases, none, some, List, [], ◌∷◌, ◌++◌, map, Result, ok, err, >>=-eq-ok, demand,
  if◌then◌else◌, bytes_eq, bytes_eq_refl, Error, type_error, attribute_error, missing_key,
}
use hive_nectar.Prelude.Bytes.{Bytes, Text}
use hive_nectar.Values.{Value, Dict, get_or, lookup, iterate, to_list, traverse}
use hive_nectar.Wire.{Wire, array}
use hive_nectar.Objects.{Outside, to_items, uint16_at, uint32_at, time_at}
use hive_nectar.Transactions.{
  Transaction, signed_transaction, signatures_of, given_signatures, extensions_of, unique,
}
use hive_nectar.Transactions as Signed
use hive_nectar.Transactions.Signing.{IsSigned, has_key, sign-IsSigned}
use hive_nectar.Builder.{
  Given, Client, Content, Builder, Run, after, after-eq-ok, ◌>>=◌, pass, raise, lift, self,
  is_signed, lift-eq-ok, is_constructed, has_no_operations, clear, append_ops,
}
use hive_nectar.Builder.Blocks.{
  Moment, built, take_over, keep_built, construct_tx, json, to_operation, get_block_params,
  block_arguments, expiration_at,
}
use hive_nectar.Builder.Methods.{append_signer}
use hive_nectar.Builder.Broadcast.{
  Receipt, Body, transaction, with_reply, without_reply, delivered, Finalized, finalized, any_wif,
  keep_signed, hand_over, sign_by_wifs, sign_constructed, sign, deliver, id_of, clear_and_return,
  broadcast_signed, broadcast, give_id, send_buffer, finalize_sent, finalize_op,
}
use hive_nectar.Builder.Keeping.{Kept, moved, append_signer-Keeps}
use Built.*
use Delivery.*

-- Where there is a key, there is a signature.
any_signature :
    (wifs keys : List Text) (sign_with : Text → Result Bytes) (sigs : List Bytes)
    → any_wif wifs ≡ true
    → ((wif : Text) → has_key wif keys ≡ has_key wif wifs)
    → traverse sign_with keys ≡ ok sigs
    → (y : Bytes) × (ys : List Bytes) × (sigs ≡ y ∷ ys)
unfolding any_wif traverse
any_signature [] keys sign_with sigs a s t = cc
any_signature (x ∷ xs) [] sign_with sigs a s t =
    let bad : false ≡ true = rw bytes_eq_refl at (s x) in cc
any_signature (x ∷ xs) (k ∷ ks) sign_with sigs a s t =
    let (y, e, h1) = >>=-eq-ok (sign_with k) _ t in
    let (ys, e', h2) = >>=-eq-ok (traverse sign_with ks) _ h1 in
    let same : y ∷ ys ≡ sigs = cc in (y, ys, sym same)

module _ (client : Client) where
  -- What is sent for `ops` with the keys `wifs`: a transaction of just these operations in their order,
  -- signed by each of the keys once, after which the builder is empty.
  abbrev pub Sent : List Given → List Content → List Text → Builder → Type 0
  Sent ops sent wifs b' =
      (ws : List Wire) × (tx : Transaction) × (tx' : Transaction) × (trx : Content) × (traverse
          (to_operation client) ops
        ≡ ok ws)
      × (Transaction.operations tx ≡ array (to_items ws))
      × IsSigned (Outside.sha256 (Client.outside client)) (Client.sign_message client) wifs
          (Client.chain_params client) tx tx'
      × (b'.sent ≡ sent ++ trx ∷ [])
      × (trx.operations ≡ map (Client.json_of client) ws)
      × (trx.signatures ≡ Transaction.signatures tx')
      × (b'.ops ≡ [])

  -- The transaction that `sign` has signed is what is sent.
  signed_Sent :
      (m : Moment) (answer : Result Dict) (flag : Bool) (signed : Option Transaction)
      (b b1 b2 b' : Builder) (tx' : Transaction) (ret : Receipt)
      → Client.nobroadcast client ≡ false
      → IsBuilt client b b1
      → SignsIn client b1 b2 tx'
      → broadcast_signed client m answer flag signed b2 ≡ (b', ok (some ret))
      → Sent b.ops b.sent b.wifs b'
  unfolding is_constructed
  signed_Sent m answer flag signed b b1 b2 b' tx' ret n (ws, tx, e, o, t, j, u, c, r, (ko, ks), kw)
        (tx0, t0, w, s, k) h =
      let same : tx0 ≡ tx = cc in
      let s' = rw same at s in
      let done =
        sign-IsSigned (Outside.sha256 (Client.outside client)) (Client.sign_message client) b1.wifs
          (Client.chain_params client) tx tx' s' in
      let ready = rw k at h in
      let (there, empty) =
        broadcast_ready client m answer flag signed (keep_signed tx' b1).0 b' ret n c r ready in
      (
        ws,
        tx,
        tx',
        (keep_signed tx' b1).0.content,
        e,
        o,
        rw kw at done,
        rw ks at there,
        j,
        rw u refl,
        empty,
      )

  given :
      (signed : Option Transaction) (ret : Option Receipt) (ret' : Receipt)
      → give_id client signed ret ≡ ok (some ret')
      → (receipt : Receipt) × (ret ≡ some receipt)
  unfolding give_id
  given none none ret' h = cc
  given none (some receipt) ret' h = (receipt, refl)
  given (some tx) none ret' h = cc
  given (some tx) (some receipt) ret' h = (receipt, refl)

  -- A builder that is not signed signs what it sends.
  broadcast-Sent :
      (first second : Moment) (answer : Result Dict) (flag : Bool) (b b' : Builder) (ret : Receipt)
      → Client.nobroadcast client ≡ false
      → is_signed b ≡ false
      → broadcast client first second answer flag b ≡ (b', ok (some ret))
      → Sent b.ops b.sent b.wifs b'
  unfolding broadcast
  broadcast-Sent first second answer flag b b' ret n u h =
      let h0 = rw u at h in
      let (b2, signed, e, h1) = after-eq-ok (sign client first true b) _ h0 in
      let (b1, built', parts) = sign_parts client first b b2 signed e in
      let (z, h2) =
        not_empty client (has_no_operations b2) (broadcast_signed client second answer flag signed)
          b2 b' ret h1 in
      elim parts [
        | inl (none', k, same) ↦ let none'' : has_no_operations b2 ≡ true = rw same none' in cc
        | inr (tx', k, signs) ↦
            signed_Sent second answer flag signed b b1 b2 b' tx' ret n built' signs h2
      ]

  -- The keys have signed, as there is one.
  signs-is_signed :
      (b1 b2 : Builder) (tx' : Transaction)
      → b1.content.signatures ≡ []
      → SignsIn client b1 b2 tx'
      → is_signed b2 ≡ true
  unfolding is_signed
  signs-is_signed b1 b2 tx' u (tx, t, w, s, k) =
      let (keys, once, same, message, digest, d, signed) =
        sign-IsSigned (Outside.sha256 (Client.outside client)) (Client.sign_message client) b1.wifs
          (Client.chain_params client) tx tx' s in
      let (y, ys, e) = any_signature b1.wifs keys _ _ w same signed in rw (k, u, e) refl

  -- `sign`, then `broadcast`, and the id is added.
  sign_then_broadcast :
      (first second : Moment) (answer : Result Dict) (b b2 b3 b' : Builder)
      (signed : Option Transaction) (ret : Option Receipt) (ret' : Receipt)
      → Client.nobroadcast client ≡ false
      → sign client first true b ≡ (b2, ok signed)
      → broadcast client first second answer true b2 ≡ (b3, ok ret)
      → lift (give_id client signed ret) b3 ≡ (b', ok (some ret'))
      → Sent b.ops b.sent b.wifs b'
  unfolding broadcast is_signed
  sign_then_broadcast first second answer b b2 b3 b' signed ret ret' n e h g =
      let (receipt, found) = given signed ret ret' (ap (λ p. p.1) g) in
      let (b1, built', parts) = sign_parts client first b b2 signed e in
      let h' : broadcast client first second answer true b2 ≡ (b', ok (some receipt)) =
        rw (moved g) (rw found at h) in
      elim parts [
        | inl (none', k, same) ↦
            let unsigned : is_signed b2 ≡ false = rw (same, is_signed, built'.6) refl in
            let (ko, ks) = built'.9 in
            let sent = broadcast-Sent first second answer true b2 b' receipt n unsigned h' in
            rw (same, ko, ks, built'.10) at sent
        | inr (tx', k, signs) ↦
            let h1 = rw (signs-is_signed b1 b2 tx' (built'.6) signs) at h' in
            let (z, h2) = not_empty client (has_no_operations b2) _ b2 b' receipt h1 in
            signed_Sent second answer true none b b1 b2 b' tx' receipt n built' signs h2
      ]

  abbrev pub IsSending : Type 0
  IsSending =
      (Client.offline client ≡ false)
      × (Client.unsigned client ≡ false)
      × (Client.bundle client ≡ false)
      × (Client.nobroadcast client ≡ false)

  -- When `finalizeOp` of a client that is online and signs and broadcasts single transactions
  -- returns a receipt, one transaction more has been sent: its operations are those of the builder
  -- and then the given ones, in their order, its signatures are those by each private key of the
  -- builder after `appendSigner`, every key once and no other, and the builder has no operations
  -- left.
  pub finalize_op-Sent :
      (first second : Moment) (answer : Result Dict) (ops : List Given) (account permission : Text)
      (b b' : Builder) (ret : Receipt)
      → IsSending
      → finalize_op client false first second answer ops account permission b
        ≡ (b', ok (finalized (some ret)))
      → (b1 : Builder) × (append_signer client account permission (append_ops ops b).0
          ≡ (b1, ok tt))
        × Sent (b.ops ++ ops) b.sent b1.wifs b'
  unfolding finalize_op finalize_sent send_buffer append_ops
  finalize_op-Sent first second answer ops account permission b b' ret (o, u, c, n) h =
      let h0 = if_false (Client.offline client) _ _ o h in
      let h1 = if_false (Client.unsigned client) _ _ u h0 in
      let h2 = if_false (Client.bundle client) _ _ c h1 in
      let (b5, ret', e, h3) =
        after-eq-ok (send_buffer client first second answer account permission (append_ops ops b).0)
          _ h2 in
      let returned : finalized ret' ≡ finalized (some ret) = sym (given_back h3) in
      let value : ret' ≡ some ret = cc in
      let e' : send_buffer client first second answer account permission (append_ops ops b).0
          ≡ (b', ok (some ret)) =
        rw (moved h3) (rw value at e) in
      let (b1, u1, e1, k1) =
        after-eq-ok (append_signer client account permission (append_ops ops b).0) _ e' in
      let (b2, signed, e2, k2) = after-eq-ok (sign client first true b1) _ k1 in
      let (b3, r, e3, k3) = after-eq-ok (broadcast client first second answer true b2) _ k2 in
      let (ko, ks) = append_signer-Keeps client account permission (append_ops ops b).0 b1 u1 e1 in
      let sent = sign_then_broadcast first second answer b1 b2 b3 b' signed r ret n e2 e3 k3 in
      (b1, e1, rw (ko, ks) at sent)

  -- When `broadcast` of a client that broadcasts returns a receipt for a builder that has
  -- signatures but must be built again, after operations were appended or after an earlier
  -- broadcast, what it has sent is a transaction without signatures.
  pub broadcast_unsigned :
      (first second : Moment) (answer : Result Dict) (flag : Bool) (b b' : Builder) (ret : Receipt)
      → Client.nobroadcast client ≡ false
      → is_signed b ≡ true
      → (not (is_constructed b) || b.require_reconstruction) ≡ true
      → broadcast client first second answer flag b ≡ (b', ok (some ret))
      → (trx : Content) × (b'.sent ≡ b.sent ++ trx ∷ []) × (trx.signatures ≡ [])
  unfolding broadcast broadcast_signed json
  broadcast_unsigned first second answer flag b b' ret n u m h =
      let h1 = rw u at h in
      let (z, h2) = not_empty client (has_no_operations b) _ b b' ret h1 in
      let (b1, content, e, h3) = after-eq-ok (json client second b) _ h2 in
      let built' = json-IsBuilt client second b b1 content m e in
      let (b2, trx, e', h4) = after-eq-ok (json client second b1) _ h3 in
      let same : ◌≡◌ {A = Builder × Result Content} (b1, ok b1.content) (b2, ok trx) =
        sym (json_ready client second b1 (built'.7) (built'.8)) ∙ e' in
      let (there, empty) =
        handed_over client (Client.nobroadcast client) answer flag none content trx b2 b' ret n
          h4 in
      let (ko, ks) = built'.9 in
      (trx, there ∙ rw (moved same, ks) refl, rw (given_back same) (built'.6))
