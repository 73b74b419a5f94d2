-- ===== src/Builder/Sending/Delivery.antt =====
-- How the JSON of the builder of src/nectar/transactionbuilder.py reaches the node.
use hive_nectar.Prelude.{
  Bool, true, false, not, ◌||◌, ◌≡◌, refl, sym, ap, ◌∙◌, Option, none, some, [], ◌∷◌, ◌++◌, Result,
  ok, err, if◌then◌else◌,
}
use hive_nectar.Values.{Dict}
use hive_nectar.Transactions.{Transaction}
use hive_nectar.Builder.{
  Client, Content, Builder, Run, after-eq-ok, ◌>>=◌, pass, lift, lift-eq-ok, is_constructed, clear,
}
use hive_nectar.Builder.Blocks.{Moment, construct_tx, json}
use hive_nectar.Builder.Broadcast.{
  Receipt, Body, transaction, with_reply, without_reply, delivered, hand_over, deliver, id_of,
  clear_and_return, broadcast_signed,
}
use hive_nectar.Builder.Keeping.{moved}
use hive_nectar.Builder.Sending.Built.{IsBuilt, construct_tx-IsBuilt, given_back}

pub if_false :
    {A : Type 0} (c : Bool) (x y : Run A) {b : Builder} {end : Builder × Result A}
    → c ≡ false
    → (if c then x else y) b ≡ end
    → y b ≡ end
if_false true x y n h = cc
if_false false x y n h = h

delivered_sent :
    (r : Result Body) (b b' : Builder) {body : Body} → delivered r b ≡ (b', ok body) → b' ≡ b
unfolding delivered
delivered_sent (ok body) b b' h = moved h
delivered_sent (err raised) b b' h = cc (ap (λ p. p.1) h)

module _ (client : Client) where
  pub json_ready :
      (m : Moment) (b : Builder)
      → is_constructed b ≡ true
      → b.require_reconstruction ≡ false
      → json client m b ≡ (b, ok b.content)
  unfolding json
  json_ready m b c r = rw (c, r) refl

  deliver_sent :
      (ret trx : Content) (answer : Result Dict) (b b' : Builder) (body : Body)
      → deliver client ret trx answer b ≡ (b', ok body)
      → b' ≡ (hand_over trx b).0
  unfolding deliver
  deliver_sent ret trx answer b b' body h =
      delivered_sent
        (if Client.blocking client then with_reply answer else without_reply ret answer) _ b' h

  pub json-IsBuilt :
      (m : Moment) (b b' : Builder) (content : Content)
      → (not (is_constructed b) || b.require_reconstruction) ≡ true
      → json client m b ≡ (b', ok content)
      → IsBuilt client b b'
  unfolding json
  json-IsBuilt m b b' content n h =
      let (b1, u, e, h1) = after-eq-ok (construct_tx client m b) _ (rw n at h) in
      rw (moved h1) (construct_tx-IsBuilt client m b b1 e)

  pub handed_over :
      (c : Bool) (answer : Result Dict) (flag : Bool) (signed : Option Transaction)
      (content trx : Content) (b b' : Builder) (ret : Receipt)
      → c ≡ false
      → (if c
            then clear_and_return client record { body = transaction content; trx_id = none }
            else (deliver client content trx answer >>= λ body.
                lift (id_of client flag signed body) >>= λ id.
                clear_and_return client record { body = body; trx_id = id }))
          b
        ≡ (b', ok (some ret))
      → (b'.sent ≡ b.sent ++ trx ∷ []) × (b'.ops ≡ [])
  unfolding clear_and_return clear
  handed_over true answer flag signed content trx b b' ret n h = cc
  handed_over false answer flag signed content trx b b' ret n h =
      let (b2, body, e, h2) = after-eq-ok (deliver client content trx answer b) _ h in
      let (id, e', h3) = lift-eq-ok (id_of client flag signed body) b2 _ h2 in
      let there = deliver_sent content trx answer b b2 body e in rw (moved h3, there) (refl, refl)

  -- A builder whose JSON is ready is sent as it is, and emptied.
  pub broadcast_ready :
      (m : Moment) (answer : Result Dict) (flag : Bool) (signed : Option Transaction)
      (b b' : Builder) (ret : Receipt)
      → Client.nobroadcast client ≡ false
      → is_constructed b ≡ true
      → b.require_reconstruction ≡ false
      → broadcast_signed client m answer flag signed b ≡ (b', ok (some ret))
      → (b'.sent ≡ b.sent ++ b.content ∷ []) × (b'.ops ≡ [])
  unfolding broadcast_signed
  broadcast_ready m answer flag signed b b' ret n c r h =
      let (b1, content, e, h1) = after-eq-ok (json client m b) _ h in
      let (b2, trx, e', h2) = after-eq-ok (json client m b1) _ h1 in
      let one : ◌≡◌ {A = Builder × Result Content} (b, ok b.content) (b1, ok content) =
        sym (json_ready m b c r) ∙ e in
      let b1-eq : b1 ≡ b = moved one in
      let again : json client m b ≡ (b2, ok trx) = rw b1-eq at e' in
      let two : ◌≡◌ {A = Builder × Result Content} (b, ok b.content) (b2, ok trx) =
        sym (json_ready m b c r) ∙ again in
      let (s, o) =
        handed_over (Client.nobroadcast client) answer flag signed content trx b2 b' ret n h2 in
      (s ∙ rw (moved two, given_back two) refl, o)

  pub not_empty :
      (c : Bool) (send : Run (Option Receipt)) (b b' : Builder) (ret : Receipt)
      → (if c then pass none else send) b ≡ (b', ok (some ret))
      → (c ≡ false) × (send b ≡ (b', ok (some ret)))
  not_empty true send b b' ret h = cc (ap (λ p. p.1) h)
  not_empty false send b b' ret h = (refl, h)
