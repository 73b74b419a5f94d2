-- ===== src/Builder/Sending/Built.antt =====
-- What `constructTx` and `sign` of src/nectar/transactionbuilder.py leave.
use hive_nectar.Prelude.{
  ℕ, Bool, Bool-cases, inl, inr, true, false, not, ◌||◌, ◌≡◌, refl, sym, ap, ◌⊎◌, Option, none,
  some, List, [], map, Result, ok, err, >>=-eq-ok, demand, if◌then◌else◌, bytes_eq, Error,
  attribute_error, missing_key,
}
use hive_nectar.Values.{Dict, get_or, lookup, iterate, to_list, traverse}
use hive_nectar.Wire.{Wire, array}
use hive_nectar.Objects.{Outside, to_items, uint16_at, uint32_at, time_at}
use hive_nectar.Transactions.{
  Transaction, signed_transaction, signatures_of, given_signatures, extensions_of, unique,
}
use hive_nectar.Transactions as Signed
use hive_nectar.Builder.{
  Client, Builder, after-eq-ok, pass, lift-eq-ok, is_constructed, has_no_operations,
}
use hive_nectar.Builder.Blocks.{
  Moment, built, take_over, keep_built, construct_tx, to_operation, get_block_params,
  block_arguments, expiration_at,
}
use hive_nectar.Builder.Broadcast.{any_wif, keep_signed, sign_by_wifs, sign_constructed, sign}
use hive_nectar.Builder.Keeping.{Kept, moved}

-- What `constructTx` leaves: a transaction of the operations, without signatures, and its JSON.
abbrev pub IsBuilt : Client → Builder → Builder → Type 0
IsBuilt client b b' =
    (ws : List Wire) × (tx : Transaction) × (traverse (to_operation client) b.ops ≡ ok ws)
    × (Transaction.operations tx ≡ array (to_items ws))
    × (b'.tx ≡ some tx)
    × (b'.content.operations ≡ map (Client.json_of client) ws)
    × (b'.content.signatures ≡ [])
    × (is_constructed b' ≡ true)
    × (b'.require_reconstruction ≡ false)
    × Kept b b'
    × (b'.wifs ≡ b.wifs)

pub given_back :
    {A : Type 0} {x b' : Builder} {value value' : A}
    → ◌≡◌ {A = Builder × Result A} (x, ok value) (b', ok value')
    → value' ≡ value
given_back h = let same : ok _ ≡ ok _ = ap (λ p. p.1) h in cc same

pub demanded :
    {A : Type 0} (raised : Error) {o : Option A} {a : A} → demand raised o ≡ ok a → o ≡ some a
demanded raised {o = none} h = cc
demanded raised {o = some b} h = cc

-- A transaction holds the operations that it is made of, and no signature unless it is given some.
signed_transaction_parts :
    (kwargs : Dict) (ws : List Wire) (tx : Transaction)
    → signed_transaction kwargs ws ≡ ok tx
    → (Transaction.operations tx ≡ array (to_items ws))
      × (signatures_of kwargs ≡ ok (Transaction.signatures tx))
unfolding signed_transaction
signed_transaction_parts kwargs ws tx h =
    let (sigs, e, h1) = >>=-eq-ok (signatures_of kwargs) _ h in
    let (num, _, h2) = >>=-eq-ok (uint16_at "ref_block_num" kwargs) _ h1 in
    let (prefix, _, h3) = >>=-eq-ok (uint32_at "ref_block_prefix" kwargs) _ h2 in
    let (expires, _, h4) = >>=-eq-ok (time_at "expiration" kwargs) _ h3 in
    let made : record {
      ref_block_num = num;
      ref_block_prefix = prefix;
      expiration = expires;
      operations = array (to_items ws);
      extensions = extensions_of kwargs;
      signatures = sigs;
    }
        ≡ tx =
      cc in
    rw (← made) (refl, e)

no_signatures :
    (prefix expires num : ℕ) → signatures_of (block_arguments prefix expires num) ≡ ok []
unfolding signatures_of given_signatures get_or lookup bytes_eq iterate to_list traverse
no_signatures prefix expires num = refl

module _ (client : Client) where
  built-IsBuilt : (m : Moment) (b b' : Builder) → built client m b ≡ ok b' → IsBuilt client b b'
  unfolding built is_constructed
  built-IsBuilt m b b' h =
      let (ws, e, h1) = >>=-eq-ok (traverse (to_operation client) b.ops) _ h in
      let (block, e2, h2) = >>=-eq-ok (get_block_params m true) _ h1 in
      let arguments = block_arguments block.1 (expiration_at client m b) block.0 in
      let (tx, e3, h3) = >>=-eq-ok (signed_transaction arguments ws) _ h2 in
      let (o, s) = signed_transaction_parts arguments ws tx e3 in
      let s' : ok [] ≡ ok (Transaction.signatures tx) =
        rw (no_signatures block.1 (expiration_at client m b) block.0) at s in
      let unsigned : Transaction.signatures tx ≡ [] = cc in
      let same : keep_built client block (expiration_at client m b) ws tx b ≡ b' = cc in
      rw (← same) (ws, tx, e, o, refl, refl, unsigned, refl, refl, (refl, refl), refl)

  take_over-ok : (b b' : Builder) (r : Result Builder) → take_over r b ≡ (b', ok tt) → r ≡ ok b'
  take_over-ok b b' (ok b1) h = sym (ap ok (moved h))
  take_over-ok b b' (err raised) h = cc

  pub construct_tx-IsBuilt :
      (m : Moment) (b b' : Builder) → construct_tx client m b ≡ (b', ok tt) → IsBuilt client b b'
  unfolding construct_tx
  construct_tx-IsBuilt m b b' h = built-IsBuilt m b b' (take_over-ok b b' (built client m b) h)

  -- The transaction of `b1` is signed by its keys, in the dictionary as well.
  abbrev pub SignsIn : Builder → Builder → Transaction → Type 0
  SignsIn b1 b' tx' =
      (tx : Transaction) × (b1.tx ≡ some tx)
      × (any_wif b1.wifs ≡ true)
      × (Signed.sign (Outside.sha256 (Client.outside client)) (Client.sign_message client) b1.wifs
            (Client.chain_params client) tx
          ≡ ok tx')
      × (b' ≡ (keep_signed tx' b1).0)

  sign_by_wifs-SignsIn :
      (b1 b' : Builder) (signed : Option Transaction)
      → any_wif b1.wifs ≡ true
      → sign_by_wifs client b1 ≡ (b', ok signed)
      → (tx' : Transaction) × (signed ≡ some tx') × SignsIn b1 b' tx'
  unfolding sign_by_wifs
  sign_by_wifs-SignsIn b1 b' signed w h =
      let (tx, e, h1) = lift-eq-ok (demand attribute_error b1.tx) b1 _ h in
      let (tx', e', h2) =
        lift-eq-ok
          (Signed.sign (Outside.sha256 (Client.outside client)) (Client.sign_message client) b1.wifs
            (Client.chain_params client) tx)
          b1 _ h1 in
      (tx', given_back h2, (tx, demanded _ e, w, e', moved h2))

  sign_constructed_parts :
      (b1 b' : Builder) (signed : Option Transaction)
      → sign_constructed client b1 ≡ (b', ok signed)
      → ((has_no_operations b1 ≡ true) × (signed ≡ none) × (b' ≡ b1))
        ⊎ ((tx' : Transaction) × (signed ≡ some tx') × SignsIn b1 b' tx')
  unfolding sign_constructed
  sign_constructed_parts b1 b' signed h = elim (Bool-cases (has_no_operations b1)) [
    | inl e ↦
        let done : ◌≡◌ {A = Builder × Result (Option Transaction)} (b1, ok none) (b', ok signed) =
          rw e at h in
        let none' : ok none ≡ ok signed = ap (λ p. p.1) done in inl (e, cc none', moved done)
    | inr e ↦ elim (Bool-cases (any_wif b1.wifs)) [
      | inl w ↦
          let go : sign_by_wifs client b1 ≡ (b', ok signed) = rw (e, w) at h in
          inr (sign_by_wifs-SignsIn b1 b' signed w go)
      | inr w ↦
          let bad : ◌≡◌ {A = Builder × Result (Option Transaction)} (b1, err missing_key)
              (b', ok signed) =
            rw (e, w) at h in
          let bad' : err missing_key ≡ ok signed = ap (λ p. p.1) bad in cc bad'
    ]
  ]

  construct_if_IsBuilt :
      (c : Bool) (m : Moment) (b b' : Builder)
      → (if not c || true then construct_tx client m else pass tt) b ≡ (b', ok tt)
      → IsBuilt client b b'
  construct_if_IsBuilt true m b b' h = construct_tx-IsBuilt m b b' h
  construct_if_IsBuilt false m b b' h = construct_tx-IsBuilt m b b' h

  -- `sign` builds the transaction anew, and signs it if it has operations.
  pub sign_parts :
      (m : Moment) (b b' : Builder) (signed : Option Transaction)
      → sign client m true b ≡ (b', ok signed)
      → (b1 : Builder) × IsBuilt client b b1
        × (((has_no_operations b1 ≡ true) × (signed ≡ none) × (b' ≡ b1))
            ⊎ ((tx' : Transaction) × (signed ≡ some tx') × SignsIn b1 b' tx'))
  unfolding sign
  sign_parts m b b' signed h =
      let (b1, u, e, h1) =
        after-eq-ok ((if not (is_constructed b) || true then construct_tx client m else pass tt) b)
          _ h in
      (b1, construct_if_IsBuilt (is_constructed b) m b b1 e, sign_constructed_parts b1 b' signed h1)
