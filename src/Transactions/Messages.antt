-- ===== src/Transactions/Messages.antt =====
-- The message that `deriveDigest` of src/nectargraphenebase/signedtransactions.py makes, and what it
-- tells of the transaction.
use hive_nectar.Prelude.{
  ◌*◌, ◌≡◌, sym, ap, ◌∙◌, [], ◌∷◌, ◌++◌, arith, length, take, drop, take-append_length,
  drop-append_length, ok, >>=-eq-ok,
}
use hive_nectar.Prelude.Bytes.{Bytes, Text, unhexlify, hex_byte, hex_value}
use hive_nectar.Values.{Value}
use hive_nectar.Wire.{Wire, signature, item, end, to_bytes}
use hive_nectar.Wire.Format.{Format, u16, u32, time, list, nothing, sig, read}
use hive_nectar.Wire.RoundTrip.{Fits, read-to_bytes}
use hive_nectar.Operations.Layouts.{layout, any_operation}
use hive_nectar.Transactions.{Transaction, fields_with, chain_id_of, derive_digest}

-- The layout of a transaction without signatures.
abbrev pub unsigned_layout : Format
unsigned_layout = layout (u16 ∷ u32 ∷ time ∷ list any_operation ∷ list nothing ∷ sig 0 ∷ [])

-- The fields that are signed.
abbrev pub signed_fields : Transaction → Wire
signed_fields = fields_with (item (signature []) end)

-- Objects of one shape with the same bytes are the same.
to_bytes_injective :
    (f : Format) (w w' : Wire) (b : Bytes)
    → Fits f w
    → Fits f w'
    → to_bytes w ≡ ok b
    → to_bytes w' ≡ ok b
    → w ≡ w'
to_bytes_injective f w w' b h h' e e' =
    let one : read f (b ++ []) ≡ ok (w, []) = rw e at (read-to_bytes f w [] h) in
    let two : read f (b ++ []) ≡ ok (w', []) = rw e' at (read-to_bytes f w' [] h') in cc

append_injective :
    (x x' y y' : Bytes) → length x ≡ length x' → x ++ y ≡ x' ++ y' → (x ≡ x') × (y ≡ y')
append_injective x x' y y' n e = (
  sym (take-append_length x y) ∙ ap (take (length x)) e ∙ rw n (take-append_length x' y'),
  sym (drop-append_length x y) ∙ ap (drop (length x)) e ∙ rw n (drop-append_length x' y'),
)

length-unhexlify : (s : Text) (b : Bytes) → unhexlify s ≡ ok b → length s ≡ 2 * length b
unfolding unhexlify
length-unhexlify [] b h = ground arith
length-unhexlify (c ∷ []) b h = cc
length-unhexlify (c ∷ d ∷ s) b h =
    let (x, _, h1) = >>=-eq-ok (hex_byte (hex_value c) (hex_value d)) _ h in
    let (bs, e, h2) = >>=-eq-ok (unhexlify s) _ h1 in
    let same : b ≡ x ∷ bs = cc in rw same (omega (arith, length-unhexlify s bs e))

-- Two chains have the same identifier, and two transactions the same fields but the signatures.
abbrev pub IsSameMessage : Text → Text → Transaction → Transaction → Type 0
IsSameMessage c c' tx tx' = (unhexlify c ≡ unhexlify c') × (signed_fields tx ≡ signed_fields tx')

module _ (sha256 : Bytes → Bytes) where
  message_parts :
      (chain : Value) (tx : Transaction) (m d : Bytes) {c : Text}
      → chain_id_of chain ≡ ok c
      → derive_digest sha256 chain tx ≡ ok (m, d)
      → (x y : Bytes) × (unhexlify c ≡ ok x) × (to_bytes (signed_fields tx) ≡ ok y) × (m ≡ x ++ y)
  unfolding derive_digest
  message_parts chain tx m d {c} e h =
      let (c', e0, h0) = >>=-eq-ok (chain_id_of chain) _ h in
      let (x, e1, h1) = >>=-eq-ok (unhexlify c') _ h0 in
      let (y, e2, h2) = >>=-eq-ok (to_bytes (signed_fields tx)) _ h1 in
      let same : c' ≡ c = cc in (x, y, rw same at e1, e2, cc)

  -- For two chains whose identifiers have one length, and two transactions whose operations have
  -- the layouts of their numbers, whose extensions write no bytes, and whose parts fit the wire
  -- (numbers in range, hexadecimal data in lower case, texts in ASCII without control characters
  -- but tab, line feed and carriage return, keys of 33 bytes, symbols of amounts neither STEEM nor
  -- SBD and on the wire of at most seven ASCII characters other than NUL), the messages to sign are
  -- the same only if the identifiers are the same bytes and the transactions have the same block
  -- reference, expiration, operations and extensions.
  pub derive_digest_injective :
      (chain chain' : Value) (tx tx' : Transaction) (m d d' : Bytes) (c c' : Text)
      → chain_id_of chain ≡ ok c
      → chain_id_of chain' ≡ ok c'
      → length c ≡ length c'
      → Fits unsigned_layout (signed_fields tx)
      → Fits unsigned_layout (signed_fields tx')
      → derive_digest sha256 chain tx ≡ ok (m, d)
      → derive_digest sha256 chain' tx' ≡ ok (m, d')
      → IsSameMessage c c' tx tx'
  derive_digest_injective chain chain' tx tx' m d d' c c' e e' n f f' h h' =
      let (x, y, p, q, s) = message_parts chain tx m d e h in
      let (x', y', p', q', s') = message_parts chain' tx' m d' e' h' in
      let sized : length x ≡ length x' =
        omega (arith, length-unhexlify c x p, length-unhexlify c' x' p') in
      let (ids, bytes) = append_injective x x' y y' sized (sym s ∙ s') in
      (
        p ∙ ap ok ids ∙ sym p',
        to_bytes_injective unsigned_layout _ _ y f f' q (q' ∙ ap ok (sym bytes)),
      )
