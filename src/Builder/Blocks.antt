-- ===== src/Builder/Blocks.antt =====
-- `constructTx` and `get_block_params` of src/nectar/transactionbuilder.py: what a transaction refers to,
-- when it expires, and how it is made of the operations. Times are seconds, cut off as in the texts.
use hive_nectar.Prelude.{
  ℕ, suc, ◌+◌, ◌*◌, ◌%◌, ◌^◌, ◌==◌, leb, Bool, true, false, not, ◌||◌, Option, none, some, List, [],
  ◌∷◌, Result, ok, err, ◌>>=◌, demand, type_error, struct_error, if◌then◌else◌, map,
}
use hive_nectar.Prelude.Int.{pos}
use hive_nectar.Prelude.Bytes.{Bytes, Text, codes, unhexlify}
use hive_nectar.Values.{a_number, a_moment, Dict, entry, no_entries, traverse}
use hive_nectar.Wire.{Wire}
use hive_nectar.Operations.Classes.{operation_of, operation_of_object}
use hive_nectar.Transactions.{Transaction, signed_transaction}
use hive_nectar.Builder.{Given, made, raw, Client, Content, Builder, Run, is_constructed, after}

-- The dynamic global properties, as far as they are used.
pub record Properties : Type 0 where
  pub head_block_number : ℕ
  pub last_irreversible_block_num : ℕ
  pub head_block_id : Text
  pub time : ℕ

-- What a call meets: the clock, the properties as the node gives them, if it does, and the `previous`
-- of the header of a block.
pub record Moment : Type 0 where
  pub now : ℕ
  pub properties : Option Properties
  pub previous : ℕ → Result Text

unfoldable pub later : ℕ → ℕ → ℕ
later a b = if leb a b then b else a

-- `self.expiration or self.blockchain.expiration or 300`.
unfoldable pub first_truthy : List (Option ℕ) → ℕ → ℕ
first_truthy [] default = default
first_truthy (some (suc n) ∷ rest) default = suc n
first_truthy (o ∷ rest) default = first_truthy rest default

-- At least five minutes.
unfoldable pub exp_seconds : Client → Builder → ℕ
exp_seconds client b = later (first_truthy (b.expiration ∷ Client.expiration client ∷ []) 300) 300

-- From the head of the chain or the clock, whichever is later.
unfoldable pub expiration_at : Client → Moment → Builder → ℕ
expiration_at client moment b =
    if Client.connected client
    then elim (Moment.properties moment) [
      | none ↦ Moment.now moment + exp_seconds client b
      | some dgp ↦ later (Properties.time dgp) (Moment.now moment) + exp_seconds client b
    ]
    else Moment.now moment + exp_seconds client b

-- `struct.unpack_from("<I", data, 4)[0]`.
unfoldable pub unpack_second : Bytes → Result ℕ
unpack_second (_ ∷ _ ∷ _ ∷ _ ∷ a ∷ b ∷ c ∷ d ∷ rest) = ok (a + 256 * b + 256 ^ 2 * c + 256 ^ 3 * d)
unpack_second _ = err struct_error

unfoldable pub reference : ℕ → Text → Result (ℕ × ℕ)
reference number id = do
  bytes ← unhexlify id
  prefix ← unpack_second bytes
  ok (number % 65536, prefix)

-- The block after the last irreversible one tells the id of that one, unless it is not there yet.
unfoldable pub params_of : Moment → Bool → Properties → Result (ℕ × ℕ)
params_of moment use_head_block dgp =
    if use_head_block
      || (Properties.last_irreversible_block_num dgp == Properties.head_block_number dgp)
    then reference (Properties.head_block_number dgp) (Properties.head_block_id dgp)
    else (do
      previous ← Moment.previous moment (Properties.last_irreversible_block_num dgp + 1)
      reference (Properties.last_irreversible_block_num dgp) previous)

-- `get_block_params`.
unfoldable pub get_block_params : Moment → Bool → Result (ℕ × ℕ)
get_block_params moment use_head_block = do
  dgp ← demand type_error (Moment.properties moment)
  params_of moment use_head_block dgp

-- `Operation(op, appbase=True, prefix=...)`.
unfoldable pub to_operation : Client → Given → Result Wire
to_operation client (made class w) = operation_of_object class w
to_operation client (raw value) = operation_of (Client.outside client) value

abbrev pub block_arguments : ℕ → ℕ → ℕ → Dict
block_arguments ref_block_prefix expires ref_block_num =
    entry (codes "ref_block_prefix") (a_number (pos ref_block_prefix)) (
      entry (codes "expiration") (a_moment (pos expires))
        (entry (codes "ref_block_num") (a_number (pos ref_block_num)) no_entries))

-- The transaction, and its JSON over the entries of the dictionary.
abbrev pub keep_built : Client → (ℕ × ℕ) → ℕ → List Wire → Transaction → Builder → Builder
keep_built client block expires ops tx b = record b {
  content = record b.content {
    block = some block;
    expiration = some expires;
    operations = map (Client.json_of client) ops;
    signatures = Transaction.signatures tx;
  };
  tx = some tx;
  require_reconstruction = false;
}

-- `constructTx`.
unfoldable pub built : Client → Moment → Builder → Result Builder
built client moment b = do
  ops ← traverse (to_operation client) b.ops
  (ref_block_num, ref_block_prefix) ← get_block_params moment true
  let expires = expiration_at client moment b
  tx ← signed_transaction (block_arguments ref_block_prefix expires ref_block_num) ops
  ok (keep_built client (ref_block_num, ref_block_prefix) expires ops tx b)

abbrev pub take_over : Result Builder → Run Unit
take_over (ok b') b = (b', ok tt)
take_over (err raised) b = (b, err raised)

unfoldable pub construct_tx : Client → Moment → Run Unit
construct_tx client moment b = take_over (built client moment b) b

-- `json`, without the prefix.
unfoldable pub json : Client → Moment → Run Content
json client moment b =
    if not (is_constructed b) || b.require_reconstruction
    then after (construct_tx client moment b) (λ _ b'. (b', ok b'.content))
    else (b, ok b.content)
