-- ===== src/Builder.antt =====
-- The state of the transaction builder, src/nectar/transactionbuilder.py, and what its methods share:
-- methods as functions of the state that also return when they raise.
pub mod Blocks
pub mod Signers
pub mod Methods
pub mod Broadcast
mod Keeping
pub mod Sending
pub mod Threshold
mod Tests
use hive_nectar.Prelude.{
  ℕ, Bool, true, false, not, ◌||◌, Option, none, some, List, [], ◌∷◌, ◌++◌, Result, ok, err, Error,
  invalid_wif, map, bytes_eq, if◌then◌else◌, ◌≡◌, refl,
}
use hive_nectar.Prelude.Bytes.{Bytes, Text}
use hive_nectar.Values.{Value, Dict}
use hive_nectar.Wire.{Wire}
use hive_nectar.Objects.{Outside}
use hive_nectar.Transactions.{Transaction}

-- What `appendOps` is given: an object of a class of operations, with the name of its class, or a value
-- that the constructor of `Operation` takes.
pub data Given : Type 0 where
  made : Text → Wire → Given
  raw : Value → Given

pub record Authority : Type 0 where
  pub weight_threshold : ℕ
  pub account_auths : List (Text × ℕ)
  pub key_auths : List (Text × ℕ)

pub record Account : Type 0 where
  pub name : Text
  pub owner : Authority
  pub active : Authority
  pub posting : Authority

-- What the builder uses of the blockchain instance: the libraries, the wallet, the accounts as the node
-- knows them, and the settings. `json_of` is the JSON of an operation.
pub record Client : Type 0 where
  pub outside : Outside
  pub sign_message : Bytes → Text → Result Bytes
  pub json_of : Wire → Value
  pub is_wif : Text → Bool
  pub private_key : Text → Result (Option Text)
  pub account : Text → Result Account
  pub chain_params : Value
  pub expiration : Option ℕ
  pub connected : Bool
  pub locked : Bool
  pub offline : Bool
  pub unsigned : Bool
  pub bundle : Bool
  pub nobroadcast : Bool
  pub blocking : Bool

-- The entries of the dictionary that the builder is. Lists that are missing are empty here, as every
-- test of them takes both alike.
pub record Content : Type 0 where
  pub block : Option (ℕ × ℕ)
  pub expiration : Option ℕ
  pub operations : List Value
  pub signatures : List Bytes
  pub required_authorities : List (Text × Authority)
  pub missing_signatures : List Text

-- An element of `signing_accounts`: a name, or the whole account.
pub data Signer : Type 0 where
  named whole : Text → Signer

-- The builder, and at last the transactions that nodes have been sent. The set of private keys is a list
-- in the order in which Python gives its elements.
pub record Builder : Type 0 where
  pub content : Content
  pub ops : List Given
  pub wifs : List Text
  pub signing_accounts : List Signer
  pub require_reconstruction : Bool
  pub expiration : Option ℕ
  pub tx : Option Transaction
  pub sent : List Content

-- A method: it changes the builder, and returns or raises.
abbrev pub Run : Type 0 → Type 0
Run A = Builder → Builder × Result A

module _ {A B : Type 0} where
  abbrev pub after : Builder × Result A → (A → Run B) → Builder × Result B
  after (b, err raised) next = (b, err raised)
  after (b, ok value) next = next value b

  infixl 5 ◌>>=◌
  abbrev pub ◌>>=◌ : Run A → (A → Run B) → Run B
  (method >>= next) b = after (method b) next

  -- What a method that does not raise went through.
  pub after-eq-ok :
      {b' : Builder} {result : B} (first : Builder × Result A) (next : A → Run B)
      → after first next ≡ (b', ok result)
      → (b : Builder) × (value : A) × (first ≡ (b, ok value)) × (next value b ≡ (b', ok result))
  after-eq-ok (b, err raised) next h = cc
  after-eq-ok (b, ok value) next h = (b, value, refl, h)

module _ {A : Type 0} where
  abbrev pub pass : A → Run A
  pass value b = (b, ok value)

  abbrev pub raise : Error → Run A
  raise raised b = (b, err raised)

  -- What may raise without a change of the builder.
  abbrev pub lift : Result A → Run A
  lift result b = (b, result)

module _ {A B : Type 0} where
  pub lift-eq-ok :
      {b' : Builder} {result : B} (first : Result A) (b : Builder) (next : A → Run B)
      → after (b, first) next ≡ (b', ok result)
      → (value : A) × (first ≡ ok value) × (next value b ≡ (b', ok result))
  lift-eq-ok (err raised) b next h = cc
  lift-eq-ok (ok value) b next h = (value, refl, h)

abbrev pub self : Run Builder
self b = (b, ok b)

-- `_is_signed` and `_is_constructed`. An expiration of 0 is a text, so it counts.
unfoldable pub is_signed : Builder → Bool
is_signed b = elim b.content.signatures [ [] ↦ false | s ∷ ss ↦ true ]

unfoldable pub is_constructed : Builder → Bool
is_constructed b = elim b.content.expiration [ none ↦ false | some t ↦ true ]

-- `"operations" not in self or not self["operations"]`.
unfoldable pub has_no_operations : Builder → Bool
has_no_operations b = elim b.content.operations [ [] ↦ true | o ∷ os ↦ false ]

abbrev pub no_content : Content
no_content = record {
  block = none;
  expiration = none;
  operations = [];
  signatures = [];
  required_authorities = [];
  missing_signatures = [];
}

-- `__init__` without a transaction.
unfoldable pub new_builder : Option ℕ → Builder
new_builder expiration = record {
  content = no_content;
  ops = [];
  wifs = [];
  signing_accounts = [];
  require_reconstruction = true;
  expiration = expiration;
  tx = none;
  sent = [];
}

-- `__init__` with a transaction: its entries are taken over, and it need not be built again.
unfoldable pub load : Option ℕ → Content → Builder
load expiration tx = record (new_builder expiration) {
  content = tx;
  ops = map raw tx.operations;
  require_reconstruction = false;
}

-- `clear`. `super().__init__({})` leaves the entries of the dictionary.
unfoldable pub clear : Run Unit
clear b = (
  record b {
    ops = [];
    wifs = [];
    signing_accounts = [];
    content = record b.content { expiration = none };
  },
  ok tt,
)

-- `appendOps` of a list; a single operation is a list of one.
unfoldable pub append_ops : List Given → Run Unit
append_ops ops b = (record b { ops = b.ops ++ ops; require_reconstruction = true }, ok tt)

unfoldable pub add : Text → List Text → List Text
add wif [] = wif ∷ []
add wif (x ∷ xs) = let rest = add wif xs in if bytes_eq wif x then x ∷ xs else x ∷ rest

-- `appendWif`.
unfoldable pub append_wif : Client → Text → Run Unit
append_wif client [] b = (b, ok tt)
append_wif client (c ∷ wif) b =
    if Client.is_wif client (c ∷ wif)
    then (record b { wifs = add (c ∷ wif) b.wifs }, ok tt)
    else (b, err invalid_wif)
