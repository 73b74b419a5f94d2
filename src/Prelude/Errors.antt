-- ===== src/Prelude/Errors.antt =====
-- Python exceptions as values, with `do` blocks for code that may raise.
use mathlib.Core.Path.{◌≡◌, refl}
use mathlib.Core.Option.{Option, none, some}

-- One constructor for each exception class that the modelled code raises.
pub data Error : Type 0 where
  value_error type_error key_error index_error struct_error binascii_error : Error
  assertion_error unicode_error attribute_error unbound_local_error : Error
  not_implemented stop_iteration general : Error
  wallet_locked wrong_master_password working_node_missing : Error
  call_retries_reached num_retries_reached missing_key invalid_wif : Error
  rpc_closed rpc_connection rpc_error rpc_error_do_retry : Error
  invalid_parameters no_method_with_name no_api_with_name : Error

pub data Result {ℓ} (A : Type ℓ) : Type ℓ where
  ok : A → Result A
  err : Error → Result A

module _ {ℓ κ} {A : Type ℓ} {B : Type κ} where
  infixl 5 ◌>>=◌
  abbrev pub ◌>>=◌ : Result A → (A → Result B) → Result B
  err raised >>= next = err raised
  ok value >>= next = next value

  -- What a chain that does not raise went through.
  pub >>=-eq-ok :
      {result : B} (first : Result A) (next : A → Result B)
      → (first >>= next) ≡ ok result
      → (value : A) × (first ≡ ok value) × (next value ≡ ok result)
  >>=-eq-ok (err raised) next h = cc
  >>=-eq-ok (ok value) next h = (value, refl, h)

-- What is there, or an exception.
module _ {ℓ} {A : Type ℓ} where
  abbrev pub demand : Error → Option A → Result A
  demand raised none = err raised
  demand raised (some value) = ok value
