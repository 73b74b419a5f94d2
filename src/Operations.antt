-- ===== src/Operations.antt =====
-- The classes of src/nectarbase/operations.py, one function each: the fields that a class makes of its
-- keyword arguments, in the order in which they are written, with its defaults and its guards.
pub mod Funds
pub mod Accounts
pub mod Posts
pub mod Witnesses
pub mod Proposals
pub mod Markets
pub mod Escrow
pub mod Names
pub mod Classes
pub mod Layouts
pub mod Shapes
pub mod Numbering
pub mod Entries
pub mod Written
pub mod Guards
mod Tests
use hive_nectar.Prelude.{
  ℕ, [], Bool, ◌&&◌, ltb, leb, if◌then◌else◌, Result, ok, err, ◌>>=◌, assertion_error, length,
  Option, none, some,
}
use hive_nectar.Prelude.Bytes.{Text, codes}
use hive_nectar.Values.{Value, a_text, a_list, a_dict, Dict, get, lookup, has_truthy, truthy, len}
use hive_nectar.Values.Json.{json_dumps}
use hive_nectar.Objects.{Field, string_of}
use Prim.Native.String.{String}

-- Metadata is empty, or is dumped, or goes as it is. Some classes dump a dictionary only, others a
-- list as well.
unfoldable pub dumped_dict : Value → Result Value
dumped_dict (a_dict d) = do t ← json_dumps (a_dict d); ok (a_text t)
dumped_dict value = ok value

unfoldable pub dumped : Value → Result Value
dumped (a_dict d) = do t ← json_dumps (a_dict d); ok (a_text t)
dumped (a_list vs) = do t ← json_dumps (a_list vs); ok (a_text t)
dumped value = ok value

unfoldable pub meta_of : (Value → Result Value) → Option Value → Result Value
meta_of dump none = ok (a_text [])
meta_of dump (some value) = if truthy value then dump value else ok (a_text [])

unfoldable pub meta_at : (Value → Result Value) → String → Field
meta_at dump key kwargs = do meta ← meta_of dump (lookup kwargs (codes key)); ok (string_of meta)

-- `if not len(kwargs["new_account_name"]) <= 16: raise AssertionError`.
unfoldable pub check_account_name : Dict → Result ℕ
check_account_name kwargs = do
  name ← get kwargs (codes "new_account_name")
  n ← len name
  if leb n 16 then ok n else err assertion_error
