-- ===== src/Rpc/Batches.antt =====
-- The numbers and the order of the requests of a batch of src/nectarapi/rpcutils.py.
use hive_nectar.Prelude.{ℕ, zero, suc, ◌+◌, ◌≡◌, Option, none, some, List, [], ◌∷◌, length}
use hive_nectar.Prelude.Bytes.{Text}
use hive_nectar.Values.{Value, a_dict, a_list, Values, no_values, value_and, Dict}
use hive_nectar.Rpc.Queries.{query}

abbrev pub dict_values : List Dict → Values
dict_values [] = no_values
dict_values (d ∷ ds) = value_and (a_dict d) (dict_values ds)

abbrev pub value_at : Values → ℕ → Option Value
value_at no_values i = none
value_at (value_and v vs) zero = some v
value_at (value_and v vs) (suc i) = value_at vs i

abbrev pub count : Values → ℕ
count no_values = 0
count (value_and v vs) = suc (count vs)

module _ (api_name name : Text) where
  -- The request is a list of one for each dictionary, and the one at `i` asks for `x` and carries the
  -- number `i` places after the first.
  abbrev pub IsBatch : ℕ → List Dict → ℕ → Dict → Value → Type 0
  IsBatch request_id ds i x request =
      (vs : Values) × (request ≡ a_list vs)
      × (count vs ≡ length ds)
      × (value_at vs i ≡ some (query api_name name (request_id + i) (a_dict x)))
