-- ===== src/Rpc/Queries.antt =====
-- `get_query` of src/nectarapi/rpcutils.py, and the calls that src/nectarapi/graphenerpc.py makes of the
-- names that it does not have.
use hive_nectar.Prelude.{ℕ, suc, Option, none, some, List, [], ◌∷◌, ◌++◌, if◌then◌else◌, bytes_eq}
use hive_nectar.Prelude.Int.{pos}
use hive_nectar.Prelude.Bytes.{Text, codes}
use hive_nectar.Values.{
  Value, a_text, a_number, a_list, a_dict, Values, no_values, value_and, Dict, no_entries, entry,
}

-- `f"{api_name}.{name}"`.
abbrev pub method_name : Text → Text → Text
method_name api_name name = api_name ++ b'.' ∷ name

abbrev pub with_dict : Dict → Option (List Dict) → Option (List Dict)
with_dict d none = none
with_dict d (some ds) = some (d ∷ ds)

module _ (api_name name : Text) where
  unfoldable pub query : ℕ → Value → Value
  query request_id params = a_dict (
      entry (codes "method") (a_text (method_name api_name name)) (
        entry (codes "params") params (
          entry (codes "jsonrpc") (a_text (codes "2.0"))
            (entry (codes "id") (a_number (pos request_id)) no_entries))))

  -- The loop over the entries of a batch.
  unfoldable pub queries : ℕ → List Dict → Values
  queries request_id [] = no_values
  queries request_id (d ∷ ds) =
      value_and (query request_id (a_dict d)) (queries (suc request_id) ds)

  -- `all(isinstance(item, dict) for item in items)`, with the dictionaries.
  unfoldable pub all_dicts : Values → Option (List Dict)
  all_dicts no_values = some []
  all_dicts (value_and (a_dict d) vs) = with_dict d (all_dicts vs)
  all_dicts (value_and v vs) = none

  -- The entries of a batch: more than one dictionary, or a list of some inside the list.
  unfoldable pub batch_of : Values → Option (List Dict)
  batch_of (value_and v (value_and w vs)) = all_dicts (value_and v (value_and w vs))
  batch_of (value_and (a_list (value_and v vs)) no_values) = all_dicts (value_and v vs)
  batch_of vs = none

  unfoldable pub no_params : ℕ → Value
  no_params request_id =
      query request_id
        (if bytes_eq api_name (codes "condenser_api") then a_list no_values else a_dict no_entries)

  unfoldable pub single_query : ℕ → Values → Value
  single_query request_id no_values = no_params request_id
  single_query request_id (value_and (a_dict d) no_values) = query request_id (a_dict d)
  single_query request_id vs = query request_id (a_list vs)

  unfoldable pub list_query : ℕ → Values → Option (List Dict) → Value
  list_query request_id vs none = single_query request_id vs
  list_query request_id vs (some ds) = a_list (queries request_id ds)

  -- `get_query`. A tuple is a list here.
  unfoldable pub get_query : ℕ → Value → Value
  get_query request_id (a_dict d) = query request_id (a_dict d)
  get_query request_id (a_list vs) = list_query request_id vs (batch_of vs)
  get_query request_id v = no_params request_id
