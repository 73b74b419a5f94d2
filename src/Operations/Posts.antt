-- ===== src/Operations/Posts.antt =====
-- Posts, votes and custom data: src/nectarbase/operations.py.
use hive_nectar.Prelude.{
  [], ◌∷◌, ◌>>=◌, demand, ok, err, Result, Option, none, some, if◌then◌else◌, ltb, general,
  value_error, unbound_local_error,
}
use hive_nectar.Prelude.Int.{pos}
use hive_nectar.Prelude.Bytes.{codes}
use hive_nectar.Values.{
  Value, null, a_text, a_number, a_list, a_dict, no_values, value_and, no_entries, entry, Dict, get,
  get_or, lookup, has_truthy, truthy, len, put,
}
use hive_nectar.Values.Json.{compact_dumps}
use hive_nectar.Objects.{
  Outside, Field, object, after, field_at, text_at, texts_at, truth_at, int16_at, uint16_at,
  array_of, string_of, empty_array, comment_option_extension,
}
use hive_nectar.Objects.Amounts.{amount_at}
use hive_nectar.Operations.{meta_at, dumped}

unfoldable pub vote : Field
vote = object (text_at "voter" ∷ text_at "author" ∷ text_at "permlink" ∷ int16_at "weight" ∷ [])

unfoldable pub comment : Field
comment = after (meta_at dumped "json_metadata" ∷ []) (
    object (
      text_at "parent_author"
      ∷ text_at "parent_permlink"
      ∷ text_at "author"
      ∷ text_at "permlink"
      ∷ text_at "title"
      ∷ text_at "body"
      ∷ meta_at dumped "json_metadata"
      ∷ []))

unfoldable pub delete_comment : Field
delete_comment = object (text_at "author" ∷ text_at "permlink" ∷ [])

unfoldable pub custom : Field
custom = object (texts_at "required_auths" ∷ uint16_at "id" ∷ text_at "data" ∷ [])

unfoldable pub custom_binary : Field
custom_binary = object (uint16_at "id" ∷ text_at "data" ∷ [])

-- The text `js`, which is bound only if there is something to dump.
unfoldable pub dump_json : Value → Result Value
dump_json (a_dict d) = do t ← compact_dumps (a_dict d); ok (a_text t)
dump_json (a_list vs) = do t ← compact_dumps (a_list vs); ok (a_text t)
dump_json value = ok value

unfoldable pub json_text : Option Value → Result (Option Value)
json_text none = ok none
json_text (some value) = if truthy value then (do js ← dump_json value; ok (some js)) else ok none

unfoldable pub json_field : Field
json_field kwargs = do
  js ← json_text (lookup kwargs (codes "json"))
  v ← demand unbound_local_error js
  ok (string_of v)

unfoldable pub custom_json : Field
custom_json kwargs = do
  _ ← json_text (lookup kwargs (codes "json"))
  id ← get kwargs (codes "id")
  n ← len id
  if ltb 32 n
      then err general
      else object
          (texts_at "required_auths"
            ∷ texts_at "required_posting_auths"
            ∷ text_at "id"
            ∷ json_field
            ∷ [])
          kwargs

-- Beneficiaries become the only extension.
unfoldable pub with_beneficiaries : Dict → Dict
with_beneficiaries kwargs =
    if has_truthy kwargs (codes "beneficiaries")
    then put (codes "extensions")
        (a_list (
          value_and
            (a_list (
              value_and (a_number (pos 0)) (
                value_and
                  (a_dict (
                    entry (codes "beneficiaries") (get_or kwargs (codes "beneficiaries") null)
                      no_entries))
                  no_values)))
            no_values))
        kwargs
    else kwargs

unfoldable pub option_extensions : Field
option_extensions kwargs =
    if has_truthy kwargs (codes "extensions")
    then field_at (array_of comment_option_extension) "extensions" kwargs
    else ok empty_array

unfoldable pub check_percent : Value → Result Value
check_percent null = err value_error
check_percent value = ok value

module _ (outside : Outside) where
  unfoldable pub comment_options : Field
  comment_options kwargs = do
    let kwargs' = with_beneficiaries kwargs
    _ ← option_extensions kwargs'
    _ ← check_percent (get_or kwargs' (codes "percent_hbd") null)
    object
        (text_at "author"
          ∷ text_at "permlink"
          ∷ amount_at outside "max_accepted_payout"
          ∷ uint16_at "percent_hbd"
          ∷ truth_at "allow_votes"
          ∷ truth_at "allow_curation_rewards"
          ∷ option_extensions
          ∷ [])
        kwargs'
