-- ===== src/Operations/Proposals.antt =====
-- Proposals of the fund: src/nectarbase/operations.py.
use hive_nectar.Prelude.{[], ◌∷◌, ◌>>=◌, ok, if◌then◌else◌}
use hive_nectar.Prelude.Bytes.{codes}
use hive_nectar.Values.{Value, a_text, a_dict, no_entries, entry, get, has_truthy}
use hive_nectar.Wire.{array, item, end}
use hive_nectar.Objects.{
  Outside, Field, object, after, text_at, time_at, bool_at, uint64_at, uint64s_at, no_extensions,
  empty_array, update_proposal_extension,
}
use hive_nectar.Objects.Amounts.{amount_at}

unfoldable pub update_proposal_votes : Field
update_proposal_votes =
    after (uint64s_at "proposal_ids" ∷ []) (
      object (text_at "voter" ∷ uint64s_at "proposal_ids" ∷ bool_at "approve" ∷ no_extensions ∷ []))

unfoldable pub remove_proposal : Field
remove_proposal =
    after (uint64s_at "proposal_ids" ∷ [])
      (object (text_at "proposal_owner" ∷ uint64s_at "proposal_ids" ∷ no_extensions ∷ []))

-- A new end date goes into an extension.
abbrev pub end_date_extension : Value → Value
end_date_extension end_date = a_dict (
    entry (codes "type") (a_text (codes "update_proposal_end_date"))
      (entry (codes "value") (a_dict (entry (codes "end_date") end_date no_entries)) no_entries))

unfoldable pub end_date_field : Field
end_date_field kwargs =
    if has_truthy kwargs (codes "end_date")
    then (do
      end_date ← get kwargs (codes "end_date")
      w ← update_proposal_extension (end_date_extension end_date)
      ok (array (item w end)))
    else ok empty_array

module _ (outside : Outside) where
  unfoldable pub create_proposal : Field
  create_proposal = object (
      text_at "creator"
      ∷ text_at "receiver"
      ∷ time_at "start_date"
      ∷ time_at "end_date"
      ∷ amount_at outside "daily_pay"
      ∷ text_at "subject"
      ∷ text_at "permlink"
      ∷ no_extensions
      ∷ [])

  unfoldable pub update_proposal : Field
  update_proposal = after (end_date_field ∷ []) (
      object (
        uint64_at "proposal_id"
        ∷ text_at "creator"
        ∷ amount_at outside "daily_pay"
        ∷ text_at "subject"
        ∷ text_at "permlink"
        ∷ end_date_field
        ∷ []))
