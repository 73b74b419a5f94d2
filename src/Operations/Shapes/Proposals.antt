-- ===== src/Operations/Shapes/Proposals.antt =====
-- The shapes of the operations of Operations/Proposals.antt: each class makes the layout of its operation.
use hive_nectar.Prelude.{[], ◌∷◌}
use hive_nectar.Wire.Format.{text, time, asset, u8, u64, list, variant}
use hive_nectar.Objects.{Outside}
use hive_nectar.Objects.Shapes.{Makes, object-Makes, after-Makes}
use hive_nectar.Objects.Shapes.Fields.{
  amount_at-Makes, bool_at-Makes, no_extensions-Makes, text_at-Makes, time_at-Makes,
  uint64_at-Makes, uint64s_at-Makes,
}
use hive_nectar.Operations.Layouts.{layout, no_extensions, only}
use hive_nectar.Operations.Proposals.{
  update_proposal_votes, remove_proposal, create_proposal, update_proposal,
}
use hive_nectar.Operations.Shapes.{IsPlain, end_date_field-Makes}

module _ (outside : Outside) where
  pub create_proposal-Makes :
      Makes IsPlain
        (layout (text ∷ text ∷ time ∷ time ∷ asset ∷ text ∷ text ∷ no_extensions ∷ []))
        (create_proposal outside)
  unfolding create_proposal
  create_proposal-Makes =
      object-Makes IsPlain (text ∷ text ∷ time ∷ time ∷ asset ∷ text ∷ text ∷ no_extensions ∷ []) _
        (
          text_at-Makes IsPlain "creator",
          (
            text_at-Makes IsPlain "receiver",
            (
              time_at-Makes IsPlain "start_date",
              (
                time_at-Makes IsPlain "end_date",
                (
                  amount_at-Makes IsPlain outside "daily_pay",
                  (
                    text_at-Makes IsPlain "subject",
                    (text_at-Makes IsPlain "permlink", (no_extensions-Makes IsPlain, tt)),
                  ),
                ),
              ),
            ),
          ),
        )

  pub update_proposal-Makes :
      Makes IsPlain
        (layout
          (u64 ∷ text ∷ asset ∷ text ∷ text ∷ list (variant (only 1 (layout (time ∷ [])))) ∷ []))
        (update_proposal outside)
  unfolding update_proposal
  update_proposal-Makes = after-Makes IsPlain _ _ (
      object-Makes IsPlain
        (u64 ∷ text ∷ asset ∷ text ∷ text ∷ list (variant (only 1 (layout (time ∷ [])))) ∷ []) _
        (
          uint64_at-Makes IsPlain "proposal_id",
          (
            text_at-Makes IsPlain "creator",
            (
              amount_at-Makes IsPlain outside "daily_pay",
              (
                text_at-Makes IsPlain "subject",
                (text_at-Makes IsPlain "permlink", (end_date_field-Makes, tt)),
              ),
            ),
          ),
        ))

pub update_proposal_votes-Makes :
    Makes IsPlain (layout (text ∷ list u64 ∷ u8 ∷ no_extensions ∷ [])) update_proposal_votes
unfolding update_proposal_votes
update_proposal_votes-Makes = after-Makes IsPlain _ _ (
    object-Makes IsPlain (text ∷ list u64 ∷ u8 ∷ no_extensions ∷ []) _ (
      text_at-Makes IsPlain "voter",
      (
        uint64s_at-Makes IsPlain "proposal_ids",
        (bool_at-Makes IsPlain "approve", (no_extensions-Makes IsPlain, tt)),
      ),
    ))

pub remove_proposal-Makes :
    Makes IsPlain (layout (text ∷ list u64 ∷ no_extensions ∷ [])) remove_proposal
unfolding remove_proposal
remove_proposal-Makes = after-Makes IsPlain _ _ (
    object-Makes IsPlain (text ∷ list u64 ∷ no_extensions ∷ []) _ (
      text_at-Makes IsPlain "proposal_owner",
      (uint64s_at-Makes IsPlain "proposal_ids", (no_extensions-Makes IsPlain, tt)),
    ))
