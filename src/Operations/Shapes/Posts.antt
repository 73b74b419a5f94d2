-- ===== src/Operations/Shapes/Posts.antt =====
-- The shapes of the operations of Operations/Posts.antt: each class makes the layout of its operation.
use hive_nectar.Prelude.{[], ◌∷◌, >>=-eq-ok, ltb}
use hive_nectar.Prelude.Bytes.{codes}
use hive_nectar.Values.{null, get, get_or, lookup, len}
use hive_nectar.Wire.Format.{text, asset, u8, i16, u16, list, variant}
use hive_nectar.Objects.{Outside}
use hive_nectar.Objects.Shapes.{Makes, object-Makes, after-Makes, if-Yields, err-Yields}
use hive_nectar.Objects.Shapes.Fields.{
  amount_at-Makes, int16_at-Makes, text_at-Makes, texts_at-Makes, truth_at-Makes, uint16_at-Makes,
}
use hive_nectar.Operations.{dumped}
use hive_nectar.Operations.Layouts.{layout, only, beneficiary_list}
use hive_nectar.Operations.Posts.{
  vote, comment, delete_comment, custom, custom_binary, custom_json, comment_options, json_text,
  option_extensions, with_beneficiaries, check_percent,
}
use hive_nectar.Operations.Shapes.{
  IsPlain, Anything, json_field-Makes, meta_at-Makes, option_extensions-Makes,
}

module _ (outside : Outside) where
  pub comment_options-Makes :
      Makes IsPlain
        (layout
          (text ∷ text ∷ asset ∷ u16 ∷ u8 ∷ u8 ∷ list (variant (only 0 beneficiary_list)) ∷ []))
        (comment_options outside)
  unfolding comment_options
  comment_options-Makes kwargs p w h =
      let (_, _, h1) = >>=-eq-ok (option_extensions (with_beneficiaries kwargs)) _ h in
      let (_, _, h2) =
        >>=-eq-ok (check_percent (get_or (with_beneficiaries kwargs) (codes "percent_hbd") null)) _
          h1 in
      object-Makes Anything
        (text ∷ text ∷ asset ∷ u16 ∷ u8 ∷ u8 ∷ list (variant (only 0 beneficiary_list)) ∷ []) _
        (
          text_at-Makes Anything "author",
          (
            text_at-Makes Anything "permlink",
            (
              amount_at-Makes Anything outside "max_accepted_payout",
              (
                uint16_at-Makes Anything "percent_hbd",
                (
                  truth_at-Makes Anything "allow_votes",
                  (truth_at-Makes Anything "allow_curation_rewards", (option_extensions-Makes, tt)),
                ),
              ),
            ),
          ),
        )
        (with_beneficiaries kwargs) tt w h2

pub vote-Makes : Makes IsPlain (layout (text ∷ text ∷ text ∷ i16 ∷ [])) vote
unfolding vote
vote-Makes = object-Makes IsPlain (text ∷ text ∷ text ∷ i16 ∷ []) _ (
  text_at-Makes IsPlain "voter",
  (
    text_at-Makes IsPlain "author",
    (text_at-Makes IsPlain "permlink", (int16_at-Makes IsPlain "weight", tt)),
  ),
)

pub comment-Makes :
    Makes IsPlain (layout (text ∷ text ∷ text ∷ text ∷ text ∷ text ∷ text ∷ [])) comment
unfolding comment
comment-Makes = after-Makes IsPlain _ _ (
    object-Makes IsPlain (text ∷ text ∷ text ∷ text ∷ text ∷ text ∷ text ∷ []) _ (
      text_at-Makes IsPlain "parent_author",
      (
        text_at-Makes IsPlain "parent_permlink",
        (
          text_at-Makes IsPlain "author",
          (
            text_at-Makes IsPlain "permlink",
            (
              text_at-Makes IsPlain "title",
              (text_at-Makes IsPlain "body", (meta_at-Makes IsPlain dumped "json_metadata", tt)),
            ),
          ),
        ),
      ),
    ))

pub delete_comment-Makes : Makes IsPlain (layout (text ∷ text ∷ [])) delete_comment
unfolding delete_comment
delete_comment-Makes =
    object-Makes IsPlain (text ∷ text ∷ []) _
      (text_at-Makes IsPlain "author", (text_at-Makes IsPlain "permlink", tt))

pub custom-Makes : Makes IsPlain (layout (list text ∷ u16 ∷ text ∷ [])) custom
unfolding custom
custom-Makes = object-Makes IsPlain (list text ∷ u16 ∷ text ∷ []) _ (
  texts_at-Makes IsPlain "required_auths",
  (uint16_at-Makes IsPlain "id", (text_at-Makes IsPlain "data", tt)),
)

pub custom_binary-Makes : Makes IsPlain (layout (u16 ∷ text ∷ [])) custom_binary
unfolding custom_binary
custom_binary-Makes =
    object-Makes IsPlain (u16 ∷ text ∷ []) _
      (uint16_at-Makes IsPlain "id", (text_at-Makes IsPlain "data", tt))

pub custom_json-Makes :
    Makes IsPlain (layout (list text ∷ list text ∷ text ∷ text ∷ [])) custom_json
unfolding custom_json
custom_json-Makes kwargs p w h =
    let (_, _, h1) = >>=-eq-ok (json_text (lookup kwargs (codes "json"))) _ h in
    let (id, _, h2) = >>=-eq-ok (get kwargs (codes "id")) _ h1 in
    let (n, _, h3) = >>=-eq-ok (len id) _ h2 in
    if-Yields (ltb 32 n) err-Yields
      (object-Makes IsPlain (list text ∷ list text ∷ text ∷ text ∷ []) _
        (
          texts_at-Makes IsPlain "required_auths",
          (
            texts_at-Makes IsPlain "required_posting_auths",
            (text_at-Makes IsPlain "id", (json_field-Makes, tt)),
          ),
        )
        kwargs p)
      w h3
