-- ===== src/TagOnCreate/Writes.antt =====
-- `tag_untagged_arns`: src/tag_on_create.py
pub mod Settled
use aws_tagging_utils.Base.{
  ℕ, String, Bool, true, false, not, Option, none, some, List, [], ◌∷◌, ◌++◌,
}
use aws_tagging_utils.Base.{if◌then◌else◌, is_empty, keep, string_eq}
use aws_tagging_utils.Base.Dict
use aws_tagging_utils.Base.Dict.{Dict}
use aws_tagging_utils.Governance.Models.{Tags}
use aws_tagging_utils.Governance.Engine.{Engine, evaluate}
use aws_tagging_utils.Protected.{record_writes}
use aws_tagging_utils.Services.{Failure, Reply, raised, returned, AwsApi, World, Config}
use aws_tagging_utils.TagWriter.{batches}
use aws_tagging_utils.TagOnCreate.{Setting}

-- `failed[a] = {"ErrorMessage": str(e)}` for the ARNs of a batch
unfoldable pub fail_batch : List String → String → Dict String Failure → Dict String Failure
fail_batch [] message failed = failed
fail_batch (a ∷ batch) message failed =
    fail_batch batch message
      (Dict.insert failed a (record { error_code = none; error_message = some message }))

-- `val_res.normalized_tags if val_res.normalized_tags else tags`
unfoldable pub normalized_or : Tags → Tags → Tags
normalized_or normalized tags = if is_empty normalized then tags else normalized

module _ {W : Type 0} (api : AwsApi W) (tags : Tags) where
  -- The calls for one region, over the batches.
  unfoldable pub tag_each :
      String
      → List (List String)
      → List String
      → Dict String Failure
      → W
      → (List String × Dict String Failure) × W
  unfolding fail_batch
  tag_each region [] tagged failed w = ((tagged, failed), w)
  tag_each region (batch ∷ more) tagged failed w =
      let (reply, w') = api.tag_resources region batch tags w in
      elim reply [
        | raised message ↦ tag_each region more tagged (fail_batch batch message failed) w'
        | returned fm ↦
            tag_each region more (tagged ++ keep (λ a. not (Dict.has_key fm a)) batch)
              (Dict.update failed fm) w'
      ]

module _ {W : Type 0} (setting : Setting) (engine : Engine) (api : AwsApi W) (config : Config) where
  open setting use {rt, owner_tag_key, tag_api_batch}

  unfoldable pub tags_to_apply : String → Tags
  unfolding normalized_or
  tags_to_apply owner_value =
      let tags : Tags = (owner_tag_key, owner_value) ∷ [] in
      normalized_or (evaluate rt engine tags none [] false).normalized_tags tags

  unfoldable pub tag_untagged_arns :
      String → List String → String → ℕ → World W → (List String × Dict String Failure) × World W
  unfolding tag_each tags_to_apply
  tag_untagged_arns region arns owner_value now w =
      let tags = tags_to_apply owner_value in
      let ((tagged, failed), aws') =
        tag_each api tags region (batches tag_api_batch arns) [] [] w.aws in
      (
        (tagged, failed),
        record w {
          aws = aws';
          store =
              record_writes config.tag_schema tagged tags [] "aws-tagging-utils" "tag-on-create" now
                w.store;
        },
      )
