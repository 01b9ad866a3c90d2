-- ===== src/Examples/Created.antt =====
-- Examples of new resources that are tagged with their owner.
use aws_tagging_utils.Base.{
  ℕ, zero, suc, ◌+◌, ◌*◌, ◌≤◌, String, true, false, ◌||◌, none, some, List, [], ◌∷◌, ◌≡◌, refl,
  arith,
}
use aws_tagging_utils.Base.{◌==◌, string_eq, option_eq, contains, if◌then◌else◌, length, keep}
use aws_tagging_utils.Base.Dict
use aws_tagging_utils.Base.Dict.{Dict}
use aws_tagging_utils.Base.Text.{len}
use aws_tagging_utils.Json.{text, object, Fields, no_fields, field}
use aws_tagging_utils.Governance.Models.{Tags}
use aws_tagging_utils.Governance.Engine.{Engine, make_engine}
use aws_tagging_utils.Services.{AwsApi, World, returned}
use aws_tagging_utils.State.{empty_store}
use aws_tagging_utils.TagOnCreate.{Setting}
use aws_tagging_utils.TagOnCreate.Owner.{owner_from_user_identity, owner_from_user_identity_bounded}
use aws_tagging_utils.TagOnCreate.Lookup.{GetResources, fetch_tags_for_arns, rounds}
use aws_tagging_utils.TagOnCreate.Lookup.Rounds.{fetch_settles, fetch_bounded, known}
use aws_tagging_utils.TagOnCreate.Writes.{tag_untagged_arns}
use aws_tagging_utils.TagOnCreate.Writes.Settled.{tag_untagged_arns_reports}
use aws_tagging_utils.TagOnCreate.Handler.{tag_group}
use aws_tagging_utils.TagOnCreate.Handler.Kept.{tag_group_keeps}
use aws_tagging_utils.Examples.{reliable, runtime, schema, config, flaky, warm, arn}
use aws_tagging_utils.Examples.Access.{texts}
use aws_tagging_utils.Json.{get_field}
use aws_tagging_utils.Json.{truthy}
use aws_tagging_utils.Base.Text.{prefix}
use aws_tagging_utils.TagOnCreate.{str_of}
use aws_tagging_utils.TagWriter.{batches}
use aws_tagging_utils.TagOnCreate.Lookup.{is_missing_owner_tag}
use aws_tagging_utils.Base.Text.{is_blank}
use aws_tagging_utils.Json.{truthy}
use aws_tagging_utils.Json.{get_field}

abbrev setting : Setting
setting = record {
  rt = runtime;
  loader = texts;
  default_region = "us-east-1";
  owner_tag_key = "Owner";
  tag_api_batch = 1;
  tag_lookup_retries = 2;
  match_queue_url = λ url. none;
}

abbrev engine : Engine
engine = make_engine runtime schema "warn" true

abbrev identity : Fields
identity = field "type" (text "IAMUser") (field "userName" (text "ann") no_fields)

owner_from_user_identity_bounded_example : len "ann" ≤ 256
unfolding owner_from_user_identity option_eq get_field string_eq truthy prefix str_of
owner_from_user_identity_bounded_example =
    owner_from_user_identity_bounded setting (some (object identity)) "ann" refl

-- Tags that become known at the second call, and then show an owner.
abbrev late : GetResources ℕ
late arns zero = (none, 1)
late [] (suc n) = (some [], suc (suc n))
late (a ∷ arns) (suc n) = (some ((some a, ("Owner", "ann") ∷ []) ∷ []), suc (suc n))

late_counted : (b : List String) (n : ℕ) → (late b n).1 ≤ suc n
late_counted b zero = omega arith
late_counted [] (suc n) = omega arith
late_counted (a ∷ arns) (suc n) = omega arith

abbrev two_arns : List String
two_arns = arn ∷ "arn:aws:sns:eu-west-1:111122223333:alerts" ∷ []

fetch_settles_example :
    (known (fetch_tags_for_arns late 1 2 two_arns 0).0 arn
      || contains (rounds late 1 2 two_arns [] 0).1.0 arn)
    ≡ true
unfolding string_eq
fetch_settles_example = fetch_settles late 1 2 two_arns 0 arn (omega arith) refl

fetch_bounded_example : (fetch_tags_for_arns late 1 2 two_arns 0).1 ≤ 0 + 2 * length two_arns
fetch_bounded_example = fetch_bounded late 1 (λ n. n) late_counted 2 two_arns 0 (omega arith)

tag_untagged_arns_reports_example :
    let out = (tag_untagged_arns setting engine flaky config "eu-west-1" two_arns "ann" 1 warm).0 in
    (contains out.0 arn || Dict.has_key out.1 arn) ≡ true
unfolding string_eq
tag_untagged_arns_reports_example =
    tag_untagged_arns_reports setting engine flaky config arn "eu-west-1" two_arns "ann" 1 warm
      (omega arith) refl

-- AWS as the tags of each resource, of which the first has an owner.
abbrev Aws : Type 0
Aws = String → Tags

abbrev owned : Tags
owned = ("Owner", "ann") ∷ []

abbrev show : GetResources Aws
show [] w = (some [], w)
show (a ∷ arns) w = (some ((some a, w a) ∷ []), w)

abbrev write : AwsApi Aws
write = record {
  faults = reliable;
  tag_resources = λ region arns tags w.
      (returned [], λ a. if contains arns a then Dict.update (w a) tags else w a);
}

write_frame :
    (region : String) (arns : List String) (tags : Tags) (w : Aws)
    → contains arns arn ≡ false
    → (write.tag_resources region arns tags w).1 arn ≡ w arn
write_frame region arns tags w h = ground arith

abbrev site : World Aws
site = record { aws = λ a. if a == arn then owned else []; store = empty_store; audit = [] }

tag_group_keeps_example :
    (tag_group setting engine (λ region. show) write config "eu-west-1" two_arns "bob" 1 site).1.aws
      arn
    ≡ (fetch_tags_for_arns show 1 2 two_arns site.aws).1 arn
unfolding Dict.get fetch_tags_for_arns batches keep string_eq Dict.insert is_missing_owner_tag
    is_blank
tag_group_keeps_example =
    tag_group_keeps setting engine (λ region. show) write config (λ w a. w a) arn write_frame
      "eu-west-1" two_arns "bob" 1 site owned (omega arith) refl refl
