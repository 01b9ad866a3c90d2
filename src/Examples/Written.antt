-- ===== src/Examples/Written.antt =====
-- Examples of the tag-write command and of the compliance report.
use aws_tagging_utils.Base.{
  String, Bool, true, false, ◌||◌, Option, none, some, List, [], ◌∷◌, ◌≡◌, refl, arith,
}
use aws_tagging_utils.Base.{◌==◌, string_eq, option_eq, contains, if◌then◌else◌}
use aws_tagging_utils.Base.Dict
use aws_tagging_utils.Base.Dict.{Dict}
use aws_tagging_utils.Json.{text, object, Fields, no_fields, field}
use aws_tagging_utils.Governance.Models.{Tags}
use aws_tagging_utils.Governance.Engine.{make_engine}
use aws_tagging_utils.Services.{Failure, returned, AwsApi}
use aws_tagging_utils.TagWrite.{lambda_handler}
use aws_tagging_utils.TagWrite.Reports.{applied_tagged}
use aws_tagging_utils.TagReport.{Inventory, unavailable, inventory, Audit, audit_all}
use aws_tagging_utils.TagReport.Counts.{IsBalanced, audit_all-IsBalanced}
use aws_tagging_utils.Examples.{reliable, runtime, schema, arn, tags}
use aws_tagging_utils.Examples.Access.{texts}
use aws_tagging_utils.TagWrite.{normalize_arn_list}
use aws_tagging_utils.Json.{get_field}
use aws_tagging_utils.Base.Text.{strip}
use aws_tagging_utils.TagWrite.{normalize_tags}
use aws_tagging_utils.TagWriter.{batches}

abbrev Aws : Type 0
Aws = String → Tags

abbrev written : Tags
written = ("Owner", "ann") ∷ []

abbrev write : AwsApi Aws
write = record {
  faults = reliable;
  tag_resources = λ region arns new w.
      (returned [], λ a. if contains arns a then Dict.update (w a) new else w a);
}

abbrev is_tagged : Aws → String → Bool
is_tagged w a = Dict.get (w a) "Owner" == some "ann"

write_returns :
    (reg : String) (chunk : List String) (w : Aws) (failed : Dict String Failure)
    → (write.tag_resources reg chunk written w).0 ≡ returned failed
    → contains chunk arn ≡ true
    → (Dict.has_key failed arn || is_tagged (write.tag_resources reg chunk written w).1 arn) ≡ true
unfolding Dict.get string_eq
write_returns reg chunk w failed h named =
    ground (arith, Dict.get-update-some (w arn) written "Owner" "ann" (refl, tt) refl)

write_stays :
    (reg : String) (chunk : List String) (w : Aws)
    → is_tagged w arn ≡ true
    → is_tagged (write.tag_resources reg chunk written w).1 arn ≡ true
unfolding Dict.get string_eq
write_stays reg chunk w h =
    ground (arith, Dict.get-update-some (w arn) written "Owner" "ann" (refl, tt) refl)

abbrev request : Fields
request =
    field "arn" (text arn) (field "tags" (object (field "Owner" (text "ann") no_fields)) no_fields)

abbrev bare : Aws
bare = λ a. []

applied_tagged_example :
    is_tagged (lambda_handler texts write 20 "us-east-1" request bare).1 arn ≡ true
unfolding lambda_handler normalize_arn_list get_field string_eq strip normalize_tags Dict.append_to
    batches Dict.update
applied_tagged_example =
    applied_tagged write 20 written is_tagged arn write_returns write_stays texts "us-east-1"
      request bare (arn ∷ []) (omega arith) refl refl

-- One region can be read, with two resources of which one has no owner; the other can not.
abbrev collect : String → Option String → List String → Inventory
collect region account types =
    if region == "eu-west-1"
    then inventory none "tagging_api" (
        record { arn = arn; tags = tags; resource_type = "s3:bucket"; never_tagged = false }
        ∷ record { arn = arn; tags = []; resource_type = "s3:bucket"; never_tagged = true }
        ∷ [])
    else unavailable "AccessDenied"

abbrev no_audit : Audit
no_audit = record {
  regions = [];
  accounts = [];
  inventory_source = "auto";
  never_tagged = 0;
  unmapped_types = [];
  warnings = [];
  region_errors = [];
}

abbrev regions : List String
regions = "eu-west-1" ∷ "us-east-1" ∷ []

audit_all-IsBalanced_example : IsBalanced (
    audit_all runtime
      (make_engine runtime schema "warn" true)
      collect
      "all"
      []
      []
      []
      (none ∷ [])
      regions
      no_audit)
audit_all-IsBalanced_example =
    audit_all-IsBalanced runtime (make_engine runtime schema "warn" true) collect "all" [] [] []
      (none ∷ []) regions no_audit (tt, refl, refl)
