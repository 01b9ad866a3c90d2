-- ===== src/Examples/Plans.antt =====
-- Examples of change sets and propagation.
use aws_tagging_utils.Base.{String, ◌≡◌, refl, true, false, some, [], ◌∷◌}
use aws_tagging_utils.Base.{string_eq}
use aws_tagging_utils.Base.{List}
use aws_tagging_utils.Base.Dict
use aws_tagging_utils.Base.Dict.{NodupKeys}
use aws_tagging_utils.Governance.Models.{Tags}
use aws_tagging_utils.Changesets.{changes_of, apply_changes}
use aws_tagging_utils.Changesets.{PlanItem}
use aws_tagging_utils.Changesets.Effects.{apply_changes_keeps}
use aws_tagging_utils.Propagation.{Settings, Child, finding_of, child_findings}
use mathlib.Core.List.{map}
use aws_tagging_utils.Propagation.Plan.{fix_plan, target_of, tags_kind, config_kind}
use aws_tagging_utils.Propagation.Plan.Settled.{fix_plan_settles}
use aws_tagging_utils.Examples.{runtime, schema}

abbrev pub live : Tags
live = ("Owner", "ann") ∷ []

abbrev pub wanted : Tags
wanted = ("Owner", "bob") ∷ ("Env", "dev") ∷ []

pub wanted-NodupKeys : NodupKeys wanted
unfolding Dict.get string_eq
wanted-NodupKeys = (refl, (refl, tt))

apply_changes_keeps_example :
    Dict.get (apply_changes runtime live (changes_of runtime live false wanted)) "Owner"
    ≡ some "ann"
unfolding Dict.get string_eq
apply_changes_keeps_example = apply_changes_keeps runtime live wanted "Owner" "ann" refl

abbrev settings : Settings
settings = record {
  propagate_keys = "schema";
  propagate_exclude_keys = "Name" ∷ [];
  schema = schema;
}

abbrev child : Child
child = record { arn = "arn:aws:ec2:eu-west-1:1:subnet/s"; type_ = "ec2:subnet"; tags = live }

abbrev sibling : Child
sibling = record { arn = "arn:aws:ec2:eu-west-1:1:subnet/t"; type_ = "ec2:subnet"; tags = [] }

abbrev gateway : Child
gateway = record { arn = "arn:aws:ec2:eu-west-1:1:natgateway/g"; type_ = "ec2"; tags = wanted }

abbrev asg_op : String
asg_op = "asg_propagate"

fix_plan_settles_example :
    finding_of runtime settings "vpc" "p" wanted (record child {
      tags = Dict.update live (
          target_of
            (fix_plan
              (config_kind asg_op
                ∷ map tags_kind (
                    child_findings runtime settings "vpc" "p" wanted
                      (sibling ∷ child ∷ gateway ∷ [])))
              true).targets
            child.arn);
    })
    ≡ []
unfolding string_eq
fix_plan_settles_example =
    fix_plan_settles runtime settings (asg_op ∷ []) "vpc" "p" wanted (sibling ∷ []) child
      (gateway ∷ []) wanted-NodupKeys refl refl

abbrev one_plan : List PlanItem
one_plan =
    record {
      arn = "arn:aws:s3:::logs";
      changes = changes_of runtime live true wanted;
      skipped = [];
      invalid = [];
      compliant_before = false;
      compliant_after = true;
      remaining_violations = [];
    }
    ∷ []
