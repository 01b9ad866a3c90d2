-- ===== src/Propagation/Plan.antt =====
-- `fix_plan` of src/propagation.py: from findings to the targets and operations of a change set.
pub mod Settled
pub mod Values
use mathlib.Core.List.{map}
use aws_tagging_utils.Base.{String, Bool, Option, none, some, List, [], ◌∷◌, ◌++◌}
use aws_tagging_utils.Base.{string_eq, if◌then◌else◌, is_empty}
use aws_tagging_utils.Base.Dict
use aws_tagging_utils.Base.Dict.{Dict}
use aws_tagging_utils.Governance.Models.{Tags}
use aws_tagging_utils.Propagation.{Mismatch, TagFinding}

-- A finding of the kind "tags", or of the kind "config" with its operation.
pub data Finding (Op : Type 0) : Type 0 where
  tags_kind : TagFinding → Finding Op
  config_kind : Op → Finding Op

pub record FixPlan (Op : Type 0) : Type 0 where
  pub targets : Dict String Tags
  pub ops : List Op

-- `{k: v["expected"] for k, v in mismatched.items()}`
unfoldable pub expected_values : Dict String Mismatch → Tags
expected_values [] = []
expected_values ((k, m) ∷ mismatched) = (k, m.expected) ∷ expected_values mismatched

-- `tags` of a finding
unfoldable pub fix_tags : Bool → Tags → Dict String Mismatch → Tags
unfolding expected_values
fix_tags overwrite missing mismatched =
    if overwrite then Dict.update missing (expected_values mismatched) else missing

-- `targets[arn]`, with no tags where the key is missing
unfoldable pub target_of : Dict String Tags → String → Tags
target_of targets arn = elim (Dict.get targets arn) [ none ↦ [] | some tags ↦ tags ]

-- `if tags: targets.setdefault(arn, {}).update(tags)`
unfoldable pub add_target : Dict String Tags → String → Tags → Dict String Tags
unfolding target_of
add_target targets arn tags =
    if is_empty tags
    then targets
    else Dict.insert targets arn (Dict.update (target_of targets arn) tags)

module _ {Op : Type 0} where
  -- The loop over the findings.
  unfoldable pub fix_loop : Bool → List (Finding Op) → Dict String Tags → List Op → FixPlan Op
  unfolding fix_tags add_target
  fix_loop overwrite [] targets ops = record { targets = targets; ops = ops }
  fix_loop overwrite (config_kind op ∷ findings) targets ops =
      fix_loop overwrite findings targets (ops ++ (op ∷ []))
  fix_loop overwrite (tags_kind f ∷ findings) targets ops =
      fix_loop overwrite findings
        (add_target targets f.child_arn (fix_tags overwrite f.missing f.mismatched)) ops

  unfoldable pub fix_plan : List (Finding Op) → Bool → FixPlan Op
  unfolding fix_loop
  fix_plan findings overwrite = fix_loop overwrite findings [] []
