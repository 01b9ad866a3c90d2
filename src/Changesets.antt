-- ===== src/Changesets.antt =====
-- The planning of change sets: src/changesets.py
pub mod Effects
pub mod Summary
pub mod Apply
pub mod Log
pub mod Tagging
pub mod Undo
use mathlib.Core.List.{map}
use aws_tagging_utils.Base.{
  ℕ, ◌+◌, String, ◌<>◌, Bool, true, false, not, ◌&&◌, ◌||◌, Option, none, some,
}
use aws_tagging_utils.Base.{
  List, [], ◌∷◌, ◌++◌, ◌==◌, string_eq, option_eq, if◌then◌else◌, is_empty, length,
}
use aws_tagging_utils.Base.{ltb, keep}
use aws_tagging_utils.Base.Dict
use aws_tagging_utils.Base.Dict.{Dict}
use aws_tagging_utils.Base.Text.{strip, starts_with}
use aws_tagging_utils.Errors.{ApiError, Result, ok, err}
use aws_tagging_utils.Runtime.{Runtime}
use aws_tagging_utils.Governance.Models.{Tags, ValidationViolation}
use aws_tagging_utils.Governance.Engine.{Engine, evaluate}

-- A target of a request: an ARN and the tags that it asks for.
pub record Target : Type 0 where
  pub arn : String
  pub tags : Tags

-- `{"before": cur.get(k), "after": v}`
pub record Change : Type 0 where
  pub before : Option String
  pub after : String

pub record Skipped : Type 0 where
  pub current : String
  pub requested : String

pub record PlanItem : Type 0 where
  pub arn : String
  pub changes : Dict String Change
  pub skipped : Dict String Skipped
  pub invalid : List ValidationViolation
  pub compliant_before : Bool
  pub compliant_after : Bool
  pub remaining_violations : List ValidationViolation

invalid_target : String → String → ApiError
invalid_target message error_code = record {
  message = message;
  status_code = 400;
  error_code = error_code;
}

-- `merged.setdefault(arn, {})[k] = v`
merge_tag : Dict String Tags → String → String → String → Dict String Tags
merge_tag merged arn k v = elim (Dict.get merged arn) [
  | none ↦ Dict.insert merged arn ((k, v) ∷ [])
  | some tags ↦ Dict.insert merged arn (Dict.insert tags k v)
]

unfoldable pub tags_of : Option Tags → Tags
tags_of none = []
tags_of (some tags) = tags

module _ (rt : Runtime) where
  merge_tags : String → Tags → Dict String Tags → Result (Dict String Tags)
  unfolding invalid_target merge_tag
  merge_tags arn [] merged = ok merged
  merge_tags arn ((k, v) ∷ tags) merged =
      let key = strip k in
      let rest = merge_tags arn tags (merge_tag merged arn key (strip v)) in
      if key == "" || starts_with (rt.lower key) "aws:"
      then err
          (invalid_target "Invalid tag key (empty or reserved 'aws:' prefix)" "INVALID_REQUEST")
      else rest

  merge_targets : List Target → Dict String Tags → Result (Dict String Tags)
  unfolding merge_tags
  merge_targets [] merged = ok merged
  merge_targets (t ∷ targets) merged =
      let arn = strip t.arn in
      if not (starts_with arn "arn:")
      then err (invalid_target "Invalid ARN" "INVALID_REQUEST")
      else if is_empty t.tags
      then err (invalid_target "No tags given" "INVALID_REQUEST")
      else (elim (merge_tags arn t.tags merged) [
        | err e ↦ err e
        | ok more ↦ merge_targets targets more
      ])

  -- `max_bulk_resources` is MAX_BULK_RESOURCES.
  unfoldable pub validate_targets : ℕ → List Target → Result (Dict String Tags)
  unfolding merge_targets invalid_target
  validate_targets max_bulk_resources targets =
      if is_empty targets
      then err (invalid_target "At least one target is required." "INVALID_REQUEST")
      else if ltb max_bulk_resources (length targets)
      then err (invalid_target "Too many resources per change set." "TOO_MANY_RESOURCES")
      else merge_targets targets []

  -- The changes of the loop over the normalised tags.
  unfoldable pub changes_of : Tags → Bool → Tags → Dict String Change
  changes_of cur overwrite [] = []
  changes_of cur overwrite ((k, v) ∷ normalized) =
      let rest = changes_of cur overwrite normalized in
      if Dict.get cur k == some v || (Dict.has_key cur k && not overwrite)
      then rest
      else (k, record { before = Dict.get cur k; after = v }) ∷ rest

  -- What that loop skips.
  unfoldable pub skipped_of : Tags → Bool → Tags → Dict String Skipped
  skipped_of cur overwrite [] = []
  skipped_of cur overwrite ((k, v) ∷ normalized) =
      let rest = skipped_of cur overwrite normalized in
      elim (Dict.get cur k) [
        | none ↦ rest
        | some w ↦
            if w == v || overwrite then rest else (k, record { current = w; requested = v }) ∷ rest
      ]

  -- `{k: c["after"] for k, c in changes.items()}`
  unfoldable pub afters : Dict String Change → Tags
  afters [] = []
  afters ((k, c) ∷ changes) = (k, c.after) ∷ afters changes

  -- The tags after the changes.
  unfoldable pub apply_changes : Tags → Dict String Change → Tags
  apply_changes cur changes = Dict.update cur (afters changes)

  -- `validation.normalized_tags or wanted`
  wanted_tags : Tags → Tags → Tags
  wanted_tags normalized wanted = if is_empty normalized then wanted else normalized

  module _ (engine : Engine) (mandatory_tags : List String) (overwrite : Bool) where
    unfoldable pub plan_item : Dict String Tags → String × Tags → PlanItem
    unfolding wanted_tags tags_of
    plan_item current (arn, wanted) =
        let cur = tags_of (Dict.get current arn) in
        let validation = evaluate rt engine wanted (some arn) [] true in
        let normalized = wanted_tags validation.normalized_tags wanted in
        let changes = changes_of cur overwrite normalized in
        let before_eval = evaluate rt engine cur (some arn) mandatory_tags false in
        let after_eval =
          evaluate rt engine (apply_changes cur changes) (some arn) mandatory_tags false in
        record {
          arn = arn;
          changes = changes;
          skipped = skipped_of cur overwrite normalized;
          invalid = validation.violations;
          compliant_before = before_eval.compliant;
          compliant_after = after_eval.compliant;
          remaining_violations = after_eval.violations;
        }

    -- `current` holds the live tags of the targets.
    unfoldable pub build_plan : ℕ → List Target → Dict String Tags → Result (List PlanItem)
    build_plan max_bulk_resources targets current =
        elim (validate_targets max_bulk_resources targets) [
          | err e ↦ err e
          | ok merged ↦ ok (map (plan_item current) merged)
        ]
