-- ===== src/Propagation.antt =====
-- Which tags a parent passes to its children, and the findings: src/propagation.py
pub mod Fixes
pub mod Plan
use mathlib.Core.List.{map}
use aws_tagging_utils.Base.{
  String, Bool, true, false, not, ◌&&◌, ◌||◌, Option, none, some, List, [], ◌∷◌,
}
use aws_tagging_utils.Base.{◌++◌, ◌==◌, contains, string_eq, if◌then◌else◌, is_empty, keep}
use aws_tagging_utils.Base.Dict
use aws_tagging_utils.Base.Dict.{Dict, keys}
use aws_tagging_utils.Base.Text.{strip, is_blank, split, starts_with}
use aws_tagging_utils.Runtime.{Runtime}
use aws_tagging_utils.Governance.Models.{Schema, Tags}

-- PROPAGATE_KEYS and PROPAGATE_EXCLUDE_KEYS, with the schema.
pub record Settings : Type 0 where
  pub propagate_keys : String
  pub propagate_exclude_keys : List String
  pub schema : Schema

pub record Child : Type 0 where
  pub arn : String
  pub type_ : String
  pub tags : Tags

pub record Relation : Type 0 where
  pub parent_arn : String
  pub parent_tags : Tags
  pub children : List Child

pub record Mismatch : Type 0 where
  pub expected : String
  pub actual : String

-- A finding of the kind "tags".
pub record TagFinding : Type 0 where
  pub rule : String
  pub parent_arn : String
  pub child_arn : String
  pub missing : Tags
  pub mismatched : Dict String Mismatch

-- `{k: v for k, v in expected.items() if k not in child["tags"]}`
unfoldable pub missing_of : Tags → Tags → Tags
missing_of tags [] = []
missing_of tags ((k, v) ∷ expected) =
    let rest = missing_of tags expected in if Dict.has_key tags k then rest else (k, v) ∷ rest

unfoldable pub mismatched_of : Tags → Tags → Dict String Mismatch
mismatched_of tags [] = []
mismatched_of tags ((k, v) ∷ expected) =
    let rest = mismatched_of tags expected in
    elim (Dict.get tags k) [
      | none ↦ rest
      | some w ↦ if w == v then rest else (k, record { expected = v; actual = w }) ∷ rest
    ]

module _ (rt : Runtime) (settings : Settings) where
  open rt use {lower}

  -- `allowed`, with `none` for every key
  unfoldable pub allowed_keys : Option (List String)
  allowed_keys =
      if lower settings.propagate_keys == "all"
      then none
      else if lower settings.propagate_keys == "schema"
      then some (map lower (keys settings.schema))
      else some (
          map (λ k. lower (strip k))
            (keep (λ k. not (is_blank k)) (split b',' settings.propagate_keys)))

  allows : Option (List String) → String → Bool
  allows none k = true
  allows (some allowed) k = contains allowed (lower k)

  unfoldable pub propagates : String → String → Bool
  unfolding allows allowed_keys
  propagates k v =
      not (v == "")
      && (not (starts_with (lower k) "aws:")
          && (not (contains (map lower settings.propagate_exclude_keys) (lower k))
              && allows allowed_keys k))

  unfoldable pub propagated_keys : Tags → Tags
  propagated_keys [] = []
  propagated_keys ((k, v) ∷ tags) =
      let rest = propagated_keys tags in if propagates k v then (k, v) ∷ rest else rest

  -- The findings of one child.
  unfoldable pub finding_of : String → String → Tags → Child → List TagFinding
  finding_of rule parent_arn expected child =
      let missing = missing_of child.tags expected in
      let mismatched = mismatched_of child.tags expected in
      if is_empty missing && is_empty mismatched
      then []
      else record {
        rule = rule;
        parent_arn = parent_arn;
        child_arn = child.arn;
        missing = missing;
        mismatched = mismatched;
      }
        ∷ []

  unfoldable pub child_findings : String → String → Tags → List Child → List TagFinding
  child_findings rule parent_arn expected [] = []
  child_findings rule parent_arn expected (child ∷ children) =
      finding_of rule parent_arn expected child ++ child_findings rule parent_arn expected children

  -- The findings of the kind "tags". With nothing expected a child has none.
  unfoldable pub findings_for : String → List Relation → List TagFinding
  unfolding child_findings
  findings_for rule [] = []
  findings_for rule (rel ∷ relations) =
      child_findings rule rel.parent_arn (propagated_keys rel.parent_tags) rel.children
      ++ findings_for rule relations
