-- ===== src/Changesets/Apply.antt =====
-- `apply` of src/changesets.py, with the live plan and its token.
pub mod Tokens
use mathlib.Core.List.{map}
use aws_tagging_utils.Base.{
  ℕ, String, ◌<>◌, Bool, true, false, not, ◌&&◌, Option, none, some, List, [], ◌∷◌, ◌++◌,
}
use aws_tagging_utils.Base.{◌==◌, string_eq, if◌then◌else◌, is_empty}
use aws_tagging_utils.Base.Dict
use aws_tagging_utils.Base.Dict.{Dict, keys}
use aws_tagging_utils.Base.Text.{join, sort_by_key}
use aws_tagging_utils.Errors.{ApiError, Result, ok, err}
use aws_tagging_utils.Runtime.{Runtime}
use aws_tagging_utils.Governance.Models.{Tags, Schema, ValidationViolation}
use aws_tagging_utils.Governance.Engine.{Engine}
use aws_tagging_utils.Services.{World}
use aws_tagging_utils.Changesets.{Target, Change, PlanItem, validate_targets, plan_item, afters}
use aws_tagging_utils.Changesets.Log.{
  ItemResult, success, failed, invalid, no_change, TagItem, Item, tags_item, op_item, OpHandler,
  Ops, ChangeSet, Site, Outcome, finished, refused, crashed, record_change_set,
}
use aws_tagging_utils.Changesets.Summary.{Summary, plan_summary}
use aws_tagging_utils.Changesets.Tagging.{ResourceApi, fetch_current_tags, set_all}

-- What the functions read of the configuration and of other modules. `digest` is the hash of the
-- JSON text that `plan_token` writes, `error_of` the text of a plan item's violations.
pub record Context (W Op : Type 0) : Type 0 where
  pub rt : Runtime
  pub engine : Engine
  pub api : ResourceApi W
  pub ops : Ops W Op
  pub default_region : String
  pub schema : Schema
  pub mandatory_tags : List String
  pub max_bulk_resources : ℕ
  pub retention : ℕ
  pub upper : String → String
  pub digest : Dict String (Dict String Change) → String
  pub error_of : List ValidationViolation → String

-- `{k: c["before"] for k, c in p["changes"].items()}`
unfoldable pub befores : Dict String Change → Dict String (Option String)
befores [] = []
befores ((k, c) ∷ changes) = (k, c.before) ∷ befores changes

-- `[{"arn": p["arn"], "changes": p["changes"]} for p in plan]`, the changes in the order of their
-- keys as `json.dumps(..., sort_keys=True)` writes them.
unfoldable pub canonical_plan : List PlanItem → Dict String (Dict String Change)
canonical_plan [] = []
canonical_plan (p ∷ plan) = (p.arn, sort_by_key p.changes) ∷ canonical_plan plan

module _ {W Op : Type 0} (ctx : Context W Op) where
  -- `build_plan` on the live tags.
  unfoldable pub live_plan : Bool → List Target → W → Outcome (List PlanItem)
  live_plan overwrite targets w =
      elim (validate_targets (ctx.rt) (ctx.max_bulk_resources) targets) [
        | err e ↦ refused e.status_code e.error_code
        | ok merged ↦ elim (fetch_current_tags (ctx.api) (ctx.default_region) (keys merged) w) [
          | none ↦ crashed
          | some current ↦
              finished (
                map (plan_item (ctx.rt) (ctx.engine) (ctx.mandatory_tags) overwrite current) merged)
        ]
      ]

  unfoldable pub plan_token : List PlanItem → String
  unfolding canonical_plan
  plan_token plan = ctx.digest (sort_by_key (canonical_plan plan))

  unfoldable pub item_of : PlanItem → TagItem
  unfolding befores
  item_of p =
      let item : TagItem = record {
        arn = p.arn;
        before = befores p.changes;
        after = afters (ctx.rt) p.changes;
        skipped = p.skipped;
        removed = [];
        conflicts = [];
        result = success;
        error = none;
      } in
      if not (is_empty p.invalid)
      then record item { result = invalid; error = some (ctx.error_of p.invalid) }
      else if is_empty p.changes
      then record item { result = no_change }
      else item

  -- The calls for the items whose result is SUCCESS so far.
  unfoldable pub to_tag : List TagItem → List (String × Tags)
  to_tag [] = []
  to_tag (it ∷ items) = elim (it.result) [
    | success ↦ (it.arn, it.after) ∷ to_tag items
    | _ ↦ to_tag items
  ]

  -- The marks that `_run_tagging` leaves on the items that it was given.
  unfoldable pub mark_failures : Dict String (Option String) → List TagItem → List (Item Op)
  mark_failures errors [] = []
  mark_failures errors (it ∷ items) =
      tags_item (elim (it.result) [
        | success ↦ elim (Dict.get errors it.arn) [
          | none ↦ it
          | some error ↦ record it { result = failed; error = error }
        ]
        | _ ↦ it
      ])
      ∷ mark_failures errors items

  handler_of : Op → Option (OpHandler W Op)
  handler_of op = elim (ctx.ops.name op) [
    | none ↦ none
    | some name ↦ Dict.get (ctx.ops.handlers) name
  ]

  -- One special op, by the function that `pick` takes from its handler.
  unfoldable pub run_op :
      (OpHandler W Op → Op → W → Option String × Op × W) → Op → World W → Item Op × World W
  unfolding handler_of
  run_op pick op w = elim (handler_of op) [
    | none ↦ (op_item op failed (some "Unknown op"), w)
    | some handler ↦
        let (error, op', aws') = pick handler op w.aws in
        let w' = record w { aws = aws' } in
        elim error [
          | none ↦ (op_item op' success none, w')
          | some e ↦ (op_item op' failed (some e), w')
        ]
  ]

  unfoldable pub run_ops :
      (OpHandler W Op → Op → W → Option String × Op × W)
      → List Op
      → World W
      → List (Item Op) × World W
  unfolding run_op
  run_ops pick [] w = ([], w)
  run_ops pick (op ∷ ops) w =
      let (i, w') = run_op pick op w in let (items, w'') = run_ops pick ops w' in (i ∷ items, w'')

  -- `build_plan(targets, overwrite) if targets else []`
  unfoldable pub plan_for : Bool → List Target → W → Outcome (List PlanItem)
  plan_for overwrite [] w = finished []
  plan_for overwrite (t ∷ targets) w = live_plan overwrite (t ∷ targets) w

  -- `preview_token and plan_token(plan) != preview_token`
  unfoldable pub is_stale : Option String → List PlanItem → Bool
  is_stale none plan = false
  is_stale (some token) plan = not (token == "") && not (plan_token plan == token)

  -- From the accepted plan on. `cs_id` is the new id of `_record`.
  unfoldable pub apply_plan :
      String
      → ℕ
      → List PlanItem
      → String
      → String
      → String
      → List Op
      → Site W Op
      → ChangeSet Op × Site W Op
  apply_plan cs_id now plan actor kind description ops site =
      let items = map item_of plan in
      let (errors, w') =
        set_all (ctx.api) (ctx.default_region) (ctx.schema) now (to_tag items) site.world in
      let (op_items, w'') = run_ops (λ h. h.apply_fn) ops w' in
      record_change_set (ctx.ops) (ctx.upper) cs_id now (ctx.retention) kind description actor
        (mark_failures errors items ++ op_items) none (record site { world = w'' })

  unfoldable pub apply :
      String
      → ℕ
      → List Target
      → Bool
      → String
      → String
      → String
      → Option String
      → List Op
      → Site W Op
      → Outcome (ChangeSet Op) × Site W Op
  unfolding plan_for apply_plan is_stale
  apply cs_id now targets overwrite actor kind description preview_token ops site =
      elim (plan_for overwrite targets site.world.aws) [
        | refused status code ↦ (refused status code, site)
        | crashed ↦ (crashed, site)
        | finished plan ↦
            let (cs, site') = apply_plan cs_id now plan actor kind description ops site in
            if is_stale preview_token plan
            then (refused 409 "PLAN_CHANGED", site)
            else (finished cs, site')
      ]

  -- `preview`: the plan, its summary and its token.
  unfoldable pub preview : Bool → List Target → W → Outcome (List PlanItem × (Summary × String))
  preview overwrite targets w = elim (live_plan overwrite targets w) [
    | refused status code ↦ refused status code
    | crashed ↦ crashed
    | finished plan ↦ finished (plan, (plan_summary plan, plan_token plan))
  ]
