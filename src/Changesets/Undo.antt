-- ===== src/Changesets/Undo.antt =====
-- `undo` of src/changesets.py.
pub mod Once
pub mod Safe
pub mod Steps
use mathlib.Core.List.{map}
use aws_tagging_utils.Base.{
  ℕ, String, ◌<>◌, Bool, true, false, not, ◌&&◌, Option, none, some, List, [], ◌∷◌, ◌++◌,
}
use aws_tagging_utils.Base.{◌==◌, string_eq, option_eq, if◌then◌else◌, is_empty}
use aws_tagging_utils.Base.Dict
use aws_tagging_utils.Base.Dict.{Dict, keys}
use aws_tagging_utils.Base.Text.{sorted}
use aws_tagging_utils.Governance.Models.{Tags}
use aws_tagging_utils.Services.{World}
use aws_tagging_utils.Changesets.{tags_of}
use aws_tagging_utils.Changesets.Log.{
  success, failed, no_change, conflict, Conflict, TagItem, Item, tags_item, op_item, ChangeSet,
  Site, Outcome, finished, refused, crashed, get_change_set, record_change_set,
}
use aws_tagging_utils.Changesets.Tagging.{fetch_current_tags, set_all, remove_all}
use aws_tagging_utils.Changesets.Apply.{Context, run_ops}

-- `restore`, `remove` and `conflicts` of the loop over one item.
pub record Reversal : Type 0 where
  pub restore : Tags
  pub remove : List String
  pub conflicts : Dict String Conflict

-- `it["before"].get(k)`
unfoldable pub before_of : Dict String (Option String) → String → Option String
before_of before k = elim (Dict.get before k) [ none ↦ none | some v ↦ v ]

-- The loop over `it["after"].items()`, the first argument.
unfoldable pub reverse_item : Tags → Dict String (Option String) → Tags → Reversal
unfolding before_of
reverse_item [] before cur = record { restore = []; remove = []; conflicts = [] }
reverse_item ((k, written) ∷ after) before cur =
    let rest = reverse_item after before cur in
    if not (Dict.get cur k == some written)
    then record rest {
      conflicts = (k, record { written = written; current = Dict.get cur k }) ∷ rest.conflicts;
    }
    else (elim (before_of before k) [
      | none ↦ record rest { remove = k ∷ rest.remove }
      | some v ↦ record rest { restore = (k, v) ∷ rest.restore }
    ])

-- The items that were set: `i.get("op") == "tags" and i.get("result") == "SUCCESS"`
unfoldable pub tag_items : {Op : Type 0} → List (Item Op) → List TagItem
tag_items [] = []
tag_items (tags_item it ∷ items) = elim (it.result) [
  | success ↦ it ∷ tag_items items
  | _ ↦ tag_items items
]
tag_items (op_item op result error ∷ items) = tag_items items

-- The special ops that succeeded; none is registered under the name "tags".
unfoldable pub done_ops : {Op : Type 0} → List (Item Op) → List Op
done_ops [] = []
done_ops (tags_item it ∷ items) = done_ops items
done_ops (op_item op result error ∷ items) = elim result [
  | success ↦ op ∷ done_ops items
  | _ ↦ done_ops items
]

-- An item with its current tags and what is to be done.
pub record UndoStep : Type 0 where
  pub arn : String
  pub cur : Tags
  pub reversal : Reversal

unfoldable pub step_of : Dict String Tags → TagItem → UndoStep
unfolding tags_of
step_of current it =
    let cur = tags_of (Dict.get current it.arn) in
    record { arn = it.arn; cur = cur; reversal = reverse_item it.after it.before cur }

unfoldable pub set_calls : List UndoStep → List (String × Tags)
set_calls [] = []
set_calls (s ∷ steps) =
    let rest = set_calls steps in
    if is_empty s.reversal.restore then rest else (s.arn, s.reversal.restore) ∷ rest

unfoldable pub remove_calls : List UndoStep → List (String × List String)
remove_calls [] = []
remove_calls (s ∷ steps) =
    let rest = remove_calls steps in
    if is_empty s.reversal.remove then rest else (s.arn, sorted s.reversal.remove) ∷ rest

-- `{k: cur.get(k) for k in list(restore) + remove}`
unfoldable pub currents : Tags → List String → Dict String (Option String)
currents cur [] = []
currents cur (k ∷ ks) = (k, Dict.get cur k) ∷ currents cur ks

unfoldable pub undo_item : UndoStep → TagItem
unfolding currents
undo_item s =
    let r = s.reversal in
    record {
      arn = s.arn;
      before = currents s.cur (keys r.restore ++ r.remove);
      after = r.restore;
      skipped = [];
      removed = sorted r.remove;
      conflicts = r.conflicts;
      result =
          if not (is_empty r.restore && is_empty r.remove)
          then success
          else if not (is_empty r.conflicts)
          then conflict
          else no_change;
      error = none;
    }

-- `if item["arn"] in errors: item.update(result="FAILED", error=...)`
unfoldable pub finish_item : {Op : Type 0} → Dict String (Option String) → UndoStep → Item Op
unfolding undo_item
finish_item errors s = tags_item (elim (Dict.get errors s.arn) [
  | none ↦ undo_item s
  | some error ↦ record (undo_item s) { result = failed; error = error }
])

module _ {W Op : Type 0} (ctx : Context W Op) where
  -- `fetch_current_tags(...) if tag_items else {}`
  unfoldable pub current_of : List TagItem → W → Option (Dict String Tags)
  current_of [] w = some []
  current_of (it ∷ items) w =
      fetch_current_tags (ctx.api) (ctx.default_region) (map (λ i. i.arn) (it ∷ items)) w

  -- The two rounds of calls, with the failures of both.
  unfoldable pub run_steps : ℕ → List UndoStep → World W → Dict String (Option String) × World W
  unfolding set_calls remove_calls
  run_steps now steps w =
      let (failed_set, w') =
        set_all (ctx.api) (ctx.default_region) (ctx.schema) now (set_calls steps) w in
      let (failed_remove, w'') =
        remove_all (ctx.api) (ctx.default_region) (ctx.schema) now (remove_calls steps) w' in
      (Dict.update failed_set failed_remove, w'')

  -- From the current tags on. `new_id` is the new id of `_record`.
  unfoldable pub undo_from :
      String
      → ℕ
      → String
      → String
      → List (Item Op)
      → Dict String Tags
      → Site W Op
      → ChangeSet Op × Site W Op
  unfolding run_steps tag_items done_ops step_of finish_item
  undo_from new_id now cs_id actor items current site =
      let steps = map (step_of current) (tag_items items) in
      let (errors, w') = run_steps now steps site.world in
      let (op_items, w'') = run_ops ctx (λ h. h.undo_fn) (done_ops items) w' in
      record_change_set (ctx.ops) (ctx.upper) new_id now (ctx.retention) "undo"
        ("Undo of " <> cs_id) actor (map (finish_item errors) steps ++ op_items) (some cs_id)
        (record site { world = w'' })

  unfoldable pub undo :
      String → ℕ → String → String → Site W Op → Outcome (ChangeSet Op) × Site W Op
  unfolding undo_from current_of
  undo new_id now cs_id actor site = elim (get_change_set site cs_id) [
    | none ↦ (refused 404 "NOT_FOUND", site)
    | some cs ↦ elim (cs.undone_by) [
      | some by ↦ (refused 409 "ALREADY_UNDONE", site)
      | none ↦ elim (cs.undo_of) [
        | some original ↦ (refused 409 "NOT_UNDOABLE", site)
        | none ↦ elim (current_of (tag_items cs.items) site.world.aws) [
          | none ↦ (crashed, site)
          | some current ↦
              let (undone, site') = undo_from new_id now cs_id actor cs.items current site in
              (finished undone, site')
        ]
      ]
    ]
  ]
