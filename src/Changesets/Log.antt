-- ===== src/Changesets/Log.antt =====
-- The change sets that are kept: `_status`, `_summary`, `_record` and `get_change_set` of
-- src/changesets.py. A row's `undo_of` and `undone_by` are ids "cs-...", so that the code's tests
-- of their truth ask whether there is one.
pub mod Rows
use mathlib.Core.List.{map}
use aws_tagging_utils.Base.{
  ℕ, ◌+◌, ◌-◌, String, ◌<>◌, Bool, true, false, not, ◌||◌, Option, none, some, List, [], ◌∷◌, ◌++◌,
}
use aws_tagging_utils.Base.{◌==◌, string_eq, nat_eq, if◌then◌else◌, is_empty, keep, length, ltb}
use aws_tagging_utils.Base.Dict
use aws_tagging_utils.Base.Dict.{Dict}
use aws_tagging_utils.Governance.Models.{Tags}
use aws_tagging_utils.Changesets.{Skipped}
use aws_tagging_utils.Services.{World, AuditEntry, log_audit}

pub data ItemResult : Type 0 where
  success failed invalid no_change conflict : ItemResult

-- `{"written": written, "current": cur.get(k)}`
pub record Conflict : Type 0 where
  pub written : String
  pub current : Option String

-- An item of the op "tags". A field that the code leaves out is empty.
pub record TagItem : Type 0 where
  pub arn : String
  pub before : Dict String (Option String)
  pub after : Tags
  pub skipped : Dict String Skipped
  pub removed : List String
  pub conflicts : Dict String Conflict
  pub result : ItemResult
  pub error : Option String

-- An item is one of the op "tags", or a special op with its result and error.
pub data Item (Op : Type 0) : Type 0 where
  tags_item : TagItem → Item Op
  op_item : Op → ItemResult → Option String → Item Op

-- What a special op is, registered by `register_op`. A handler may change its item and AWS, and
-- raises where it answers a text.
pub record OpHandler (W Op : Type 0) : Type 0 where
  pub apply_fn : Op → W → Option String × Op × W
  pub undo_fn : Op → W → Option String × Op × W

pub record Ops (W Op : Type 0) : Type 0 where
  pub handlers : Dict String (OpHandler W Op)
  -- `item.get("op")`, and `it.get("arn") or it.get("target")`
  pub name : Op → Option String
  pub target : Op → String

pub record ChangeSet (Op : Type 0) : Type 0 where
  pub id : String
  pub created_at : ℕ
  pub actor : String
  pub kind : String
  pub description : String
  pub status : String
  pub summary : Dict String ℕ
  pub items : List (Item Op)
  pub undo_of : Option String
  pub undone_by : Option String

-- All that change sets change: AWS, the baselines and the audit log, and their own table.
pub record Site (W Op : Type 0) : Type 0 where
  pub world : World W
  pub change_sets : List (ChangeSet Op)

-- `apply` or `undo` ends, raises an `APIError` of this status and code, or lets another exception
-- pass.
pub data Outcome {ℓ} (A : Type ℓ) : Type ℓ where
  finished : A → Outcome A
  refused : ℕ → String → Outcome A
  crashed : Outcome A

unfoldable pub result_text : ItemResult → String
result_text success = "SUCCESS"
result_text failed = "FAILED"
result_text invalid = "INVALID"
result_text no_change = "NO_CHANGE"
result_text conflict = "CONFLICT"

add_one : Option ℕ → ℕ
add_one none = 1
add_one (some n) = n + 1

module _ {Op : Type 0} where
  unfoldable pub result_of : Item Op → ItemResult
  result_of (tags_item it) = it.result
  result_of (op_item op result error) = result

  unfoldable pub count_ok : List (Item Op) → ℕ
  unfolding result_of
  count_ok [] = 0
  count_ok (i ∷ items) = (elim (result_of i) [ success ↦ 1 | _ ↦ 0 ]) + count_ok items

  unfoldable pub count_done : List (Item Op) → ℕ
  unfolding result_of
  count_done [] = 0
  count_done (i ∷ items) =
      (elim (result_of i) [ success ↦ 1 | failed ↦ 1 | _ ↦ 0 ]) + count_done items

  -- `_status`
  unfoldable pub status_of : List (Item Op) → String
  unfolding count_ok count_done
  status_of items =
      let done = count_done items in
      let ok = count_ok items in
      if done == 0
      then "NO_CHANGE"
      else if ok == done
      then "APPLIED"
      else if ok == 0
      then "FAILED"
      else "PARTIAL"

  unfoldable pub count_results : List (Item Op) → Dict String ℕ → Dict String ℕ
  unfolding result_of result_text add_one
  count_results [] out = out
  count_results (i ∷ items) out =
      let r = result_text (result_of i) in
      count_results items (Dict.insert out r (add_one (Dict.get out r)))

  -- `_summary`
  unfoldable pub summary_of : List (Item Op) → Dict String ℕ
  unfolding count_results
  summary_of items = Dict.insert (count_results items []) "total" (length items)

  -- `i.get("result") in ("CONFLICT", "FAILED") or i.get("conflicts")`
  unfoldable pub is_unclean : Item Op → Bool
  is_unclean (tags_item it) =
      (elim (it.result) [ conflict ↦ true | failed ↦ true | _ ↦ false ])
      || not (is_empty it.conflicts)
  is_unclean (op_item op result error) = elim result [ conflict ↦ true | failed ↦ true | _ ↦ false ]

  unfoldable pub any_unclean : List (Item Op) → Bool
  unfolding is_unclean
  any_unclean [] = false
  any_unclean (i ∷ items) = is_unclean i || any_unclean items

  -- `UPDATE change_sets SET undone_by_changeset = ?, status = ? WHERE id = ?`
  unfoldable pub mark_undone : String → String → String → List (ChangeSet Op) → List (ChangeSet Op)
  mark_undone cs_id status original [] = []
  mark_undone cs_id status original (row ∷ rows) =
      (if row.id == original then record row { undone_by = some cs_id; status = status } else row)
      ∷ mark_undone cs_id status original rows

  unfoldable pub mark_original :
      String → List (Item Op) → Option String → List (ChangeSet Op) → List (ChangeSet Op)
  unfolding mark_undone any_unclean
  mark_original cs_id items none rows = rows
  mark_original cs_id items (some original) rows =
      mark_undone cs_id (if any_unclean items then "UNDO_PARTIAL" else "UNDONE") original rows

  -- `DELETE FROM change_sets WHERE created_at < ?`
  unfoldable pub drop_expired : ℕ → List (ChangeSet Op) → List (ChangeSet Op)
  drop_expired cutoff rows = keep (λ row. not (ltb row.created_at cutoff)) rows

  -- `SELECT * FROM change_sets WHERE id = ?`
  unfoldable pub find_row : List (ChangeSet Op) → String → Option (ChangeSet Op)
  find_row [] cs_id = none
  find_row (row ∷ rows) cs_id = if row.id == cs_id then some row else find_row rows cs_id

module _ {W Op : Type 0} where
  unfoldable pub get_change_set : Site W Op → String → Option (ChangeSet Op)
  unfolding find_row
  get_change_set site cs_id = find_row site.change_sets cs_id

  module _ (ops : Ops W Op) (upper : String → String) where
    resource_of : Item Op → String
    resource_of (tags_item it) = it.arn
    resource_of (op_item op result error) = ops.target op

    unfoldable pub audit_item : String → String → Item Op → World W → World W
    unfolding result_of result_text resource_of
    audit_item actor action i w = elim (result_of i) [
      | success ↦
          log_audit
            (record {
              actor = actor;
              action = action;
              resource = resource_of i;
              outcome = "SUCCESS";
              error_code = none;
            })
            w
      | failed ↦
          log_audit
            (record {
              actor = actor;
              action = action;
              resource = resource_of i;
              outcome = "FAILED";
              error_code = none;
            })
            w
      | _ ↦ w
    ]

    unfoldable pub audit_items : String → String → List (Item Op) → World W → World W
    unfolding audit_item
    audit_items actor action [] w = w
    audit_items actor action (i ∷ items) w =
        audit_items actor action items (audit_item actor action i w)

    audit_action : Option String → String → String
    audit_action none kind = "TAG_" <> upper kind
    audit_action (some original) kind = "TAG_UNDO"

    -- `_record`: `cs_id` is the new id, which no row has, and `retention` is
    -- CHANGESET_RETENTION_DAYS.
    unfoldable pub record_change_set :
        String
        → ℕ
        → ℕ
        → String
        → String
        → String
        → List (Item Op)
        → Option String
        → Site W Op
        → ChangeSet Op × Site W Op
    unfolding audit_items audit_action mark_original drop_expired status_of summary_of
    record_change_set cs_id now retention kind description actor items undo_of site =
        let row : ChangeSet Op = record {
          id = cs_id;
          created_at = now;
          actor = actor;
          kind = kind;
          description = description;
          status = status_of items;
          summary = summary_of items;
          items = items;
          undo_of = undo_of;
          undone_by = none;
        } in
        (
          row,
          record {
            world = audit_items actor (audit_action undo_of kind) items site.world;
            change_sets =
                drop_expired (now - retention)
                  (mark_original cs_id items undo_of (site.change_sets ++ (row ∷ [])));
          },
        )
