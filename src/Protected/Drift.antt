-- ===== src/Protected/Drift.antt =====
-- `handle_tag_change_event`: src/protected_tags.py.
pub mod Settled
pub mod Kept
use aws_tagging_utils.Base.{ℕ, String, ◌<>◌, Bool, true, false, Option, none, some, List, []}
use aws_tagging_utils.Base.{◌∷◌, ◌++◌, ◌||◌, ◌==◌, string_eq, if◌then◌else◌, is_empty}
use aws_tagging_utils.Base.Dict
use aws_tagging_utils.Base.Dict.{Dict, keys}
use aws_tagging_utils.Base.Text.{sorted_set, join}
use aws_tagging_utils.Governance.Models.{Schema, Tags}
use aws_tagging_utils.State.{Store, Exemption}
use aws_tagging_utils.Exemptions.{Calendar, is_exempt}
use aws_tagging_utils.Services.{Failure, Reply, raised, returned}
use aws_tagging_utils.Protected.{DriftMode, off, detect, revert, exact, get_baseline, put_baseline}
use aws_tagging_utils.Protected.Event.{
  Event, Drift, Outcome, no_drift, exempt, detected, reverted, revert_failed, DriftEntry,
  DriftWorld, Report, Answer, disabled, invalid_event, no_protected_change, evaluated, RevertApi,
  event_account, event_region, event_resource_type, learned_tags, drifted, expected_tags, accept,
  failure_text, action_of, verb_of, account_text,
}

abbrev is_there : Option String → Bool
is_there none = false
is_there (some s) = true

module _ (schema : Schema) {W : Type 0} (api : RevertApi W) where
  -- The store after the keys that have no baseline are learned.
  unfoldable pub learn : String → Tags → Tags → ℕ → Store → Store
  learn arn learned baseline now store =
      if is_empty learned
      then store
      else put_baseline store arn (Dict.update baseline learned) "drift-detector" "first-seen" now

  -- `if failed`: an entry without a code and a message is an empty dict, and no failure.
  revert_error : Option Failure → Option String
  unfolding failure_text
  revert_error none = none
  revert_error (some failure) =
      if is_there failure.error_code || is_there failure.error_message
      then some (failure_text failure)
      else none

  -- `_revert`: `none`, or the text of what it raises.
  unfoldable pub revert_tags : String → Option String → String → Tags → W → Option String × W
  unfolding revert_error
  revert_tags arn account region values aws =
      let (reply, aws') = api.tag_resource account region arn values aws in
      elim reply [
        | raised message ↦ (some message, aws')
        | returned failed ↦ (revert_error (Dict.get failed arn), aws')
      ]

  -- The exemption, if there is an exemption manager.
  unfoldable pub exemption_for : Option Calendar → Store → ℕ → Event → String → Option Exemption
  unfolding account_text
  exemption_for none store now event arn = none
  exemption_for (some cal) store now event arn =
      is_exempt cal store now (account_text (event_account event arn)) (event_resource_type event)
        arn (Dict.get event.tags "Environment")

  drift_entry : String → Event → String → Dict String Drift → Outcome → DriftEntry
  unfolding account_text
  drift_entry action event arn drift result = record {
    action = action;
    account = account_text (event_account event arn);
    region = event_region event arn;
    resource = arn;
    resource_type = event_resource_type event;
    result = result;
    drift = drift;
  }

  -- The exempt branch: the change is accepted into the baseline.
  unfoldable pub accept_exempt :
      Exemption → Event → String → Dict String Drift → Tags → ℕ → DriftWorld W → DriftWorld W
  unfolding drift_entry
  accept_exempt ex event arn drift baseline now w = record w {
    store =
        put_baseline w.store arn (accept drift baseline) "drift-detector" ("exemption:" <> ex.id)
          now;
    log = w.log ++ (drift_entry "ACCEPT_EXEMPT" event arn drift exempt ∷ []);
  }

  -- The outcome, the error and AWS after the reaction to a drift.
  unfoldable pub react :
      DriftMode → Event → String → Dict String Drift → W → (Outcome × Option String) × W
  react revert event arn drift aws =
      let (error, aws') =
        revert_tags arn (event_account event arn) (event_region event arn) (expected_tags drift)
          aws in
      elim error [ none ↦ ((reverted, none), aws') | some e ↦ ((revert_failed, some e), aws') ]
  react _ event arn drift aws = ((detected, none), aws)

  -- The audit line and, with a notifier, the notification.
  unfoldable pub announce :
      DriftMode → Bool → Event → String → Dict String Drift → Outcome → DriftWorld W → DriftWorld W
  unfolding drift_entry action_of verb_of
  announce mode notifier event arn drift outcome w =
      let message =
        "Protected tags "
        <> (join ", " (keys drift) <> (" on " <> (arn <> (" " <> verb_of outcome)))) in
      record w {
        log = w.log ++ (drift_entry (action_of mode) event arn drift outcome ∷ []);
        notices = if notifier then w.notices ++ (message ∷ []) else w.notices;
      }

  -- From the drift on: exempt, or a reaction that is announced.
  unfoldable pub respond :
      DriftMode
      → Option Exemption
      → Bool
      → Event
      → String
      → Dict String Drift
      → Tags
      → ℕ
      → DriftWorld W
      → (Outcome × Option String) × DriftWorld W
  respond mode (some ex) notifier event arn drift baseline now w =
      ((exempt, none), accept_exempt ex event arn drift baseline now w)
  respond mode none notifier event arn drift baseline now w =
      let (outcome, aws') = react mode event arn drift w.aws in
      (outcome, announce mode notifier event arn drift outcome.0 (record w { aws = aws' }))

  -- The report, until there is a drift to respond to.
  report_of : String → Dict String Drift → Tags → Report
  report_of arn drift learned = record {
    arn = arn;
    drift = drift;
    learned = sorted_set (keys learned);
    status = no_drift;
    error = none;
  }

  -- From the baseline on, for an event that changed protected keys.
  unfoldable pub evaluate_change :
      DriftMode
      → Option Calendar
      → Bool
      → Event
      → String
      → List String
      → ℕ
      → DriftWorld W
      → Report × DriftWorld W
  unfolding learn respond exemption_for report_of
  evaluate_change mode exemption_manager notifier event arn changed now w =
      let baseline = get_baseline w.store arn in
      let learned = learned_tags baseline event.tags changed in
      let drift = drifted baseline event.tags (sorted_set changed) in
      let w' = record w { store = learn arn learned baseline now w.store } in
      let ((status, error), w'') =
        respond mode (exemption_for exemption_manager w'.store now event arn) notifier event arn
          drift (Dict.update baseline learned) now w' in
      let report = report_of arn drift learned in
      if is_empty drift
      then (report, w')
      else (record report { status = status; error = error }, w'')

  -- From the ARN on.
  unfoldable pub handle_change :
      DriftMode → Option Calendar → Bool → Event → String → ℕ → DriftWorld W → Answer × DriftWorld W
  unfolding evaluate_change
  handle_change mode exemption_manager notifier event arn now w =
      let changed = exact schema event.changed_tag_keys in
      let (report, w') = evaluate_change mode exemption_manager notifier event arn changed now w in
      if arn == ""
      then (invalid_event, w)
      else if is_empty changed
      then (no_protected_change arn, w)
      else (evaluated report, w')

  unfoldable pub handle_tag_change_event :
      DriftMode → Option Calendar → Bool → Event → ℕ → DriftWorld W → Answer × DriftWorld W
  handle_tag_change_event off exemption_manager notifier event now w = (disabled, w)
  handle_tag_change_event mode exemption_manager notifier event now w = elim event.resources [
    | [] ↦ (invalid_event, w)
    | arn ∷ rest ↦ handle_change mode exemption_manager notifier event arn now w
  ]
