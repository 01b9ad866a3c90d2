-- ===== src/Protected/Event.antt =====
-- Tag change events and how they compare with a baseline: `handle_tag_change_event` in
-- src/protected_tags.py, its data and its pure parts.
use aws_tagging_utils.Base.{String, ◌<>◌, Option, none, some, List, []}
use aws_tagging_utils.Base.{◌∷◌, ◌==◌, string_eq, option_eq, if◌then◌else◌, get_elem?}
use aws_tagging_utils.Base.Dict
use aws_tagging_utils.Base.Dict.{Dict, keys}
use aws_tagging_utils.Base.Text.{split, strip_char}
use aws_tagging_utils.Governance.Models.{Tags}
use aws_tagging_utils.State.{Store}
use aws_tagging_utils.Services.{Failure, Reply}
use aws_tagging_utils.Protected.{DriftMode, revert}

-- An EventBridge event; a field that is `none` is missing or null.
pub record Event : Type 0 where
  pub resources : List String
  pub changed_tag_keys : List String
  pub tags : Tags
  pub account : Option String
  pub region : Option String
  pub service : String
  pub resource_type : String

pub record Drift : Type 0 where
  pub expected : String
  pub actual : Option String

pub data Outcome : Type 0 where
  no_drift exempt detected reverted revert_failed : Outcome

-- A line of the audit log: action, account, region, resource, its type, result, drift.
pub record DriftEntry : Type 0 where
  pub action : String
  pub account : String
  pub region : String
  pub resource : String
  pub resource_type : String
  pub result : Outcome
  pub drift : Dict String Drift

-- What an event changes: AWS, the baselines, the audit log, the notifications.
pub record DriftWorld (W : Type 0) : Type 0 where
  pub aws : W
  pub store : Store
  pub log : List DriftEntry
  pub notices : List String

pub record Report : Type 0 where
  pub arn : String
  pub drift : Dict String Drift
  pub learned : List String
  pub status : Outcome
  pub error : Option String

pub data Answer : Type 0 where
  disabled invalid_event : Answer
  no_protected_change : String → Answer
  evaluated : Report → Answer

-- `session_for(account)`, `get_tagging_client(region, session)` and its `tag_resources` on one
-- ARN: raises, or returns the failed resources.
pub record RevertApi (W : Type 0) : Type 0 where
  pub tag_resource : Option String → String → String → Tags → W → Reply × W

-- `x or default`
unfoldable pub or_else : Option String → Option String → Option String
or_else none other = other
or_else (some s) other = if s == "" then other else some s

unfoldable pub text_or : Option String → String → String
text_or none other = other
text_or (some s) other = if s == "" then other else s

unfoldable pub event_account : Event → String → Option String
unfolding or_else
event_account event arn = or_else event.account (get_elem? (split b':' arn) 4)

unfoldable pub event_region : Event → String → String
unfolding text_or
event_region event arn = text_or event.region (text_or (get_elem? (split b':' arn) 3) "us-east-1")

unfoldable pub event_resource_type : Event → String
event_resource_type event = strip_char b':' (event.service <> (":" <> event.resource_type))

-- `{k: current[k] for k in changed if k not in baseline and k in current}`
unfoldable pub learned_tags : Tags → Tags → List String → Tags
learned_tags baseline current [] = []
learned_tags baseline current (k ∷ changed) =
    let rest = learned_tags baseline current changed in
    elim (Dict.get baseline k) [
      | some v ↦ rest
      | none ↦ elim (Dict.get current k) [ none ↦ rest | some w ↦ (k, w) ∷ rest ]
    ]

-- `{k: {"expected": baseline[k], "actual": current.get(k)} for k in changed if ...}`
unfoldable pub drifted : Tags → Tags → List String → Dict String Drift
drifted baseline current [] = []
drifted baseline current (k ∷ changed) =
    let rest = drifted baseline current changed in
    elim (Dict.get baseline k) [
      | none ↦ rest
      | some v ↦
          if Dict.get current k == some v
          then rest
          else (k, record { expected = v; actual = Dict.get current k }) ∷ rest
    ]

-- `{k: d["expected"] for k, d in drift.items()}`
unfoldable pub expected_tags : Dict String Drift → Tags
expected_tags [] = []
expected_tags ((k, d) ∷ drift) = (k, d.expected) ∷ expected_tags drift

-- `for k, d in drift.items()`: the actual value, or none.
unfoldable pub accept : Dict String Drift → Tags → Tags
accept [] baseline = baseline
accept ((k, d) ∷ drift) baseline =
    accept drift
      (elim d.actual [ none ↦ Dict.erase baseline k | some v ↦ Dict.insert baseline k v ])

-- `failed.get("ErrorMessage") or failed.get("ErrorCode") or "TagResources failed"`
unfoldable pub failure_text : Failure → String
unfolding text_or
failure_text failed = text_or failed.error_message (text_or failed.error_code "TagResources failed")

unfoldable pub action_of : DriftMode → String
action_of revert = "REVERT"
action_of _ = "DETECT"

unfoldable pub verb_of : Outcome → String
verb_of reverted = "were reverted"
verb_of revert_failed = "could NOT be reverted"
verb_of _ = "changed outside the app"

unfoldable pub account_text : Option String → String
account_text none = ""
account_text (some account) = account
