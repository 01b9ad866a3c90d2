-- ===== src/State.antt =====
-- The governance state store, src/governance/state.py: `MemoryStateStore`. The prefixes RES#,
-- EXEMPTION# and ACTION# keep three families of keys apart in its one dict; the model has a dict
-- for each. Times are numbers, and the ISO texts of the code order as they do. An item that the
-- code creates has all the fields that are no `Option` here.
pub mod Claims
pub mod Dynamo
pub mod Leases
pub mod Steps
use aws_tagging_utils.Base.{ℕ, ◌+◌, String, Bool, true, false, ◌||◌, ◌&&◌, Option, none, some}
use aws_tagging_utils.Base.{List, [], ◌∷◌, Eq, ◌==◌, contains, string_eq, if◌then◌else◌, ltb}
use aws_tagging_utils.Base.Dict
use aws_tagging_utils.Base.Dict.{Dict}
use aws_tagging_utils.Governance.Models.{Tags}

pub record ResourceState : Type 0 where
  pub resource_id : String
  pub protected_tags : Tags
  pub protected_updated_by : String
  pub protected_source : String
  pub protected_updated_at : ℕ

pub record Exemption : Type 0 where
  pub id : String
  pub status : String
  pub created_by : String
  pub created_at : ℕ
  pub updated_at : Option ℕ
  pub resource_id : Option String
  pub resource_type : Option String
  pub environment : Option String
  pub account_id : Option String
  pub expires_at : Option String
  pub reason : Option String

pub data Status : Type 0 where
  pending in_progress completed failed failed_retryable skipped_exempt : Status

Status-discrete : Discrete Status
Status-discrete = hlevel

instance unfoldable pub status_eq : Eq Status
unfolding Status-discrete
status_eq = record { dec = Status-discrete }

pub record Action : Type 0 where
  pub action_id : String
  pub idempotency_key : String
  pub resource_arn : String
  pub resource_type : String
  pub account_id : String
  pub requested_tags : Tags
  pub actor : String
  pub status : Status
  pub attempt_count : ℕ
  pub request_fingerprint : String
  pub created_at : ℕ
  pub updated_at : ℕ
  pub request_id : String
  pub exemption_id : Option String
  pub last_attempt_at : Option ℕ
  pub last_error_code : Option String
  pub worker_id : Option String
  pub claimed_at : Option ℕ
  pub lease_until : Option ℕ

pub record Store : Type 0 where
  pub resources : Dict String ResourceState
  pub exemptions : Dict String Exemption
  pub actions : Dict String Action

-- What the store holds besides the states of resources.
abbrev pub apart : Store → Dict String Action × Dict String Exemption
apart s = (s.actions, s.exemptions)

abbrev pub empty_store : Store
empty_store = record { resources = []; exemptions = []; actions = [] }

unfoldable pub get_resource_state : Store → String → Option ResourceState
get_resource_state s resource_id = Dict.get s.resources resource_id

unfoldable pub put_resource_state : Store → ResourceState → Store
put_resource_state s state = record s {
  resources = Dict.insert s.resources state.resource_id state;
}

abbrev pub values {ℓ} : {V : Type ℓ} → Dict String V → List V
values [] = []
values ((k, v) ∷ d) = v ∷ values d

unfoldable pub list_exemptions : Store → List Exemption
list_exemptions s = values s.exemptions

unfoldable pub get_exemption : Store → String → Option Exemption
get_exemption s exemption_id = Dict.get s.exemptions exemption_id

unfoldable pub put_exemption : Store → Exemption → Store
put_exemption s exemption = record s {
  exemptions = Dict.insert s.exemptions exemption.id exemption;
}

unfoldable pub delete_exemption : Store → String → Store
delete_exemption s exemption_id = record s { exemptions = Dict.erase s.exemptions exemption_id }

unfoldable pub get_remediation_action : Store → String → Option Action
get_remediation_action s action_id = Dict.get s.actions action_id

put_action : Store → Action → Store
put_action s a = record s { actions = Dict.insert s.actions a.action_id a }

-- The answer is `False` if there is an action of that id.
unfoldable pub create_remediation_action : Store → Action → Store × Bool
unfolding put_action
create_remediation_action s a = elim (Dict.get s.actions a.action_id) [
  | some old ↦ (s, false)
  | none ↦ (put_action s a, true)
]

-- `if worker_id`
unfoldable pub is_named : Option String → Bool
is_named none = false
is_named (some worker_id) = if worker_id == "" then false else true

-- `lease_until and lease_until < now`
unfoldable pub lease_expired : Option ℕ → ℕ → Bool
lease_expired none now = false
lease_expired (some lease_until) now = ltb lease_until now

unfoldable pub can_claim : Action → List Status → Option String → ℕ → Bool
unfolding is_named lease_expired
can_claim item current_statuses worker_id now =
    contains current_statuses item.status
    || (is_named worker_id && item.status == in_progress && lease_expired item.lease_until now)

-- The item after a claim. Only a worker with a name takes a lease.
unfoldable pub claimed_item : Action → Option String → ℕ → ℕ → Action
unfolding is_named
claimed_item item worker_id lease_duration now =
    let taken = record item {
      status = in_progress;
      attempt_count = item.attempt_count + 1;
      updated_at = now;
    } in
    if is_named worker_id
    then record taken {
      worker_id = worker_id;
      claimed_at = some now;
      lease_until = some (now + lease_duration);
    }
    else taken

-- The item stands under its own key: it is written back to where it was found.
unfoldable pub claim_remediation_action :
    Store → String → List Status → ℕ → Option String → ℕ → ℕ → Store × Bool
unfolding can_claim claimed_item
claim_remediation_action s action_id current_statuses max_attempts worker_id lease_duration now =
    elim (Dict.get s.actions action_id) [
      | none ↦ (s, false)
      | some item ↦
          if can_claim item current_statuses worker_id now && ltb item.attempt_count max_attempts
          then (
            record s {
              actions =
                  Dict.insert s.actions action_id (claimed_item item worker_id lease_duration now);
            },
            true,
          )
          else (s, false)
    ]

-- The fields that the engine updates; a field that is `none` is not in the update.
pub record Updates : Type 0 where
  pub status : Option Status
  pub last_attempt_at : Option ℕ
  pub last_error_code : Option String

abbrev override {ℓ} : {A : Type ℓ} → Option A → A → A
override none old = old
override (some new) old = new

abbrev override? {ℓ} : {A : Type ℓ} → Option A → Option A → Option A
override? none old = old
override? (some new) old = some new

unfoldable pub updated_item : Action → Updates → ℕ → Action
updated_item item updates now = record item {
  status = override updates.status item.status;
  last_attempt_at = override? updates.last_attempt_at item.last_attempt_at;
  last_error_code = override? updates.last_error_code item.last_error_code;
  updated_at = now;
}

-- `new_status in ("COMPLETED", "FAILED", "FAILED_RETRYABLE")`
unfoldable pub is_outcome : Status → Bool
is_outcome completed = true
is_outcome failed = true
is_outcome failed_retryable = true
is_outcome _ = false

-- The guard on the transition: out of IN_PROGRESS only into an outcome.
unfoldable pub refused_transition : Option Status → Option Status → Bool
unfolding is_outcome
refused_transition none expected = false
refused_transition (some new_status) none = false
refused_transition (some new_status) (some expected) =
    expected == in_progress && (if is_outcome new_status then false else true)

-- `expected_status and item.get("status") != expected_status`
unfoldable pub unexpected_status : Action → Option Status → Bool
unexpected_status item none = false
unexpected_status item (some expected) = if item.status == expected then false else true

unfoldable pub update_remediation_action :
    Store → String → Updates → Option Status → ℕ → Store × Bool
unfolding refused_transition unexpected_status updated_item
update_remediation_action s action_id updates expected_status now =
    if refused_transition updates.status expected_status
    then (s, false)
    else elim (Dict.get s.actions action_id) [
      | none ↦ (s, false)
      | some item ↦ if unexpected_status item expected_status then (s, false) else (
        record s { actions = Dict.insert s.actions action_id (updated_item item updates now) },
        true,
      )
    ]
