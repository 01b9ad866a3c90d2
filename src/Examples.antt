-- ===== src/Examples.antt =====
-- The data of the examples: a schema, a store and an AWS that throttles its first call.
pub mod Access
pub mod Changes
pub mod Created
pub mod Dynamo
pub mod Enforce
pub mod Engine
pub mod Events
pub mod Exempt
pub mod Listed
pub mod Plans
pub mod Queue
pub mod Remediate
pub mod Texts
pub mod Written
use aws_tagging_utils.Base.{
  ℕ, zero, suc, String, ◌==◌, string_eq, Bool, true, false, Option, none, some,
}
use aws_tagging_utils.Base.{List, [], ◌∷◌, if◌then◌else◌}
use aws_tagging_utils.Base.Dict.{Dict}
use aws_tagging_utils.Runtime.{Runtime}
use aws_tagging_utils.Governance.Models.{Schema, Tags, TagSchema}
use aws_tagging_utils.Exemptions.{Calendar, Datetime}
use aws_tagging_utils.State.{Store, Exemption, Action, Status, pending, empty_store}
use aws_tagging_utils.Services.{Failure, Reply, raised, returned, AwsApi, Faults, World, Config}

-- Case folding of the two keys used here, and patterns that match themselves.
abbrev pub runtime : Runtime
runtime = record {
  lower = λ s. if s == "Owner" then "owner" else s;
  re_match = λ pattern_ text. some (pattern_ == text);
}

-- A calendar that reads no date but the epoch.
abbrev pub calendar : Calendar
calendar = record {
  fromisoformat =
      λ s. if s == "1970-01-01" then some (record { instant = 0; offset = none }) else none;
  replace_z = λ s. s;
  isoformat = λ dt. "1970-01-01T00:00:00+00:00";
}

abbrev pub schema : Schema
schema =
    (
      "Owner",
      record {
        key = "Owner";
        required = true;
        protected = true;
        allowed_values = none;
        pattern_ = none;
        aliases = some ("team" ∷ []);
      },
    )
    ∷ (
      "Env",
      record {
        key = "Env";
        required = false;
        protected = false;
        allowed_values = some ("prod" ∷ "dev" ∷ []);
        pattern_ = none;
        aliases = none;
      },
    )
    ∷ []

abbrev pub tags : Tags
tags = ("owner", "ann") ∷ ("Env", "prod") ∷ []

abbrev pub config : Config
config = record {
  default_region = "us-east-1";
  tag_api_batch_size = 20;
  max_remediation_attempts = 3;
  strict_mode = true;
  unknown_tags = "warn";
  normalization = true;
  tag_schema = schema;
}

abbrev throttled : Failure
throttled = record { error_code = some "Throttling"; error_message = none }

-- AWS, after so many calls: the first is throttled.
abbrev flaky_reply : List String → ℕ → Reply
flaky_reply [] n = returned []
flaky_reply (a ∷ arns) zero = returned ((a, throttled) ∷ [])
flaky_reply (a ∷ arns) (suc n) = returned []

-- A store whose calls do not fail.
abbrev pub reliable : Faults
reliable = record {
  read_fails = λ now. false;
  claim_fails = λ now. false;
  update_fails = λ now. false;
}

abbrev pub flaky : AwsApi ℕ
flaky = record {
  faults = reliable;
  tag_resources = λ reg arns new_tags n. (flaky_reply arns n, suc n);
}

abbrev pub arn : String
arn = "arn:aws:s3:eu-west-1:111122223333:logs"

abbrev pub action : Action
action = record {
  action_id = "a1";
  idempotency_key = "a1";
  resource_arn = arn;
  resource_type = "s3";
  account_id = "111122223333";
  requested_tags = tags;
  actor = "ann";
  status = pending;
  attempt_count = 0;
  request_fingerprint = "f";
  created_at = 0;
  updated_at = 0;
  request_id = "r";
  exemption_id = none;
  last_attempt_at = none;
  last_error_code = none;
  worker_id = none;
  claimed_at = none;
  lease_until = none;
}

abbrev pub store : Store
store = record { resources = []; exemptions = []; actions = ("a1", action) ∷ [] }

abbrev pub world : World ℕ
world = record { aws = 0; store = store; audit = [] }

-- AWS has been called once before.
abbrev pub warm : World ℕ
warm = record { aws = 1; store = store; audit = [] }

abbrev pub exemption : String → Option String → Option String → Exemption
exemption id resource_id account_id = record {
  id = id;
  status = "ACTIVE";
  created_by = "ann";
  created_at = 0;
  updated_at = none;
  resource_id = resource_id;
  resource_type = none;
  environment = none;
  account_id = account_id;
  expires_at = none;
  reason = none;
}

abbrev pub of_resource : Exemption
of_resource = exemption "e1" (some arn) none

abbrev pub of_account : Exemption
of_account = exemption "e2" none (some "111122223333")

abbrev pub exempt_store : Store
exempt_store = record {
  resources = [];
  exemptions = ("e1", of_resource) ∷ ("e2", of_account) ∷ [];
  actions = [];
}
