-- ===== src/Services.antt =====
-- What the program calls and does not implement, as parameters: the tagging API of AWS, and when
-- DynamoDB is out of reach; and the state that a request or a worker changes.
use aws_tagging_utils.Base.{ℕ, String, Bool, Option, List, [], ◌∷◌, ◌++◌}
use aws_tagging_utils.Base.Dict.{Dict}
use aws_tagging_utils.Governance.Models.{Tags, Schema}
use aws_tagging_utils.State.{Store}

-- An entry of `FailedResourcesMap`.
pub record Failure : Type 0 where
  pub error_code : Option String
  pub error_message : Option String

-- A call of TagResources raises an exception, whose text is kept, or returns the failed resources.
-- Where the code catches only `ClientError` and `BotoCoreError`, these are the exceptions meant.
pub data Reply : Type 0 where
  raised : String → Reply
  returned : Dict String Failure → Reply

-- The times at which a call of DynamoDB on an action raises an exception, which the state store
-- catches: a read answers `None` then, a claim and an update answer `False`. `MemoryStateStore`
-- has none.
pub record Faults : Type 0 where
  pub read_fails : ℕ → Bool
  pub claim_fails : ℕ → Bool
  pub update_fails : ℕ → Bool

-- `get_tagging_client(region).tag_resources(ResourceARNList, Tags)`, over any state of AWS.
pub record AwsApi (W : Type 0) : Type 0 where
  pub faults : Faults
  pub tag_resources : String → List String → Tags → W → Reply × W

-- A row of the audit log: actor, action, resource, outcome, error code.
pub record AuditEntry : Type 0 where
  pub actor : String
  pub action : String
  pub resource : String
  pub outcome : String
  pub error_code : Option String

-- All that an operation changes: AWS, the state store, the audit log.
pub record World (W : Type 0) : Type 0 where
  pub aws : W
  pub store : Store
  pub audit : List AuditEntry

-- src/config.py, as far as the modelled code reads it; `tag_schema` is the schema file, read.
pub record Config : Type 0 where
  pub default_region : String
  pub tag_api_batch_size : ℕ
  pub max_remediation_attempts : ℕ
  pub strict_mode : Bool
  pub unknown_tags : String
  pub normalization : Bool
  pub tag_schema : Schema

unfoldable pub log_audit : {W : Type 0} → AuditEntry → World W → World W
log_audit entry w = record w { audit = w.audit ++ (entry ∷ []) }
