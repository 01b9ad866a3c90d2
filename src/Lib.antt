-- ===== src/Lib.antt =====
-- Verification of aws-tagging-utils: tag governance, exemptions, remediation and tag writes.
--
-- The program keeps the tags of AWS resources in line with a schema. The governance engine
-- normalises and checks a set of tags; exemptions take resources out of remediation; the
-- remediation engine applies requested tags under an action that a request creates and that
-- requests and queue workers claim in the state store; the tag writer calls AWS in batches and
-- records the baselines of protected tags.
--
-- Files, and the source that each models (paths from the repository's root):
--   Base            lists, dicts, texts and integers of Python, with their lemmas
--   Runtime         the parameters `str.lower` and `re.match`
--   Governance      src/governance/models.py, normalizer.py, validators.py, policy.py, engine.py
--   Errors          src/errors.py: `APIError`, `map_boto_error`
--   State           src/governance/state.py: `MemoryStateStore`; State.Steps is the relation of
--                   the steps that concurrent engines make on it, State.Leases what others may do
--                   during a worker's lease; State.Dynamo is `DynamoDBStateStore`, and
--                   Agreement compares the two
--   Exemptions      src/governance/exemptions.py
--   Arn             src/arn_utils.py, and `get_region_from_arn` of src/tag_writer.py
--   Protected       src/protected_tags.py: baselines of protected tags; Drift is
--                   `handle_tag_change_event`
--   Json            JSON values, as messages and events hold them
--   Services        what is called and not defined here, and the state of the whole (`World`)
--   TagWriter       src/tag_writer.py: `tag_resources`; Handler is `lambda_handler`
--   Authorization   src/authorization/policy.py, roles.py, ownership.py, and the owner matching
--                   of src/insights.py
--   Remediation     src/governance/remediation.py: Async is `process_async`, Sync `process_sync`;
--                   Handling is the relation of what a worker does to the store
--   Worker          src/worker.py: messages, their dispatch and their deletion
--   Changesets      src/changesets.py: the plan of a change set and its summary; Apply, Undo, the
--                   calls they make (Tagging) and the rows they keep (Log); Steps and Safe are on
--                   the undo
--   Propagation     src/propagation.py: which tags propagate, and the findings; Plan is `fix_plan`
--   Enforcement     src/enforcement.py: the loop over new resources
--   TagOnCreate     src/tag_on_create.py: the owner (Owner), the ARNs of an event by service
--                   (Computing, Network, Platform, Table), the lookup of tags in rounds (Lookup),
--                   the writes (Writes), the scan of events (Scan) and the handler (Handler)
--   TagReport       src/tag_report.py: `generate_report` and its counts
--   TagWrite        src/tag_write.py: the command that writes tags
--   TagRead         src/tag_read.py: the command that reads resources by their tags
--   Examples        concrete data, and the theorems applied to it
--
-- Python's dicts are association lists in insertion order. Exceptions that the code catches or
-- raises are values (`Reply`, `Result`). Times are numbers that order as the ISO texts do.
-- The engine and the worker run on the memory store with faults: at the times that `Faults` names, a
-- call on an action raises, and has no effect and the answer that `DynamoDBStateStore` gives then.
-- Writes of baselines do not fail, and a request's creation and reads neither.
-- Parameters are the case table and the regular expressions of Python, its calendar, the tagging
-- API of AWS over any state, the JSON loader, and the request fingerprint. `chunks` takes as many
-- rounds as there are items, which is enough since each round takes one at least. A scan of
-- DynamoDB takes fuel, and one unit for each page of the table is enough (State.Dynamo.Scans);
-- the lookup of tags takes TAG_LOOKUP_RETRIES rounds. Other loops are structural.
--
-- Not modelled: the web application, authentication, the SDK sessions and clients, metrics and
-- logging, the file formats of the command line, the SQLite database with its queries, and the
-- discovery of parents and children, which are input and output or calls of other libraries. Of
-- the program's own logic, src/tag_sync.py, the configuration findings of the propagation,
-- src/suggestions.py, the scores of a report and the listing of change sets are
-- left out.
pub mod Base
pub mod Runtime
pub mod Governance
pub mod Errors
pub mod State
pub mod Exemptions
pub mod Arn
pub mod Protected
pub mod Services
pub mod TagOnCreate
pub mod TagReport
pub mod TagWrite
pub mod TagRead
pub mod TagWriter
pub mod Remediation
pub mod Json
pub mod Worker
pub mod Authorization
pub mod Changesets
pub mod Propagation
pub mod Enforcement
pub mod Examples
