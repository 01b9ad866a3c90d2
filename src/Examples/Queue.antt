-- ===== src/Examples/Queue.antt =====
-- Examples of the queue worker.
use aws_tagging_utils.Base.{refl, String, ◌≡◌, ◌↔◌, ◌==◌, string_eq, false, none, some}
use aws_tagging_utils.Base.{[], ◌∷◌, All, if◌then◌else◌}
use aws_tagging_utils.Json.{Json, text, object, Fields, no_fields, field, Loader}
use aws_tagging_utils.Worker.{Message, accepted, validate_message, run_batch}
use aws_tagging_utils.Worker.Envelopes.{WellFormed, validate_message_iff}
use aws_tagging_utils.Worker.Deletion.{Done, run_batch-Over}
use aws_tagging_utils.Examples.{runtime, flaky, config, world}

abbrev payload : Fields
payload = field "action_id" (text "a1") no_fields

abbrev envelope : Fields
envelope = field "version" (text "1") (
    field "job_id" (text "j") (
      field "job_type" (text "REMEDIATION")
        (field "correlation_id" (text "c") (field "payload" (object payload) no_fields))))

abbrev action_text : Json → String
action_text (text s) = s
action_text _ = ""

-- A loader that reads one body.
abbrev loader : Loader
loader = record {
  loads = λ body. if body == "remediate a1" then some (object envelope) else none;
  str = action_text;
}

validate_message_iff_example :
    (validate_message loader "remediate a1"
      ≡ accepted (record { fields = envelope; payload = payload }))
    ↔ ((loader.loads "remediate a1" ≡ some (object envelope)) × WellFormed envelope payload)
validate_message_iff_example = validate_message_iff loader "remediate a1" envelope payload

abbrev message : Message
message = record {
  receipt_handle = "h";
  body = "remediate a1";
  now = 1;
  later = 2;
  shutdown_requested = false;
  delete_raises = false;
}

run_batch-Over_example :
    All
      (Done runtime flaky config loader "w"
        (run_batch runtime flaky config loader "w" (message ∷ message ∷ []) [] world).1)
      (run_batch runtime flaky config loader "w" (message ∷ message ∷ []) [] world).0
run_batch-Over_example =
    run_batch-Over runtime flaky config loader "w" (message ∷ message ∷ []) world (refl, (refl, tt))
