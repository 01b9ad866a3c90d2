-- ===== src/Worker.antt =====
-- The queue worker: src/worker.py, over a remediation engine and one batch of messages.
pub mod Envelopes
pub mod Deletion
use aws_tagging_utils.Base.{
  ℕ, String, Bool, true, false, not, ◌&&◌, ◌||◌, Option, none, some, List, [],
}
use aws_tagging_utils.Base.{◌∷◌, ◌++◌, ◌==◌, string_eq, if◌then◌else◌}
use aws_tagging_utils.Json.{
  Json, null, boolean, number, text, array, object, Items, no_items, item, Fields, no_fields, field,
  get_field, truthy, Loader,
}
use aws_tagging_utils.Runtime.{Runtime}
use aws_tagging_utils.Services.{AwsApi, World, Config}
use aws_tagging_utils.Remediation.Async.{process_async}

-- `value == expected`, for a text
unfoldable pub is_text : Option Json → String → Bool
is_text (some (text s)) expected = s == expected
is_text _ expected = false

unfoldable pub as_object : Option Json → Option Fields
as_object (some (object fields)) = some fields
as_object _ = none

is_present : Option Json → Bool
is_present none = false
is_present (some v) = true

-- What `validate_message` returns: the message, and its payload.
pub record Envelope : Type 0 where
  pub fields : Fields
  pub payload : Fields

-- The tests on the fields of a message, in the order of the code; an error is its
-- text, without the value that it quotes.
pub data Checked : Type 0 where
  malformed : String → Checked
  accepted : Envelope → Checked

check_payload : Fields → Option Fields → Checked
unfolding is_present is_text get_field
check_payload msg none = malformed "Malformed payload (must be an object)"
check_payload msg (some payload) =
    if is_text (get_field msg "job_type") "REMEDIATION"
      && not (is_present (get_field payload "action_id"))
    then malformed "Missing action_id in REMEDIATION payload"
    else accepted (record { fields = msg; payload = payload })

check_fields : Fields → Checked
unfolding check_payload as_object truthy
check_fields msg =
    if not (is_text (get_field msg "version") "1")
    then malformed "Unsupported or missing version"
    else if not (truthy (get_field msg "job_id"))
    then malformed "Missing job_id"
    else if not (truthy (get_field msg "job_type"))
    then malformed "Missing job_type"
    else if not (is_present (get_field msg "correlation_id"))
    then malformed "Missing correlation_id"
    else check_payload msg (as_object (get_field msg "payload"))

check_json : Option Json → Checked
unfolding check_fields
check_json none = malformed "Malformed JSON payload"
check_json (some (object msg)) = check_fields msg
check_json (some _) = malformed "Message body must be a JSON object"

-- A message of the queue, with what happens around it: the times before and after the AWS call,
-- whether a shutdown has been requested when its turn comes, whether its deletion raises.
pub record Message : Type 0 where
  pub receipt_handle : String
  pub body : String
  pub now : ℕ
  pub later : ℕ
  pub shutdown_requested : Bool
  pub delete_raises : Bool

unfoldable pub validate_message : Loader → String → Checked
unfolding check_json
validate_message loader body = check_json (loader.loads body)

module _ (rt : Runtime) {W : Type 0} (api : AwsApi W) (config : Config) (loader : Loader)
    (worker_id : String) where
  run_action : Option Json → ℕ → ℕ → World W → Bool × World W
  run_action none now later w = (false, w)
  run_action (some action_id) now later w =
      process_async rt api config (loader.str action_id) worker_id now later w

  -- The answer is whether the message can be deleted.
  unfoldable pub process_message : Envelope → ℕ → ℕ → World W → Bool × World W
  unfolding run_action
  process_message envelope now later w =
      let job_type = get_field envelope.fields "job_type" in
      if is_text job_type "WORKER_HEALTH_CHECK"
      then (true, w)
      else if is_text job_type "REMEDIATION"
      then run_action (get_field envelope.payload "action_id") now later w
      else (false, w)

  -- One message: whether it is deleted, and the world after it.
  unfoldable pub handle_message : Message → World W → Bool × World W
  handle_message m w = elim (validate_message loader m.body) [
    | malformed message ↦ (false, w)
    | accepted envelope ↦
        let (success, w') = process_message envelope m.now m.later w in
        (success && not m.delete_raises, w')
  ]

  -- The loop over the messages of one poll, with the handles of the messages deleted.
  unfoldable pub run_batch : List Message → List Message → World W → List Message × World W
  unfolding handle_message
  run_batch [] deleted w = (deleted, w)
  run_batch (m ∷ messages) deleted w =
      let (gone, w') = handle_message m w in
      let rest = run_batch messages (if gone then deleted ++ (m ∷ []) else deleted) w' in
      if m.shutdown_requested then (deleted, w) else rest
