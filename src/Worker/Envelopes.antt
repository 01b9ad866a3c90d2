-- ===== src/Worker/Envelopes.antt =====
-- Which messages `validate_message` accepts.
use aws_tagging_utils.Base.{String, ◌≡◌, ◌≢◌, ◌↔◌, refl, true, Option, none}
use aws_tagging_utils.Base.{some, string_eq, arith}
use aws_tagging_utils.Json.{
  Json, null, boolean, number, array, text, object, Fields, get_field, truthy, Loader,
}
use aws_tagging_utils.Worker.{
  is_text, as_object, is_present, accepted, check_payload, check_fields, check_json,
  validate_message,
}

-- A message that the worker can dispatch.
pub record WellFormed (msg payload : Fields) : Type 0 where
  pub version : get_field msg "version" ≡ some (text "1")
  pub job_id : truthy (get_field msg "job_id") ≡ true
  pub job_type : truthy (get_field msg "job_type") ≡ true
  pub correlation_id : get_field msg "correlation_id" ≢ none
  pub payload_object : get_field msg "payload" ≡ some (object payload)
  pub action_id :
      get_field msg "job_type" ≡ some (text "REMEDIATION") → get_field payload "action_id" ≢ none

is_text_iff : (v : Option Json) (s : String) → (is_text v s ≡ true) ↔ (v ≡ some (text s))
unfolding is_text
is_text_iff none s = ground arith
is_text_iff (some null) s = ground arith
is_text_iff (some (boolean b)) s = ground arith
is_text_iff (some (number z d)) s = ground arith
is_text_iff (some (text t)) s = ground arith
is_text_iff (some (array xs)) s = ground arith
is_text_iff (some (object fs)) s = ground arith

as_object_iff : (v : Option Json) (fs : Fields) → (as_object v ≡ some fs) ↔ (v ≡ some (object fs))
unfolding as_object
as_object_iff none fs = ground arith
as_object_iff (some null) fs = ground arith
as_object_iff (some (boolean b)) fs = ground arith
as_object_iff (some (number z d)) fs = ground arith
as_object_iff (some (text t)) fs = ground arith
as_object_iff (some (array xs)) fs = ground arith
as_object_iff (some (object gs)) fs = ground arith

is_present_iff : (v : Option Json) → (is_present v ≡ true) ↔ (v ≢ none)
unfolding is_present
is_present_iff none = ground arith
is_present_iff (some v) = ground arith

check_payload_iff :
    (msg : Fields) (p : Option Fields) (m q : Fields)
    → (check_payload msg p ≡ accepted (record { fields = m; payload = q })) ↔ (
        (msg ≡ m)
        × (p ≡ some q)
        × (is_text (get_field msg "job_type") "REMEDIATION" ≡ true
            → is_present (get_field q "action_id") ≡ true))
unfolding check_payload
check_payload_iff msg none m q = ground arith
check_payload_iff msg (some p) m q = ground arith

check_fields_iff :
    (msg m q : Fields)
    → (check_fields msg ≡ accepted (record { fields = m; payload = q })) ↔ (
        (msg ≡ m)
        × (is_text (get_field msg "version") "1" ≡ true)
        × (truthy (get_field msg "job_id") ≡ true)
        × (truthy (get_field msg "job_type") ≡ true)
        × (is_present (get_field msg "correlation_id") ≡ true)
        × (as_object (get_field msg "payload") ≡ some q)
        × (is_text (get_field msg "job_type") "REMEDIATION" ≡ true
            → is_present (get_field q "action_id") ≡ true))
unfolding check_fields
check_fields_iff msg m q =
    ground (arith, check_payload_iff msg (as_object (get_field msg "payload")) m q)

check_json_iff :
    (j : Option Json) (m q : Fields)
    → (check_json j ≡ accepted (record { fields = m; payload = q }))
      ↔ ((j ≡ some (object m)) × (check_fields m ≡ accepted (record { fields = m; payload = q })))
unfolding check_json
check_json_iff none m q = ground arith
check_json_iff (some null) m q = ground arith
check_json_iff (some (boolean b)) m q = ground arith
check_json_iff (some (number z d)) m q = ground arith
check_json_iff (some (text t)) m q = ground arith
check_json_iff (some (array xs)) m q = ground arith
check_json_iff (some (object msg)) m q = ground (arith, check_fields_iff msg m q)

-- `validate_message` accepts a body, as this message with this payload, if and only if the body is
-- the JSON text of an object that is well formed.
pub validate_message_iff :
    (loader : Loader) (body : String) (msg payload : Fields)
    → (validate_message loader body ≡ accepted (record { fields = msg; payload = payload }))
      ↔ ((loader.loads body ≡ some (object msg)) × WellFormed msg payload)
unfolding validate_message
validate_message_iff loader body msg payload =
    let json = check_json_iff (loader.loads body) msg payload in
    let tests = check_fields_iff msg msg payload in
    (
      λ h.
          let (same, rest) = json.0 h in
          let (_, version, job_id, job_type, correlation_id, whole, action_id) = tests.0 rest in
          (
            same,
            record {
              version = (is_text_iff _ "1").0 version;
              job_id = job_id;
              job_type = job_type;
              correlation_id = (is_present_iff _).0 correlation_id;
              payload_object = (as_object_iff _ payload).0 whole;
              action_id = λ e. (is_present_iff _).0 (action_id ((is_text_iff _ "REMEDIATION").1 e));
            },
          ),
      λ (same, w). json.1 (
        same,
        tests.1 (
          refl,
          (is_text_iff _ "1").1 w.version,
          w.job_id,
          w.job_type,
          (is_present_iff _).1 w.correlation_id,
          (as_object_iff _ payload).1 w.payload_object,
          λ e. (is_present_iff _).1 (w.action_id ((is_text_iff _ "REMEDIATION").0 e)),
        ),
      ),
    )
