-- ===== src/Worker/Deletion.antt =====
-- A message is deleted only when its action is over, if the store takes the last write; it stays so
-- to the end of the batch.
use aws_tagging_utils.Base.{ℕ, String, ◌≡◌, refl, ap, Bool, true, false}
use aws_tagging_utils.Base.{
  some, List, [], ◌∷◌, ◌++◌, string_eq, if◌then◌else◌, arith, All, All-map, All-append,
}
use aws_tagging_utils.Base.{Bool-cases, Option-cases, inl, inr, ◌⊎◌}
use aws_tagging_utils.Runtime.{Runtime}
use aws_tagging_utils.State.Steps.{Run, Run-terminal, start}
use aws_tagging_utils.Services.{AwsApi, World, Config}
use aws_tagging_utils.Remediation.Refinement.{process_async-Run}
use aws_tagging_utils.Remediation.Delivery.{Over, process_async-Over}
use aws_tagging_utils.Json.{Json, text, get_field, Loader}
use aws_tagging_utils.Worker.{
  is_text, Envelope, Checked, malformed, accepted, Message, validate_message, run_action,
  process_message, handle_message, run_batch,
}

Checked-cases :
    (c : Checked) → ((e : String) × (c ≡ malformed e)) ⊎ ((e : Envelope) × (c ≡ accepted e))
Checked-cases (malformed e) = inl (e, refl)
Checked-cases (accepted e) = inr (e, refl)

accepted-injective : {x y : Envelope} → accepted x ≡ accepted y → x ≡ y
accepted-injective {x} e = ap (λ c. elim c [ accepted v ↦ v | malformed m ↦ x ]) e

module _ (rt : Runtime) {W : Type 0} (api : AwsApi W) (config : Config) (loader : Loader)
    (worker_id : String) where
  -- If the message asks for a remediation, its action is over.
  abbrev pub Done : World W → Message → Type 0
  Done w m =
      (envelope : Envelope) (action_id : Json)
      → validate_message loader m.body ≡ accepted envelope
      → get_field envelope.fields "job_type" ≡ some (text "REMEDIATION")
      → get_field envelope.payload "action_id" ≡ some action_id
      → Over (loader.str action_id) w

  Runs : World W → World W → Type 0
  Runs w w' = Run config.max_remediation_attempts w.store w'.store

  Runs-Done : (w w' : World W) → Runs w w' → (m : Message) → Done w m → Done w' m
  unfolding Runs
  Runs-Done w w' r m h envelope action_id valid job id =
      let (a, (e, over)) = h envelope action_id valid job id in
      (a, (Run-terminal config.max_remediation_attempts r (loader.str action_id) a e over, over))

  process_message-Runs :
      (envelope : Envelope) (now later : ℕ) (w : World W)
      → Runs w (process_message rt api config loader worker_id envelope now later w).1
  unfolding Runs process_message run_action
  process_message-Runs envelope now later w =
      let job_type = get_field envelope.fields "job_type" in
      elim (Bool-cases (is_text job_type "WORKER_HEALTH_CHECK")) [
        | inl e ↦ rw (e, process_message) start
        | inr e ↦ elim (Bool-cases (is_text job_type "REMEDIATION")) [
          | inr f ↦ rw (e, f, process_message) start
          | inl f ↦ elim (Option-cases (get_field envelope.payload "action_id")) [
            | inl g ↦ rw (e, f, g, process_message, run_action) start
            | inr (id, g) ↦
                rw (e, f, g, process_message, run_action)
                  (process_async-Run rt api config (loader.str id) worker_id now later w)
          ]
        ]
      ]

  process_message-Over :
      (envelope : Envelope) (now later : ℕ) (w : World W) (action_id : Json)
      → get_field envelope.fields "job_type" ≡ some (text "REMEDIATION")
      → get_field envelope.payload "action_id" ≡ some action_id
      → api.faults.update_fails later ≡ false
      → (process_message rt api config loader worker_id envelope now later w).0 ≡ true
      → Over
          (loader.str action_id)
          (process_message rt api config loader worker_id envelope now later w).1
  unfolding process_message run_action is_text string_eq
  process_message-Over envelope now later w action_id job id stored done =
      rw (job, id, process_message)
        (process_async-Over rt api config (loader.str action_id) worker_id now later w stored
          (rw (job, id, process_message) at done))

  handle_message-Runs :
      (m : Message) (w : World W) → Runs w (handle_message rt api config loader worker_id m w).1
  unfolding handle_message Runs
  handle_message-Runs m w = elim (Checked-cases (validate_message loader m.body)) [
    | inl (e, h) ↦ rw (h, handle_message) start
    | inr (envelope, h) ↦ rw (h, handle_message) (process_message-Runs envelope m.now m.later w)
  ]

  handle_message-Done :
      (m : Message) (w : World W)
      → api.faults.update_fails m.later ≡ false
      → (handle_message rt api config loader worker_id m w).0 ≡ true
      → Done (handle_message rt api config loader worker_id m w).1 m
  unfolding handle_message
  handle_message-Done m w stored gone envelope action_id valid job id =
      rw (valid, handle_message)
        (process_message-Over envelope m.now m.later w action_id job id stored (ground arith))

  AllDone : List Message × World W → Type 0
  AllDone (deleted, w) = All (Done w) deleted

  AllDone-if :
      (b : Bool) (x y : List Message × World W)
      → AllDone x
      → AllDone y
      → AllDone (if b then x else y)
  AllDone-if true x y h k = h
  AllDone-if false x y h k = k

  run_batch-AllDone :
      (messages deleted : List Message) (w : World W)
      → All (λ m. api.faults.update_fails m.later ≡ false) messages
      → All (Done w) deleted
      → AllDone (run_batch rt api config loader worker_id messages deleted w)
  unfolding run_batch AllDone
  run_batch-AllDone [] deleted w all h = h
  run_batch-AllDone (m ∷ messages) deleted w (stored, all) h =
      let (gone, w') = handle_message rt api config loader worker_id m w in
      let before =
        All-map (Done w) (Done w') deleted (Runs-Done w w' (handle_message-Runs m w)) h in
      AllDone-if m.shutdown_requested (deleted, w)
        (run_batch rt api config loader worker_id messages
          (if gone then deleted ++ (m ∷ []) else deleted) w')
        h
        (run_batch-AllDone messages (if gone then deleted ++ (m ∷ []) else deleted) w' all
          (elim (Bool-cases gone) [
            | inl e ↦ rw e (
                All-append (Done w') deleted (m ∷ []) before (handle_message-Done m w stored e, tt))
            | inr e ↦ rw e before
          ]))

  -- After a batch, the action of every remediation message that was deleted is COMPLETED, FAILED or
  -- SKIPPED_EXEMPT, whatever else the batch did, if the store takes the last write for each message.
  -- Its reads and the claims may fail.
  pub run_batch-Over :
      (messages : List Message) (w : World W)
      → All (λ m. api.faults.update_fails m.later ≡ false) messages
      → All
          (Done (run_batch rt api config loader worker_id messages [] w).1)
          (run_batch rt api config loader worker_id messages [] w).0
  unfolding AllDone
  run_batch-Over messages w all = run_batch-AllDone messages [] w all tt
