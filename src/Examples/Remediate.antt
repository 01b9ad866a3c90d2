-- ===== src/Examples/Remediate.antt =====
-- Examples of the remediation engine.
use aws_tagging_utils.Base.{ℕ, String, string_eq, ◌≡◌, refl, arith, inr}
use aws_tagging_utils.Base.{Bool, true, false, not, ◌==◌, none, some, List, [], ◌∷◌}
use aws_tagging_utils.Base.Dict
use aws_tagging_utils.Base.Dict.{Dict}
use aws_tagging_utils.State.{
  Store, Action, in_progress, completed, failed_retryable, skipped_exempt, status_eq, empty_store,
  claim_remediation_action, create_remediation_action,
}
use aws_tagging_utils.State.Claims.{claimable}
use aws_tagging_utils.State.Leases
use aws_tagging_utils.State.Leases.{Foreigns, claim-excludes}
use aws_tagging_utils.State.Steps.{
  Run, start, next, create, claim, Run-terminal, Run-AttemptsBounded, AttemptsBounded,
}
use aws_tagging_utils.Governance.Models.{Tags}
use aws_tagging_utils.Services.{AwsApi, Faults, World}
use aws_tagging_utils.Remediation.Async.{process_async}
use aws_tagging_utils.Remediation.Sync.{Request, process_sync, key_or}
use aws_tagging_utils.Remediation.Handling.{Handled, process_async-Handled}
use aws_tagging_utils.Remediation.Delivery.{Over, process_async-Over, process_async-lost, run_of}
use aws_tagging_utils.Remediation.Redelivery.{Delivery, deliver, deliver-Waits}
use aws_tagging_utils.Remediation.SyncExempt.{process_sync-exempt}
use aws_tagging_utils.Errors.{ok}
use aws_tagging_utils.TagWriter.{tag_resources}
use aws_tagging_utils.State.{
  get_remediation_action, can_claim, claimed_item, get_resource_state, is_named, is_outcome,
  lease_expired, put_resource_state, refused_transition, unexpected_status,
  update_remediation_action, updated_item, list_exemptions,
}
use aws_tagging_utils.Remediation.{
  run_claimed, execute_tag_mutation, classify, entry, finished_entry, outcome_updates, status_text,
  extract_type, extract_account,
}
use aws_tagging_utils.Governance.Engine.{evaluate, make_engine}
use aws_tagging_utils.Governance.Policy.{evaluate_policy}
use aws_tagging_utils.Governance.Validators.{
  validate_required, validate_allowed_values, validate_pattern, validate_unknown, is_missing,
  tolerates_unknown,
}
use aws_tagging_utils.Governance.Normalizer.{
  normalize, normalize_by, keep_first, get_canonical_key, append_original, conflicts,
  make_normalizer, normalize_loop,
}
use aws_tagging_utils.Base.{collect, keep, nat_eq, option_eq}
use aws_tagging_utils.Base.Int.{◌+ℤ◌}
use aws_tagging_utils.Base.Text.{is_blank, split, starts_with}
use aws_tagging_utils.Arn.{get_region_from_arn}
use aws_tagging_utils.Protected.{
  authorize, exact, get_baseline, protected_keys, put_baseline, record_write, record_writes,
}
use aws_tagging_utils.Services.{log_audit}
use aws_tagging_utils.TagWriter.{
  batches, chunks, group_by_region, mark_failed, tag_batches, tag_region,
}
use aws_tagging_utils.Exemptions.{
  is_exempt, is_exempt_among, list_active_exemptions, is_active, matches_resource, get_scope_rank,
}
use native.Mathlib.Decide.{ℕ_discrete}
use aws_tagging_utils.Examples.{
  reliable, of_resource, runtime, calendar, config, flaky, action, store, world, exempt_store, warm,
  arn, tags,
}

process_async-Handled_example :
    Handled reliable 3 "a1" "w" 1 2 store
      (process_async runtime flaky config "a1" "w" 1 2 world).1.store
process_async-Handled_example = process_async-Handled runtime flaky config "a1" "w" 1 2 world

-- The store is out of reach when the outcome is to be written.
abbrev unreachable : Faults
unreachable = record {
  read_fails = λ now. false;
  claim_fails = λ now. false;
  update_fails = λ now. now == 2;
}

abbrev cut_off : AwsApi ℕ
cut_off = record flaky { faults = unreachable }

process_async-lost_example :
    (Dict.get (process_async runtime cut_off config "a1" "w" 1 2 warm).1.store.actions "a1"
      ≡ some (claimed_item action (some "w") 300000000 1))
    × ((claimed_item action (some "w") 300000000 1).status ≡ in_progress)
    × ((process_async runtime cut_off config "a1" "w" 1 2 warm).0
        ≡ not ((run_of runtime cut_off config "a1" "w" 1 2 warm action).0.0 == failed_retryable))
unfolding Dict.get string_eq nat_eq status_eq
process_async-lost_example =
    process_async-lost runtime cut_off config "a1" "w" 1 2 warm action refl refl (omega arith) refl
      refl refl

abbrev claimed : Store × Bool
claimed = claim_remediation_action store "a1" claimable 3 (some "w") 300 1

-- Another worker tries meanwhile, and a request creates an action.
abbrev meanwhile : Store
meanwhile =
    (create_remediation_action
      (claim_remediation_action claimed.0 "a1" claimable 3 (some "u") 300 2).0
      (record action { action_id = "a2" })).0

abbrev others : Foreigns 3 "a1" 301 claimed.0 meanwhile
others =
    Leases.next (Leases.next Leases.start (Leases.claim "a1" (some "u") 300 2 (omega arith)))
      (Leases.create (record action { action_id = "a2" }))

claim-excludes_example :
    claim_remediation_action meanwhile "a1" claimable 3 (some "v") 300 3 ≡ (meanwhile, false)
unfolding claim_remediation_action string_eq Dict.get status_eq
claim-excludes_example =
    claim-excludes store claimed.0 meanwhile "a1" 3 300 (some "w") (some "v") 1 3 refl refl others
      (omega arith)

abbrev twice : List Delivery
twice =
    record { worker_id = "w"; now = 1; later = 2 }
    ∷ record { worker_id = "w"; now = 3; later = 4 }
    ∷ record { worker_id = "v"; now = 5; later = 6 }
    ∷ record { worker_id = "v"; now = 7; later = 8 }
    ∷ []

deliver-Waits_example :
    ((deliver runtime flaky config "a1" twice world).0 ≡ true)
    × Over "a1" (deliver runtime flaky config "a1" twice world).1
unfolding Dict.get string_eq
deliver-Waits_example =
    deliver-Waits runtime flaky config "a1" twice world
      (action, (refl, inr (refl, omega arith), omega arith))
      (
        (refl, refl, refl, refl),
        ((refl, refl, refl, refl), ((refl, refl, refl, refl), ((refl, refl, refl, refl), tt))),
      )

process_async-Over_example : Over "a1" (process_async runtime flaky config "a1" "w" 1 2 warm).1
unfolding process_async get_remediation_action Dict.get string_eq claim_remediation_action status_eq
    run_claimed execute_tag_mutation evaluate evaluate_policy validate_required collect make_engine
    normalize normalize_by keep_first Dict.insert get_canonical_key get_region_from_arn Dict.erase
    Dict.has_key Dict.update nat_eq ◌+ℤ◌ keep is_blank append_original conflicts make_normalizer
    normalize_loop is_missing tolerates_unknown validate_allowed_values validate_pattern
    validate_unknown authorize exact get_baseline protected_keys put_baseline record_write
    record_writes classify entry finished_entry outcome_updates status_text log_audit can_claim
    claimed_item get_resource_state is_named is_outcome lease_expired put_resource_state
    refused_transition unexpected_status update_remediation_action updated_item batches chunks
    group_by_region mark_failed tag_batches tag_region tag_resources ℕ_discrete starts_with
process_async-Over_example = process_async-Over runtime flaky config "a1" "w" 1 2 warm refl refl

abbrev request : Request
request = record {
  resource_arn = arn;
  requested_tags = tags;
  tags_are_dict = true;
  idempotency_key = some "k";
}

abbrev fingerprint : String → String → Tags → String
fingerprint arn_ kind new_tags = "f"

abbrev exempt_world : World ℕ
exempt_world = record { aws = 0; store = exempt_store; audit = [] }

process_sync-exempt_example :
    (a : Action) × ((w' : World ℕ) × ((process_sync runtime calendar flaky config fingerprint
            request "ann" "r" 1 2 exempt_world
          ≡ ok (a, w'))
        × (a.status ≡ skipped_exempt)
        × (a.exemption_id ≡ some "e1")
        × (a.attempt_count ≡ 0)
        × (w'.aws ≡ 0)
        × (w'.store ≡ record exempt_store { actions = Dict.insert [] "k" a })))
unfolding Dict.get string_eq is_exempt is_exempt_among keep list_active_exemptions list_exemptions
    is_active matches_resource get_scope_rank option_eq extract_account split extract_type key_or
process_sync-exempt_example =
    process_sync-exempt runtime calendar flaky config fingerprint request "ann" "r" 1 2 exempt_world
      of_resource refl refl refl refl

-- The lease taken in `claimed` has run out, and another worker claims; a terminal action stays.
abbrev over : Action
over = record action { status = completed; attempt_count = 1 }

abbrev over_store : Store
over_store = record { resources = []; exemptions = []; actions = ("a1", over) ∷ [] }

abbrev late_run :
    Run 3 over_store (claim_remediation_action over_store "a1" claimable 3 none 300 9).0
late_run = next start (claim "a1" none 300 9)

Run-terminal_example :
    Dict.get (claim_remediation_action over_store "a1" claimable 3 none 300 9).0.actions "a1"
    ≡ some over
unfolding Dict.get string_eq
Run-terminal_example = Run-terminal 3 late_run "a1" over refl refl

nothing_tried : AttemptsBounded 3 empty_store
unfolding Dict.get
nothing_tried id a e = absurd (cc)

abbrev created_and_claimed :
    Run 3 empty_store
      (claim_remediation_action
        (create_remediation_action empty_store action).0
        "a1"
        claimable
        3
        (some "w")
        300
        1).0
created_and_claimed = next (next start (create action refl)) (claim "a1" (some "w") 300 1)

Run-AttemptsBounded_example :
    AttemptsBounded 3
      (claim_remediation_action
        (create_remediation_action empty_store action).0
        "a1"
        claimable
        3
        (some "w")
        300
        1).0
Run-AttemptsBounded_example = Run-AttemptsBounded 3 created_and_claimed nothing_tried
