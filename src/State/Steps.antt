-- ===== src/State/Steps.antt =====
-- The steps that the remediation engine makes on the store, by whichever worker or request, as a
-- relation: every run of concurrent engines is a sequence of them.
use aws_tagging_utils.Base.{ℕ, ◌≤◌, String, ◌≡◌, Bool, true, false}
use aws_tagging_utils.Base.{Option, some, arith, string_eq}
use mathlib.Core.Option.{get_or}
use aws_tagging_utils.Base.Dict
use aws_tagging_utils.State.{
  Store, Action, Status, in_progress, completed, failed, failed_retryable, skipped_exempt,
  status_eq, create_remediation_action, can_claim, claimed_item, claim_remediation_action, Updates,
  unexpected_status, updated_item, update_remediation_action,
}
use aws_tagging_utils.State.Claims.{claimable, get-create, get-claim, get-update}

abbrev pub is_terminal : Status → Bool
is_terminal completed = true
is_terminal failed = true
is_terminal skipped_exempt = true
is_terminal _ = false

module _ (max : ℕ) where
  pub data Step (s : Store) : Store → Type 0 where
    create : (a : Action) → a.attempt_count ≡ 0 → Step s (create_remediation_action s a).0
    claim :
        (id : String) (worker : Option String) (lease now : ℕ)
        → Step s (claim_remediation_action s id claimable max worker lease now).0
    finish :
        (id : String) (updates : Updates) (now : ℕ)
        → Step s (update_remediation_action s id updates (some in_progress) now).0
    exhaust :
        (id : String) (updates : Updates) (now : ℕ)
        → Step s (update_remediation_action s id updates (some failed_retryable) now).0
    -- a write to the baselines or the exemptions
    elsewhere : {t : Store} → t.actions ≡ s.actions → Step s t

  pub data Run (s : Store) : Store → Type 0 where
    start : Run s s
    next : {t u : Store} → Run s t → Step t u → Run s u

  -- No action was tried more than `max` times.
  abbrev pub AttemptsBounded : Store → Type 0
  AttemptsBounded s =
      (id : String) (a : Action) → Dict.get s.actions id ≡ some a → a.attempt_count ≤ max

  Step-AttemptsBounded : {s t : Store} → Step s t → AttemptsBounded s → AttemptsBounded t
  unfolding claimed_item updated_item
  Step-AttemptsBounded {s} (create new fresh) h id a e = ground (arith, h id a, get-create s new id)
  Step-AttemptsBounded {s} (claim i worker lease now) h id a e = ground (
    arith,
    h id a,
    h i (get_or (Dict.get s.actions i) a),
    get-claim s i id claimable max worker lease now,
  )
  Step-AttemptsBounded {s} (finish i updates now) h id a e = ground (
    arith,
    h id a,
    h i (get_or (Dict.get s.actions i) a),
    get-update s i id updates (some in_progress) now,
  )
  Step-AttemptsBounded {s} (exhaust i updates now) h id a e = ground (
    arith,
    h id a,
    h i (get_or (Dict.get s.actions i) a),
    get-update s i id updates (some failed_retryable) now,
  )
  Step-AttemptsBounded (elsewhere same) h id a e = h id a (rw same at e)

  -- From a store without actions on, no interleaving of engines tries an action more than `max`
  -- times.
  pub Run-AttemptsBounded : {s t : Store} → Run s t → AttemptsBounded s → AttemptsBounded t
  Run-AttemptsBounded start h = h
  Run-AttemptsBounded (next r st) h = Step-AttemptsBounded st (Run-AttemptsBounded r h)

  Step-terminal :
      {s t : Store}
      → Step s t
      → (id : String) (a : Action) → Dict.get s.actions id ≡ some a
      → is_terminal a.status ≡ true
      → Dict.get t.actions id ≡ some a
  unfolding can_claim unexpected_status status_eq
  Step-terminal {s} (create new fresh) id a e h = ground (arith, get-create s new id)
  Step-terminal {s} (claim i worker lease now) id a e h =
      ground (arith, get-claim s i id claimable max worker lease now)
  Step-terminal {s} (finish i updates now) id a e h =
      ground (arith, get-update s i id updates (some in_progress) now)
  Step-terminal {s} (exhaust i updates now) id a e h =
      ground (arith, get-update s i id updates (some failed_retryable) now)
  Step-terminal (elsewhere same) id a e h = rw same e

  -- An action that is completed, failed or skipped is never changed again, by any interleaving.
  pub Run-terminal :
      {s t : Store}
      → Run s t
      → (id : String) (a : Action) → Dict.get s.actions id ≡ some a
      → is_terminal a.status ≡ true
      → Dict.get t.actions id ≡ some a
  Run-terminal start id a e h = e
  Run-terminal (next r st) id a e h = Step-terminal st id a (Run-terminal r id a e h) h
