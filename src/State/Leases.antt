-- ===== src/State/Leases.antt =====
-- A worker's lease against whatever others do to the store meanwhile.
use aws_tagging_utils.Base.{ℕ, ◌+◌, ◌≤◌, String, ◌≡◌, ◌≢◌, true, false, Option, some, arith}
use aws_tagging_utils.Base.{Option-cases, inl, inr, string_eq}
use aws_tagging_utils.Base.Dict
use aws_tagging_utils.State.{
  Store, Action, in_progress, failed_retryable, status_eq, is_named, lease_expired, can_claim,
  claimed_item, create_remediation_action, claim_remediation_action, Updates, unexpected_status,
  update_remediation_action,
}
use aws_tagging_utils.State.Claims.{claimable, get-create, get-claim, get-update}

-- The action is claimed, and the lease lasts until the time given.
abbrev pub Leased : String → ℕ → Store → Type 0
Leased id until s =
    (a : Action) × ((Dict.get s.actions id ≡ some a)
      × (a.status ≡ in_progress)
      × (a.lease_until ≡ some until))

module _ (max : ℕ) (id : String) (until : ℕ) where
  -- A step that is not the holder's own: any claim before the lease ends, any creation, an outcome
  -- of another action, the exhaustion of any action, a write outside of the actions.
  pub data Foreign (s : Store) : Store → Type 0 where
    create : (a : Action) → Foreign s (create_remediation_action s a).0
    claim :
        (other : String) (worker : Option String) (lease now : ℕ)
        → now ≤ until
        → Foreign s (claim_remediation_action s other claimable max worker lease now).0
    finish :
        (other : String) (updates : Updates) (now : ℕ)
        → other ≢ id
        → Foreign s (update_remediation_action s other updates (some in_progress) now).0
    exhaust :
        (other : String) (updates : Updates) (now : ℕ)
        → Foreign s (update_remediation_action s other updates (some failed_retryable) now).0
    elsewhere : {t : Store} → t.actions ≡ s.actions → Foreign s t

  pub data Foreigns (s : Store) : Store → Type 0 where
    start : Foreigns s s
    next : {t u : Store} → Foreigns s t → Foreign t u → Foreigns s u

  Foreign-Leased : {s t : Store} → Foreign s t → Leased id until s → Leased id until t
  unfolding can_claim lease_expired unexpected_status status_eq
  Foreign-Leased {s} (create new) (a, (e, busy, lease)) =
      (a, (ground (arith, get-create s new id), busy, lease))
  Foreign-Leased {s} (claim other worker length now before) (a, (e, busy, lease)) =
      (a, (ground (arith, get-claim s other id claimable max worker length now), busy, lease))
  Foreign-Leased {s} (finish other updates now apart) (a, (e, busy, lease)) =
      (a, (ground (arith, get-update s other id updates (some in_progress) now), busy, lease))
  Foreign-Leased {s} (exhaust other updates now) (a, (e, busy, lease)) =
      (a, (ground (arith, get-update s other id updates (some failed_retryable) now), busy, lease))
  Foreign-Leased (elsewhere same) (a, (e, busy, lease)) = (a, (rw same e, busy, lease))

  Foreigns-Leased : {s t : Store} → Foreigns s t → Leased id until s → Leased id until t
  Foreigns-Leased start h = h
  Foreigns-Leased (next r st) h = Foreign-Leased st (Foreigns-Leased r h)

claim_refused :
    (s : Store) (id : String) (max lease until now : ℕ) (worker : Option String)
    → Leased id until s
    → now ≤ until
    → claim_remediation_action s id claimable max worker lease now ≡ (s, false)
unfolding claim_remediation_action can_claim lease_expired status_eq
claim_refused s id max lease until now worker (a, (e, busy, held)) before = ground arith

claim-Leased :
    (s t : Store) (id : String) (max lease now : ℕ) (worker : Option String)
    → is_named worker ≡ true
    → claim_remediation_action s id claimable max worker lease now ≡ (t, true)
    → Leased id (now + lease) t
unfolding claim_remediation_action claimed_item
claim-Leased s t id max lease now worker named h = elim (Option-cases (Dict.get s.actions id)) [
  | inl e ↦ absurd (ground arith)
  | inr (item, e) ↦ (
    claimed_item item worker lease now,
    (
      ground (arith, Dict.get-insert s.actions id (claimed_item item worker lease now) id),
      ground arith,
      ground arith,
    ),
  )
]

-- From a named worker's claim until its lease ends, whatever others do meanwhile (creations, claims,
-- exhaustions, outcomes of other actions, writes elsewhere), as long as no outcome of the action
-- itself is written: nobody can claim the action, with or without a name, and the attempt changes
-- nothing.
pub claim-excludes :
    (s t u : Store) (id : String) (max lease : ℕ) (worker other : Option String) (now later : ℕ)
    → is_named worker ≡ true
    → claim_remediation_action s id claimable max worker lease now ≡ (t, true)
    → Foreigns max id (now + lease) t u
    → later ≤ now + lease
    → claim_remediation_action u id claimable max other lease later ≡ (u, false)
claim-excludes s t u id max lease worker other now later named h r before =
    claim_refused u id max lease (now + lease) later other
      (Foreigns-Leased max id (now + lease) r (claim-Leased s t id max lease now worker named h))
      before
