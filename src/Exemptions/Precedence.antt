-- ===== src/Exemptions/Precedence.antt =====
-- The choice among exemptions: the one of highest rank, if it is alone at that rank.
use aws_tagging_utils.Base.{ℕ, String, ◌≡◌, refl, ◌↔◌, true, false, Option, some}
use aws_tagging_utils.Base.{List, [], ◌∷◌, arith, keep, Member, Member-keep, Bool-cases}
use aws_tagging_utils.Base.{inl, inr, ◌⊎◌, if◌then◌else◌}
use aws_tagging_utils.Base.Int.{ℤ, pos, negsuc, ltb_ℤ, eq_ℤ}
use aws_tagging_utils.State.{Store, Exemption, list_exemptions}
use aws_tagging_utils.Exemptions.{
  Calendar, get_scope_rank, matches_resource, max_rank, only_one, choose, is_exempt_among,
  is_active, list_active_exemptions, is_exempt,
}

-- The rank of the first is not below that of the second.
abbrev pub NotBelow : ℤ → ℤ → Type 0
NotBelow a b = ltb_ℤ a b ≡ false

NotBelow-trans : (a b c : ℤ) → NotBelow a b → NotBelow b c → NotBelow a c
NotBelow-trans (pos a) (pos b) (pos c) h k = ground arith
NotBelow-trans (pos a) (pos b) (negsuc c) h k = refl
NotBelow-trans (pos a) (negsuc b) (pos c) h k = cc
NotBelow-trans (pos a) (negsuc b) (negsuc c) h k = refl
NotBelow-trans (negsuc a) (pos b) c h k = cc
NotBelow-trans (negsuc a) (negsuc b) (pos c) h k = cc
NotBelow-trans (negsuc a) (negsuc b) (negsuc c) h k = ground arith

NotBelow-antisym : (a b : ℤ) → NotBelow a b → NotBelow b a → a ≡ b
NotBelow-antisym (pos a) (pos b) h k = ground arith
NotBelow-antisym (pos a) (negsuc b) h k = cc
NotBelow-antisym (negsuc a) (pos b) h k = cc
NotBelow-antisym (negsuc a) (negsuc b) h k = ground arith

pub NotBelow-refl : (a : ℤ) → NotBelow a a
NotBelow-refl (pos a) = ground arith
NotBelow-refl (negsuc a) = ground arith

lt→NotBelow : (a b : ℤ) → ltb_ℤ a b ≡ true → NotBelow b a
lt→NotBelow (pos a) (pos b) h = ground arith
lt→NotBelow (pos a) (negsuc b) h = cc
lt→NotBelow (negsuc a) (pos b) h = refl
lt→NotBelow (negsuc a) (negsuc b) h = ground arith

pub eq_ℤ_iff : (a b : ℤ) → (eq_ℤ a b ≡ true) ↔ (a ≡ b)
eq_ℤ_iff a b =
    (λ h. NotBelow-antisym a b (ground arith) (ground arith), λ e. rw e (rw (NotBelow-refl b)))

abbrev pub Highest : Exemption → List Exemption → Type 0
Highest ex l = (e : Exemption) → Member e l → NotBelow (get_scope_rank ex) (get_scope_rank e)

max_rank-start : (best : ℤ) (l : List Exemption) → NotBelow (max_rank best l) best
unfolding max_rank
max_rank-start best [] = NotBelow-refl best
max_rank-start best (ex ∷ rest) =
    let r = get_scope_rank ex in
    elim (Bool-cases (ltb_ℤ best r)) [
      | inl lt ↦
          rw lt (
            NotBelow-trans (max_rank r rest) r best (max_rank-start r rest) (lt→NotBelow best r lt))
      | inr ge ↦ rw ge (max_rank-start best rest)
    ]

max_rank-Member :
    (best : ℤ) (l : List Exemption) (e : Exemption)
    → Member e l
    → NotBelow (max_rank best l) (get_scope_rank e)
unfolding max_rank
max_rank-Member best [] e m = absurd m
max_rank-Member best (ex ∷ rest) e (inr n) =
    max_rank-Member (if ltb_ℤ best (get_scope_rank ex) then get_scope_rank ex else best) rest e n
max_rank-Member best (ex ∷ rest) e (inl eq) =
    let r = get_scope_rank ex in
    rw eq (elim (Bool-cases (ltb_ℤ best r)) [
      | inl lt ↦ rw lt (max_rank-start r rest)
      | inr ge ↦ rw ge (NotBelow-trans (max_rank best rest) best r (max_rank-start best rest) ge)
    ])

-- The maximum is the start value, or the rank of an item.
pub max_rank-reached :
    (best : ℤ) (l : List Exemption)
    → (max_rank best l ≡ best)
      ⊎ ((e : Exemption) × Member e l × (max_rank best l ≡ get_scope_rank e))
unfolding max_rank
max_rank-reached best [] = inl refl
max_rank-reached best (ex ∷ rest) = elim (Bool-cases (ltb_ℤ best (get_scope_rank ex))) [
  | inl lt ↦ rw lt (elim (max_rank-reached (get_scope_rank ex) rest) [
    | inl e ↦ inr (ex, inl refl, e)
    | inr (f, m, e) ↦ inr (f, inr m, e)
  ])
  | inr ge ↦
      rw ge
        (elim (max_rank-reached best rest) [ inl e ↦ inl e | inr (f, m, e) ↦ inr (f, inr m, e) ])
]

-- The exemptions of one rank.
abbrev pub of_rank : ℤ → List Exemption → List Exemption
of_rank r l = keep (λ e. eq_ℤ (get_scope_rank e) r) l

only_one_iff : (l : List Exemption) (ex : Exemption) → (only_one l ≡ some ex) ↔ (l ≡ ex ∷ [])
unfolding only_one
only_one_iff [] ex = (λ h. cc, λ h. cc)
only_one_iff (e ∷ []) ex = (λ h. cc, λ h. cc)
only_one_iff (e ∷ f ∷ l) ex = (λ h. cc, λ h. cc)

only_one_Member :
    (r : ℤ) (l : List Exemption) (ex : Exemption)
    → of_rank r l ≡ ex ∷ []
    → Member ex l × (get_scope_rank ex ≡ r)
only_one_Member r l ex h =
    let found = Member-keep (λ e. eq_ℤ (get_scope_rank e) r) ex l (rw h (inl refl)) in
    (found.0, (eq_ℤ_iff _ _).0 found.1)

-- The choice is an exemption that is alone at its rank, with no exemption of a higher rank.
pub choose_iff :
    (l : List Exemption) (ex : Exemption)
    → (choose l ≡ some ex) ↔ ((of_rank (get_scope_rank ex) l ≡ ex ∷ []) × Highest ex l)
unfolding choose
choose_iff [] ex = (λ h. cc, λ h. absurd (only_one_Member (get_scope_rank ex) [] ex h.0).0)
choose_iff (e ∷ rest) ex =
    let top = max_rank (get_scope_rank e) rest in
    (
      λ h.
          let sole = (only_one_iff (of_rank top (e ∷ rest)) ex).0 h in
          let r = (only_one_Member top (e ∷ rest) ex sole).1 in rw r (sole, λ f m. top-highest f m),
      λ (sole, high).
          let m = (only_one_Member (get_scope_rank ex) (e ∷ rest) ex sole).0 in
          let same = NotBelow-antisym top (get_scope_rank ex) (top-highest ex m) (below high) in
          rw same ((only_one_iff (of_rank (get_scope_rank ex) (e ∷ rest)) ex).1 sole),
    )
  where
    top-highest :
        (f : Exemption)
        → Member f (e ∷ rest)
        → NotBelow (max_rank (get_scope_rank e) rest) (get_scope_rank f)
    top-highest f (inl eq) = rw eq (max_rank-start (get_scope_rank e) rest)
    top-highest f (inr n) = max_rank-Member (get_scope_rank e) rest f n

    below : Highest ex (e ∷ rest) → NotBelow (get_scope_rank ex) (max_rank (get_scope_rank e) rest)
    below high = elim (max_rank-reached (get_scope_rank e) rest) [
      | inl q ↦ rw q (high e (inl refl))
      | inr (f, n, q) ↦ rw q (high f (inr n))
    ]

module _ (cal : Calendar) (s : Store) (now : ℕ) (account_id resource_type resource_id : String)
    (environment : Option String) where
  -- The active exemptions that match the resource.
  abbrev pub matching : List Exemption
  matching =
      keep (λ ex. matches_resource ex account_id resource_type resource_id environment)
        (list_active_exemptions cal s now)

  -- `is_exempt` returns an exemption if and only if it is the only active match of its rank and no
  -- active match has a higher rank.
  pub is_exempt_iff :
      (ex : Exemption)
      → (is_exempt cal s now account_id resource_type resource_id environment ≡ some ex)
        ↔ ((of_rank (get_scope_rank ex) matching ≡ ex ∷ []) × Highest ex matching)
  unfolding is_exempt is_exempt_among
  is_exempt_iff ex = choose_iff matching ex

  -- What `is_exempt` returns is stored, active at this time, and matches the resource.
  pub is_exempt_sound :
      (ex : Exemption)
      → is_exempt cal s now account_id resource_type resource_id environment ≡ some ex
      → Member ex (list_exemptions s)
        × (is_active cal ex now ≡ true)
        × (matches_resource ex account_id resource_type resource_id environment ≡ true)
  unfolding list_active_exemptions
  is_exempt_sound ex h =
      let sole = ((is_exempt_iff ex).0 h).0 in
      let found = Member-keep _ ex _ (only_one_Member (get_scope_rank ex) matching ex sole).0 in
      let stored = Member-keep (λ e. is_active cal e now) ex (list_exemptions s) found.0 in
      (stored.0, stored.1, found.1)
