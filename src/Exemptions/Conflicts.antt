-- ===== src/Exemptions/Conflicts.antt =====
-- Creation keeps active exemptions apart, so that the choice among them never fails.
use mathlib.Core.Path.{subst}
use mathlib.Core.List.{append-nil}
use aws_tagging_utils.Base.{ℕ, if◌then◌else◌, String, ◌≡◌, refl, Bool, true, false}
use aws_tagging_utils.Base.{Option, none, List, [], ◌∷◌, ◌++◌, arith, keep, All}
use aws_tagging_utils.Base.{Bool-cases, inl, inr, keep-append}
use aws_tagging_utils.Base.{string_eq, option_eq}
use aws_tagging_utils.Base.Dict
use aws_tagging_utils.Base.Dict.{Dict}
use aws_tagging_utils.Errors.{Result, ok, err}
use aws_tagging_utils.State.{Store, Exemption, values, list_exemptions, put_exemption}
use aws_tagging_utils.Exemptions.{
  Calendar, is_valid_scope, is_active, list_active_exemptions, ExemptionData, same_scope,
  any_conflict, new_exemption, clean_reason, clean_expiry, store_exemption, create_exemption,
}

-- No two exemptions of the list have one scope.
abbrev pub AllApart : List Exemption → Type 0
AllApart [] = Unit
AllApart (e ∷ l) = All (λ f. same_scope e f ≡ false) l × AllApart l

any_conflict→All :
    (l : List Exemption) (new : Exemption)
    → any_conflict l new ≡ false
    → All (λ e. same_scope e new ≡ false) l
unfolding any_conflict
any_conflict→All [] new h = tt
any_conflict→All (e ∷ l) new h = (ground arith, any_conflict→All l new (ground arith))

AllApart-snoc :
    (l : List Exemption) (new : Exemption)
    → AllApart l
    → All (λ e. same_scope e new ≡ false) l
    → AllApart (l ++ (new ∷ []))
AllApart-snoc [] new a h = (tt, tt)
AllApart-snoc (e ∷ l) new (apart, a) (q, h) = (apart_snoc l apart q, AllApart-snoc l new a h)
  where
    apart_snoc :
        (l : List Exemption)
        → All (λ f. same_scope e f ≡ false) l
        → same_scope e new ≡ false
        → All (λ f. same_scope e f ≡ false) (l ++ (new ∷ []))
    apart_snoc [] apart q = (q, tt)
    apart_snoc (f ∷ l) (p, apart) q = (p, apart_snoc l apart q)

values-insert_fresh :
    (d : Dict String Exemption) (k : String) (v : Exemption)
    → Dict.get d k ≡ none
    → values (Dict.insert d k v) ≡ values d ++ (v ∷ [])
unfolding Dict.get Dict.insert
values-insert_fresh [] k v h = refl
values-insert_fresh ((j, w) ∷ d) k v h = ground (arith, values-insert_fresh d k v (ground arith))

keep_one : (p : Exemption → Bool) (e : Exemption) → keep p (e ∷ []) ≡ (if p e then e ∷ [] else [])
unfolding keep
keep_one p e = refl

module _ (cal : Calendar) where
  -- At this time, the active exemptions of the store have different scopes.
  abbrev pub ScopesApart : Store → ℕ → Type 0
  ScopesApart s now = AllApart (list_active_exemptions cal s now)

  put_exemption-ScopesApart :
      (s : Store) (now : ℕ) (new : Exemption)
      → Dict.get s.exemptions new.id ≡ none
      → ScopesApart s now
      → any_conflict (list_active_exemptions cal s now) new ≡ false
      → ScopesApart (put_exemption s new) now
  unfolding list_active_exemptions list_exemptions put_exemption
  put_exemption-ScopesApart s now new fresh apart free =
      let active = λ (e : Exemption). is_active cal e now in
      rw (values-insert_fresh s.exemptions new.id new fresh, keep-append, keep_one active new)
        (added (keep active (values s.exemptions)) (active new) apart (any_conflict→All _ new free))
    where
      added :
          (l : List Exemption) (b : Bool)
          → AllApart l
          → All (λ e. same_scope e new ≡ false) l
          → AllApart (l ++ (if b then new ∷ [] else []))
      added l true a h = AllApart-snoc l new a h
      added l false a h = rw append-nil a

  store_exemption-eq-ok :
      (s t : Store) (now : ℕ) (new ex : Exemption)
      → store_exemption cal s now new ≡ ok (ex, t)
      → (any_conflict (list_active_exemptions cal s now) new ≡ false) × (put_exemption s new ≡ t)
  unfolding store_exemption
  store_exemption-eq-ok s t now new ex h = ground arith

  -- What a creation that succeeds has stored: the record of the checked data.
  create_exemption-eq-ok :
      (s t : Store) (now : ℕ) (data_ : ExemptionData) (actor exemption_id : String) (ex : Exemption)
      → create_exemption cal s now data_ actor exemption_id ≡ ok (ex, t)
      → (reason expires_at : Option String) × (store_exemption cal s now
            (new_exemption data_ reason expires_at actor exemption_id now)
          ≡ ok (ex, t))
  unfolding create_exemption
  create_exemption-eq-ok s t now data_ actor exemption_id ex h =
      elim (Bool-cases (
        is_valid_scope
          (new_exemption data_ data_.reason data_.expires_at actor exemption_id now))) [
            | inr bad ↦ absurd (ground arith)
            | inl good ↦
                checked (clean_reason data_.reason) (clean_expiry cal data_.expires_at)
                  (rw good at h)
          ]
    where
      checked :
          (r : Result (Option String)) (q : Result (Option String))
          → elim r [
            | err e ↦ err e
            | ok reason ↦ elim q [
              | err e ↦ err e
              | ok expires_at ↦
                  store_exemption cal s now
                    (new_exemption data_ reason expires_at actor exemption_id now)
            ]
          ]
            ≡ ok (ex, t)
          → (reason expires_at : Option String) × (store_exemption cal s now
                (new_exemption data_ reason expires_at actor exemption_id now)
              ≡ ok (ex, t))
      checked (err e) q h = absurd (cc)
      checked (ok reason) (err e) h = absurd (cc)
      checked (ok reason) (ok expires_at) h = (reason, expires_at, h)

  -- A creation that succeeds, under a fresh id, keeps the active exemptions apart.
  pub create_exemption-ScopesApart :
      (s t : Store) (now : ℕ) (data_ : ExemptionData) (actor exemption_id : String) (ex : Exemption)
      → Dict.get s.exemptions exemption_id ≡ none
      → ScopesApart s now
      → create_exemption cal s now data_ actor exemption_id ≡ ok (ex, t)
      → ScopesApart t now
  unfolding new_exemption
  create_exemption-ScopesApart s t now data_ actor exemption_id ex fresh apart h =
      let (reason, expires_at, stored) =
        create_exemption-eq-ok s t now data_ actor exemption_id ex h in
      let new = new_exemption data_ reason expires_at actor exemption_id now in
      let (free, e) = store_exemption-eq-ok s t now new ex stored in
      subst (λ u. ScopesApart u now) e (put_exemption-ScopesApart s now new fresh apart free)
