-- ===== src/Exemptions/Totality.antt =====
-- Among exemptions with different scopes and no empty scope field, a match is never ambiguous.
use aws_tagging_utils.Base.{ℕ, String, ◌≡◌, refl, ◌≢◌, ◌∙◌, sym, Bool, true, false}
use aws_tagging_utils.Base.{Option, none, some, List, [], ◌∷◌, arith, keep, All, Member}
use aws_tagging_utils.Base.{All-Member, Member-keep, Bool-cases, inl, inr, ◌⊎◌}
use aws_tagging_utils.Base.{string_eq, option_eq, keep-eq-nil_iff}
use aws_tagging_utils.Base.Int.{ℤ, pos, eq_ℤ}
use aws_tagging_utils.State.{Store, Exemption}
use aws_tagging_utils.Exemptions.{
  Calendar, has, get_scope_rank, matches_resource, choose, max_rank, is_exempt_among,
  list_active_exemptions, is_exempt, same_scope,
}
use aws_tagging_utils.Exemptions.Precedence.{eq_ℤ_iff, max_rank-reached, of_rank, matching}
use aws_tagging_utils.Exemptions.Conflicts.{AllApart}

-- No scope field holds the empty text.
abbrev pub NoBlank : Exemption → Type 0
NoBlank e =
    (e.resource_id ≢ some "")
    × (e.resource_type ≢ some "")
    × (e.environment ≢ some "")
    × (e.account_id ≢ some "")

has-none : (o : Option String) → o ≢ some "" → has o ≡ false → o ≡ none
unfolding has
has-none none h e = refl
has-none (some s) h e = ground (arith, h)

module _ (account_id resource_type resource_id : String) (environment : Option String) where
  -- The scope fields of a match without empty fields follow from its rank.
  abbrev RankScope : Exemption → Type 0
  RankScope e =
      ((get_scope_rank e ≡ pos 5)
        × (e.resource_id ≡ some resource_id)
        × (e.resource_type ≡ none)
        × (e.environment ≡ none)
        × (e.account_id ≡ none))
      ⊎ ((get_scope_rank e ≡ pos 4)
          × (e.resource_id ≡ none)
          × (e.resource_type ≡ some resource_type)
          × (e.environment ≡ environment)
          × (e.account_id ≡ none))
      ⊎ ((get_scope_rank e ≡ pos 3)
          × (e.resource_id ≡ none)
          × (e.resource_type ≡ some resource_type)
          × (e.environment ≡ none)
          × (e.account_id ≡ none))
      ⊎ ((get_scope_rank e ≡ pos 2)
          × (e.resource_id ≡ none)
          × (e.resource_type ≡ none)
          × (e.environment ≡ environment)
          × (e.account_id ≡ some account_id))
      ⊎ ((get_scope_rank e ≡ pos 1)
          × (e.resource_id ≡ none)
          × (e.resource_type ≡ none)
          × (e.environment ≡ none)
          × (e.account_id ≡ some account_id))

  rank_scope :
      (e : Exemption)
      → NoBlank e
      → matches_resource e account_id resource_type resource_id environment ≡ true
      → RankScope e
  unfolding matches_resource get_scope_rank
  rank_scope e (b1, b2, b3, b4) h = ground (
    arith,
    has-none e.resource_id b1,
    has-none e.resource_type b2,
    has-none e.environment b3,
    has-none e.account_id b4,
  )

  match-same_scope :
      (e f : Exemption)
      → NoBlank e
      → NoBlank f
      → matches_resource e account_id resource_type resource_id environment ≡ true
      → matches_resource f account_id resource_type resource_id environment ≡ true
      → get_scope_rank e ≡ get_scope_rank f
      → same_scope e f ≡ true
  unfolding same_scope
  match-same_scope e f be bf me mf r = ground (
    arith,
    rank_scope e be me,
    rank_scope f bf mf,
    (eq_ℤ_iff (get_scope_rank e) (get_scope_rank f)).1 r,
  )

-- Exemptions of one rank have one scope.
abbrev RankDecides : List Exemption → Type 0
RankDecides l =
    (e f : Exemption)
    → Member e l
    → Member f l
    → get_scope_rank e ≡ get_scope_rank f
    → same_scope e f ≡ true

All-keep :
    (p q : Exemption → Bool) (l : List Exemption)
    → All (λ f. q f ≡ false) l
    → All (λ f. q f ≡ false) (keep p l)
unfolding keep
All-keep p q [] h = tt
All-keep p q (e ∷ l) (x, h) = ground (arith, All-keep p q l h)

AllApart-keep : (p : Exemption → Bool) (l : List Exemption) → AllApart l → AllApart (keep p l)
unfolding keep
AllApart-keep p [] a = tt
AllApart-keep p (e ∷ l) (apart, a) =
    ground (arith, All-keep p (same_scope e) l apart, AllApart-keep p l a)

rank_alone :
    (r : ℤ) (l : List Exemption)
    → AllApart l
    → RankDecides l
    → (of_rank r l ≡ []) ⊎ ((e : Exemption) × (of_rank r l ≡ e ∷ []))
unfolding keep
rank_alone r [] a d = inl refl
rank_alone r (e ∷ l) (apart, a) d = elim (Bool-cases (eq_ℤ (get_scope_rank e) r)) [
  | inl same ↦
      let rest : of_rank r l ≡ [] = (keep-eq-nil_iff _ l).1 (λ f m. others same f m) in
      inr (e, rw same (rw rest))
  | inr other ↦ rw other (rank_alone r l a (λ x y m n. d x y (inr m) (inr n)))
]
  where
    others :
        eq_ℤ (get_scope_rank e) r ≡ true
        → (f : Exemption) → Member f l
        → eq_ℤ (get_scope_rank f) r ≡ false
    others same f m = elim (Bool-cases (eq_ℤ (get_scope_rank f) r)) [
      | inr differs ↦ differs
      | inl equal ↦
          let clash =
            d e f (inl refl) (inr m) ((eq_ℤ_iff _ _).0 same ∙ sym ((eq_ℤ_iff _ _).0 equal)) in
          absurd (cc (clash, All-Member (λ f. same_scope e f ≡ false) f l apart m))
    ]

choose-total :
    (e : Exemption) (rest : List Exemption)
    → AllApart (e ∷ rest)
    → RankDecides (e ∷ rest)
    → (x : Exemption) × (choose (e ∷ rest) ≡ some x)
unfolding choose
choose-total e rest a d =
    let top = max_rank (get_scope_rank e) rest in
    elim (rank_alone top (e ∷ rest) a d) [
      | inr (x, sole) ↦ (x, rw sole)
      | inl nothing ↦ absurd (elim (max_rank-reached (get_scope_rank e) rest) [
        | inl q ↦ unreached nothing e (inl refl) q
        | inr (f, m, q) ↦ unreached nothing f (inr m) q
      ])
    ]
  where
    unreached :
        of_rank (max_rank (get_scope_rank e) rest) (e ∷ rest) ≡ []
        → (f : Exemption) → Member f (e ∷ rest)
        → max_rank (get_scope_rank e) rest ≡ get_scope_rank f
        → ⊥
    unreached nothing f m q =
        cc ((keep-eq-nil_iff _ (e ∷ rest)).0 nothing f m, (eq_ℤ_iff _ _).1 (sym q))

module _ (cal : Calendar) (s : Store) (now : ℕ) (account_id resource_type resource_id : String)
    (environment : Option String) where
  -- Where the active exemptions have different scopes, and no scope field is an empty text, a
  -- resource that some active exemption matches is exempt.
  pub is_exempt-total :
      AllApart (list_active_exemptions cal s now)
      → ((e : Exemption) → Member e (list_active_exemptions cal s now) → NoBlank e)
      → (e : Exemption)
      → Member e (matching cal s now account_id resource_type resource_id environment)
      → (x : Exemption) × (is_exempt cal s now account_id resource_type resource_id environment
          ≡ some x)
  unfolding is_exempt is_exempt_among
  is_exempt-total apart clean e m =
      found (matching cal s now account_id resource_type resource_id environment)
        (AllApart-keep _ _ apart) decided m
    where
      decided : RankDecides (matching cal s now account_id resource_type resource_id environment)
      decided x y mx my r =
          let (ax, hx) = Member-keep _ x _ mx in
          let (ay, hy) = Member-keep _ y _ my in
          match-same_scope account_id resource_type resource_id environment x y (clean x ax)
            (clean y ay) hx hy r

      found :
          (l : List Exemption)
          → AllApart l
          → RankDecides l
          → Member e l
          → (x : Exemption) × (choose l ≡ some x)
      found [] a d n = absurd n
      found (f ∷ l) a d n = choose-total f l a d
