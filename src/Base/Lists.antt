-- ===== src/Base/Lists.antt =====
-- Lists measured by native numbers, and Boolean tests over them.
use Prim.Native.Nat.{ℕ, zero, suc, ◌+◌, ◌≤◌}
use mathlib.Core.Path.{◌≡◌, refl}
use mathlib.Core.Bool.{Bool, true, false, cond}
use mathlib.Core.Logic.{◌⊎◌, ◌↔◌, inl, inr}
use mathlib.Core.Option.{Option, none, some}
use mathlib.Core.List.{List, [], ◌∷◌, ◌++◌}
use native.Mathlib.Omega.{arith}
use mathlib.Core.Bool.{◌||◌}
use aws_tagging_utils.Base.Equality.{Eq, contains}
use aws_tagging_utils.Base.Numbers.{Bool-cases}

module _ {ℓ} {A : Type ℓ} where
  abbrev pub length : List A → ℕ
  length [] = 0
  length (x ∷ xs) = suc (length xs)

  abbrev pub take : ℕ → List A → List A
  take zero xs = []
  take (suc n) [] = []
  take (suc n) (x ∷ xs) = x ∷ take n xs

  abbrev pub drop : ℕ → List A → List A
  drop zero xs = xs
  drop (suc n) [] = []
  drop (suc n) (x ∷ xs) = drop n xs

  abbrev pub get_elem? : List A → ℕ → Option A
  get_elem? [] i = none
  get_elem? (x ∷ xs) zero = some x
  get_elem? (x ∷ xs) (suc i) = get_elem? xs i

  abbrev pub is_empty : List A → Bool
  is_empty [] = true
  is_empty (x ∷ xs) = false

  -- `[x for x in xs if p(x)]`
  unfoldable pub keep : (A → Bool) → List A → List A
  keep p [] = []
  keep p (x ∷ xs) = cond (p x) (x ∷ keep p xs) (keep p xs)

  -- A loop that appends what it finds.
  unfoldable pub collect {κ} : {B : Type κ} → (A → Option B) → List A → List B
  collect f [] = []
  collect f (x ∷ xs) = elim (f x) [ none ↦ collect f xs | some y ↦ y ∷ collect f xs ]

  -- A predicate of every item, by recursion: it computes to tuples.
  abbrev pub All {κ} : (A → Type κ) → List A → Type κ
  All P [] = Unit
  All P (x ∷ xs) = P x × All P xs

  pub All-append {κ} : (P : A → Type κ) (xs ys : List A) → All P xs → All P ys → All P (xs ++ ys)
  All-append P [] ys h k = k
  All-append P (x ∷ xs) ys (p, h) k = (p, All-append P xs ys h k)

  pub All-left {κ} : (P : A → Type κ) (xs ys : List A) → All P (xs ++ ys) → All P xs
  All-left P [] ys h = tt
  All-left P (x ∷ xs) ys (p, h) = (p, All-left P xs ys h)

  pub All-right {κ} : (P : A → Type κ) (xs ys : List A) → All P (xs ++ ys) → All P ys
  All-right P [] ys h = h
  All-right P (x ∷ xs) ys (p, h) = All-right P xs ys h

  pub All-map {κ} : (P Q : A → Type κ) (xs : List A) → ((x : A) → P x → Q x) → All P xs → All Q xs
  All-map P Q [] f h = tt
  All-map P Q (x ∷ xs) f (p, h) = (f x p, All-map P Q xs f h)

  -- The items that pass a test, where all of them satisfy a predicate that the test refutes.
  pub keep-eq-nil : (p : A → Bool) (xs : List A) → All (λ x. p x ≡ false) xs → keep p xs ≡ []
  unfolding keep
  keep-eq-nil p [] h = refl
  keep-eq-nil p (x ∷ xs) (e, h) = ground (arith, keep-eq-nil p xs h)

  pub keep-append : (p : A → Bool) (xs ys : List A) → keep p (xs ++ ys) ≡ keep p xs ++ keep p ys
  unfolding keep
  keep-append p [] ys = refl
  keep-append p (x ∷ xs) ys = ground (arith, keep-append p xs ys)

  pub keep-eq_self : (p : A → Bool) (xs : List A) → All (λ x. p x ≡ true) xs → keep p xs ≡ xs
  unfolding keep
  keep-eq_self p [] h = refl
  keep-eq_self p (x ∷ xs) (e, h) = ground (arith, keep-eq_self p xs h)

  pub append-eq-nil_iff : (xs ys : List A) → (xs ++ ys ≡ []) ↔ ((xs ≡ []) × (ys ≡ []))
  append-eq-nil_iff [] ys = (λ h. (refl, h), λ h. h.1)
  append-eq-nil_iff (x ∷ xs) ys = (λ h. absurd (cc), λ h. absurd (cc h.0))

  pub is_empty_iff : (xs : List A) → (is_empty xs ≡ true) ↔ (xs ≡ [])
  is_empty_iff [] = (λ h. refl, λ h. refl)
  is_empty_iff (x ∷ xs) = (λ h. cc, λ h. cc)

module _ {ℓ κ μ} {A : Type ℓ} {B : Type κ} where
  pub collect-All :
      (P : B → Type μ) (f : A → Option B) (xs : List A)
      → ((x : A) (y : B) → f x ≡ some y → P y)
      → All P (collect f xs)
  unfolding collect
  collect-All P f [] h = tt
  collect-All P f (x ∷ xs) h = found (f x) refl (collect-All P f xs h)
    where
      found :
          (o : Option B)
          → f x ≡ o
          → All P (collect f xs)
          → All P (elim o [ none ↦ collect f xs | some y ↦ y ∷ collect f xs ])
      found none e more = more
      found (some y) e more = (h x y e, more)

-- `x` stands in the list, at a place.
abbrev pub Member : {A : Type 0} → A → List A → Type 0
Member x [] = ⊥
Member x (y ∷ ys) = (x ≡ y) ⊎ Member x ys

module _ {A : Type 0} where
  pub Member-append_left : (x : A) (xs ys : List A) → Member x xs → Member x (xs ++ ys)
  Member-append_left x [] ys m = absurd m
  Member-append_left x (y ∷ xs) ys (inl e) = inl e
  Member-append_left x (y ∷ xs) ys (inr m) = inr (Member-append_left x xs ys m)

  pub Member-append_right : (x : A) (xs ys : List A) → Member x ys → Member x (xs ++ ys)
  Member-append_right x [] ys m = m
  Member-append_right x (y ∷ xs) ys m = inr (Member-append_right x xs ys m)

  pub All-Member {κ} : (P : A → Type κ) (x : A) (xs : List A) → All P xs → Member x xs → P x
  All-Member P x [] h m = absurd m
  All-Member P x (y ∷ xs) (p, h) (inl e) = rw e p
  All-Member P x (y ∷ xs) (p, h) (inr m) = All-Member P x xs h m

  pub collect-eq-nil_iff :
      {B : Type 0} (f : A → Option B) (xs : List A)
      → (collect f xs ≡ []) ↔ ((x : A) → Member x xs → f x ≡ none)
  unfolding collect
  collect-eq-nil_iff f [] = (λ h x m. absurd m, λ h. refl)
  collect-eq-nil_iff f (y ∷ xs) =
      let ih = collect-eq-nil_iff f xs in
      (
        λ h x m. elim m [ inl e ↦ ground arith | inr n ↦ ih.0 (ground arith) x n ],
        λ h. ground (arith, h y (inl refl), ih.1 (λ x m. h x (inr m))),
      )

  pub keep-eq-nil_iff :
      (p : A → Bool) (xs : List A) → (keep p xs ≡ []) ↔ ((x : A) → Member x xs → p x ≡ false)
  unfolding keep
  keep-eq-nil_iff p [] = (λ h x m. absurd m, λ h. refl)
  keep-eq-nil_iff p (y ∷ xs) =
      let ih = keep-eq-nil_iff p xs in
      (
        λ h x m. elim m [ inl e ↦ ground arith | inr n ↦ ih.0 (ground arith) x n ],
        λ h. ground (arith, h y (inl refl), ih.1 (λ x m. h x (inr m))),
      )

  pub Member-keep :
      (p : A → Bool) (x : A) (xs : List A) → Member x (keep p xs) → Member x xs × (p x ≡ true)
  unfolding keep
  Member-keep p x [] m = absurd m
  Member-keep p x (y ∷ xs) m = elim (Bool-cases (p y)) [
    | inl e ↦ kept e (Member-keep p x xs) (rw (e, cond) at m)
    | inr e ↦ let r = Member-keep p x xs (rw (e, cond) at m) in (inr r.0, r.1)
  ]
    where
      kept :
          p y ≡ true
          → (Member x (keep p xs) → Member x xs × (p x ≡ true))
          → (x ≡ y) ⊎ Member x (keep p xs)
          → ((x ≡ y) ⊎ Member x xs) × (p x ≡ true)
      kept e below (inl q) = (inl q, rw q e)
      kept e below (inr n) = let r = below n in (inr r.0, r.1)

module _ {A : Type 0} ⦃e : Eq A⦄ where
  pub contains-append :
      (xs ys : List A) (a : A) → contains (xs ++ ys) a ≡ (contains xs a || contains ys a)
  contains-append [] ys a = refl
  contains-append (x ∷ xs) ys a = ground (arith, contains-append xs ys a)

  -- Filtering changes the membership of no item that passes the test.
  pub contains-keep :
      (p : A → Bool) (xs : List A) (a : A) → p a ≡ true → contains (keep p xs) a ≡ contains xs a
  unfolding keep
  contains-keep p [] a h = refl
  contains-keep p (x ∷ xs) a h = ground (arith, contains-keep p xs a h)

  pub contains-keep-false :
      (p : A → Bool) (xs : List A) (a : A) → p a ≡ false → contains (keep p xs) a ≡ false
  unfolding keep
  contains-keep-false p [] a h = refl
  contains-keep-false p (x ∷ xs) a h = ground (arith, contains-keep-false p xs a h)

module _ {A : Type 0} where
  pub length-keep-le : (p : A → Bool) (xs : List A) → length (keep p xs) ≤ length xs
  unfolding keep
  length-keep-le p [] = omega arith
  length-keep-le p (x ∷ xs) = ground (arith, length-keep-le p xs)

  pub length-append : (xs ys : List A) → length (xs ++ ys) ≡ length xs + length ys
  length-append [] ys = omega arith
  length-append (x ∷ xs) ys = omega (arith, length-append xs ys)

  pub All-each {κ} : (P : A → Type κ) (xs : List A) → ((x : A) → P x) → All P xs
  All-each P [] f = tt
  All-each P (x ∷ xs) f = (f x, All-each P xs f)
