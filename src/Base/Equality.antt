-- ===== src/Base/Equality.antt =====
-- Python's `==` and `in`, for every type whose equality can be decided.
use Prim.Native.Nat.{ℕ}
use Prim.Native.String.{String}
use mathlib.Core.Path.{refl, ap, sym}
use mathlib.Core.Logic.{ite, dite}
use mathlib.Core.Bool.{Bool, true, false, cond, ◌||◌, Bool-discrete}
use mathlib.Core.Option.{Option, none, some, none-ne-some, some-ne-none, some-injective}
use mathlib.Core.List.{List, [], ◌∷◌, cons≢nil}
use native.Mathlib.Decide.{ℕ_discrete}
use text.Mathlib.Text
use text.Mathlib.TextEquality.{eq_iff}

infix 1 if◌then◌else◌
abbrev pub if◌then◌else◌ {ℓ} : {A : Type ℓ} → Bool → A → A → A
if b then x else y = cond b x y

pub record Eq {ℓ} (A : Type ℓ) : Type ℓ where
  pub dec : Discrete A

module _ {ℓ} {A : Type ℓ} ⦃e : Eq A⦄ where
  infix 50 ◌==◌
  abbrev pub ◌==◌ : A → A → Bool
  a == b = ite (e.dec a b) true false

  -- `a in xs`
  abbrev pub contains : List A → A → Bool
  contains [] a = false
  contains (x ∷ xs) a = a == x || contains xs a

  option_dec : Discrete (Option A)
  option_dec none none = yes refl
  option_dec none (some b) = no (none-ne-some b)
  option_dec (some a) none = no (some-ne-none a)
  option_dec (some a) (some b) =
      dite (e.dec a b) (λ p. yes (ap some p)) (λ n. no (λ p. n (some-injective a b p)))

  instance unfoldable pub option_eq : Eq (Option A)
  unfolding option_dec
  option_eq = record { dec = option_dec }

-- Shut in proofs, where a split on `s == t` yields the equation or its negation.
instance unfoldable pub string_eq : Eq String
string_eq = record {
  dec = λ s t.
      dite (Bool-discrete (Text.◌==◌ s t) true) (λ same. yes ((eq_iff s t).0 same))
        (λ differ. no (λ p. differ ((eq_iff s t).1 p)));
}

instance unfoldable pub nat_eq : Eq ℕ
unfolding ℕ_discrete
nat_eq = record { dec = ℕ_discrete }

module _ {ℓ κ} {A : Type ℓ} {B : Type κ} ⦃a : Eq A⦄ ⦃b : Eq B⦄ where
  pair_dec : Discrete (A × B)
  pair_dec p q =
      dite (a.dec p.0 q.0)
        (λ e.
          dite (b.dec p.1 q.1) (λ f. yes (λ i. (e i, f i))) (λ n. no (λ r. n (ap (λ x. x.1) r))))
        (λ n. no (λ r. n (ap (λ x. x.0) r)))

  instance unfoldable pub pair_eq : Eq (A × B)
  unfolding pair_dec
  pair_eq = record { dec = pair_dec }

module _ {ℓ} {A : Type ℓ} ⦃a : Eq A⦄ where
  list_dec : Discrete (List A)
  list_dec [] [] = yes refl
  list_dec [] (y ∷ ys) = no (λ p. cons≢nil (sym p))
  list_dec (x ∷ xs) [] = no (λ p. cons≢nil p)
  list_dec (x ∷ xs) (y ∷ ys) =
      dite (a.dec x y)
        (λ e. dite (list_dec xs ys) (λ f. yes (λ i. e i ∷ f i)) (λ n. no (λ r. n (cc r))))
        (λ n. no (λ r. n (cc r)))

  instance unfoldable pub list_eq : Eq (List A)
  unfolding list_dec
  list_eq = record { dec = list_dec }
