-- ===== src/Arn/Parsing.antt =====
-- Printing an ARN and parsing it again.
use Prim.Native.Nat.{suc}
use text.Mathlib.TextLemmas.{nil-append, cons-append, append_assoc}
use aws_tagging_utils.Base.{ℕ, String, ◌<>◌, ◌≡◌, refl, ap, true, false, Option, none, some}
use aws_tagging_utils.Base.{List, [], ◌∷◌, arith, ◌==◌, nat_eq, string_eq, if◌then◌else◌, ◌∙◌}
use aws_tagging_utils.Base.{get_elem?}
use aws_tagging_utils.Base.Text.{split, split_max, starts_with, has_char}
use aws_tagging_utils.Arn.{Arn, parse_arn, get_region_from_arn}

-- The text of an ARN.
pub format_arn : Arn → String
format_arn a =
    "arn:"
    <> (a.partition
        <> (":"
            <> (a.service <> (":" <> (a.region <> (":" <> (a.account <> (":" <> a.resource))))))))

colon : (rest : String) → ":" <> rest ≡ String.◌∷◌ ":" rest
colon rest = cons-append ":" "" rest ∙ ap (String.◌∷◌ ":") (nil-append rest)

split_max_part :
    (n : ℕ) (part rest : String)
    → has_char b':' part ≡ false
    → split_max b':' (suc n) (part <> (":" <> rest)) ≡ part ∷ split_max b':' n rest
unfolding split_max has_char nat_eq
split_max_part n String.[] rest h = rw (nil-append, colon)
split_max_part n (String.◌∷◌ c s) rest h =
    rw cons-append (ground (arith, split_max_part n s rest (ground arith)))

split_part :
    (part rest : String)
    → has_char b':' part ≡ false
    → split b':' (part <> (":" <> rest)) ≡ part ∷ split b':' rest
unfolding split has_char nat_eq
split_part String.[] rest h = rw (nil-append, colon)
split_part (String.◌∷◌ c s) rest h =
    rw cons-append (ground (arith, split_part s rest (ground arith)))

split_max_end : (s : String) → split_max b':' 0 s ≡ s ∷ []
unfolding split_max
split_max_end String.[] = refl
split_max_end (String.◌∷◌ c s) = refl

arn_prefix : (rest : String) → "arn:" <> rest ≡ "arn" <> (":" <> rest)
arn_prefix rest = append_assoc "arn" ":" rest

starts_with_arn : (rest : String) → starts_with ("arn:" <> rest) "arn:" ≡ true
unfolding starts_with nat_eq
starts_with_arn rest =
    rw (cons-append "a" "rn:" rest, cons-append "r" "n:" rest, cons-append "n" ":" rest, colon)

-- The parts before the resource hold no colon.
pub record NoColon (a : Arn) : Type 0 where
  pub partition : has_char b':' a.partition ≡ false
  pub service : has_char b':' a.service ≡ false
  pub region : has_char b':' a.region ≡ false
  pub account : has_char b':' a.account ≡ false

-- Parsing the text of an ARN gives the ARN back, whatever stands in its resource part.
pub parse_arn-format_arn : (a : Arn) → NoColon a → parse_arn (format_arn a) ≡ some a
unfolding parse_arn format_arn has_char nat_eq
parse_arn-format_arn a h = rw (
  starts_with_arn,
  arn_prefix,
  split_max_part 4 "arn" _ refl,
  split_max_part 3 a.partition _ h.partition,
  split_max_part 2 a.service _ h.service,
  split_max_part 1 a.region _ h.region,
  split_max_part 0 a.account _ h.account,
  split_max_end,
)

split-format_arn :
    (a : Arn)
    → NoColon a
    → split b':' (format_arn a)
      ≡ "arn" ∷ a.partition ∷ a.service ∷ a.region ∷ split b':' (a.account <> (":" <> a.resource))
unfolding format_arn has_char nat_eq
split-format_arn a h = rw (
  arn_prefix,
  split_part "arn" _ refl,
  split_part a.partition _ h.partition,
  split_part a.service _ h.service,
  split_part a.region _ h.region,
)

-- The region that the tag writer groups by is the region of the ARN, if it has one.
pub get_region_from_arn-format_arn :
    (a : Arn)
    → NoColon a
    → get_region_from_arn (format_arn a) ≡ (if a.region == "" then none else some a.region)
unfolding get_region_from_arn
get_region_from_arn-format_arn a h = ap region_at (split-format_arn a h)
  where
    region_at : List String → Option String
    region_at parts = elim (get_elem? parts 3) [
      | none ↦ none
      | some region ↦ if region == "" then none else some region
    ]
