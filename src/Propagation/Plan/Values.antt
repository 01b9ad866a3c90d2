-- ===== src/Propagation/Plan/Values.antt =====
-- What a fix with "overwrite" writes: the values of a finding's missing and mismatched keys.
use aws_tagging_utils.Base.{String, true, ◌≡◌, refl, none, some}
use aws_tagging_utils.Base.{[], ◌∷◌, ◌==◌, string_eq, if◌then◌else◌, arith}
use aws_tagging_utils.Base.Dict
use aws_tagging_utils.Base.Dict.{Dict, NodupKeys}
use aws_tagging_utils.Governance.Models.{Tags}
use aws_tagging_utils.Propagation.{missing_of, mismatched_of}
use aws_tagging_utils.Propagation.Plan.{expected_values, fix_tags}

get-missing_of :
    (tags expected : Tags) (k : String)
    → Dict.get (missing_of tags expected) k
      ≡ (if Dict.has_key tags k then none else Dict.get expected k)
unfolding missing_of Dict.get Dict.has_key
get-missing_of tags [] k = ground arith
get-missing_of tags ((j, v) ∷ expected) k = ground (arith, get-missing_of tags expected k)

-- The value that a mismatch gives a key.
get-expected_values-none :
    (tags expected : Tags) (k : String)
    → Dict.get expected k ≡ none
    → Dict.get (expected_values (mismatched_of tags expected)) k ≡ none
unfolding expected_values mismatched_of Dict.get
get-expected_values-none tags [] k h = refl
get-expected_values-none tags ((j, v) ∷ expected) k h =
    ground (arith, get-expected_values-none tags expected k)

get-expected_values-some :
    (tags expected : Tags) (k v : String)
    → NodupKeys expected
    → Dict.get expected k ≡ some v
    → Dict.get (expected_values (mismatched_of tags expected)) k
      ≡ (elim (Dict.get tags k) [ none ↦ none | some w ↦ if w == v then none else some v ])
unfolding expected_values mismatched_of Dict.get
get-expected_values-some tags [] k v u h = absurd (cc)
get-expected_values-some tags ((j, w) ∷ expected) k v (fresh, u) h =
    ground (
      arith,
      get-expected_values-some tags expected k v u,
      get-expected_values-none tags expected k,
    )

expected_values-NodupKeys :
    (tags expected : Tags)
    → NodupKeys expected
    → NodupKeys (expected_values (mismatched_of tags expected))
unfolding expected_values mismatched_of Dict.get
expected_values-NodupKeys tags [] u = tt
expected_values-NodupKeys tags ((j, w) ∷ expected) (fresh, u) = ground (
  arith,
  expected_values-NodupKeys tags expected u,
  get-expected_values-none tags expected j fresh,
)

missing_of-NodupKeys :
    (tags expected : Tags) → NodupKeys expected → NodupKeys (missing_of tags expected)
unfolding missing_of Dict.get Dict.has_key
missing_of-NodupKeys tags [] u = tt
missing_of-NodupKeys tags ((j, w) ∷ expected) (fresh, u) =
    ground (arith, missing_of-NodupKeys tags expected u, get-missing_of tags expected j)

-- The tags of a fix with "overwrite" set every expected key that differs.
get-fix_tags :
    (tags expected : Tags) (k v : String)
    → NodupKeys expected
    → Dict.get expected k ≡ some v
    → Dict.get (fix_tags true (missing_of tags expected) (mismatched_of tags expected)) k
      ≡ (elim (Dict.get tags k) [ none ↦ some v | some w ↦ if w == v then none else some v ])
unfolding fix_tags Dict.has_key
get-fix_tags tags expected k v u h = ground (
  arith,
  get-missing_of tags expected k,
  get-expected_values-some tags expected k v u h,
  Dict.get-update-none (missing_of tags expected) (expected_values (mismatched_of tags expected)) k,
  Dict.get-update-some (missing_of tags expected) (expected_values (mismatched_of tags expected)) k
      v (expected_values-NodupKeys tags expected u),
)

-- Whether the target is new or the fix is empty, the child's tags then have what is expected.
fixed :
    (tags fix : Tags) (k v : String)
    → NodupKeys fix
    → Dict.get fix k
      ≡ (elim (Dict.get tags k) [ none ↦ some v | some w ↦ if w == v then none else some v ])
    → Dict.get (Dict.update tags (Dict.update [] fix)) k ≡ some v
unfolding Dict.get
fixed tags fix k v u h = ground (
  arith,
  Dict.get-update-none [] fix k,
  Dict.get-update-some [] fix k v u,
  Dict.get-update-none tags (Dict.update [] fix) k,
  Dict.get-update-some tags (Dict.update [] fix) k v (Dict.update-NodupKeys [] fix tt),
)

pub get-fixed :
    (tags expected : Tags) (k v : String)
    → NodupKeys expected
    → Dict.get expected k ≡ some v
    → Dict.get
        (Dict.update tags
          (Dict.update [] (fix_tags true (missing_of tags expected) (mismatched_of tags expected))))
        k
      ≡ some v
unfolding fix_tags
get-fixed tags expected k v u h =
    fixed tags (fix_tags true (missing_of tags expected) (mismatched_of tags expected)) k v
      (Dict.update-NodupKeys (missing_of tags expected)
        (expected_values (mismatched_of tags expected)) (missing_of-NodupKeys tags expected u))
      (get-fix_tags tags expected k v u h)
