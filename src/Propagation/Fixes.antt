-- ===== src/Propagation/Fixes.antt =====
-- When a child has no finding, and that a fix leaves none.
use aws_tagging_utils.Base.{String, ◌≡◌, refl, true, none, some}
use aws_tagging_utils.Base.{[], ◌∷◌, string_eq, if◌then◌else◌, is_empty, arith}
use aws_tagging_utils.Base.Dict
use aws_tagging_utils.Base.Dict.{Dict, NodupKeys}
use aws_tagging_utils.Runtime.{Runtime}
use aws_tagging_utils.Governance.Models.{Tags}
use aws_tagging_utils.Propagation.{
  Settings, Child, missing_of, mismatched_of, propagates, propagated_keys, finding_of,
}

module _ (rt : Runtime) (settings : Settings) where
  -- Of tags without a double key, those that a parent passes on are the ones whose key and value
  -- propagate, with their values.
  pub get-propagated_keys :
      (tags : Tags) (k : String)
      → NodupKeys tags
      → Dict.get (propagated_keys rt settings tags) k ≡ (elim (Dict.get tags k) [
        | none ↦ none
        | some v ↦ if propagates rt settings k v then some v else none
      ])
  unfolding propagated_keys Dict.get
  get-propagated_keys [] k u = refl
  get-propagated_keys ((j, w) ∷ tags) k (fresh, u) = ground (arith, get-propagated_keys tags k u)

  pub missing_of_clean :
      (tags expected : Tags)
      → ((k v : String) → Dict.get expected k ≡ some v → Dict.get tags k ≡ some v)
      → NodupKeys expected
      → (is_empty (missing_of tags expected) ≡ true)
        × (is_empty (mismatched_of tags expected) ≡ true)
  unfolding missing_of mismatched_of Dict.get Dict.has_key
  missing_of_clean tags [] h u = (refl, refl)
  missing_of_clean tags ((j, w) ∷ expected) h (fresh, u) =
      let rest = missing_of_clean tags expected (λ k v e. h k v (ground arith)) u in
      ground (arith, h j w)

  -- Writing what a parent passes on, no key of it twice, to a child leaves that child without a
  -- finding.
  finding_of_fixed :
      (rule parent_arn : String) (expected : Tags) (child : Child)
      → NodupKeys expected
      → finding_of rt settings rule parent_arn expected
          (record child { tags = Dict.update child.tags expected })
        ≡ []
  unfolding finding_of
  finding_of_fixed rule parent_arn expected child u =
      let clean =
        missing_of_clean (Dict.update child.tags expected) expected
          (λ k v e. Dict.get-update-some child.tags expected k v u e) u in
      ground arith
