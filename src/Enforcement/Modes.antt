-- ===== src/Enforcement/Modes.antt =====
-- Report-only enforcement changes nothing.
use aws_tagging_utils.Base.{ℕ, String, ◌≡◌, refl, false, List, []}
use aws_tagging_utils.Base.{◌∷◌, string_eq, arith}
use aws_tagging_utils.Base.Dict
use aws_tagging_utils.Base.Dict.{Dict}
use aws_tagging_utils.Runtime.{Runtime}
use aws_tagging_utils.Governance.Models.{Tags}
use aws_tagging_utils.Exemptions.{Calendar}
use aws_tagging_utils.Services.{AwsApi, World, Config}
use aws_tagging_utils.Enforcement.{enforce_one, enforce_all, tags_or_none}

module _ (rt : Runtime) (cal : Calendar) {W : Type 0} (api : AwsApi W) (config : Config)
    (fingerprint_of : String → String → Tags → String) (request_id : String) where
  enforce_one_disabled :
      (arn : String) (tags : Tags) (now later : ℕ) (w : World W)
      → (enforce_one rt cal api config fingerprint_of false request_id arn tags now later w).1 ≡ w
  unfolding enforce_one
  enforce_one_disabled arn tags now later w = ground arith

  -- With remediation disabled, enforcement changes neither AWS nor the store nor the audit log.
  pub enforce_all_disabled :
      (arns : List String) (tag_maps : Dict String Tags) (now later : ℕ) (w : World W)
      → (enforce_all rt cal api config fingerprint_of false request_id arns tag_maps now later w).1
        ≡ w
  unfolding enforce_all
  enforce_all_disabled [] tag_maps now later w = refl
  enforce_all_disabled (arn ∷ arns) tag_maps now later w =
      let tags = tags_or_none (Dict.get tag_maps arn) in
      let r = enforce_one rt cal api config fingerprint_of false request_id arn tags now later w in
      ground (
        arith,
        enforce_one_disabled arn tags now later w,
        enforce_all_disabled arns tag_maps now later r.1,
      )
