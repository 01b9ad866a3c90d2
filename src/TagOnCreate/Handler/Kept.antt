-- ===== src/TagOnCreate/Handler/Kept.antt =====
-- What the handler leaves alone.
use aws_tagging_utils.Base.{ℕ, ◌<◌, String, Bool, true, false, none, some, List, ◌≡◌, refl, arith}
use aws_tagging_utils.Base.{
  string_eq, contains, contains-keep-false, is_empty, inl, inr, Bool-cases,
}
use aws_tagging_utils.Base.Dict
use aws_tagging_utils.Base.Dict.{Dict}
use aws_tagging_utils.Governance.Models.{Tags}
use aws_tagging_utils.Governance.Engine.{Engine}
use aws_tagging_utils.Services.{AwsApi, World, Config}
use aws_tagging_utils.TagOnCreate.{Setting}
use aws_tagging_utils.TagOnCreate.Lookup.{GetResources, fetch_tags_for_arns, is_missing_owner_tag}
use aws_tagging_utils.TagOnCreate.Writes.Settled.{tag_untagged_arns_frame}
use aws_tagging_utils.TagOnCreate.Handler.{Answer, tagged_resources, to_tag, tag_group}

module _ {W : Type 0} (setting : Setting) (engine : Engine)
    (get_resources : String → GetResources W) (api : AwsApi W) (config : Config) where
  open setting use {owner_tag_key, tag_api_batch, tag_lookup_retries}

  contains-to_tag :
      (tag_maps : Dict String Tags) (arns : List String) (a : String) (tags : Tags)
      → Dict.get tag_maps a ≡ some tags
      → is_missing_owner_tag owner_tag_key tags ≡ false
      → contains (to_tag setting tag_maps arns) a ≡ false
  unfolding to_tag
  contains-to_tag tag_maps arns a tags found owned =
      contains-keep-false
        (λ b. elim (Dict.get tag_maps b) [
          | none ↦ true
          | some tags ↦ is_missing_owner_tag owner_tag_key tags
        ])
        arns a (ground arith)

  -- A resource whose tags the lookup found with an owner that is not blank keeps all its tags: the
  -- calls of the handler for a region are not about it. `view w a` are the tags of `a`, of which a
  -- call about other resources changes nothing, and the size of the batches is positive.
  pub tag_group_keeps :
      (view : W → String → Tags) (a : String)
      → ((region : String) (arns : List String) (tags : Tags) (w : W)
          → contains arns a ≡ false
          → view (api.tag_resources region arns tags w).1 a ≡ view w a)
      → (reg : String) (reg_arns : List String) (owner : String) (now : ℕ) (w : World W)
      → (tags : Tags) → 0 < tag_api_batch
      → (let looked =
            fetch_tags_for_arns
              (get_resources reg)
              tag_api_batch
              tag_lookup_retries
              reg_arns
              w.aws in
          Dict.get looked.0 a ≡ some tags
          → is_missing_owner_tag owner_tag_key tags ≡ false
          → view
              (tag_group setting engine get_resources api config reg reg_arns owner now w).1.aws
              a
            ≡ view looked.1 a)
  unfolding tag_group
  tag_group_keeps view a frame reg reg_arns owner now w tags positive found owned =
      let looked =
        fetch_tags_for_arns (get_resources reg) tag_api_batch tag_lookup_retries reg_arns w.aws in
      let chosen = to_tag setting looked.0 reg_arns in
      elim (Bool-cases (is_empty chosen)) [
        | inl e ↦ rw (e, tag_group) refl
        | inr e ↦
            rw (e, tag_group)
              (tag_untagged_arns_frame setting engine api config a view frame reg chosen owner now
                (record w { aws = looked.1 }) positive
                (contains-to_tag looked.0 reg_arns a tags found owned))
      ]

  -- Whether the answer reports resources.
  abbrev pub reports : Answer → Bool
  reports (tagged_resources results) = true
  reports _ = false
