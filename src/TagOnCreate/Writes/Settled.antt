-- ===== src/TagOnCreate/Writes/Settled.antt =====
-- What the calls that write owners report and change.
use aws_tagging_utils.Base.{
  ℕ, ◌<◌, String, Bool, true, false, not, ◌||◌, none, some, List, [], ◌∷◌, ◌++◌, ◌≡◌, refl, arith,
  ◌∙◌, ap,
}
use aws_tagging_utils.Base.{
  string_eq, contains, contains-append, contains-keep, keep, All, inl, inr,
}
use aws_tagging_utils.Base.Dict
use aws_tagging_utils.Base.Dict.{Dict}
use aws_tagging_utils.Governance.Models.{Tags}
use aws_tagging_utils.Governance.Engine.{Engine}
use aws_tagging_utils.Services.{Failure, AwsApi, World, Config}
use aws_tagging_utils.TagWriter.{batches}
use aws_tagging_utils.TagWriter.Batches.{append_all, batches_lem, Reply-cases}
use aws_tagging_utils.Changesets.Tagging.Frame.{contains-append_all}
use aws_tagging_utils.TagOnCreate.{Setting}
use aws_tagging_utils.TagOnCreate.Writes.{fail_batch, tag_each, tags_to_apply, tag_untagged_arns}

has_key-fail_batch :
    (batch : List String) (message : String) (failed : Dict String Failure) (a : String)
    → Dict.has_key (fail_batch batch message failed) a ≡ (contains batch a || Dict.has_key failed a)
unfolding fail_batch Dict.has_key
has_key-fail_batch [] message failed a = refl
has_key-fail_batch (b ∷ batch) message failed a =
    let failure : Failure = record { error_code = none; error_message = some message } in
    ground (
      arith,
      has_key-fail_batch batch message (Dict.insert failed b failure) a,
      Dict.get-insert failed b failure a,
    )

pub has_key-update :
    (d more : Dict String Failure) (a : String)
    → Dict.has_key (Dict.update d more) a ≡ (Dict.has_key d a || Dict.has_key more a)
unfolding Dict.update Dict.has_key Dict.get
has_key-update d [] a = ground arith
has_key-update d ((k, f) ∷ more) a =
    ground (arith, has_key-update (Dict.insert d k f) more a, Dict.get-insert d k f a)

module _ {W : Type 0} (api : AwsApi W) (tags : Tags) (a : String) where
  -- Whether a report names the resource, as tagged or as failed.
  abbrev pub reported : List String × Dict String Failure → Bool
  reported (tagged, failed) = contains tagged a || Dict.has_key failed a

  tag_each_reports :
      (region : String) (bs : List (List String)) (tagged : List String)
      → (failed : Dict String Failure) (w : W)
      → (contains (append_all bs) a || (contains tagged a || Dict.has_key failed a)) ≡ true
      → reported (tag_each api tags region bs tagged failed w).0 ≡ true
  unfolding tag_each
  tag_each_reports region [] tagged failed w h = h
  tag_each_reports region (b ∷ bs) tagged failed w h =
      let (reply, w') = api.tag_resources region b tags w in
      elim (Reply-cases reply) [
        | inl (m, e) ↦
            rw (e, tag_each)
              (tag_each_reports region bs tagged (fail_batch b m failed) w' (
                ground
                  (arith, has_key-fail_batch b m failed a, contains-append b (append_all bs) a)))
        | inr (fm, e) ↦
            let p : String → Bool = λ x. not (Dict.has_key fm x) in
            rw (e, tag_each)
              (tag_each_reports region bs (tagged ++ keep p b) (Dict.update failed fm) w' (
                ground (
                  arith,
                  has_key-update failed fm a,
                  contains-append tagged (keep p b) a,
                  contains-keep p b a,
                  contains-append b (append_all bs) a,
                )))
      ]

  module _ (view : W → String → Tags)
      (frame : (region : String) (arns : List String) (w : W)
        → contains arns a ≡ false
        → view (api.tag_resources region arns tags w).1 a ≡ view w a) where
    tag_each_frame :
        (region : String) (bs : List (List String)) (tagged : List String)
        → (failed : Dict String Failure) (w : W) → All (λ b. contains b a ≡ false) bs
        → view (tag_each api tags region bs tagged failed w).1 a ≡ view w a
    unfolding tag_each
    tag_each_frame region [] tagged failed w h = refl
    tag_each_frame region (b ∷ bs) tagged failed w (h, hs) =
        let (reply, w') = api.tag_resources region b tags w in
        elim (Reply-cases reply) [
          | inl (m, e) ↦
              rw (e, tag_each)
                (tag_each_frame region bs tagged (fail_batch b m failed) w' hs ∙ frame region b w h)
          | inr (fm, e) ↦
              rw (e, tag_each)
                (tag_each_frame region bs (tagged ++ keep (λ x. not (Dict.has_key fm x)) b)
                    (Dict.update failed fm) w' hs
                  ∙ frame region b w h)
        ]

module _ {W : Type 0} (setting : Setting) (engine : Engine) (api : AwsApi W) (config : Config)
    (a : String) where
  -- With batches of a positive size, each resource that is to be tagged is reported as tagged or
  -- as failed, whatever the calls answer or raise.
  pub tag_untagged_arns_reports :
      (region : String) (arns : List String) (owner_value : String) (now : ℕ) (w : World W)
      → 0 < setting.tag_api_batch
      → contains arns a ≡ true
      → (let out = (tag_untagged_arns setting engine api config region arns owner_value now w).0 in
          (contains out.0 a || Dict.has_key out.1 a) ≡ true)
  unfolding tag_untagged_arns
  tag_untagged_arns_reports region arns owner_value now w positive h =
      tag_each_reports api (tags_to_apply setting engine api config owner_value) a region
        (batches setting.tag_api_batch arns) [] [] w.aws
        (ground
          (arith, ap (λ xs. contains xs a) ((batches_lem setting.tag_api_batch arns positive).0)))

  pub tag_untagged_arns_frame :
      (view : W → String → Tags)
      → ((region : String) (arns : List String) (tags : Tags) (w : W)
          → contains arns a ≡ false
          → view (api.tag_resources region arns tags w).1 a ≡ view w a)
      → (region : String) (arns : List String) (owner_value : String) (now : ℕ) (w : World W)
      → 0 < setting.tag_api_batch
      → contains arns a ≡ false
      → view (tag_untagged_arns setting engine api config region arns owner_value now w).1.aws a
        ≡ view w.aws a
  unfolding tag_untagged_arns
  tag_untagged_arns_frame view frame region arns owner_value now w positive h =
      let tags = tags_to_apply setting engine api config owner_value in
      let bs = batches setting.tag_api_batch arns in
      tag_each_frame api tags a view (λ r b v. frame r b tags v) region bs [] [] w.aws
        (contains-append_all bs a
          (ap (λ xs. contains xs a) ((batches_lem setting.tag_api_batch arns positive).0) ∙ h))
