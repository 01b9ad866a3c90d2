-- ===== src/TagWrite/Reports.antt =====
-- A success that the command reports is one.
use mathlib.Core.Path.{subst, subst⁻¹}
use aws_tagging_utils.Base.{
  ℕ, ◌<◌, String, Bool, true, false, ◌||◌, none, some, List, [], ◌∷◌, ◌≡◌, refl, arith, ap,
}
use aws_tagging_utils.Base.{◌==◌, string_eq, contains, contains-append, is_empty, inl, inr, ◌⊎◌}
use aws_tagging_utils.Base.Dict
use aws_tagging_utils.Base.Dict.{Dict, append_to}
use aws_tagging_utils.Json.{Fields, get_field, Loader}
use aws_tagging_utils.Governance.Models.{Tags}
use aws_tagging_utils.Services.{Failure, returned, AwsApi}
use aws_tagging_utils.TagWriter.{batches}
use aws_tagging_utils.TagWriter.Batches.{append_all, batches_lem, Reply-cases}
use aws_tagging_utils.TagWriter.Handler.{Attempted, value_error, value}
use aws_tagging_utils.TagOnCreate.Writes.Settled.{has_key-update}
use aws_tagging_utils.TagWrite.{
  Calls, call_raised, calls_done, applied, fail_region, region_of_arn, region_groups,
  tag_resources_batched, write_groups, write_arns, lambda_handler, normalize_arn_list,
  normalize_tags, tags_field, region_field,
}

has_key-fail_region :
    (arns : List String) (e : String) (failed : Dict String Failure) (a : String)
    → Dict.has_key (fail_region arns e failed) a ≡ (contains arns a || Dict.has_key failed a)
unfolding fail_region Dict.has_key
has_key-fail_region [] e failed a = refl
has_key-fail_region (b ∷ arns) e failed a =
    let failure : Failure = record { error_code = none; error_message = some e } in
    ground (
      arith,
      has_key-fail_region arns e (Dict.insert failed b failure) a,
      Dict.get-insert failed b failure a,
    )

-- Whether a group names the ARN.
abbrev in_groups : Dict String (List String) → String → Bool
in_groups [] a = false
in_groups ((reg, arns) ∷ groups) a = contains arns a || in_groups groups a

in_groups-append_to :
    (groups : Dict String (List String)) (reg arn a : String)
    → in_groups (append_to groups reg arn) a ≡ (a == arn || in_groups groups a)
unfolding append_to
in_groups-append_to [] reg arn a = ground arith
in_groups-append_to ((j, arns) ∷ groups) reg arn a =
    ground (arith, in_groups-append_to groups reg arn a, contains-append arns (arn ∷ []) a)

in_groups-region_groups :
    (default_region : String) (arns : List String) (groups : Dict String (List String)) (a : String)
    → in_groups (region_groups default_region arns groups) a
      ≡ (contains arns a || in_groups groups a)
unfolding region_groups
in_groups-region_groups default_region [] groups a = refl
in_groups-region_groups default_region (arn ∷ arns) groups a =
    let reg = region_of_arn arn default_region in
    ground (
      arith,
      in_groups-region_groups default_region arns (append_to groups reg arn) a,
      in_groups-append_to groups reg arn a,
    )

has_key-empty :
    (failed : Dict String Failure) (a : String)
    → is_empty failed ≡ true
    → Dict.has_key failed a ≡ false
unfolding Dict.has_key Dict.get
has_key-empty [] a h = refl
has_key-empty (x ∷ failed) a h = absurd (cc)

pub Attempted-cases {ℓ} :
    {A : Type ℓ} (r : Attempted A)
    → ((m : String) × (r ≡ value_error m)) ⊎ ((v : A) × (r ≡ value v))
Attempted-cases (value_error m) = inl (m, refl)
Attempted-cases (value v) = inr (v, refl)

-- `tagged w a`: AWS has the tags on the resource. AWS documents that a call that returns has tagged
-- the resources that it does not name as failed; and no call takes the tags off again.
module _ {W : Type 0} (api : AwsApi W) (batch_size : ℕ) (tags : Tags) (tagged : W → String → Bool)
    (a : String)
    (returns : (reg : String) (chunk : List String) (w : W) (failed : Dict String Failure)
      → (api.tag_resources reg chunk tags w).0 ≡ returned failed
      → contains chunk a ≡ true
      → (Dict.has_key failed a || tagged (api.tag_resources reg chunk tags w).1 a) ≡ true)
    (stays : (reg : String) (chunk : List String) (w : W)
      → tagged w a ≡ true
      → tagged (api.tag_resources reg chunk tags w).1 a ≡ true) where
  -- The resource is among the failures of calls that are done, or tagged.
  abbrev Settled : Calls × W → Type 0
  Settled (call_raised e, w) = Unit
  Settled (calls_done failed, w) = (Dict.has_key failed a || tagged w a) ≡ true

  batched_stays :
      (reg : String) (chunks : List (List String)) (failed : Dict String Failure) (w : W)
      → tagged w a ≡ true
      → tagged (tag_resources_batched api batch_size tags reg chunks failed w).1 a ≡ true
  unfolding tag_resources_batched
  batched_stays reg [] failed w h = h
  batched_stays reg (chunk ∷ chunks) failed w h =
      let (reply, w') = api.tag_resources reg chunk tags w in
      elim (Reply-cases reply) [
        | inl (m, e) ↦ rw (e, tag_resources_batched) (stays reg chunk w h)
        | inr (more, e) ↦
            rw (e, tag_resources_batched)
              (batched_stays reg chunks (Dict.update failed more) w' (stays reg chunk w h))
      ]

  batched_settles :
      (reg : String) (chunks : List (List String)) (failed : Dict String Failure) (w : W)
      → (contains (append_all chunks) a || (Dict.has_key failed a || tagged w a)) ≡ true
      → Settled (tag_resources_batched api batch_size tags reg chunks failed w)
  unfolding tag_resources_batched
  batched_settles reg [] failed w h = h
  batched_settles reg (chunk ∷ chunks) failed w h =
      let (reply, w') = api.tag_resources reg chunk tags w in
      elim (Reply-cases reply) [
        | inl (m, e) ↦ rw (e, tag_resources_batched) tt
        | inr (more, e) ↦
            rw (e, tag_resources_batched)
              (batched_settles reg chunks (Dict.update failed more) w' (
                ground (
                  arith,
                  contains-append chunk (append_all chunks) a,
                  has_key-update failed more a,
                  returns reg chunk w more e,
                  stays reg chunk w,
                )))
      ]

  Calls-cases :
      (c : Calls)
      → ((e : String) × (c ≡ call_raised e)) ⊎ ((f : Dict String Failure) × (c ≡ calls_done f))
  Calls-cases (call_raised e) = inl (e, refl)
  Calls-cases (calls_done f) = inr (f, refl)

  group_settles :
      (reg : String) (arns : List String) (f : Dict String Failure) (w : W)
      → 0 < batch_size
      → (let out = tag_resources_batched api batch_size tags reg (batches batch_size arns) [] w in
          out.0 ≡ calls_done f
          → contains arns a ≡ true
          → (Dict.has_key f a || tagged out.1 a) ≡ true)
  group_settles reg arns f w positive e h =
      let out = tag_resources_batched api batch_size tags reg (batches batch_size arns) [] w in
      subst (λ c. Settled (c, out.1)) e
        (batched_settles reg (batches batch_size arns) [] w
          (ground (arith, ap (λ xs. contains xs a) ((batches_lem batch_size arns positive).0))))

  write_groups_settles :
      (groups : Dict String (List String)) (all_failed : Dict String Failure) (w : W)
      → 0 < batch_size
      → (in_groups groups a || (Dict.has_key all_failed a || tagged w a)) ≡ true
      → (let out = write_groups api batch_size tags groups all_failed w in
          (Dict.has_key out.0 a || tagged out.1 a) ≡ true)
  unfolding write_groups
  write_groups_settles [] all_failed w positive h = h
  write_groups_settles ((reg, arns) ∷ groups) all_failed w positive h =
      let out = tag_resources_batched api batch_size tags reg (batches batch_size arns) [] w in
      elim (Calls-cases out.0) [
        | inl (m, e) ↦
            rw (e, write_groups)
              (write_groups_settles groups (fail_region arns m all_failed) out.1 positive (
                ground (
                  arith,
                  has_key-fail_region arns m all_failed a,
                  batched_stays reg (batches batch_size arns) [] w,
                )))
        | inr (f, e) ↦
            rw (e, write_groups)
              (write_groups_settles groups (Dict.update all_failed f) out.1 positive (
                ground (
                  arith,
                  has_key-update all_failed f a,
                  batched_stays reg (batches batch_size arns) [] w,
                  group_settles reg arns f w positive e,
                )))
      ]

  module _ (loader : Loader) (default : String) where
    write_arns_tagged :
        (region : String) (arns answered : List String) (w : W)
        → 0 < batch_size
        → (write_arns loader api batch_size default region arns tags w).0 ≡ applied answered tags
        → contains answered a ≡ true
        → tagged (write_arns loader api batch_size default region arns tags w).1 a ≡ true
    unfolding write_arns
    write_arns_tagged region arns answered w positive h named =
        let groups = region_groups region arns [] in
        ground (
          arith,
          write_groups_settles groups [] w positive,
          in_groups-region_groups region arns [] a,
          has_key-empty (write_groups api batch_size tags groups [] w).0 a,
        )

    applied_same :
        (region : String) (arns answered : List String) (tags' : Tags) (w : W)
        → (write_arns loader api batch_size default region arns tags' w).0 ≡ applied answered tags
        → tags' ≡ tags
    unfolding write_arns
    applied_same region arns answered tags' w h = ground arith

    request_tagged :
        (region : String) (arns answered : List String) (tags' : Tags) (w : W)
        → 0 < batch_size
        → (write_arns loader api batch_size default region arns tags' w).0 ≡ applied answered tags
        → contains answered a ≡ true
        → tagged (write_arns loader api batch_size default region arns tags' w).1 a ≡ true
    request_tagged region arns answered tags' w positive h named =
        let same = applied_same region arns answered tags' w h in
        subst⁻¹ (λ t. tagged (write_arns loader api batch_size default region arns t w).1 a ≡ true)
          same
          (write_arns_tagged region arns answered w positive
            (subst
              (λ t.
                (write_arns loader api batch_size default region arns t w).0
                ≡ applied answered tags)
              same h)
            named)

  -- Where AWS keeps its promises on calls and the batches have a positive size: if the command
  -- answers that the tags are applied, each ARN of its answer has been tagged.
  pub applied_tagged :
      (loader : Loader) (default : String) (event : Fields) (w : W) (arns : List String)
      → 0 < batch_size
      → (lambda_handler loader api batch_size default event w).0 ≡ applied arns tags
      → contains arns a ≡ true
      → tagged (lambda_handler loader api batch_size default event w).1 a ≡ true
  unfolding lambda_handler write_arns
  applied_tagged loader default event w arns positive h named =
      elim (Attempted-cases (normalize_arn_list loader event)) [
        | inl (m, e) ↦ absurd (ground arith)
        | inr (found, e) ↦
            elim (Attempted-cases (
              normalize_tags loader
                (tags_field loader api batch_size default (get_field event "tags")))) [
                  | inl (m, f) ↦ absurd (ground arith)
                  | inr (tags', f) ↦ ground (
                    arith,
                    request_tagged loader default
                        (region_field loader api batch_size default (get_field event "region"))
                        found arns tags' w positive,
                  )
                ]
      ]
