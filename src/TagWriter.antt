-- ===== src/TagWriter.antt =====
-- `tag_resources`: src/tag_writer.py
pub mod Batches
pub mod Handler
use Prim.Native.Nat.{min, max}
use aws_tagging_utils.Base.{
  ℕ, zero, suc, String, Bool, true, false, Option, none, some, List, [], ◌∷◌,
}
use aws_tagging_utils.Base.{◌++◌, ◌==◌, string_eq, if◌then◌else◌, length, take, drop, keep, not}
use aws_tagging_utils.Base.Dict
use aws_tagging_utils.Base.Dict.{Dict}
use aws_tagging_utils.Base.Int.{ℤ, pos, sub_ℕ, ◌+ℤ◌}
use aws_tagging_utils.Governance.Models.{Tags}
use aws_tagging_utils.Arn.{get_region_from_arn}
use aws_tagging_utils.Protected.{record_writes}
use aws_tagging_utils.Services.{Failure, Reply, raised, returned, AwsApi, World, Config}

-- `region_groups.setdefault(reg, []).append(arn)`
append_to : Dict String (List String) → String → String → Dict String (List String)
append_to groups reg arn = elim (Dict.get groups reg) [
  | none ↦ Dict.insert groups reg (arn ∷ [])
  | some arns ↦ Dict.insert groups reg (arns ++ (arn ∷ []))
]

region_or : Option String → String → String
region_or none default_region = default_region
region_or (some reg) default_region = reg

unfoldable pub group_by_region :
    String → List String → Dict String (List String) → Dict String (List String)
unfolding append_to region_or
group_by_region default_region [] groups = groups
group_by_region default_region (arn ∷ arns) groups =
    group_by_region default_region arns
      (append_to groups (region_or (get_region_from_arn arn) default_region) arn)

-- `arns[i : i + n] for i in range(0, len(arns), n)`, on as many rounds as there are items.
unfoldable pub chunks {ℓ} : {A : Type ℓ} → ℕ → ℕ → List A → List (List A)
chunks n zero xs = []
chunks n (suc rounds) [] = []
chunks n (suc rounds) (x ∷ xs) = take n (x ∷ xs) ∷ chunks n rounds (drop n (x ∷ xs))

unfoldable pub batches {ℓ} : {A : Type ℓ} → ℕ → List A → List (List A)
unfolding chunks
batches n xs = chunks n (length xs) xs

pub record Results : Type 0 where
  pub tagged_count : ℤ
  pub failed_resources : Dict String Failure

-- The outcome of a loop that an exception may leave.
pub record Progress (W : Type 0) : Type 0 where
  pub exception : Option String
  pub results : Results
  pub world : World W

client_failure : String → Failure
client_failure message = record { error_code = some "ClientError"; error_message = some message }

-- `for a in reg_arns: results["failed_resources"][a] = ...`
unfoldable pub mark_failed : List String → String → Dict String Failure → Dict String Failure
unfolding client_failure
mark_failed [] message failed = failed
mark_failed (a ∷ arns) message failed =
    mark_failed arns message (Dict.insert failed a (client_failure message))

module _ {W : Type 0} (api : AwsApi W) (config : Config) (tags : Tags) (now : ℕ) where
  -- The results after a call that returned.
  add_batch : List String → Dict String Failure → Results → Results
  add_batch batch failed results = record {
    tagged_count = results.tagged_count +ℤ sub_ℕ (length batch) (length failed);
    failed_resources = Dict.update results.failed_resources failed;
  }

  record_batch : List String → Dict String Failure → World W → World W
  record_batch batch failed w = record w {
    store =
        record_writes config.tag_schema (keep (λ a. not (Dict.has_key failed a)) batch) tags []
          "aws-tagging-utils" "tag-write" now w.store;
  }

  -- The calls for one region, until one raises.
  unfoldable pub tag_batches : String → List (List String) → Results → World W → Progress W
  unfolding add_batch record_batch
  tag_batches reg [] results w = record { exception = none; results = results; world = w }
  tag_batches reg (batch ∷ more) results w =
      let (reply, aws') = api.tag_resources reg batch tags w.aws in
      let w' = record w { aws = aws' } in
      elim reply [
        | raised message ↦ record { exception = some message; results = results; world = w' }
        | returned failed ↦
            tag_batches reg more (add_batch batch failed results) (record_batch batch failed w')
      ]

  -- `max(1, min(TAG_API_BATCH_SIZE, 20))`
  abbrev pub batch_size : ℕ
  batch_size = max 1 (min config.tag_api_batch_size 20)

  -- The body of the loop over regions, with its `except`.
  unfoldable pub tag_region : String → List String → Results → World W → Results × World W
  unfolding tag_batches mark_failed
  tag_region reg reg_arns results w =
      let done = tag_batches reg (batches batch_size reg_arns) results w in
      elim done.exception [
        | none ↦ (done.results, done.world)
        | some message ↦ (
          record (done.results) {
            failed_resources = mark_failed reg_arns message done.results.failed_resources;
          },
          done.world,
        )
      ]

  tag_regions : Dict String (List String) → Results → World W → Results × World W
  unfolding tag_region
  tag_regions [] results w = (results, w)
  tag_regions ((reg, reg_arns) ∷ rest) results w =
      let (results', w') = tag_region reg reg_arns results w in tag_regions rest results' w'

  unfoldable pub tag_resources : List String → String → World W → Results × World W
  unfolding tag_regions group_by_region
  tag_resources arns default_region w =
      tag_regions (group_by_region default_region arns [])
        (record { tagged_count = pos 0; failed_resources = [] }) w
