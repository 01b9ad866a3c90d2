-- ===== src/TagReport.antt =====
-- The compliance report: `generate_report` of src/tag_report.py. The inventory of a region is a
-- parameter. The scores are quotients of the counts that are here, rounded, and are left out.
pub mod Counts
use mathlib.Core.List.{map}
use aws_tagging_utils.Base.{
  ℕ, ◌+◌, String, ◌<>◌, Bool, true, false, not, ◌&&◌, ◌||◌, Option, none, some, List, [], ◌∷◌, ◌++◌,
}
use aws_tagging_utils.Base.{◌==◌, string_eq, nat_eq, if◌then◌else◌, is_empty, length}
use aws_tagging_utils.Base.Dict
use aws_tagging_utils.Base.Dict.{Dict}
use aws_tagging_utils.Base.Text.{sorted}
use aws_tagging_utils.Runtime.{Runtime}
use aws_tagging_utils.Governance.Models.{Tags, ValidationViolation}
use aws_tagging_utils.Governance.Engine.{Engine, evaluate}
use aws_tagging_utils.Arn.{account_of, type_matches}

pub record Resource : Type 0 where
  pub arn : String
  pub tags : Tags
  pub resource_type : String
  pub never_tagged : Bool

-- What `collect_inventory` answers, or the text of its exception.
pub data Inventory : Type 0 where
  unavailable : String → Inventory
  inventory : Option String → String → List Resource → Inventory

-- A row of a region's "resources".
pub record Row : Type 0 where
  pub resource_arn : String
  pub resource_type : String
  pub is_compliant : Bool
  pub never_tagged : Bool
  pub violations : List ValidationViolation
  pub warnings : List ValidationViolation
  pub tags : Tags
  pub normalized_tags : Tags

pub record RegionBucket : Type 0 where
  pub total : ℕ
  pub compliant : ℕ
  pub non_compliant : ℕ
  pub resources : List Row

pub record AccountBucket : Type 0 where
  pub total : ℕ
  pub compliant : ℕ
  pub errors : Dict String String

-- The report while the loop runs: `report`, `coverage` and `region_errors`.
pub record Audit : Type 0 where
  pub regions : Dict String RegionBucket
  pub accounts : Dict String AccountBucket
  pub inventory_source : String
  pub never_tagged : ℕ
  pub unmapped_types : Dict String ℕ
  pub warnings : List String
  pub region_errors : Dict String (List String)

abbrev pub empty_bucket : RegionBucket
empty_bucket = record { total = 0; compliant = 0; non_compliant = 0; resources = [] }

abbrev pub empty_account : AccountBucket
empty_account = record { total = 0; compliant = 0; errors = [] }

-- `d.setdefault(key, default)`
abbrev pub get_or_default {ℓ} : {A : Type ℓ} → Dict String A → String → A → A
get_or_default d key default = elim (Dict.get d key) [ none ↦ default | some a ↦ a ]

-- A region of the finished report.
pub data RegionReport : Type 0 where
  region_failed : String → RegionReport
  region_scanned : RegionBucket → RegionReport

pub data Outcome : Type 0 where
  scan_failed scan_partial scan_succeeded : Outcome

pub record Report : Type 0 where
  pub total_resources : ℕ
  pub compliant : ℕ
  pub non_compliant : ℕ
  pub regions : Dict String RegionReport
  pub accounts : Dict String AccountBucket
  pub failed_regions : List String
  pub failed_accounts : List String
  pub outcome : Outcome

-- `1 if b else 0`
abbrev pub count : Bool → ℕ
count b = if b then 1 else 0

unfoldable pub add_row : RegionBucket → Row → RegionBucket
add_row bucket row = record {
  total = bucket.total + 1;
  compliant = bucket.compliant + count row.is_compliant;
  non_compliant = bucket.non_compliant + count (not row.is_compliant);
  resources = bucket.resources ++ (row ∷ []);
}

unfoldable pub add_to_account : AccountBucket → Bool → AccountBucket
add_to_account a is_compliant = record {
  total = a.total + 1;
  compliant = a.compliant + count is_compliant;
  errors = a.errors;
}

-- `compliance_scope` is COMPLIANCE_SCOPE, `mapped_types` the values of RESOURCE_TYPE_MAP.
module _ (rt : Runtime) (engine : Engine)
    (collect_inventory : String → Option String → List String → Inventory)
    (compliance_scope : String) (mapped_types mandatory_tags resource_types : List String) where
  unfoldable pub is_unmapped : Resource → Bool
  is_unmapped res =
      is_empty resource_types
      && not (compliance_scope == "all")
      && not (type_matches res.resource_type mapped_types)

  unfoldable pub row_of : Resource → Row
  row_of res =
      let result = evaluate rt engine res.tags (some res.arn) mandatory_tags false in
      record {
        resource_arn = res.arn;
        resource_type = res.resource_type;
        is_compliant = result.compliant;
        never_tagged = res.never_tagged;
        violations = result.violations;
        warnings = result.warnings;
        tags = res.tags;
        normalized_tags = result.normalized_tags;
      }

  unfoldable pub account_for : Option String → Resource → String
  account_for none res = account_of res.arn
  account_for (some account) res = account

  -- An evaluated resource is counted in its region and in its account.
  unfoldable pub count_row : String → String → Row → Audit → Audit
  unfolding add_row add_to_account
  count_row region acct row audit = record audit {
    regions =
        Dict.insert audit.regions region
          (add_row (get_or_default audit.regions region empty_bucket) row);
    accounts =
        Dict.insert audit.accounts acct
          (add_to_account (get_or_default audit.accounts acct empty_account) row.is_compliant);
    never_tagged = audit.never_tagged + count row.never_tagged;
  }

  unfoldable pub audit_resource : String → Option String → Resource → Audit → Audit
  unfolding is_unmapped row_of account_for count_row
  audit_resource region account res audit =
      let rtype = res.resource_type in
      if is_unmapped res
      then record audit {
        unmapped_types =
            Dict.insert audit.unmapped_types rtype
              (get_or_default audit.unmapped_types rtype 0 + 1);
      }
      else count_row region (account_for account res) (row_of res) audit

  unfoldable pub audit_resources : String → Option String → List Resource → Audit → Audit
  unfolding audit_resource
  audit_resources region account [] audit = audit
  audit_resources region account (res ∷ resources) audit =
      audit_resources region account resources (audit_resource region account res audit)

  -- `account or "default"`
  unfoldable pub label_of : Option String → String
  label_of none = "default"
  label_of (some account) = if account == "" then "default" else account

  -- The `except` branch: the error is kept under the region and under the account.
  unfoldable pub keep_error : String → String → String → Audit → Audit
  keep_error region label e audit =
      let a = get_or_default audit.accounts label empty_account in
      record audit {
        region_errors = Dict.append_to audit.region_errors region (label <> (": " <> e));
        accounts =
            Dict.insert audit.accounts label (record a { errors = Dict.insert a.errors region e });
      }

  unfoldable pub keep_source : Option String → String → Audit → Audit
  keep_source warning source audit = record audit {
    warnings = elim warning [ none ↦ audit.warnings | some w ↦ audit.warnings ++ (w ∷ []) ];
    inventory_source =
        if source == "resource_explorer" then "resource_explorer" else audit.inventory_source;
  }

  -- One account and region.
  unfoldable pub audit_region : Option String → String → Audit → Audit
  unfolding audit_resources keep_error keep_source label_of
  audit_region account region audit =
      let opened = record audit {
        regions =
            Dict.insert audit.regions region (get_or_default audit.regions region empty_bucket);
      } in
      elim (collect_inventory region account resource_types) [
        | unavailable e ↦ keep_error region (label_of account) e opened
        | inventory warning source resources ↦
            audit_resources region account resources (keep_source warning source opened)
      ]

  unfoldable pub audit_account : Option String → List String → Audit → Audit
  unfolding audit_region
  audit_account account [] audit = audit
  audit_account account (region ∷ regions) audit =
      audit_account account regions (audit_region account region audit)

  unfoldable pub audit_all : List (Option String) → List String → Audit → Audit
  unfolding audit_account
  audit_all [] target_regions audit = audit
  audit_all (account ∷ accounts) target_regions audit =
      audit_all accounts target_regions (audit_account account target_regions audit)

-- Whether every account failed in the region: `errs and len(errs) == len(accounts)`
unfoldable pub region_error : Dict String (List String) → ℕ → String → Option String
region_error region_errors accounts region = elim (Dict.get region_errors region) [
  | none ↦ none
  | some errs ↦ elim errs [
    | [] ↦ none
    | e ∷ rest ↦ if length (e ∷ rest) == accounts then some e else none
  ]
]

unfoldable pub finish_regions :
    Dict String (List String) → ℕ → Dict String RegionBucket → Dict String RegionReport
unfolding region_error
finish_regions region_errors accounts [] = []
finish_regions region_errors accounts ((region, bucket) ∷ regions) =
    (
      region,
      elim (region_error region_errors accounts region) [
        | some e ↦ region_failed e
        | none ↦ region_scanned bucket
      ],
    )
    ∷ finish_regions region_errors accounts regions

-- `report["summary"][...] += bucket[...]` over the regions that did not fail
unfoldable pub sum_regions : (RegionBucket → ℕ) → Dict String RegionReport → ℕ
sum_regions field [] = 0
sum_regions field ((region, region_failed e) ∷ regions) = sum_regions field regions
sum_regions field ((region, region_scanned bucket) ∷ regions) =
    field bucket + sum_regions field regions

unfoldable pub failed_of : Dict String RegionReport → List String
failed_of [] = []
failed_of ((region, region_failed e) ∷ regions) = region ∷ failed_of regions
failed_of ((region, region_scanned bucket) ∷ regions) = failed_of regions

failed_accounts_of : ℕ → Dict String AccountBucket → List String
failed_accounts_of regions [] = []
failed_accounts_of regions ((k, a) ∷ accounts) =
    let rest = failed_accounts_of regions accounts in
    if not (is_empty a.errors) && length a.errors == regions then k ∷ rest else rest

outcome_of : List String → ℕ → Outcome
outcome_of failed_regions targets =
    if not (is_empty failed_regions) && length failed_regions == targets
    then scan_failed
    else if is_empty failed_regions
    then scan_succeeded
    else scan_partial

-- The report from what the loop has found.
unfoldable pub finish_report : ℕ → ℕ → Audit → Report
unfolding finish_regions sum_regions failed_of failed_accounts_of outcome_of
finish_report accounts target_regions audit =
    let regions = finish_regions audit.region_errors accounts audit.regions in
    let failed_regions = failed_of regions in
    record {
      total_resources = sum_regions (λ b. b.total) regions;
      compliant = sum_regions (λ b. b.compliant) regions;
      non_compliant = sum_regions (λ b. b.non_compliant) regions;
      regions = regions;
      accounts = audit.accounts;
      failed_regions = failed_regions;
      failed_accounts = sorted (failed_accounts_of target_regions audit.accounts);
      outcome = outcome_of failed_regions target_regions;
    }

module _ (rt : Runtime) (engine : Engine)
    (collect_inventory : String → Option String → List String → Inventory)
    (compliance_scope inventory_source : String)
    (mapped_types mandatory_tags resource_types : List String) where
  -- `inventory_source` is INVENTORY_SOURCE.
  unfoldable pub generate_report : List (Option String) → List String → Report
  unfolding audit_all finish_report
  generate_report accounts target_regions =
      finish_report (length accounts) (length target_regions) (
        audit_all rt engine collect_inventory compliance_scope mapped_types mandatory_tags
          resource_types accounts target_regions
          (record {
            regions = [];
            accounts = [];
            inventory_source = inventory_source;
            never_tagged = 0;
            unmapped_types = [];
            warnings = [];
            region_errors = [];
          }))
