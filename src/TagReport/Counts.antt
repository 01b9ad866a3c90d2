-- ===== src/TagReport/Counts.antt =====
-- The counts of a report agree with its rows and with one another.
use aws_tagging_utils.Base.{ℕ, ◌+◌, String, Option, List, [], ◌∷◌, ◌++◌, ◌≡◌, refl, arith}
use aws_tagging_utils.Base.{
  ◌==◌, string_eq, length, length-append, All, Bool-cases, Option-cases, inl, inr,
}
use aws_tagging_utils.Base.Dict
use aws_tagging_utils.Base.Dict.{Dict}
use aws_tagging_utils.Runtime.{Runtime}
use aws_tagging_utils.Governance.Engine.{Engine}
use aws_tagging_utils.TagReport.{
  Resource, Inventory, unavailable, inventory, Row, RegionBucket, Audit, empty_bucket,
  empty_account, get_or_default, count, add_row, add_to_account, is_unmapped, label_of, count_row,
  audit_resource, audit_resources, keep_error, keep_source, audit_region, audit_account, audit_all,
  region_error, finish_regions, sum_regions, finish_report, generate_report,
}

abbrev pub compliant_rows : List Row → ℕ
compliant_rows [] = 0
compliant_rows (row ∷ rows) = count row.is_compliant + compliant_rows rows

-- The counts of a region are those of its rows.
abbrev pub IsCounted : RegionBucket → Type 0
IsCounted bucket =
    (bucket.total ≡ bucket.compliant + bucket.non_compliant)
    × (bucket.total ≡ length bucket.resources)
    × (bucket.compliant ≡ compliant_rows bucket.resources)

compliant_rows-append :
    (xs ys : List Row) → compliant_rows (xs ++ ys) ≡ compliant_rows xs + compliant_rows ys
compliant_rows-append [] ys = omega arith
compliant_rows-append (x ∷ xs) ys = omega (arith, compliant_rows-append xs ys)

add_row-IsCounted :
    (bucket : RegionBucket) (row : Row) → IsCounted bucket → IsCounted (add_row bucket row)
unfolding add_row
add_row-IsCounted bucket row (a, b, c) = (
  ground arith,
  omega (arith, length-append bucket.resources (row ∷ [])),
  omega (arith, compliant_rows-append bucket.resources (row ∷ [])),
)

-- The sum of a count over the values of a dict.
abbrev pub sum_of : {A : Type 0} → (A → ℕ) → Dict String A → ℕ
sum_of field [] = 0
sum_of field ((k, a) ∷ d) = field a + sum_of field d

sum_of-insert :
    {A : Type 0} (field : A → ℕ) (d : Dict String A) (k : String) (v default : A)
    → field default ≡ 0
    → sum_of field (Dict.insert d k v) + field (get_or_default d k default)
      ≡ sum_of field d + field v
unfolding Dict.insert Dict.get
sum_of-insert field [] k v default h = omega arith
sum_of-insert field ((j, w) ∷ d) k v default h = ground (arith, sum_of-insert field d k v default h)

-- A predicate of all values of a dict.
abbrev pub AllValues : {A : Type 0} → (A → Type 0) → Dict String A → Type 0
AllValues P d = All (λ e. P e.1) d

insert-AllValues :
    {A : Type 0} (P : A → Type 0) (d : Dict String A) (k : String) (v : A)
    → P v
    → AllValues P d
    → AllValues P (Dict.insert d k v)
unfolding Dict.insert
insert-AllValues P [] k v p h = (p, tt)
insert-AllValues P ((j, w) ∷ d) k v p (q, h) = elim (Bool-cases (k == j)) [
  | inl e ↦ rw (e, Dict.insert) (p, h)
  | inr e ↦ rw (e, Dict.insert) (q, insert-AllValues P d k v p h)
]

get_or_default-AllValues :
    {A : Type 0} (P : A → Type 0) (d : Dict String A) (k : String) (default : A)
    → P default
    → AllValues P d
    → P (get_or_default d k default)
unfolding Dict.get
get_or_default-AllValues P [] k default p h = p
get_or_default-AllValues P ((j, w) ∷ d) k default p (q, h) = elim (Bool-cases (k == j)) [
  | inl e ↦ rw (e, get_or_default, Dict.get) q
  | inr e ↦ rw (e, get_or_default, Dict.get) (get_or_default-AllValues P d k default p h)
]

-- Every evaluated resource is counted once in the regions and once in the accounts.
abbrev pub IsBalanced : Audit → Type 0
IsBalanced audit =
    AllValues IsCounted audit.regions
    × (sum_of (λ a. a.total) audit.accounts ≡ sum_of (λ b. b.total) audit.regions)
    × (sum_of (λ a. a.compliant) audit.accounts ≡ sum_of (λ b. b.compliant) audit.regions)

module _ (rt : Runtime) (engine : Engine)
    (collect_inventory : String → Option String → List String → Inventory)
    (compliance_scope : String) (mapped_types mandatory_tags resource_types : List String) where
  count_row-IsBalanced :
      (region acct : String) (row : Row) (audit : Audit)
      → IsBalanced audit
      → IsBalanced (
          count_row rt engine collect_inventory compliance_scope mapped_types mandatory_tags
            resource_types region acct row audit)
  unfolding count_row add_to_account add_row
  count_row-IsBalanced region acct row audit (counted, totals, compliants) =
      let bucket = get_or_default audit.regions region empty_bucket in
      let a = get_or_default audit.accounts acct empty_account in
      let bucket' = add_row bucket row in
      let a' = add_to_account a row.is_compliant in
      (
        insert-AllValues IsCounted audit.regions region bucket'
            (add_row-IsCounted bucket row (
              get_or_default-AllValues IsCounted audit.regions region empty_bucket
                (omega arith, refl, refl) counted))
            counted,
        omega (
          arith,
          sum_of-insert (λ b. b.total) audit.regions region bucket' empty_bucket refl,
          sum_of-insert (λ b. b.total) audit.accounts acct a' empty_account refl,
        ),
        omega (
          arith,
          sum_of-insert (λ b. b.compliant) audit.regions region bucket' empty_bucket refl,
          sum_of-insert (λ b. b.compliant) audit.accounts acct a' empty_account refl,
        ),
      )

  audit_resource-IsBalanced :
      (region : String) (account : Option String) (res : Resource) (audit : Audit)
      → IsBalanced audit
      → IsBalanced (
          audit_resource rt engine collect_inventory compliance_scope mapped_types mandatory_tags
            resource_types region account res audit)
  unfolding audit_resource
  audit_resource-IsBalanced region account res audit h =
      elim (Bool-cases (
        is_unmapped rt engine collect_inventory compliance_scope mapped_types mandatory_tags
          resource_types res)) [
            | inl e ↦ rw (e, audit_resource) h
            | inr e ↦ rw (e, audit_resource) (count_row-IsBalanced region _ _ audit h)
          ]

  audit_resources-IsBalanced :
      (region : String) (account : Option String) (resources : List Resource) (audit : Audit)
      → IsBalanced audit
      → IsBalanced (
          audit_resources rt engine collect_inventory compliance_scope mapped_types mandatory_tags
            resource_types region account resources audit)
  unfolding audit_resources
  audit_resources-IsBalanced region account [] audit h = h
  audit_resources-IsBalanced region account (res ∷ resources) audit h =
      audit_resources-IsBalanced region account resources _
        (audit_resource-IsBalanced region account res audit h)

  keep_error-IsBalanced :
      (region label e : String) (audit : Audit)
      → IsBalanced audit
      → IsBalanced (
          keep_error rt engine collect_inventory compliance_scope mapped_types mandatory_tags
            resource_types region label e audit)
  unfolding keep_error
  keep_error-IsBalanced region label e audit (counted, totals, compliants) =
      let a = get_or_default audit.accounts label empty_account in
      let a' = record a { errors = Dict.insert a.errors region e } in
      (
        counted,
        omega (arith, sum_of-insert (λ b. b.total) audit.accounts label a' empty_account refl),
        omega (arith, sum_of-insert (λ b. b.compliant) audit.accounts label a' empty_account refl),
      )

  -- The region's bucket is there before its inventory is read.
  opened-IsBalanced :
      (region : String) (audit : Audit)
      → IsBalanced audit
      → IsBalanced (record audit {
        regions =
            Dict.insert audit.regions region (get_or_default audit.regions region empty_bucket);
      })
  opened-IsBalanced region audit (counted, totals, compliants) =
      let bucket = get_or_default audit.regions region empty_bucket in
      (
        insert-AllValues IsCounted audit.regions region bucket
            (get_or_default-AllValues IsCounted audit.regions region empty_bucket
              (omega arith, refl, refl) counted)
            counted,
        omega (arith, sum_of-insert (λ b. b.total) audit.regions region bucket empty_bucket refl),
        omega
            (arith, sum_of-insert (λ b. b.compliant) audit.regions region bucket empty_bucket refl),
      )

  read_inventory-IsBalanced :
      (i : Inventory) (account : Option String) (region label : String) (opened : Audit)
      → IsBalanced opened
      → IsBalanced (elim i [
        | unavailable e ↦
            keep_error rt engine collect_inventory compliance_scope mapped_types mandatory_tags
              resource_types region label e opened
        | inventory warning source resources ↦
            audit_resources rt engine collect_inventory compliance_scope mapped_types mandatory_tags
              resource_types region account resources
              (keep_source rt engine collect_inventory compliance_scope mapped_types mandatory_tags
                resource_types warning source opened)
      ])
  unfolding keep_source
  read_inventory-IsBalanced (unavailable e) account region label opened h =
      keep_error-IsBalanced region label e opened h
  read_inventory-IsBalanced (inventory warning source resources) account region label opened h =
      audit_resources-IsBalanced region account resources _ h

  audit_region-IsBalanced :
      (account : Option String) (region : String) (audit : Audit)
      → IsBalanced audit
      → IsBalanced (
          audit_region rt engine collect_inventory compliance_scope mapped_types mandatory_tags
            resource_types account region audit)
  unfolding audit_region
  audit_region-IsBalanced account region audit h =
      read_inventory-IsBalanced (collect_inventory region account resource_types) account region
        (label_of rt engine collect_inventory compliance_scope mapped_types mandatory_tags
          resource_types account)
        _ (opened-IsBalanced region audit h)

  audit_account-IsBalanced :
      (account : Option String) (regions : List String) (audit : Audit)
      → IsBalanced audit
      → IsBalanced (
          audit_account rt engine collect_inventory compliance_scope mapped_types mandatory_tags
            resource_types account regions audit)
  unfolding audit_account
  audit_account-IsBalanced account [] audit h = h
  audit_account-IsBalanced account (region ∷ regions) audit h =
      audit_account-IsBalanced account regions _ (audit_region-IsBalanced account region audit h)

  -- At each point of the loop over accounts and regions, failed inventories included: the counts
  -- of each region are those of its rows, and the accounts together count as many resources, and
  -- as many compliant ones, as the regions together.
  pub audit_all-IsBalanced :
      (accounts : List (Option String)) (target_regions : List String) (audit : Audit)
      → IsBalanced audit
      → IsBalanced (
          audit_all rt engine collect_inventory compliance_scope mapped_types mandatory_tags
            resource_types accounts target_regions audit)
  unfolding audit_all
  audit_all-IsBalanced [] target_regions audit h = h
  audit_all-IsBalanced (account ∷ accounts) target_regions audit h =
      audit_all-IsBalanced accounts target_regions _
        (audit_account-IsBalanced account target_regions audit h)

sum_regions-IsCounted :
    (region_errors : Dict String (List String)) (accounts : ℕ) (regions : Dict String RegionBucket)
    → AllValues IsCounted regions
    → (let finished = finish_regions region_errors accounts regions in
        sum_regions (λ b. b.total) finished
        ≡ sum_regions (λ b. b.compliant) finished + sum_regions (λ b. b.non_compliant) finished)
unfolding finish_regions sum_regions
sum_regions-IsCounted region_errors accounts [] h = omega arith
sum_regions-IsCounted region_errors accounts ((region, bucket) ∷ regions) (h, hs) =
    let ih = sum_regions-IsCounted region_errors accounts regions hs in
    elim (Option-cases (region_error region_errors accounts region)) [
      | inl e ↦ rw (e, finish_regions) (omega (arith, ih, h.0))
      | inr (message, e) ↦ rw (e, finish_regions) ih
    ]

-- In a report, whatever inventories fail, the resources of the regions that did not fail are those
-- that are compliant and those that are not.
pub generate_report_lem :
    (rt : Runtime) (engine : Engine)
    → (collect_inventory : String → Option String → List String → Inventory)
    → (compliance_scope inventory_source : String)
    → (mapped_types mandatory_tags resource_types : List String)
    → (accounts : List (Option String)) (target_regions : List String)
    → (let report =
          generate_report rt engine collect_inventory compliance_scope inventory_source mapped_types
            mandatory_tags resource_types accounts target_regions in
        report.total_resources ≡ report.compliant + report.non_compliant)
unfolding generate_report finish_report
generate_report_lem rt engine collect_inventory compliance_scope inventory_source mapped_types
      mandatory_tags resource_types accounts target_regions =
    sum_regions-IsCounted _ (length accounts) _
      (audit_all-IsBalanced rt engine collect_inventory compliance_scope mapped_types mandatory_tags
        resource_types accounts target_regions
        (record {
          regions = [];
          accounts = [];
          inventory_source = inventory_source;
          never_tagged = 0;
          unmapped_types = [];
          warnings = [];
          region_errors = [];
        })
        (tt, refl, refl)).0
