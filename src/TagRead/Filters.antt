-- ===== src/TagRead/Filters.antt =====
-- What the tag-read command asks AWS for, and what it lists.
use mathlib.Core.Path.{subst}
use mathlib.Core.Option.{some-injective}
use mathlib.Core.List.{Perm}
use mathlib.Core.List.Perm
use aws_tagging_utils.Base.Dict
use aws_tagging_utils.Base.{
  ◌+◌, ◌||◌, ◌++◌, ◌⊎◌, ◌≢◌, none, String, Bool, true, false, not, some, List, [], ◌∷◌, ◌≡◌, refl,
  arith,
}
use aws_tagging_utils.Base.{
  ◌==◌, string_eq, is_empty, if◌then◌else◌, keep, length, All, Bool-cases, Option-cases, inl, inr,
}
use aws_tagging_utils.Base.Text.{strip}
use aws_tagging_utils.Json.{
  Json, null, boolean, number, text, array, object, Fields, no_fields, field, Loader,
}
use aws_tagging_utils.TagWriter.Handler.{value_error, value}
use aws_tagging_utils.TagWriter.Handler.Requests.{value-injective}
use aws_tagging_utils.TagWrite.Reports.{Attempted-cases}
use aws_tagging_utils.TagRead.{
  TagFilter, Resource, filter_values_of, filters_of, normalize_tag_filters_optional,
  resource_missing_tag_key, Body, stripped_values,
}

-- A filter that AWS accepts: there is a value, and no value is empty.
abbrev pub IsUsable : TagFilter → Type 0
IsUsable f = (is_empty f.filter_values ≡ false) × All (λ v. (v == "") ≡ false) f.filter_values

keep-All : {A : Type 0} (p : A → Bool) (xs : List A) → All (λ x. p x ≡ true) (keep p xs)
unfolding keep
keep-All p [] = tt
keep-All p (x ∷ xs) = elim (Bool-cases (p x)) [
  | inl e ↦ rw (e, keep) (e, keep-All p xs)
  | inr e ↦ rw (e, keep) (keep-All p xs)
]

not_empty-All :
    (xs : List String) → All (λ v. not (v == "") ≡ true) xs → All (λ v. (v == "") ≡ false) xs
not_empty-All [] h = tt
not_empty-All (x ∷ xs) (h, hs) = (ground arith, not_empty-All xs hs)

empty_or_error :
    (allow_empty : Bool) (message : String) (out : List TagFilter)
    → (if allow_empty then value [] else value_error message) ≡ value out
    → All IsUsable out
empty_or_error true message out h = subst (All IsUsable) (value-injective h) tt
empty_or_error false message out h = absurd (cc)

-- The tags lack a key, or have it with a blank value.
abbrev pub Lacks : String → Resource → Type 0
Lacks tag_key r =
    (Dict.get r.tags tag_key ≡ none)
    ⊎ ((v : String) × ((Dict.get r.tags tag_key ≡ some v) × (strip v ≡ "")))

abbrev pub Has : String → Resource → Type 0
Has tag_key r = (v : String) × ((Dict.get r.tags tag_key ≡ some v) × (strip v ≢ ""))

rejected : (Resource → Bool) → List Resource → List Resource
rejected p resources = keep (λ r. not (p r)) resources

-- The listing of the resources without a tag.
abbrev listing : String → List String → List Resource → Body
listing tag_key types resources =
    let listed = keep (λ r. resource_missing_tag_key r.tags tag_key) resources in
    record {
      count = length listed;
      scanned_count = length resources;
      resolved_resource_types = types;
      resources = listed;
    }

-- What is true of a listing of the resources that were read.
abbrev pub Listed : String → List Resource → Body → Type 0
Listed tag_key resources body =
    (others : List Resource) × (Perm (body.resources ++ others) resources
      × All (Lacks tag_key) body.resources
      × All (Has tag_key) others
      × (body.count ≡ length body.resources)
      × (body.scanned_count ≡ body.count + length others))

module _ (loader : Loader) where
  filter_values_of-All :
      (v : Json) (vs : List String)
      → filter_values_of loader v ≡ some vs
      → All (λ v. (v == "") ≡ false) vs
  unfolding filter_values_of
  filter_values_of-All (text s) vs h =
      subst (All (λ v. (v == "") ≡ false)) (some-injective _ _ h)
        (not_empty-All _ (keep-All (λ v. not (v == "")) (strip s ∷ [])))
  filter_values_of-All (array items) vs h =
      subst (All (λ v. (v == "") ≡ false)) (some-injective _ _ h)
        (not_empty-All _ (keep-All (λ v. not (v == "")) (stripped_values loader items)))
  filter_values_of-All null vs h = absurd (cc)
  filter_values_of-All (boolean b) vs h = absurd (cc)
  filter_values_of-All (number z d) vs h = absurd (cc)
  filter_values_of-All (object entries) vs h = absurd (cc)

  filters_of-IsUsable :
      (fields : Fields) (filters : List TagFilter)
      → filters_of loader fields ≡ value filters
      → All IsUsable filters
  unfolding filters_of
  filters_of-IsUsable no_fields filters h = subst (All IsUsable) (value-injective h) tt
  filters_of-IsUsable (field k v rest) filters h = elim (Option-cases (filter_values_of loader v)) [
    | inl e ↦ absurd (ground arith)
    | inr (vs, e) ↦ elim (Attempted-cases (filters_of loader rest)) [
      | inl (m, f) ↦ absurd (ground arith)
      | inr (more, f) ↦
          subst (All IsUsable) (same vs more e f)
            ((nonempty vs e, filter_values_of-All v vs e), filters_of-IsUsable rest more f)
    ]
  ]
    where
      same :
          (vs : List String) (more : List TagFilter)
          → filter_values_of loader v ≡ some vs
          → filters_of loader rest ≡ value more
          → (record { key = strip k; filter_values = vs } ∷ more) ≡ filters
      same vs more e f = ground arith

      nonempty : (vs : List String) → filter_values_of loader v ≡ some vs → is_empty vs ≡ false
      nonempty vs e = ground arith

  normalize-IsUsable :
      (filters : Json) (allow_empty : Bool) (out : List TagFilter)
      → normalize_tag_filters_optional loader filters allow_empty ≡ value out
      → All IsUsable out
  unfolding normalize_tag_filters_optional
  normalize-IsUsable (object (field k v rest)) allow_empty out h =
      filters_of-IsUsable (field k v rest) out h
  normalize-IsUsable (object no_fields) allow_empty out h = empty_or_error allow_empty _ out h
  normalize-IsUsable null allow_empty out h = empty_or_error allow_empty _ out h
  normalize-IsUsable (boolean b) allow_empty out h = absurd (cc)
  normalize-IsUsable (number z d) allow_empty out h = absurd (cc)
  normalize-IsUsable (text s) allow_empty out h = absurd (cc)
  normalize-IsUsable (array items) allow_empty out h = absurd (cc)

  filters_of-nonempty :
      (k : String) (v : Json) (rest : Fields) (out : List TagFilter)
      → filters_of loader (field k v rest) ≡ value out
      → is_empty out ≡ false
  unfolding filters_of
  filters_of-nonempty k v rest out h = elim (Option-cases (filter_values_of loader v)) [
    | inl e ↦ absurd (ground arith)
    | inr (vs, e) ↦ elim (Attempted-cases (filters_of loader rest)) [
      | inl (m, f) ↦ absurd (ground arith)
      | inr (more, f) ↦ ground arith
    ]
  ]

  normalize-nonempty :
      (filters : Json) (allow_empty : Bool) (out : List TagFilter)
      → normalize_tag_filters_optional loader filters allow_empty ≡ value out
      → (allow_empty || not (is_empty out)) ≡ true
  unfolding normalize_tag_filters_optional
  normalize-nonempty filters true out h = refl
  normalize-nonempty (object (field k v rest)) false out h =
      ground (arith, filters_of-nonempty k v rest out h)
  normalize-nonempty (object no_fields) false out h = absurd (cc)
  normalize-nonempty null false out h = absurd (cc)
  normalize-nonempty (boolean b) false out h = absurd (cc)
  normalize-nonempty (number z d) false out h = absurd (cc)
  normalize-nonempty (text s) false out h = absurd (cc)
  normalize-nonempty (array items) false out h = absurd (cc)

  -- The filters that a request is turned into can all be sent: each has a value, and none of its
  -- values is empty. Unless none are allowed, as for a missing tag, there is at least one filter.
  pub normalize_tag_filters_sound :
      (filters : Json) (allow_empty : Bool) (out : List TagFilter)
      → normalize_tag_filters_optional loader filters allow_empty ≡ value out
      → All IsUsable out × ((allow_empty || not (is_empty out)) ≡ true)
  normalize_tag_filters_sound filters allow_empty out h =
      (normalize-IsUsable filters allow_empty out h, normalize-nonempty filters allow_empty out h)
