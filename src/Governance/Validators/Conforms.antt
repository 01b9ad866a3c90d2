-- ===== src/Governance/Validators/Conforms.antt =====
-- What a schema asks of a set of tags, stated without the validators' loops, and that the
-- validators find nothing exactly when it is met.
use aws_tagging_utils.Base.{String, ◌≡◌, refl, ◌≢◌, ◌↔◌, true, false, Option, none, some}
use aws_tagging_utils.Base.{List, [], ◌∷◌, arith, contains, string_eq, Member, collect-eq-nil_iff}
use aws_tagging_utils.Base.{Option-cases, Bool-cases, inl, inr, collect}
use aws_tagging_utils.Base.Dict
use aws_tagging_utils.Base.Text.{is_blank, starts_with}
use aws_tagging_utils.Runtime.{Runtime}
use aws_tagging_utils.Governance.Models.{Schema, Tags, TagSchema}
use aws_tagging_utils.Governance.Validators.{
  is_missing, check_required, validate_required, check_allowed_values, validate_allowed_values,
  not_allowed, check_format, check_pattern, validate_pattern, check_unknown, tolerates_unknown,
  validate_unknown,
}

-- The key has a value that is not blank.
abbrev pub Present : Tags → String → Type 0
Present tags k = (v : String) × (Dict.get tags k ≡ some v) × (is_blank v ≡ false)

abbrev pub RequiredPresent : Schema → Tags → Type 0
RequiredPresent schema tags =
    (k : String) (r : TagSchema) → Member (k, r) schema → r.required ≡ true → Present tags k

-- A value that is not blank, under a key with a list of allowed values, is in the list.
abbrev pub ValuesAllowed : Schema → Tags → Type 0
ValuesAllowed schema tags =
    (k v : String) (r : TagSchema) (a : String) (l : List String)
    → Member (k, v) tags
    → is_blank v ≡ false
    → Dict.get schema k ≡ some r
    → r.allowed_values ≡ some (a ∷ l)
    → contains (a ∷ l) v ≡ true

-- A value that is not blank, under a key with a pattern, matches the pattern.
abbrev pub FormatsMatch : Runtime → Schema → Tags → Type 0
FormatsMatch rt schema tags =
    (k v : String) (r : TagSchema) (p : String)
    → Member (k, v) tags
    → is_blank v ≡ false
    → Dict.get schema k ≡ some r
    → r.pattern_ ≡ some p
    → p ≢ ""
    → rt.re_match p v ≡ some true

-- Every key stands in the schema, but for those that AWS reserves.
abbrev pub KeysKnown : Runtime → Schema → Tags → Type 0
KeysKnown rt schema tags =
    (k v : String)
    → Member (k, v) tags
    → starts_with (rt.lower k) "aws:" ≡ false
    → Dict.has_key schema k ≡ true

pub is_missing_iff :
    (tags : Tags) (k : String) → (is_missing (Dict.get tags k) ≡ false) ↔ Present tags k
unfolding is_missing
is_missing_iff tags k = elim (Option-cases (Dict.get tags k)) [
  | inl e ↦ (λ h. absurd (ground arith), λ (v, p, b). ground arith)
  | inr (v, e) ↦ (λ h. (v, e, ground arith), λ (w, p, b). ground arith)
]

not_allowed-eq-none :
    (o : Option (List String)) (v : String)
    → ((a : String) (l : List String) → o ≡ some (a ∷ l) → contains (a ∷ l) v ≡ true)
    → not_allowed o v ≡ none
unfolding not_allowed
not_allowed-eq-none none v h = refl
not_allowed-eq-none (some []) v h = refl
not_allowed-eq-none (some (a ∷ l)) v h = rw (h a l refl)

check_format-eq-none :
    (rt : Runtime) (o : Option String) (k v : String)
    → ((p : String) → o ≡ some p → p ≢ "" → rt.re_match p v ≡ some true)
    → check_format rt o k v ≡ none
unfolding check_format
check_format-eq-none rt none k v h = refl
check_format-eq-none rt (some p) k v h = ground (arith, h p refl)

module _ (schema : Schema) (tags : Tags) where
  pub validate_required-eq-nil_iff :
      (validate_required tags schema ≡ []) ↔ RequiredPresent schema tags
  unfolding validate_required
  validate_required-eq-nil_iff =
      let c = collect-eq-nil_iff (check_required tags) schema in
      (
        λ h k r m e. (is_missing_iff tags k).0 (ground (arith, c.0 h (k, r) m)),
        λ h. c.1 λ (k, r) m. required_none k r (λ e. (is_missing_iff tags k).1 (h k r m e)),
      )
    where
      required_none :
          (k : String) (r : TagSchema)
          → (r.required ≡ true → is_missing (Dict.get tags k) ≡ false)
          → check_required tags (k, r) ≡ none
      required_none k r h = ground arith

  pub validate_allowed_values-eq-nil_iff :
      (validate_allowed_values tags schema ≡ []) ↔ ValuesAllowed schema tags
  unfolding validate_allowed_values
  validate_allowed_values-eq-nil_iff =
      let c = collect-eq-nil_iff (check_allowed_values schema) tags in
      (
        λ h k v r a l m full known e. ground (arith, c.0 h (k, v) m),
        λ h. c.1 λ (k, v) m. allowed_none k v (h k v) m,
      )
    where
      allowed_none :
          (k v : String)
          → ((r : TagSchema) (a : String) (l : List String)
              → Member (k, v) tags
              → is_blank v ≡ false
              → Dict.get schema k ≡ some r
              → r.allowed_values ≡ some (a ∷ l)
              → contains (a ∷ l) v ≡ true)
          → Member (k, v) tags
          → check_allowed_values schema (k, v) ≡ none
      allowed_none k v h m = elim (Bool-cases (is_blank v)) [
        | inl blank ↦ rw blank
        | inr full ↦ elim (Option-cases (Dict.get schema k)) [
          | inl e ↦ rw (full, e)
          | inr (r, e) ↦
              rw (full, e) (rw (not_allowed-eq-none r.allowed_values v λ a l q. h r a l m full e q))
        ]
      ]

  module _ (rt : Runtime) where
    pub validate_pattern-eq-nil_iff :
        (validate_pattern rt tags schema ≡ []) ↔ FormatsMatch rt schema tags
    unfolding validate_pattern
    validate_pattern-eq-nil_iff =
        let c = collect-eq-nil_iff (check_pattern rt schema) tags in
        (
          λ h k v r p m full known e q. ground (arith, c.0 h (k, v) m),
          λ h. c.1 λ (k, v) m. format_none k v (h k v) m,
        )
      where
        format_none :
            (k v : String)
            → ((r : TagSchema) (p : String)
                → Member (k, v) tags
                → is_blank v ≡ false
                → Dict.get schema k ≡ some r
                → r.pattern_ ≡ some p
                → p ≢ ""
                → rt.re_match p v ≡ some true)
            → Member (k, v) tags
            → check_pattern rt schema (k, v) ≡ none
        format_none k v h m = elim (Bool-cases (is_blank v)) [
          | inl blank ↦ rw blank
          | inr full ↦ elim (Option-cases (Dict.get schema k)) [
            | inl e ↦ rw (full, e)
            | inr (r, e) ↦
                rw (full, e) (check_format-eq-none rt r.pattern_ k v λ p q ne. h r p m full e q ne)
          ]
        ]

    unknown-eq-nil_iff : (collect (check_unknown rt schema) tags ≡ []) ↔ KeysKnown rt schema tags
    unfolding check_unknown
    unknown-eq-nil_iff =
        let c = collect-eq-nil_iff (check_unknown rt schema) tags in
        (
          λ h k v m free. ground (arith, c.0 h (k, v) m),
          λ h. c.1 λ (k, v) m. known_none k v (h k v m),
        )
      where
        known_none :
            (k v : String)
            → (starts_with (rt.lower k) "aws:" ≡ false → Dict.has_key schema k ≡ true)
            → check_unknown rt schema (k, v) ≡ none
        known_none k v h = ground arith

    pub validate_unknown-eq-nil_iff :
        (behavior : String)
        → (validate_unknown rt tags schema behavior ≡ [])
          ↔ (tolerates_unknown rt behavior ≡ false → KeysKnown rt schema tags)
    unfolding validate_unknown
    validate_unknown-eq-nil_iff behavior = elim (Bool-cases (tolerates_unknown rt behavior)) [
      | inl e ↦ (λ h strict. cc, λ h. rw e)
      | inr e ↦
          (λ h strict. unknown-eq-nil_iff.0 (ground arith), λ h. rw e (unknown-eq-nil_iff.1 (h e)))
    ]
