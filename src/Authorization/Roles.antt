-- ===== src/Authorization/Roles.antt =====
-- Who may write tags.
use aws_tagging_utils.Base.{String, ◌<>◌, ◌≡◌, ◌≢◌, ◌↔◌, ◌⊎◌, refl, true, false, not, ◌&&◌, ◌||◌}
use aws_tagging_utils.Base.{some, List, [], ◌∷◌, ◌==◌, contains, string_eq, arith}
use aws_tagging_utils.Base.{Member, inl, inr, Option-cases, Bool-cases, option_eq}
use aws_tagging_utils.Base.Dict
use aws_tagging_utils.Base.Text.{ends_with}
use aws_tagging_utils.Runtime.{Runtime}
use aws_tagging_utils.Governance.Models.{Tags}
use aws_tagging_utils.Authorization.{
  UserIdentity, usable, lowered, names, match_keys, owner_matches, is_owner, can_modify_tags,
  owner_identifiers, is_owned, application_of, can_write_any_tags, can_write_all_resources,
}

module _ (rt : Runtime) (owner_match_tags : List String) where
  -- More roles never take the permission to modify a resource away, for one user.
  pub can_modify_tags_monotone :
      (identity : UserIdentity) (roles : List String) (resource_tags : Tags)
      → ((r : String) → contains identity.roles r ≡ true → contains roles r ≡ true)
      → can_modify_tags rt owner_match_tags identity resource_tags ≡ true
      → can_modify_tags rt owner_match_tags (record identity { roles = roles }) resource_tags ≡ true
  unfolding can_modify_tags is_owner owner_identifiers
  can_modify_tags_monotone identity roles resource_tags more h =
      ground (arith, more "PlatformAdmin", more "TagOperator", more "ApplicationOwner")

  -- Who may modify the tags of some resource holds a role that may write tags at all, and who may
  -- write all resources may modify this one.
  pub can_modify_tags_between :
      (identity : UserIdentity) (resource_tags : Tags)
      → (can_write_all_resources identity ≡ true
          → can_modify_tags rt owner_match_tags identity resource_tags ≡ true)
        × (can_modify_tags rt owner_match_tags identity resource_tags ≡ true
            → can_write_any_tags identity ≡ true)
  unfolding can_modify_tags can_write_any_tags can_write_all_resources
  can_modify_tags_between identity resource_tags = (λ h. ground arith, λ h. ground arith)

  -- A value that names the identifier, alone or after a slash.
  abbrev pub Named : String → String → Type 0
  Named value ident = (value == ident || ends_with value ("/" <> ident)) ≡ true

  names_iff :
      (value : String) (ids : List String)
      → (names rt value ids ≡ true) ↔ ((i : String) × (Member i ids × Named value i))
  unfolding names
  names_iff value [] = (λ h. absurd (ground arith), λ (i, (m, e)). absurd m)
  names_iff value (j ∷ ids) = (
    λ h. elim (Bool-cases (value == j || ends_with value ("/" <> j))) [
      | inl e ↦ (j, (inl refl, e))
      | inr e ↦ let (i, (m, n)) = (names_iff value ids).0 (ground arith) in (i, (inr m, n))
    ],
    λ (i, (m, n)). elim m [
      | inl e ↦ let n' = rw e at n in ground arith
      | inr r ↦ let rest = (names_iff value ids).1 (i, (r, n)) in ground arith
    ],
  )

  -- A key of the setting whose value on the resource names one of the identifiers.
  abbrev pub Matches : Tags → List String → String → Type 0
  Matches tags ids key =
      (value : String) × ((Dict.get tags (rt.lower key) ≡ some value)
        × (((value == "") ≡ false) × ((i : String) × (Member i ids × Named value i))))

  match_keys_sound :
      (tags : Tags) (keys ids : List String)
      → match_keys rt tags keys ids ≡ true
      → (key : String) × (Member key keys × Matches tags ids key)
  unfolding match_keys
  match_keys_sound tags [] ids h = absurd (ground arith)
  match_keys_sound tags (j ∷ keys) ids h = elim (Option-cases (Dict.get tags (rt.lower j))) [
    | inl e ↦
        let (k, (m, found)) = match_keys_sound tags keys ids (ground arith) in (k, (inr m, found))
    | inr (v, e) ↦ elim (Bool-cases (not (v == "") && names rt v ids)) [
      | inl here ↦ (j, (inl refl, (v, (e, (ground arith, (names_iff v ids).0 (ground arith))))))
      | inr gone ↦
          let (k, (m, found)) = match_keys_sound tags keys ids (ground arith) in (k, (inr m, found))
    ]
  ]

  -- A user owns a resource only if some tag of the setting has a value that is one of the user's
  -- identifiers, alone or after a slash, or if the application is one of them.
  pub is_owned_sound :
      (identifiers : List String) (tags : Tags)
      → is_owned rt owner_match_tags identifiers tags ≡ true
      → ((key : String) × (Member key owner_match_tags
            × Matches (lowered rt tags []) (usable rt (usable rt identifiers)) key))
        ⊎ ((application_of rt tags ≢ "")
            × (contains (usable rt identifiers) (application_of rt tags) ≡ true))
  unfolding is_owned owner_matches
  is_owned_sound identifiers tags h =
      elim (Bool-cases (owner_matches rt owner_match_tags (usable rt identifiers) tags)) [
        | inl e ↦ inl (
            match_keys_sound (lowered rt tags []) owner_match_tags
              (usable rt (usable rt identifiers)) (ground arith))
        | inr e ↦ inr (λ q. absurd (ground arith), ground arith)
      ]
