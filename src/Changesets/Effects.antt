-- ===== src/Changesets/Effects.antt =====
-- What a planned change does to the tags of a resource.
use aws_tagging_utils.Base.{String, ◌≡◌, refl, Bool, true, false, not, ◌&&◌, ◌||◌, none, some}
use aws_tagging_utils.Base.{[], ◌∷◌, ◌==◌, string_eq, option_eq, if◌then◌else◌, arith, Bool-cases}
use aws_tagging_utils.Base.{Option-cases, inl, inr}
use aws_tagging_utils.Base.Dict
use aws_tagging_utils.Base.Dict.{Dict, NodupKeys}
use aws_tagging_utils.Runtime.{Runtime}
use aws_tagging_utils.Governance.Models.{Tags}
use aws_tagging_utils.Changesets.{changes_of, afters, apply_changes}

module _ (rt : Runtime) where
  get-afters_keep :
      (cur normalized : Tags) (k v : String)
      → Dict.get cur k ≡ some v
      → Dict.get (afters rt (changes_of rt cur false normalized)) k ≡ none
  unfolding changes_of afters Dict.get Dict.has_key
  get-afters_keep cur [] k v h = refl
  get-afters_keep cur ((j, w) ∷ normalized) k v h =
      ground (arith, get-afters_keep cur normalized k v h)

  -- Without "overwrite" a planned change never alters or removes a tag that the resource has.
  pub apply_changes_keeps :
      (cur normalized : Tags) (k v : String)
      → Dict.get cur k ≡ some v
      → Dict.get (apply_changes rt cur (changes_of rt cur false normalized)) k ≡ some v
  unfolding apply_changes
  apply_changes_keeps cur normalized k v h = ground (
    arith,
    Dict.get-update-none cur (afters rt (changes_of rt cur false normalized)) k,
    get-afters_keep cur normalized k v h,
  )

  pub get-afters :
      (cur normalized : Tags) (overwrite : Bool) (k : String)
      → NodupKeys normalized
      → Dict.get (afters rt (changes_of rt cur overwrite normalized)) k ≡ (
          if Dict.get normalized k == Dict.get cur k || (Dict.has_key cur k && not overwrite)
          then none
          else Dict.get normalized k)
  unfolding changes_of afters Dict.get Dict.has_key
  get-afters cur [] overwrite k u = ground arith
  get-afters cur ((j, w) ∷ normalized) overwrite k (fresh, u) =
      ground (arith, get-afters cur normalized overwrite k u)

  pub afters-NodupKeys :
      (cur normalized : Tags) (overwrite : Bool)
      → NodupKeys normalized
      → NodupKeys (afters rt (changes_of rt cur overwrite normalized))
  unfolding changes_of afters
  afters-NodupKeys cur [] overwrite u = tt
  afters-NodupKeys cur ((j, w) ∷ normalized) overwrite (fresh, u) =
      elim (Bool-cases (Dict.get cur j == some w || (Dict.has_key cur j && not overwrite))) [
        | inl e ↦ rw (e, changes_of, afters) (afters-NodupKeys cur normalized overwrite u)
        | inr e ↦
            rw (e, changes_of, afters)
              (
                ground (arith, get-afters cur normalized overwrite j u),
                afters-NodupKeys cur normalized overwrite u,
              )
      ]

  -- With "overwrite", and no key requested twice, the resource has every requested tag with the
  -- requested value after the change, and a tag that was not requested as before.
  pub apply_changes_sets :
      (cur normalized : Tags) (k : String)
      → NodupKeys normalized
      → Dict.get (apply_changes rt cur (changes_of rt cur true normalized)) k
        ≡ (elim (Dict.get normalized k) [ none ↦ Dict.get cur k | some v ↦ some v ])
  unfolding apply_changes
  apply_changes_sets cur normalized k u =
      let more = afters rt (changes_of rt cur true normalized) in
      elim (Option-cases (Dict.get more k)) [
        | inl e ↦
            ground (arith, Dict.get-update-none cur more k e, get-afters cur normalized true k u)
        | inr (v, e) ↦ ground (
          arith,
          Dict.get-update-some cur more k v (afters-NodupKeys cur normalized true u) e,
          get-afters cur normalized true k u,
        )
      ]
