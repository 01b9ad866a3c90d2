-- ===== src/Base/Dict.antt =====
-- Python dicts: the entries in the order of insertion, at most one for a key.
use mathlib.Core.Path.{◌≡◌, refl}
use mathlib.Core.Bool.{Bool, true, false}
use mathlib.Core.Option.{Option, none, some}
use mathlib.Core.List.{List, [], ◌∷◌, ◌++◌}
use native.Mathlib.Omega.{arith}
use aws_tagging_utils.Base.Equality.{Eq, ◌==◌, if◌then◌else◌}

abbrev pub Dict {ℓ κ} : Type ℓ → Type κ → Type (ℓ ⊔ κ)
Dict K V = List (K × V)

abbrev pub keys {ℓ κ} : {K : Type ℓ} {V : Type κ} → Dict K V → List K
keys [] = []
keys ((k, v) ∷ d) = k ∷ keys d

module _ {ℓ κ} {K : Type ℓ} {V : Type κ} ⦃e : Eq K⦄ where
  -- `d.get(k)`
  unfoldable pub get : Dict K V → K → Option V
  get [] k = none
  get ((j, v) ∷ d) k = if k == j then some v else get d k

  -- `d[k] = v`
  unfoldable pub insert : Dict K V → K → V → Dict K V
  insert [] k v = (k, v) ∷ []
  insert ((j, w) ∷ d) k v = if k == j then (j, v) ∷ d else (j, w) ∷ insert d k v

  -- `d.pop(k, None)`
  unfoldable pub erase : Dict K V → K → Dict K V
  erase [] k = []
  erase ((j, w) ∷ d) k = if k == j then d else (j, w) ∷ erase d k

  -- `d.update(e)`
  unfoldable pub update : Dict K V → Dict K V → Dict K V
  unfolding insert
  update d [] = d
  update d ((k, v) ∷ more) = update (insert d k v) more

  -- `k in d`
  unfoldable pub has_key : Dict K V → K → Bool
  unfolding get
  has_key d k = elim (get d k) [ none ↦ false | some v ↦ true ]

  -- What makes a list of entries a dict.
  abbrev pub NodupKeys : Dict K V → Type κ
  NodupKeys [] = Unit
  NodupKeys ((k, _) ∷ d) = (get d k ≡ none) × NodupKeys d

  pub get-insert :
      (d : Dict K V) (k : K) (v : V) (j : K)
      → get (insert d k v) j ≡ (if j == k then some v else get d j)
  unfolding get insert
  get-insert [] k v j = refl
  get-insert ((i, w) ∷ d) k v j = ground (arith, get-insert d k v j)

  pub insert-NodupKeys : (d : Dict K V) (k : K) (v : V) → NodupKeys d → NodupKeys (insert d k v)
  unfolding get insert
  insert-NodupKeys [] k v u = (refl, tt)
  insert-NodupKeys ((j, w) ∷ d) k v (fresh, u) =
      ground (arith, insert-NodupKeys d k v u, get-insert d k v j)

  pub get-erase :
      (d : Dict K V) (k j : K)
      → NodupKeys d
      → get (erase d k) j ≡ (if j == k then none else get d j)
  unfolding get erase
  get-erase [] k j u = ground arith
  get-erase ((i, w) ∷ d) k j (fresh, u) = ground (arith, get-erase d k j u)

  pub erase-NodupKeys : (d : Dict K V) (k : K) → NodupKeys d → NodupKeys (erase d k)
  unfolding get erase
  erase-NodupKeys [] k u = tt
  erase-NodupKeys ((j, w) ∷ d) k (fresh, u) =
      ground (arith, erase-NodupKeys d k u, get-erase d k j u)

  pub update-NodupKeys : (d more : Dict K V) → NodupKeys d → NodupKeys (update d more)
  unfolding update
  update-NodupKeys d [] u = u
  update-NodupKeys d ((k, v) ∷ more) u =
      update-NodupKeys (insert d k v) more (insert-NodupKeys d k v u)

  -- A key that the second dict lacks keeps its value.
  pub get-update-none :
      (d more : Dict K V) (k : K) → get more k ≡ none → get (update d more) k ≡ get d k
  unfolding update get
  get-update-none d [] k h = refl
  get-update-none d ((j, v) ∷ more) k h =
      ground (arith, get-update-none (insert d j v) more k, get-insert d j v k)

  -- A key of the second dict takes its value.
  pub get-update-some :
      (d more : Dict K V) (k : K) (v : V)
      → NodupKeys more
      → get more k ≡ some v
      → get (update d more) k ≡ some v
  unfolding update get
  get-update-some d [] k v u h = absurd (cc)
  get-update-some d ((j, w) ∷ more) k v (fresh, u) h = ground (
    arith,
    get-update-some (insert d j w) more k v u,
    get-update-none (insert d j w) more k,
    get-insert d j w k,
  )

module _ {ℓ κ} {K : Type ℓ} {A : Type κ} ⦃e : Eq K⦄ where
  -- `groups.setdefault(k, []).append(a)`
  unfoldable pub append_to : Dict K (List A) → K → A → Dict K (List A)
  append_to [] k a = (k, a ∷ []) ∷ []
  append_to ((j, xs) ∷ groups) k a =
      if k == j then (j, xs ++ (a ∷ [])) ∷ groups else (j, xs) ∷ append_to groups k a
