-- ===== src/State/Dynamo/Scans.antt =====
-- Scans of a table come to their end, and what they list.
use aws_tagging_utils.Base.{
  ℕ, zero, suc, ◌≤◌, String, Option, none, some, List, [], ◌∷◌, ◌++◌, ◌≡◌, refl, arith, ◌∙◌, ap,
  sym,
}
use aws_tagging_utils.Base.{ltb, length, take, Bool-cases, inl, inr, ◌⊎◌, All, All-map}
use aws_tagging_utils.Errors.{ok}
use aws_tagging_utils.State.{Action}
use aws_tagging_utils.TagWriter.Batches.{append_all}
use mathlib.Core.List.{Perm}
use mathlib.Core.List.Perm
use aws_tagging_utils.State.Dynamo.{
  reads, Items, Table, scan_from, insert_recent, sort_recent, most_recent, list_remediation_actions,
}

append_assoc {ℓ} : {A : Type ℓ} (xs ys zs : List A) → (xs ++ ys) ++ zs ≡ xs ++ (ys ++ zs)
append_assoc [] ys zs = refl
append_assoc (x ∷ xs) ys zs = ap (λ r. x ∷ r) (append_assoc xs ys zs)

append_nil {ℓ} : {A : Type ℓ} (xs : List A) → xs ++ [] ≡ xs
append_nil [] = refl
append_nil (x ∷ xs) = ap (λ r. x ∷ r) (append_nil xs)

module _ {A W : Type 0} (items : Items A W) (w : W) where
  -- From the key `start` on, the table answers these pages, the last of them without a key.
  abbrev pub Pages : Option String → List (List A) → Type 0
  Pages start [] = ⊥
  Pages start (p ∷ []) =
      items.scan start w ≡ reads (record { items = p; last_evaluated_key = none })
  Pages start (p ∷ q ∷ rest) =
      (key : String) × ((items.scan start w
          ≡ reads (record { items = p; last_evaluated_key = some key }))
        × Pages (some key) (q ∷ rest))

  -- On a table of finitely many pages, fuel for each of them is enough: the scan ends and answers
  -- the items of all pages, in order.
  pub scan_from-Pages :
      (pages : List (List A)) (start : Option String) (fuel : ℕ) (found : List A)
      → Pages start pages
      → length pages ≤ fuel
      → scan_from items fuel start found w ≡ some (reads (found ++ append_all pages))
  unfolding scan_from
  scan_from-Pages [] start fuel found h enough = absurd h
  scan_from-Pages (p ∷ pages) start zero found h enough = absurd (omega arith)
  scan_from-Pages (p ∷ []) start (suc fuel) found h enough =
      rw (h, scan_from) (ap (λ xs. some (reads (found ++ xs))) (sym (append_nil p)))
  scan_from-Pages (p ∷ q ∷ rest) start (suc fuel) found (key, (h, more)) enough =
      rw (h, scan_from)
        (scan_from-Pages (q ∷ rest) (some key) fuel (found ++ p) more (omega arith)
          ∙ ap (λ xs. some (reads xs)) (append_assoc found p (append_all (q ∷ rest))))

-- Each action was updated no earlier than those after it.
abbrev pub Descending : List Action → Type 0
Descending [] = Unit
Descending (a ∷ actions) = All (λ b. b.updated_at ≤ a.updated_at) actions × Descending actions

insert_recent-All :
    (P : Action → Type 0) (a : Action) (actions : List Action)
    → P a
    → All P actions
    → All P (insert_recent a actions)
unfolding insert_recent
insert_recent-All P a [] h hs = (h, tt)
insert_recent-All P a (b ∷ actions) h (k, hs) = elim (Bool-cases (ltb a.updated_at b.updated_at)) [
  | inl e ↦ rw (e, insert_recent) (k, insert_recent-All P a actions h hs)
  | inr e ↦ rw (e, insert_recent) (h, (k, hs))
]

insert_recent-Descending :
    (a : Action) (actions : List Action) → Descending actions → Descending (insert_recent a actions)
unfolding insert_recent
insert_recent-Descending a [] h = (tt, tt)
insert_recent-Descending a (b ∷ actions) (hb, h) =
    elim (Bool-cases (ltb a.updated_at b.updated_at)) [
      | inl e ↦
          rw (e, insert_recent)
            (
              insert_recent-All (λ c. c.updated_at ≤ b.updated_at) a actions (ground arith) hb,
              insert_recent-Descending a actions h,
            )
      | inr e ↦
          rw (e, insert_recent)
            (
              (
                ground arith,
                All-map (λ c. c.updated_at ≤ b.updated_at) (λ c. c.updated_at ≤ a.updated_at)
                    actions (λ c k. ground arith) hb,
              ),
              (hb, h),
            )
    ]

sort_recent-Descending : (actions : List Action) → Descending (sort_recent actions)
unfolding sort_recent
sort_recent-Descending [] = tt
sort_recent-Descending (a ∷ actions) =
    insert_recent-Descending a (sort_recent actions) (sort_recent-Descending actions)

insert_recent-Perm :
    (a : Action) (actions : List Action) → Perm (insert_recent a actions) (a ∷ actions)
unfolding insert_recent
insert_recent-Perm a [] = Perm.rfl
insert_recent-Perm a (b ∷ actions) = elim (Bool-cases (ltb a.updated_at b.updated_at)) [
  | inl e ↦
      rw (e, insert_recent)
        (Perm.trans (Perm.cons b (insert_recent-Perm a actions)) (Perm.swap a b actions))
  | inr e ↦ rw (e, insert_recent) Perm.rfl
]

sort_recent-Perm : (actions : List Action) → Perm (sort_recent actions) actions
unfolding sort_recent
sort_recent-Perm [] = Perm.rfl
sort_recent-Perm (a ∷ actions) =
    Perm.trans (insert_recent-Perm a (sort_recent actions)) (Perm.cons a (sort_recent-Perm actions))

-- What a listing leaves out.
drop : ℕ → List Action → List Action
drop zero xs = xs
drop (suc n) [] = []
drop (suc n) (x ∷ xs) = drop n xs

take-append-drop : (n : ℕ) (xs : List Action) → (take n xs ++ drop n xs) ≡ xs
unfolding drop
take-append-drop zero xs = refl
take-append-drop (suc n) [] = refl
take-append-drop (suc n) (x ∷ xs) = ap (λ ys. x ∷ ys) (take-append-drop n xs)

length-take : (n : ℕ) (xs : List Action) → length (take n xs) ≤ n
length-take zero xs = omega arith
length-take (suc n) [] = omega arith
length-take (suc n) (x ∷ xs) = omega (arith, length-take n xs)

-- Something is left out only when the listing is full.
drop-full : (n : ℕ) (xs : List Action) → (drop n xs ≡ []) ⊎ (length (take n xs) ≡ n)
unfolding drop
drop-full zero xs = inr refl
drop-full (suc n) [] = inl refl
drop-full (suc n) (x ∷ xs) = elim (drop-full n xs) [
  | inl e ↦ inl e
  | inr e ↦ inr (omega (arith, e))
]

-- On a table whose actions stand on finitely many pages, with fuel for each page, the listing ends.
-- The actions listed and those left out are together the actions of the table, each as often as
-- there; in that order they are sorted by their last update, the latest first; at most `limit` are
-- listed, and exactly `limit` if any is left out.
pub list_remediation_actions_lem :
    {W : Type 0} (table : Table W) (w : W) (fuel limit : ℕ) (pages : List (List Action))
    → Pages table.actions w none pages
    → length pages ≤ fuel
    → (listed : List Action) × ((left_out : List Action) × ((list_remediation_actions table fuel
              limit w
            ≡ some (ok listed))
          × Perm (listed ++ left_out) (append_all pages)
          × Descending (listed ++ left_out)
          × (length listed ≤ limit)
          × ((left_out ≡ []) ⊎ (length listed ≡ limit))))
unfolding list_remediation_actions most_recent
list_remediation_actions_lem table w fuel limit pages h enough =
    let actions = append_all pages in
    let recent = sort_recent actions in
    let whole = take-append-drop limit recent in
    (
      take limit recent,
      (
        drop limit recent,
        (
          ground (arith, scan_from-Pages table.actions w pages none fuel [] h enough),
          rw whole (sort_recent-Perm actions),
          rw whole (sort_recent-Descending actions),
          length-take limit recent,
          drop-full limit recent,
        ),
      ),
    )
