-- ===== src/Changesets/Undo/Once.antt =====
-- A change set is undone once.
use aws_tagging_utils.Base.{ℕ, String, some, List, ◌≡◌, arith}
use aws_tagging_utils.Base.{Option-cases, inl, inr, ◌⊎◌}
use aws_tagging_utils.Base.Dict.{Dict}
use aws_tagging_utils.Governance.Models.{Tags}
use aws_tagging_utils.Changesets.Log.{
  Item, ChangeSet, Site, finished, refused, get_change_set, record_change_set, mark_original,
}
use aws_tagging_utils.Changesets.Log.Rows.{find_row-mark_undone}
use aws_tagging_utils.Changesets.Apply.{Context}
use aws_tagging_utils.Changesets.Undo.{undo, undo_from, current_of, tag_items}

module _ {W Op : Type 0} (ctx : Context W Op) where
  undo_from_row :
      (new_id : String) (now : ℕ) (cs_id actor : String) (items : List (Item Op))
      → (current : Dict String Tags) (site : Site W Op) (row : ChangeSet Op)
      → get_change_set (undo_from ctx new_id now cs_id actor items current site).1 cs_id ≡ some row
      → row.undone_by ≡ some new_id
  unfolding undo_from record_change_set mark_original get_change_set
  undo_from_row new_id now cs_id actor items current site row found =
      find_row-mark_undone _ new_id _ cs_id _ row found

  undone_row :
      (new_id : String) (now : ℕ) (cs_id actor : String) (site site' : Site W Op)
      (cs row : ChangeSet Op)
      → undo ctx new_id now cs_id actor site ≡ (finished cs, site')
      → get_change_set site' cs_id ≡ some row
      → row.undone_by ≡ some new_id
  unfolding undo
  undone_row new_id now cs_id actor site site' cs row h found =
      elim (Option-cases (get_change_set site cs_id)) [
        | inl e ↦ absurd (ground arith)
        | inr (original, e) ↦
            elim (Option-cases (current_of ctx (tag_items original.items) site.world.aws)) [
              | inl f ↦ absurd (ground arith)
              | inr (current, f) ↦
                  ground
                    (arith, undo_from_row new_id now cs_id actor original.items current site row)
            ]
      ]

  -- After an undo of a change set that ended, a second one of the same change set is refused and
  -- changes nothing, whoever asks for it and whenever: with 409, or with 404 if the row expired.
  pub undo_twice :
      (new_id : String) (now : ℕ) (cs_id actor : String) (site site' : Site W Op)
      (cs : ChangeSet Op)
      → (next_id : String) (later : ℕ) (other : String)
      → undo ctx new_id now cs_id actor site ≡ (finished cs, site')
      → (undo ctx next_id later cs_id other site' ≡ (refused 409 "ALREADY_UNDONE", site'))
        ⊎ (undo ctx next_id later cs_id other site' ≡ (refused 404 "NOT_FOUND", site'))
  unfolding undo
  undo_twice new_id now cs_id actor site site' cs next_id later other h =
      elim (Option-cases (get_change_set site' cs_id)) [
        | inl e ↦ inr (ground arith)
        | inr (row, e) ↦
            inl (ground (arith, undone_row new_id now cs_id actor site site' cs row h e))
      ]
