-- ===== src/Changesets/Log/Rows.antt =====
-- What the table of change sets holds after an undo.
use aws_tagging_utils.Base.{ℕ, String, some, List, [], ◌∷◌, ◌≡◌, arith}
use aws_tagging_utils.Base.{string_eq, keep}
use aws_tagging_utils.Changesets.Log.{ChangeSet, mark_undone, drop_expired, find_row}

module _ {Op : Type 0} where
  -- A row that is marked as undone is found as such, if it was not dropped.
  pub find_row-mark_undone :
      (cutoff : ℕ) (cs_id status original : String) (rows : List (ChangeSet Op))
      (row : ChangeSet Op)
      → find_row (drop_expired cutoff (mark_undone cs_id status original rows)) original ≡ some row
      → row.undone_by ≡ some cs_id
  unfolding find_row drop_expired keep mark_undone
  find_row-mark_undone cutoff cs_id status original [] row h = absurd (cc)
  find_row-mark_undone cutoff cs_id status original (r ∷ rows) row h =
      ground (arith, find_row-mark_undone cutoff cs_id status original rows row)
