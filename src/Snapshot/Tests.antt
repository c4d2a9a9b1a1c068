-- ===== src/Snapshot/Tests.antt =====
-- The difference of two snapshots, and the theorems about it at concrete data.
use hands_free_auto_lab_port.Prelude.{refl, ok, ◌≡◌, lookup}
use hands_free_auto_lab_port.Snapshot.Diff.{diff_of, by_path, diff_lab_workspace_snapshots}
use hands_free_auto_lab_port.Snapshot.Changes.{
  diff-IsChange, patch-diff, changes_by_path, IsChange, patch,
}
use hands_free_auto_lab_port.Snapshot.Samples.{
  first_change, later, difference, earlier, opened_snapshots,
}
use hands_free_auto_lab_port.Samples.{toy}
use hands_free_auto_lab_port.Snapshot.Validate.{validate_lab_workspace_snapshot}

earlier_accepted : validate_lab_workspace_snapshot toy earlier ≡ ok earlier
unfolding opened_snapshots
earlier_accepted = refl

differs : diff_lab_workspace_snapshots toy earlier later ≡ ok difference
unfolding opened_snapshots
differs = refl

patch-diff_example :
    patch
      (lookup "a.txt" (changes_by_path difference.entries))
      (lookup "a.txt" (by_path earlier.entries))
    ≡ lookup "a.txt" (by_path later.entries)
patch-diff_example = patch-diff toy earlier later "a.txt" differs

diff-IsChange_example :
    IsChange "a.txt"
      (lookup "a.txt" (by_path earlier.entries))
      (lookup "a.txt" (by_path later.entries))
      first_change
unfolding lookup diff_of
diff-IsChange_example = diff-IsChange toy earlier later "a.txt" differs refl
