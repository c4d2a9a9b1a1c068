-- ===== src/Policy/Tests.antt =====
-- The theorems about accepted differences at concrete data.
use hands_free_auto_lab_port.Prelude.{some, ok, ◌⊎◌, [], ◌≢◌, true, ◌∷◌, ◌≡◌, lookup, refl}
use hands_free_auto_lab_port.Policy.Samples.{modify_target, add_target, opened_policy, two_targets}
use hands_free_auto_lab_port.Policy.Evidence.{
  targets_by_path, validate_lab_worker_change_policy_diff,
}
use hands_free_auto_lab_port.Policy.Validate.{policy_of, build_lab_worker_change_policy}
use hands_free_auto_lab_port.Policy.Accepted.{accepted_changes, complete_changes}
use hands_free_auto_lab_port.Policy.Allowed.{IsAllowed}
use hands_free_auto_lab_port.Samples.{toy}
use hands_free_auto_lab_port.Policy.Types.{Target}
use hands_free_auto_lab_port.Snapshot.Diff.{by_path}
use hands_free_auto_lab_port.Snapshot.Samples.{earlier, later, difference}

built : build_lab_worker_change_policy toy (add_target ∷ modify_target ∷ []) ≡ ok two_targets
unfolding opened_policy
built = refl

accepts :
    validate_lab_worker_change_policy_diff toy two_targets earlier later difference true
    ≡ ok two_targets
unfolding opened_policy
accepts = refl

accepted_changes_example :
    (lookup "a.txt" (by_path later.entries) ≡ lookup "a.txt" (by_path earlier.entries))
    ⊎ ((t : Target) × (lookup "a.txt" (targets_by_path two_targets.targets) ≡ some t)
        × IsAllowed t
            (lookup "a.txt" (by_path earlier.entries))
            (lookup "a.txt" (by_path later.entries)))
accepted_changes_example =
    accepted_changes toy two_targets earlier later difference true "a.txt" accepts

complete_changes_example :
    lookup "lib/b.txt" (by_path earlier.entries) ≢ lookup "lib/b.txt" (by_path later.entries)
unfolding lookup policy_of
complete_changes_example =
    complete_changes toy two_targets earlier later difference "lib/b.txt" accepts refl
