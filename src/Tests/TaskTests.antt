-- ===== src/Tests/TaskTests.antt =====
-- Runs of the task tracker, and the properties at them.
use quma_custom.Prelude.{◌≤◌, ◌≡◌, refl, true, false, none, nat_eq, string_eq}
use quma_custom.Sql.{count_where}
use quma_custom.Tasks.Tracker
use quma_custom.Tasks.Tracker.{
  Tracker, new, start_if_not_running, complete, is_finished, has_running_for_mod,
}
use quma_custom.Tasks.Running.{
  Reach, here, next, Step, running_count, running_count-Reach, finished_count-Reach,
  start_if_not_running-again,
}

abbrev updating : Tracker
updating = (start_if_not_running "Updating" "SAIN" 791 new).1

abbrev updated : Tracker
updated = complete 1 "Updated" updating

reached : Reach new updated
reached =
    next (next here (Step.start_if_not_running "Updating" "SAIN" 791 refl))
      (Step.complete 1 "Updated" refl)

running_count-Reach_example : running_count 791 updated.tasks ≤ 1
running_count-Reach_example = running_count-Reach 791 reached

finished_count-Reach_example : count_where is_finished updated.tasks ≤ 20
finished_count-Reach_example = finished_count-Reach reached

start_if_not_running-again_example :
    (has_running_for_mod 791 (start_if_not_running "Updating" "SAIN" 791 new).1 ≡ true)
    × (start_if_not_running "Removing" "SAIN" 791 (start_if_not_running "Updating" "SAIN" 791 new).1
        ≡ (none, (start_if_not_running "Updating" "SAIN" 791 new).1))
start_if_not_running-again_example =
    start_if_not_running-again "Updating" "SAIN" "Removing" "SAIN" 791 new

-- A task that was completed no longer runs.
updated_runs : has_running_for_mod 791 updated ≡ false
unfolding has_running_for_mod start_if_not_running complete Tracker.start Tracker.put
    Tracker.set_status Tracker.prune_old new quma_custom.Sql.update_where
    quma_custom.Sql.delete_where
updated_runs = refl
