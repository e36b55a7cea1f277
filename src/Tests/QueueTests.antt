-- ===== src/Tests/QueueTests.antt =====
-- Runs of the queue, and the properties at them.
use quma_custom.Prelude.{
  ℕ, ◌≡◌, refl, ◌↔◌, true, ◌&&◌, ◌||◌, none, some, Memᴰ, ◌==◌, nat_eq, string_eq, is_some,
}
use quma_custom.Queue.Table.{
  install, remove, as_str, try_from, Db, PendingRow, insert_pending_op, insert_pending_addon_op,
  has_pending_op, has_pending_addon_op, row_to_pending_op,
}
use quma_custom.Queue.Actions.{try_from_iff}
use quma_custom.Queue.Pending.{
  Step, Reach, here, next, no_operations, has_pending-insert, row_to_pending_op-Reach,
}

abbrev waypoints : ℕ
waypoints = 5

abbrev queued : Db
queued =
    (insert_pending_op install 791 none "SAIN" none (some "admin") "2026-01-01" no_operations).1

abbrev waiting : PendingRow
waiting = record {
  id = 1;
  action = "install";
  forge_mod_id = some 791;
  forge_version_id = none;
  mod_name = "SAIN";
  metadata = none;
  queued_at = "2026-01-01";
  queued_by = some "admin";
  item_type = "mod";
  forge_addon_id = none;
  archive_path = none;
  source = "forge";
  source_url = none;
}

try_from_iff_example : (try_from "remove" ≡ some remove) ↔ ("remove" ≡ as_str remove)
try_from_iff_example = try_from_iff "remove" remove

has_pending-insert_example :
    let db_mod = (insert_pending_op remove 5 none "Waypoints" none none "2026-01-02" queued).1 in
    let db_addon =
      (insert_pending_addon_op remove 5 none "Waypoints" none none "2026-01-02" queued).1 in
    let is_it = waypoints == waypoints && as_str remove == as_str remove in
    ((has_pending_op 5 remove db_mod ≡ (is_it || has_pending_op 5 remove queued))
      × (has_pending_addon_op 5 remove db_mod ≡ has_pending_addon_op 5 remove queued))
    × (has_pending_addon_op 5 remove db_addon ≡ (is_it || has_pending_addon_op 5 remove queued))
    × (has_pending_op 5 remove db_addon ≡ has_pending_op 5 remove queued)
has_pending-insert_example =
    has_pending-insert remove 5 none "Waypoints" none none "2026-01-02" queued 5 remove

queue-reached : Reach no_operations queued
queue-reached =
    next here (Step.insert_op install 791 none "SAIN" none (some "admin") "2026-01-01" refl)

row_to_pending_op-Reach_example : is_some (row_to_pending_op waiting) ≡ true
row_to_pending_op-Reach_example =
    row_to_pending_op-Reach waiting queue-reached
      (unfold insert_pending_op as_str in Memᴰ.head refl)
