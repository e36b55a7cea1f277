-- ===== src/Tasks/Running.antt =====
-- src/web/tasks.rs: the steps of the tracker as the handlers take them, and what they keep. No handler
-- calls `start` itself.
use quma_custom.Prelude.{
  ℕ, ◌+◌, ◌≤◌, String, ◌≡◌, refl, sym, inl, inr, true, false, not, ◌&&◌, none, List, [], ◌∷◌, arith,
  ltb, ◌==◌, nat_eq, string_eq, if◌then◌else◌, Bool-cases, beq_self, nat_beq_iff, length, any,
}
use quma_custom.Sql.{count_where, delete_where}
use quma_custom.Tasks.Tracker
use quma_custom.Tasks.Tracker.{
  Tracker, TaskInfo, TaskStatus, new, is_running, is_finished, is_active, is_running_for,
  has_running_for_mod, finished_ids, remove, remove_all, put, prune_old, set_status, with_status,
  send_event, ServerEvent, task_changed, mods_changed,
}
use Prim.Native.String.{◌++◌ as concat}
use quma_custom.Tasks.Prune.{prune_old-bound}
use quma_custom.Sql.Count.{count-filter_le, count-update_where_le, count-none}

pub data Step (t t' : Tracker) : Type 0 where
  start_if_not_running :
      (action mod_name : String) (forge_mod_id : ℕ)
      → t' ≡ (Tracker.start_if_not_running action mod_name forge_mod_id t).1
      → Step t t'
  start_if_no_active :
      (action mod_name : String) (forge_mod_id : ℕ)
      → t' ≡ (Tracker.start_if_no_active action mod_name forge_mod_id t).1
      → Step t t'
  complete : (id : ℕ) (message : String) → t' ≡ Tracker.complete id message t → Step t t'
  fail : (id : ℕ) (message : String) → t' ≡ Tracker.fail id message t → Step t t'
  update_message :
      (id : ℕ) (message : String) → t' ≡ Tracker.update_message id message t → Step t t'
  dismiss : (id : ℕ) → t' ≡ Tracker.dismiss id t → Step t t'

pub data Reach (t : Tracker) : Tracker → Type 0 where
  here : Reach t t
  next : {u v : Tracker} → Reach t u → Step u v → Reach t v

-- The running tasks of a mod.
abbrev pub running_count : ℕ → List (ℕ × TaskInfo) → ℕ
running_count forge_mod_id tasks = count_where (is_running_for forge_mod_id) tasks

none_for :
    (m : ℕ) (tasks : List (ℕ × TaskInfo))
    → any is_active tasks ≡ false
    → any (is_running_for m) tasks ≡ false
none_for m [] h = refl
none_for m (e ∷ es) h = elim (Bool-cases (is_active e)) [
  | inl y ↦ absurd (ground arith)
  | inr n ↦
      let rest = none_for m es (rw n at h) in
      rw n (elim (Bool-cases (e.1.forge_mod_id == m)) [ inl k ↦ rw k rest | inr k ↦ rw k rest ])
]

count-put :
    (m id : ℕ) (info : TaskInfo) (tasks : List (ℕ × TaskInfo))
    → running_count m (put id info tasks)
      ≤ (if is_running_for m (id, info) then 1 else 0) + running_count m tasks
unfolding put delete_where count_where
count-put m id info tasks =
    let below = count-filter_le (is_running_for m) (λ e. not (e.0 == id)) tasks in
    elim (Bool-cases (is_running_for m (id, info))) [
      | inl h ↦ rw h (omega (arith, below))
      | inr h ↦ rw h (omega (arith, below))
    ]

-- A new task of one mod, where that mod has none that runs.
count-start :
    (m : ℕ) (action mod_name : String) (forge_mod_id : ℕ) (t : Tracker)
    → (m ≡ forge_mod_id → running_count m t.tasks ≡ 0)
    → running_count m t.tasks ≤ 1
    → running_count m (Tracker.start action mod_name forge_mod_id t).1.tasks ≤ 1
unfolding Tracker.start
count-start m action mod_name forge_mod_id t free bound =
    let info : TaskInfo = record {
      status = TaskStatus.running (concat action (concat " " (concat mod_name "...")));
      forge_mod_id = forge_mod_id;
    } in
    let below = count-put m t.next_id info t.tasks in
    elim (Bool-cases (forge_mod_id == m)) [
      | inl same ↦
          let none_yet = free (sym ((nat_beq_iff forge_mod_id m).0 same)) in
          omega (arith, rw same at below)
      | inr other ↦ omega (arith, rw other at below)
    ]

count-remove_all :
    (m : ℕ) (ids : List ℕ) (tasks : List (ℕ × TaskInfo))
    → running_count m (remove_all ids tasks) ≤ running_count m tasks
unfolding remove_all remove delete_where
count-remove_all m [] tasks = ground arith
count-remove_all m (id ∷ ids) tasks =
    let rest = count-remove_all m ids (remove id tasks) in
    let one = count-filter_le (is_running_for m) (λ e. not (e.0 == id)) tasks in omega arith

count-prune_old :
    (m : ℕ) (t : Tracker) → running_count m (prune_old t).tasks ≤ running_count m t.tasks
unfolding prune_old
count-prune_old m t = elim (Bool-cases (ltb 20 (length (finished_ids t.tasks)))) [
  | inl many ↦ rw many (count-remove_all m _ t.tasks)
  | inr few ↦ rw few (ground arith)
]

-- The end of a task starts none.
count-set_status :
    (m id : ℕ) (status : TaskStatus) (t : Tracker)
    → is_running status ≡ false
    → running_count m (set_status id status t).tasks ≤ running_count m t.tasks
unfolding set_status
count-set_status m id status t ended =
    count-update_where_le (is_running_for m) _ (with_status status) t.tasks
      (λ e hit running. absurd (ground arith))

running_count-Step :
    (m : ℕ) {t t' : Tracker}
    → Step t t'
    → running_count m t.tasks ≤ 1
    → running_count m t'.tasks ≤ 1
unfolding Tracker.start_if_not_running Tracker.start_if_no_active Tracker.complete Tracker.fail
    Tracker.update_message Tracker.dismiss remove delete_where
running_count-Step m {t} (Step.start_if_not_running action mod_name forge_mod_id e) h =
    elim (Bool-cases (any (is_running_for forge_mod_id) t.tasks)) [
      | inl busy ↦ rw e (rw busy h)
      | inr free ↦ rw e (
          rw free (
            count-start m action mod_name forge_mod_id t
              (λ same. rw same (count-none _ t.tasks free)) h))
    ]
running_count-Step m {t} (Step.start_if_no_active action mod_name forge_mod_id e) h =
    elim (Bool-cases (any is_active t.tasks)) [
      | inl busy ↦ rw e (rw busy h)
      | inr free ↦ rw e (
          rw free (
            count-start m action mod_name forge_mod_id t
              (λ same. count-none _ t.tasks (none_for m t.tasks free)) h))
    ]
running_count-Step m {t} (Step.complete id message e) h =
    let a = count-prune_old m (
      send_event mods_changed
        (send_event task_changed (set_status id (TaskStatus.completed message) t))) in
    let b = count-set_status m id (TaskStatus.completed message) t refl in rw e (omega arith)
running_count-Step m {t} (Step.fail id message e) h =
    let a =
      count-prune_old m (send_event task_changed (set_status id (TaskStatus.failed message) t)) in
    let b = count-set_status m id (TaskStatus.failed message) t refl in rw e (omega arith)
running_count-Step m {t} (Step.update_message id message e) h =
    let hit = λ (e : ℕ × TaskInfo). e.0 == id && is_running e.1.status in
    elim (Bool-cases (any hit t.tasks)) [
      | inl y ↦
          let a =
            count-update_where_le (is_running_for m) hit (with_status (TaskStatus.running message))
              t.tasks (λ e was now. ground arith) in
          rw e (rw y (omega arith))
      | inr n ↦ rw e (rw n h)
    ]
running_count-Step m {t} (Step.dismiss id e) h =
    let a = count-filter_le (is_running_for m) (λ e. not (e.0 == id)) t.tasks in rw e (omega arith)

-- However the handlers drive a new tracker, at most one task of a mod runs at a time.
pub running_count-Reach :
    {t : Tracker} (forge_mod_id : ℕ) → Reach new t → running_count forge_mod_id t.tasks ≤ 1
running_count-Reach m here = unfold new count_where in ground arith
running_count-Reach m (next r s) = running_count-Step m s (running_count-Reach m r)

finished-put :
    (id : ℕ) (action mod_name : String) (forge_mod_id : ℕ) (tasks : List (ℕ × TaskInfo))
    → count_where is_finished tasks ≤ 20
    → count_where is_finished (
        put id
          (record {
            status = TaskStatus.running (concat action (concat " " (concat mod_name "...")));
            forge_mod_id = forge_mod_id;
          })
          tasks)
      ≤ 20
unfolding put delete_where count_where
finished-put id action mod_name forge_mod_id tasks h =
    let a = count-filter_le is_finished (λ e. not (e.0 == id)) tasks in omega arith

finished_count-Step :
    {t t' : Tracker}
    → Step t t'
    → count_where is_finished t.tasks ≤ 20
    → count_where is_finished t'.tasks ≤ 20
unfolding Tracker.start_if_not_running Tracker.start_if_no_active Tracker.start Tracker.complete
    Tracker.fail Tracker.update_message Tracker.dismiss remove delete_where
finished_count-Step {t} (Step.start_if_not_running action mod_name forge_mod_id e) h =
    elim (Bool-cases (any (is_running_for forge_mod_id) t.tasks)) [
      | inl busy ↦ rw e (rw busy h)
      | inr free ↦ rw e (rw free (finished-put t.next_id action mod_name forge_mod_id t.tasks h))
    ]
finished_count-Step {t} (Step.start_if_no_active action mod_name forge_mod_id e) h =
    elim (Bool-cases (any is_active t.tasks)) [
      | inl busy ↦ rw e (rw busy h)
      | inr free ↦ rw e (rw free (finished-put t.next_id action mod_name forge_mod_id t.tasks h))
    ]
finished_count-Step {t} (Step.complete id message e) h = rw e (prune_old-bound _)
finished_count-Step {t} (Step.fail id message e) h = rw e (prune_old-bound _)
finished_count-Step {t} (Step.update_message id message e) h =
    let hit = λ (e : ℕ × TaskInfo). e.0 == id && is_running e.1.status in
    elim (Bool-cases (any hit t.tasks)) [
      | inl y ↦
          let a =
            count-update_where_le is_finished hit (with_status (TaskStatus.running message)) t.tasks
              (λ e was now. absurd (ground arith)) in
          rw e (rw y (omega arith))
      | inr n ↦ rw e (rw n h)
    ]
finished_count-Step {t} (Step.dismiss id e) h =
    let a = count-filter_le is_finished (λ e. not (e.0 == id)) t.tasks in rw e (omega arith)

-- However the handlers drive a new tracker, it holds at most 20 finished tasks.
pub finished_count-Reach : {t : Tracker} → Reach new t → count_where is_finished t.tasks ≤ 20
finished_count-Reach here = unfold new count_where in ground arith
finished_count-Reach (next r s) = finished_count-Step s (finished_count-Reach r)

-- After `start_if_not_running` the mod has a running task, whatever the answer was, and a second call
-- for the same mod starts nothing.
pub start_if_not_running-again :
    (action mod_name action' mod_name' : String) (forge_mod_id : ℕ) (t : Tracker)
    → let t' = (Tracker.start_if_not_running action mod_name forge_mod_id t).1 in
      (has_running_for_mod forge_mod_id t' ≡ true)
      × (Tracker.start_if_not_running action' mod_name' forge_mod_id t' ≡ (none, t'))
unfolding Tracker.start_if_not_running Tracker.start has_running_for_mod put
start_if_not_running-again action mod_name action' mod_name' m t =
    elim (Bool-cases (any (is_running_for m) t.tasks)) [
      | inl busy ↦ rw (busy, busy) (refl, refl)
      | inr free ↦ rw (free, beq_self m) (refl, refl)
    ]
