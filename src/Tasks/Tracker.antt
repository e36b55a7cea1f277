-- ===== src/Tasks/Tracker.antt =====
-- src/web/tasks.rs: `TaskTracker`. Each method holds the tracker's lock from its start to its end, so
-- it is one function of the state. The map from ids to tasks is a list with one entry for each id;
-- `events` lists what was sent on the broadcast channel, the last event first.
use quma_custom.Prelude.{
  ℕ, ◌+◌, ◌-◌, ◌^◌, ◌%◌, String, Bool, true, false, not, ◌&&◌, Option, some, none, List, [], ◌∷◌,
  map, ltb, leb, ◌==◌, nat_eq, if◌then◌else◌, length, take, any, filter,
}
use quma_custom.Sql.{update_where, delete_where}
use Prim.Native.String.{◌++◌ as concat}

pub data TaskStatus : Type 0 where
  running completed failed : (message : String) → TaskStatus

pub css_class : TaskStatus → String
css_class (running m) = "alert-info loading-pulse"
css_class (completed m) = "alert-success"
css_class (failed m) = "alert-error"

pub message : TaskStatus → String
message (running m) = m
message (completed m) = m
message (failed m) = m

abbrev pub is_running : TaskStatus → Bool
is_running (running m) = true
is_running (completed m) = false
is_running (failed m) = false

pub record TaskInfo : Type 0 where
  pub status : TaskStatus
  pub forge_mod_id : ℕ

pub record TaskView : Type 0 where
  pub id : ℕ
  pub css_class : String
  pub message : String
  pub is_running : Bool

pub data ServerEvent : Type 0 where
  task_changed mods_changed : ServerEvent

pub record Tracker : Type 0 where
  pub tasks : List (ℕ × TaskInfo)
  pub next_id : ℕ
  pub events : List ServerEvent

unfoldable pub new : Tracker
new = record { tasks = []; next_id = 1; events = [] }

abbrev pub send_event : ServerEvent → Tracker → Tracker
send_event event t = record t { events = event ∷ t.events }

-- `HashMap::insert` and `HashMap::remove`
unfoldable pub put : ℕ → TaskInfo → List (ℕ × TaskInfo) → List (ℕ × TaskInfo)
put id info tasks = (id, info) ∷ delete_where (λ e. e.0 == id) tasks

unfoldable pub remove : ℕ → List (ℕ × TaskInfo) → List (ℕ × TaskInfo)
remove id tasks = delete_where (λ e. e.0 == id) tasks

abbrev pub is_running_for : ℕ → ℕ × TaskInfo → Bool
is_running_for forge_mod_id e = e.1.forge_mod_id == forge_mod_id && is_running e.1.status

abbrev pub is_active : ℕ × TaskInfo → Bool
is_active e = is_running e.1.status

abbrev pub is_finished : ℕ × TaskInfo → Bool
is_finished e = not (is_running e.1.status)

unfoldable pub has_running_for_mod : ℕ → Tracker → Bool
has_running_for_mod forge_mod_id t = any (is_running_for forge_mod_id) t.tasks

unfoldable pub has_active : Tracker → Bool
has_active t = any is_active t.tasks

-- The new id, and the counter after it, which wraps in 64 bits.
unfoldable pub start : String → String → ℕ → Tracker → ℕ × Tracker
start action mod_name forge_mod_id t =
    let info : TaskInfo = record {
      status = running (concat action (concat " " (concat mod_name "...")));
      forge_mod_id = forge_mod_id;
    } in
    (
      t.next_id,
      send_event task_changed
          (record t { tasks = put t.next_id info t.tasks; next_id = (t.next_id + 1) % 2 ^ 64 }),
    )

-- The two that test and start under one lock; the last step is that of `start`.
unfoldable pub start_if_not_running : String → String → ℕ → Tracker → Option ℕ × Tracker
start_if_not_running action mod_name forge_mod_id t =
    let (id, started) = start action mod_name forge_mod_id t in
    if any (is_running_for forge_mod_id) t.tasks then (none, t) else (some id, started)

unfoldable pub start_if_no_active : String → String → ℕ → Tracker → Option ℕ × Tracker
start_if_no_active action mod_name forge_mod_id t =
    let (id, started) = start action mod_name forge_mod_id t in
    if any is_active t.tasks then (none, t) else (some id, started)

-- `sort` of a vector of ids
unfoldable pub insert : ℕ → List ℕ → List ℕ
insert x [] = x ∷ []
insert x (y ∷ ys) = let rest = insert x ys in if leb x y then x ∷ y ∷ ys else y ∷ rest

unfoldable pub sort : List ℕ → List ℕ
sort [] = []
sort (x ∷ xs) = insert x (sort xs)

abbrev pub finished_ids : List (ℕ × TaskInfo) → List ℕ
finished_ids tasks = map (λ e. e.0) (filter is_finished tasks)

unfoldable pub remove_all : List ℕ → List (ℕ × TaskInfo) → List (ℕ × TaskInfo)
remove_all [] tasks = tasks
remove_all (id ∷ ids) tasks = remove_all ids (remove id tasks)

unfoldable pub prune_old : Tracker → Tracker
prune_old t =
    let finished = finished_ids t.tasks in
    if ltb 20 (length finished)
    then record t { tasks = remove_all (take (length finished - 20) (sort finished)) t.tasks }
    else t

abbrev pub with_status : TaskStatus → ℕ × TaskInfo → ℕ × TaskInfo
with_status status e = (e.0, record e.1 { status = status })

unfoldable pub set_status : ℕ → TaskStatus → Tracker → Tracker
set_status id status t = record t {
  tasks = update_where (λ e. e.0 == id) (with_status status) t.tasks;
}

unfoldable pub complete : ℕ → String → Tracker → Tracker
complete id m t =
    prune_old (send_event mods_changed (send_event task_changed (set_status id (completed m) t)))

unfoldable pub fail : ℕ → String → Tracker → Tracker
fail id m t = prune_old (send_event task_changed (set_status id (failed m) t))

unfoldable pub update_message : ℕ → String → Tracker → Tracker
update_message id m t =
    let hit = λ (e : ℕ × TaskInfo). e.0 == id && is_running e.1.status in
    if any hit t.tasks
    then send_event task_changed
        (record t { tasks = update_where hit (with_status (running m)) t.tasks })
    else t

unfoldable pub dismiss : ℕ → Tracker → Tracker
dismiss id t = record t { tasks = remove id t.tasks }

unfoldable pub task_views : Tracker → List TaskView
task_views t =
    map
      (λ e. record {
        id = e.0;
        css_class = css_class e.1.status;
        message = message e.1.status;
        is_running = is_running e.1.status;
      })
      t.tasks
