-- ===== src/Requests/Handlers.antt =====
-- src/web/handlers/requests.rs: what the handlers do to the database under its lock.
use quma_custom.Prelude.{ℕ, String, Bool, true, false, Option, none, some, List, [], ◌∷◌, string_eq}
use quma_custom.Sql.{Result, ◌>>=◌}
use quma_custom.Requests.Status.{RequestStatus, pending, approved, queued, installed, rejected}
use quma_custom.Requests.Tables.{Db}
use quma_custom.Requests.Writes.{
  set_request_resolver, transition_request_status, transition_request_by_forge_mod_id,
}

pub data Action : Type 0 where
  approve reject : Action

abbrev pub allowed_from : Action → List RequestStatus
allowed_from approve = pending ∷ []
allowed_from reject = pending ∷ approved ∷ []

abbrev pub target : Action → RequestStatus
target approve = approved
target reject = rejected

-- The resolver is written first, and the status second, unless the first is an error. The second is one
-- only where the first wrote nothing: both test the same user.
unfoldable pub resolve_request : ℕ → Action → ℕ → Option String → String → Db → Result (Bool × Db)
resolve_request request_id action resolved_by comment now db =
    set_request_resolver request_id resolved_by comment now db >>= λ (db : Db).
    transition_request_status request_id (allowed_from action) (target action) (some resolved_by)
      comment now db

unfoldable pub reopen_request : ℕ → ℕ → String → Db → Result (Bool × Db)
reopen_request request_id user_id now db =
    transition_request_status request_id (rejected ∷ []) pending (some user_id) (some "Reopened")
      now db

-- src/web/handlers/requests.rs: an approved request is queued while the server runs, or installed.
unfoldable pub queue_install : ℕ → ℕ → String → Db → Result (Bool × Db)
queue_install request_id user_id now db =
    transition_request_status request_id (approved ∷ []) queued (some user_id)
      (some "Queued for install") now db

unfoldable pub installed_from_request : ℕ → String → Db → Result (Bool × Db)
installed_from_request request_id now db =
    transition_request_status request_id (approved ∷ []) installed none
      (some "Installed from request") now db

-- src/web/handlers/queue.rs: a queued operation is cancelled, or applied.
abbrev pub cancelled_status : Bool → RequestStatus
cancelled_status true = rejected
cancelled_status false = approved

-- `cancel_op` goes back to approved, `cancel_and_reject_op` to rejected.
unfoldable pub cancel_op_inner : ℕ → Bool → ℕ → String → String → Db → Result (Bool × Db)
cancel_op_inner request_id and_reject user_id flash_msg now db =
    transition_request_status request_id (queued ∷ []) (cancelled_status and_reject) (some user_id)
      (some flash_msg) now db

unfoldable pub installed_via_queue : ℕ → String → Db → Result (Bool × Db)
installed_via_queue request_id now db =
    transition_request_status request_id (queued ∷ []) installed none (some "Installed via queue")
      now db

unfoldable pub removed_via_queue : ℕ → String → Db → Result (ℕ × Db)
removed_via_queue forge_mod_id now db =
    transition_request_by_forge_mod_id forge_mod_id (installed ∷ []) approved none
      (some "Mod removed via queue") now db

-- src/ops.rs: the last step of an installation and of a removal.
unfoldable pub mod_installed : ℕ → String → Db → Result (ℕ × Db)
mod_installed forge_mod_id now db =
    transition_request_by_forge_mod_id forge_mod_id (approved ∷ queued ∷ []) installed none
      (some "Mod installed") now db

unfoldable pub mod_removed : ℕ → String → Db → Result (ℕ × Db)
mod_removed forge_mod_id now db =
    transition_request_by_forge_mod_id forge_mod_id (installed ∷ []) approved none
      (some "Mod removed") now db
