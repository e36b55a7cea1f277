-- ===== src/Requests/Writes.antt =====
-- src/db/requests.rs: the operations that write. `now` is the clock's text at the statement.
use quma_custom.Prelude.{
  ℕ, ◌+◌, String, Bool, true, false, not, ◌&&◌, Option, none, some, List, [], ◌∷◌, ◌++◌, ◌==◌,
  nat_eq, string_eq, if◌then◌else◌, filter, any, is_some, is_empty, length,
}
use quma_custom.Sql.{
  Result, ok, err, constraint_violation, count_where, find_where, update_where, delete_where,
}
use quma_custom.Requests.Status.{RequestStatus, as_str}
use quma_custom.Requests.Tables.{Db, ModRequest, ModRequestVote, get_vote, is_user, is_user_or_null}

-- The status and the times of a new row are the defaults of the schema.
unfoldable pub create_mod_request :
    ℕ
    → ℕ
    → String
    → Option String
    → Option String
    → String
    → Option String
    → String
    → Db
    → Result (ℕ × Db)
create_mod_request user_id forge_mod_id mod_name mod_slug mod_description fika_compatible reason now
      db =
    if not (is_user user_id db)
    then err constraint_violation
    else ok (
      db.next_request_id,
      record db {
        requests =
            db.requests
            ++ (record {
              id = db.next_request_id;
              user_id = user_id;
              forge_mod_id = forge_mod_id;
              mod_name = mod_name;
              mod_slug = mod_slug;
              mod_description = mod_description;
              fika_compatible = fika_compatible;
              reason = reason;
              status = "pending";
              resolved_by = none;
              resolved_at = none;
              resolve_comment = none;
              created_at = now;
              forge_cached_at = now;
            })
              ∷ [];
        next_request_id = db.next_request_id + 1;
      },
    )

-- `status IN (…)`, over the texts of `expected_from`
unfoldable pub status_in : List RequestStatus → String → Bool
status_in expected status = any (λ x. as_str x == status) expected

-- The UPDATE and the INSERT that both transitions run in their transactions.
unfoldable pub set_status : ℕ → String → String → Option ℕ → Option String → String → Db → Db
set_status request_id old_status new_status changed_by comment now db = record db {
  requests =
      update_where (λ r. r.id == request_id) (λ r. record r { status = new_status }) db.requests;
  log =
      db.log
      ++ (record {
        id = db.next_log_id;
        request_id = request_id;
        from_status = old_status;
        to_status = new_status;
        changed_by = changed_by;
        changed_at = now;
        comment = comment;
      })
        ∷ [];
  next_log_id = db.next_log_id + 1;
}

-- The transaction is rolled back where the foreign key `changed_by` of the INSERT does not hold.
unfoldable pub transition_request_status :
    ℕ
    → List RequestStatus
    → RequestStatus
    → Option ℕ
    → Option String
    → String
    → Db
    → Result (Bool × Db)
transition_request_status request_id expected_from new_status changed_by comment now db =
    elim (find_where (λ (r : ModRequest). r.id == request_id && status_in expected_from r.status)
      db.requests) [
        | none ↦ ok (false, db)
        | some old ↦
            if is_user_or_null changed_by db
            then ok (
              true,
              set_status request_id old.status (as_str new_status) changed_by comment now db,
            )
            else err constraint_violation
      ]

-- The loop over the matching rows. They were read before the first of them is written.
unfoldable pub set_statuses : List ModRequest → String → Option ℕ → Option String → String → Db → Db
set_statuses [] new_status changed_by comment now db = db
set_statuses (r ∷ rs) new_status changed_by comment now db =
    set_statuses rs new_status changed_by comment now
      (set_status r.id r.status new_status changed_by comment now db)

unfoldable pub matching_requests : ℕ → List RequestStatus → Db → List ModRequest
matching_requests forge_mod_id from_statuses db =
    filter (λ (r : ModRequest). status_in from_statuses r.status)
      (filter (λ (r : ModRequest). r.forge_mod_id == forge_mod_id) db.requests)

-- No transaction is opened where nothing matches; the loop over no rows changes nothing either.
unfoldable pub transition_request_by_forge_mod_id :
    ℕ
    → List RequestStatus
    → RequestStatus
    → Option ℕ
    → Option String
    → String
    → Db
    → Result (ℕ × Db)
transition_request_by_forge_mod_id forge_mod_id from_statuses new_status changed_by comment now db =
    let rows = matching_requests forge_mod_id from_statuses db in
    if is_empty rows
    then ok (0, db)
    else if is_user_or_null changed_by db
    then ok (length rows, set_statuses rows (as_str new_status) changed_by comment now db)
    else err constraint_violation

-- The foreign key `resolved_by` is tested where a row is written.
unfoldable pub set_request_resolver : ℕ → ℕ → Option String → String → Db → Result Db
set_request_resolver request_id resolved_by comment now db =
    let open_one = λ (r : ModRequest). r.id == request_id && not (is_some r.resolved_by) in
    if any open_one db.requests && not (is_user resolved_by db)
    then err constraint_violation
    else ok (record db {
      requests =
          update_where open_one
            (λ r. record r {
              resolved_by = some resolved_by;
              resolved_at = some now;
              resolve_comment = comment;
            })
            db.requests;
    })

unfoldable pub update_mod_request_cache :
    ℕ → String → Option String → Option String → String → String → Db → ℕ × Db
update_mod_request_cache id mod_name mod_slug mod_description fika_compatible now db = (
  count_where (λ (r : ModRequest). r.id == id) db.requests,
  record db {
    requests =
        update_where (λ r. r.id == id)
          (λ r. record r {
            mod_name = mod_name;
            mod_slug = mod_slug;
            mod_description = mod_description;
            fika_compatible = fika_compatible;
            forge_cached_at = now;
          })
          db.requests;
  },
)

-- INSERT … ON CONFLICT(request_id, user_id) DO UPDATE; the foreign keys are those of a new row.
unfoldable pub upsert_vote : ℕ → ℕ → Bool → Option String → String → Db → Result Db
upsert_vote request_id user_id upvote comment now db =
    let own = λ (v : ModRequestVote). v.request_id == request_id && v.user_id == user_id in
    if is_some (get_vote request_id user_id db)
    then ok (record db {
      votes = update_where own (λ v. record v { upvote = upvote; comment = comment }) db.votes;
    })
    else if not (is_user user_id db && any (λ (r : ModRequest). r.id == request_id) db.requests)
    then err constraint_violation
    else ok (record db {
      votes =
          db.votes
          ++ (record {
            id = db.next_vote_id;
            request_id = request_id;
            user_id = user_id;
            upvote = upvote;
            comment = comment;
            created_at = now;
          })
            ∷ [];
      next_vote_id = db.next_vote_id + 1;
    })

unfoldable pub delete_vote : ℕ → ℕ → Db → ℕ × Db
delete_vote request_id user_id db =
    let own = λ (v : ModRequestVote). v.request_id == request_id && v.user_id == user_id in
    (count_where own db.votes, record db { votes = delete_where own db.votes })
