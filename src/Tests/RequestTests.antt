-- ===== src/Tests/RequestTests.antt =====
-- Concrete runs of the mod request operations.
use mathlib.Core.Option
use quma_custom.Prelude.{
  ℕ, String, Option, List, ◌&&◌, nat_beq, ◌≡◌, refl, Bool, true, false, some, none, [], ◌∷◌, Memᴰ,
  ◌↔◌, if◌then◌else◌,
}
use quma_custom.Sql.{after, Result, ok, err, constraint_violation, find_where, update_where}
use quma_custom.Sql.Keys.{IsKeyed, insert-IsKeyed}
use quma_custom.Requests.Status.{
  pending, approved, queued, installed, as_str, from_str, from_str_iff,
}
use quma_custom.Requests.Tables.{
  is_user_or_null, Db, ModRequest, RequestStatusLog, get_mod_request, get_vote,
}
use quma_custom.Requests.Writes.{
  create_mod_request, transition_request_status, transition_request_by_forge_mod_id, status_in,
  set_status, set_request_resolver, upsert_vote,
}
use quma_custom.Requests.Handlers.{approve, reject, resolve_request, reopen_request, allowed_from}
use quma_custom.Requests.Audit.{replay, IsChained, first_status}
use quma_custom.Requests.Transitions.{
  moved, transition_request_status_compare_and_set, is_matching,
  transition_request_by_forge_mod_id_rows,
}
use quma_custom.Requests.Lifecycle.{IsLegal}
use quma_custom.Requests.Steps.{
  Step, Reach, here, next, empty, status-replay, log-IsChained, log-IsLegal,
}
use quma_custom.Requests.Resolver.{resolve_request_row, with_resolver, with_target}
use quma_custom.Requests.Votes.{is_votable, content, upsert_vote-get}

from_str_iff_example : (from_str "queued" ≡ some queued) ↔ ("queued" ≡ as_str queued)
from_str_iff_example = from_str_iff "queued" queued

abbrev asked : ModRequest
asked = record {
  id = 1;
  user_id = 7;
  forge_mod_id = 99;
  mod_name = "SAIN";
  mod_slug = none;
  mod_description = none;
  fika_compatible = "unknown";
  reason = none;
  status = "pending";
  resolved_by = none;
  resolved_at = none;
  resolve_comment = none;
  created_at = "t0";
  forge_cached_at = "t0";
}

abbrev users : List ℕ
users = 3 ∷ 4 ∷ 7 ∷ []

abbrev one_request : Db
one_request = record (empty users) { requests = asked ∷ []; next_request_id = 2 }

one_request-IsKeyed : IsKeyed ModRequest.id 2 (asked ∷ [])
one_request-IsKeyed =
    insert-IsKeyed ModRequest.id {rows = []} asked refl
      (record { unique = λ x y m. elim m [ ]; below = λ x m. elim m [ ] })

created :
    create_mod_request 7 99 "SAIN" none none "unknown" none "t0" (empty users) ≡ ok (1, one_request)
unfolding create_mod_request
created = refl

found : get_mod_request 1 one_request ≡ some asked
unfolding get_mod_request find_where
found = refl

transition_request_status_compare_and_set_example :
    transition_request_status 1 (pending ∷ []) approved (some 3) none "t1" one_request ≡ (
      if◌then◌else◌ {A = Result (Bool × Db)}
        (status_in (pending ∷ []) "pending")
        (if◌then◌else◌ {A = Result (Bool × Db)}
          (is_user_or_null (some 3) one_request)
          (ok (true, moved asked approved (some 3) none "t1" one_request))
          (err constraint_violation))
        (ok (false, one_request)))
transition_request_status_compare_and_set_example =
    transition_request_status_compare_and_set 1 (pending ∷ []) approved (some 3) none "t1"
      one_request asked one_request-IsKeyed found

transition_request_by_forge_mod_id_rows_example :
    Memᴰ
      (if◌then◌else◌ {A = ModRequest}
        (is_user_or_null none one_request && is_matching 99 (pending ∷ []) asked)
        (record asked { status = as_str installed })
        asked)
      (after one_request (
        transition_request_by_forge_mod_id 99
          (pending ∷ [])
          installed
          none
          none
          "t1"
          one_request)).requests
transition_request_by_forge_mod_id_rows_example =
    transition_request_by_forge_mod_id_rows 99 (pending ∷ []) installed none none "t1" one_request
      asked one_request-IsKeyed (λ y m. elim m [ ], tt) (Memᴰ.head refl)

-- A request is made, rejected by user 3 and reopened.
abbrev made : Db
made =
    after (empty users) (create_mod_request 7 99 "SAIN" none none "unknown" none "t0" (empty users))

abbrev refused : Db
refused = after made (resolve_request 1 reject 3 none "t1" made)

abbrev after_story : Db
after_story = after refused (reopen_request 1 4 "t2" refused)

abbrev story : Reach (empty users) after_story
story =
    next
      (next (next here (Step.create_mod_request 7 99 "SAIN" none none "unknown" none "t0"))
        (Step.resolve_request 1 reject 3 none "t1"))
      (Step.reopen_request 1 4 "t2")

reopened : ModRequest
reopened = record asked { status = "pending"; resolved_by = some 3; resolved_at = some "t1" }

reopened_mem : Memᴰ reopened after_story.requests
unfolding reopened create_mod_request resolve_request reopen_request transition_request_status
    set_request_resolver set_status status_in update_where find_where as_str
reopened_mem = Memᴰ.head refl

status-replay_example : reopened.status ≡ replay after_story.log 1 "pending"
unfolding reopened
status-replay_example = status-replay reopened story reopened_mem

log-IsChained_example : IsChained first_status after_story.log
log-IsChained_example = log-IsChained story

abbrev rejection : RequestStatusLog
rejection = record {
  id = 1;
  request_id = 1;
  from_status = "pending";
  to_status = "rejected";
  changed_by = some 3;
  changed_at = "t1";
  comment = none;
}

rejection_mem : Memᴰ rejection after_story.log
unfolding create_mod_request resolve_request reopen_request transition_request_status
    set_request_resolver set_status status_in update_where find_where as_str
rejection_mem = Memᴰ.head refl

log-IsLegal_example : IsLegal rejection
log-IsLegal_example = log-IsLegal rejection story rejection_mem

resolve_request_row_example :
    (db' : Db) × (resolve_request 1 approve 3 none "t1" one_request
      ≡ ok (status_in (allowed_from approve) "pending", db'))
    × (get_mod_request 1 db' ≡ some (with_target approve (with_resolver 3 none "t1" asked)))
resolve_request_row_example =
    resolve_request_row 1 approve 3 none "t1" one_request asked one_request-IsKeyed found refl

upsert_vote-get_example :
    (db' : Db) × (upsert_vote 1 7 true none "t1" one_request ≡ (
      if◌then◌else◌ {A = Result Db}
        (is_votable 1 7 true none "t1" one_request)
        (ok db')
        (err constraint_violation)))
    × ((r' u' : ℕ)
        → Option.map content (get_vote r' u' db') ≡ (
            if◌then◌else◌ {A = Option (Bool × Option String)}
              (nat_beq 1 r' && nat_beq 7 u')
              (some (true, none))
              (Option.map content (get_vote r' u' one_request))))
upsert_vote-get_example = upsert_vote-get 1 7 true none "t1" one_request
