-- ===== src/Requests/Tables.antt =====
-- src/db/requests.rs: the tables `mod_requests`, `request_status_log` and `mod_request_votes`, and
-- the queries that read them.
use quma_custom.Prelude.{
  ℕ, String, any, Bool, true, false, not, ◌&&◌, ◌||◌, Option, none, some, List, map, ltb, ◌==◌,
  nat_eq, string_eq, filter,
}
use quma_custom.Sql.{count_where, find_where}

pub record ModRequest : Type 0 where
  pub id : ℕ
  pub user_id : ℕ
  pub forge_mod_id : ℕ
  pub mod_name : String
  pub mod_slug : Option String
  pub mod_description : Option String
  pub fika_compatible : String
  pub reason : Option String
  pub status : String
  pub resolved_by : Option ℕ
  pub resolved_at : Option String
  pub resolve_comment : Option String
  pub created_at : String
  pub forge_cached_at : String

-- A row of `request_status_log`; the name of who changed the status is joined in from `users`.
pub record RequestStatusLog : Type 0 where
  pub id : ℕ
  pub request_id : ℕ
  pub from_status : String
  pub to_status : String
  pub changed_by : Option ℕ
  pub changed_at : String
  pub comment : Option String

pub record ModRequestVote : Type 0 where
  pub id : ℕ
  pub request_id : ℕ
  pub user_id : ℕ
  pub upvote : Bool
  pub comment : Option String
  pub created_at : String

-- The tables; of `users`, which the foreign keys read, the ids.
pub record Db : Type 0 where
  pub users : List ℕ
  pub requests : List ModRequest
  pub log : List RequestStatusLog
  pub votes : List ModRequestVote
  pub next_request_id : ℕ
  pub next_log_id : ℕ
  pub next_vote_id : ℕ

abbrev pub is_user : ℕ → Db → Bool
is_user id db = any (λ u. u == id) db.users

-- What a foreign key that may be NULL refers to is there.
abbrev pub is_user_or_null : Option ℕ → Db → Bool
is_user_or_null none db = true
is_user_or_null (some id) db = is_user id db

unfoldable pub get_mod_request : ℕ → Db → Option ModRequest
get_mod_request id db = find_where (λ r. r.id == id) db.requests

unfoldable pub has_active_request_for_mod : ℕ → Db → Bool
has_active_request_for_mod forge_mod_id db =
    let active = λ (r : ModRequest).
      r.forge_mod_id == forge_mod_id
      && (r.status == "pending"
          || r.status == "approved"
          || r.status == "queued"
          || r.status == "installed") in
    ltb 0 (count_where active db.requests)

unfoldable pub get_vote : ℕ → ℕ → Db → Option ModRequestVote
get_vote request_id user_id db =
    find_where (λ v. v.request_id == request_id && v.user_id == user_id) db.votes

-- The rows of one request, in the order in which they were written.
unfoldable pub get_request_status_log : ℕ → Db → List RequestStatusLog
get_request_status_log request_id db = filter (λ l. l.request_id == request_id) db.log

unfoldable pub list_approved_request_ids : Db → List ℕ
list_approved_request_ids db =
    map ModRequest.id (filter (λ (r : ModRequest). r.status == "approved") db.requests)

-- The sums of the list query: `upvote_count`, `downvote_count` and `comment_count` of one request.
pub upvote_count : ℕ → Db → ℕ
upvote_count request_id db = count_where (λ v. v.request_id == request_id && v.upvote) db.votes

pub downvote_count : ℕ → Db → ℕ
downvote_count request_id db =
    count_where (λ v. v.request_id == request_id && not v.upvote) db.votes

pub has_comment : Option String → Bool
has_comment none = false
has_comment (some text) = not (text == "")

pub comment_count : ℕ → Db → ℕ
comment_count request_id db =
    count_where (λ v. v.request_id == request_id && has_comment v.comment) db.votes
