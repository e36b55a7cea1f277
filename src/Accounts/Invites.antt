-- ===== src/Accounts/Invites.antt =====
-- src/db/users.rs and src/web/invite.rs: invite codes.
use quma_custom.Prelude.{
  ℕ, ◌+◌, String, ◌⊎◌, inl, inr, Bool, true, false, not, ◌&&◌, ◌||◌, Option, none, some, List, [],
  ◌∷◌, ◌++◌, ltb, ◌==◌, nat_eq, string_eq, if◌then◌else◌, is_some, unwrap_or, any,
}
use quma_custom.Sql.{Result, ok, err, constraint_violation, count_where, update_where, delete_where}
use quma_custom.Rbac.Tables.{User}
use quma_custom.Accounts.Tables.{Db, InviteCode, get_invite, text_lt}

pub data DeleteInviteResult : Type 0 where
  deleted not_found already_used : DeleteInviteResult

-- A reference to a user that does not exist.
abbrev pub is_orphan : Option ℕ → Db → Bool
is_orphan none db = false
is_orphan (some user_id) db = not (any (λ (u : User). u.id == user_id) db.rbac.users)

-- The key of `created_by` is a user's, and the code is new.
unfoldable pub create_invite : String → Option ℕ → Option String → String → Db → Result (ℕ × Db)
create_invite code created_by expires_at now db =
    if any (λ (i : InviteCode). i.code == code) db.invite_codes || is_orphan created_by db
    then err constraint_violation
    else ok (
      db.next_invite_id,
      record db {
        invite_codes =
            db.invite_codes
            ++ (record {
              id = db.next_invite_id;
              code = code;
              created_by = created_by;
              used_by = none;
              created_at = now;
              used_at = none;
              expires_at = expires_at;
            })
              ∷ [];
        next_invite_id = db.next_invite_id + 1;
      },
    )

-- used_by IS NULL AND (expires_at IS NULL OR expires_at > datetime('now'))
abbrev pub is_after : String → Option String → Bool
is_after now none = true
is_after now (some expires_at) = text_lt now expires_at

abbrev pub is_usable : String → String → InviteCode → Bool
is_usable code now i = i.code == code && not (is_some i.used_by) && is_after now i.expires_at

abbrev pub mark_used : ℕ → String → InviteCode → InviteCode
mark_used user_id now i = record i { used_by = some user_id; used_at = some now }

-- The number of rows, and the rows.
unfoldable pub use_invite : String → ℕ → String → List InviteCode → ℕ × List InviteCode
use_invite code user_id now invites = (
  count_where (is_usable code now) invites,
  update_where (is_usable code now) (mark_used user_id now) invites,
)

unfoldable pub delete_invite : ℕ → Db → DeleteInviteResult × Db
delete_invite invite_id db =
    let unused = λ (i : InviteCode). i.id == invite_id && not (is_some i.used_by) in
    if ltb 0 (count_where unused db.invite_codes)
    then (deleted, record db { invite_codes = delete_where unused db.invite_codes })
    else if ltb 0 (count_where (λ (i : InviteCode). i.id == invite_id) db.invite_codes)
    then (already_used, db)
    else (not_found, db)

pub data InviteError : Type 0 where
  missing not_found already_used expired : InviteError

-- `parse_from_rfc3339` and the comparison of times are chrono's: `is_past now e` is `none` where `e`
-- is not an RFC 3339 time, and else whether that time is before `now`.
unfoldable pub is_invite_expired : (String → String → Option Bool) → String → Option String → Bool
is_invite_expired is_past now none = false
is_invite_expired is_past now (some e) = unwrap_or (is_past now e) (text_lt e now)

unfoldable pub validate_invite_code :
    (String → String → Option Bool) → String → String → Db → InviteError ⊎ InviteCode
validate_invite_code is_past now code db =
    if code == "" then inl missing else elim (get_invite code db) [
      | none ↦ inl not_found
      | some invite ↦
          if is_some invite.used_by
          then inl already_used
          else if is_invite_expired is_past now invite.expires_at
          then inl expired
          else inr invite
    ]
