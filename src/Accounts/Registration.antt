-- ===== src/Accounts/Registration.antt =====
-- src/web/handlers/join.rs: the transaction that makes an account of an invite code; and the
-- deletion of an account, with what the foreign keys do to its invites and tokens.
use quma_custom.Prelude.{
  ℕ, String, ◌⊎◌, inl, inr, true, false, Option, none, some, ◌==◌, nat_eq, string_eq, if◌then◌else◌,
  is_some,
}
use quma_custom.Sql.{Result, ok, err, ◌>>=◌, update_where, delete_where}
use quma_custom.Rbac.Tables.{get_user_by_username, Db as RbacDb}
use quma_custom.Rbac.Users
use quma_custom.Accounts.Tables.{Db, InviteCode}
use quma_custom.Accounts.Invites.{use_invite}

pub data RegisterError : Type 0 where
  username_taken invite_invalid db_error : RegisterError

-- A refusal rolls the transaction back, so it gives no new database.
unfoldable pub register :
    String → Option String → String → String → String → Db → RegisterError ⊎ Db
register username profile_aid password_hash code now db =
    if is_some (get_user_by_username username db.rbac)
    then inl username_taken
    else elim (Users.insert_user username profile_aid (some password_hash) "player" false now
        db.rbac) [
          | err e ↦ inl db_error
          | ok (user_id, rbac) ↦
              let (used, invite_codes) = use_invite code user_id now db.invite_codes in
              if used == 0
              then inl invite_invalid
              else inr (record db { rbac = rbac; invite_codes = invite_codes })
        ]

-- ON DELETE SET NULL
abbrev pub cleared : ℕ → Option ℕ → Option ℕ
cleared user_id none = none
cleared user_id (some u) = if u == user_id then none else some u

abbrev pub forget : ℕ → InviteCode → InviteCode
forget user_id i = record i {
  created_by = cleared user_id i.created_by;
  used_by = cleared user_id i.used_by;
}

-- What the foreign keys do once the row of the user is gone.
unfoldable pub cascade : ℕ → Db → Db
cascade user_id db = record db {
  invite_codes = update_where (λ i. true) (forget user_id) db.invite_codes;
  reset_tokens = delete_where (λ t. t.user_id == user_id) db.reset_tokens;
}

-- `delete_user`, with migrations/004_invite_codes_cascade.sql and the ON DELETE CASCADE of the tokens
unfoldable pub delete_account : ℕ → Db → Result (Users.DeleteUserResult × Db)
delete_account user_id db =
    Users.delete_user user_id db.rbac >>= λ (r : Users.DeleteUserResult × RbacDb). after r.0 r.1
  where
    after : Users.DeleteUserResult → RbacDb → Result (Users.DeleteUserResult × Db)
    after Users.deleted rbac = ok (Users.deleted, cascade user_id (record db { rbac = rbac }))
    after refused rbac = ok (refused, record db { rbac = rbac })
