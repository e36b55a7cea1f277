-- ===== src/Accounts/Freed.antt =====
-- What migrations/004_invite_codes_cascade.sql does to a used invite when its user is deleted.
use quma_custom.Prelude.{
  ℕ, ◌<◌, String, ◌≡◌, refl, sym, ap, inl, inr, true, some, List, [], ◌==◌, nat_eq, string_eq,
  beq_self,
}
use quma_custom.Sql.{
  Result, ok, err, Result-cases, count_where_pos, mem-update_where_hit, find_where-some,
}
use quma_custom.Rbac.Users
use quma_custom.Accounts.Tables.{Db, InviteCode, get_invite}
use quma_custom.Accounts.Invites.{is_usable, is_after, use_invite}
use quma_custom.Accounts.Registration.{delete_account, cascade, forget}

abbrev outcome : Result (Users.DeleteUserResult × Db) → Users.DeleteUserResult × List InviteCode
outcome (ok (r, db)) = (r, db.invite_codes)
outcome (err e) = (Users.not_found, [])

deleted_invites :
    (user_id : ℕ) (db db' : Db)
    → delete_account user_id db ≡ ok (Users.deleted, db')
    → db'.invite_codes ≡ (cascade user_id db).invite_codes
unfolding delete_account cascade
deleted_invites user_id db db' e = elim (Result-cases (Users.delete_user user_id db.rbac)) [
  | inl (er, failed) ↦ let clash = rw failed at e in absurd (cc)
  | inr ((Users.deleted, rbac), done) ↦ sym (ap (λ r. (outcome r).1) (rw done at e))
  | inr ((Users.not_found, rbac), done) ↦
      let clash = ap (λ r. (outcome r).0) (rw done at e) in absurd (cc)
  | inr ((Users.last_admin, rbac), done) ↦
      let clash = ap (λ r. (outcome r).0) (rw done at e) in absurd (cc)
]

-- When the account that a code let in is deleted, the code can be used again by anyone, if its time
-- has not passed.
pub delete_account-frees :
    (code now : String) (u v : ℕ) (i : InviteCode) (db db' : Db)
    → get_invite code db ≡ some i
    → i.used_by ≡ some u
    → is_after now i.expires_at ≡ true
    → delete_account u db ≡ ok (Users.deleted, db')
    → 0 < (use_invite code v now db'.invite_codes).0
unfolding get_invite use_invite cascade
delete_account-frees code now u v i db db' found spent valid e =
    let (m, same_code) = find_where-some (λ x. x.code == code) db.invite_codes i found in
    let freed = mem-update_where_hit (λ x. true) (forget u) m refl in
    rw (deleted_invites u db db' e)
      (count_where_pos (is_usable code now) freed (rw (same_code, spent, beq_self u) (rw valid)))
