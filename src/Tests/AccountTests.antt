-- ===== src/Tests/AccountTests.antt =====
-- Runs on invites and tokens, and the properties at them.
use quma_custom.Prelude.{
  ◌<◌, ◌≡◌, refl, ◌≢◌, inl, inr, true, false, none, some, [], ◌∷◌, nat_eq, string_eq,
}
use quma_custom.Sql.{ok}
use quma_custom.Rbac.Tables as R
use quma_custom.Rbac.Users
use quma_custom.Accounts.Tables.{Db, InviteCode, ResetToken, get_invite, get_reset_token}
use quma_custom.Accounts.Invites
use quma_custom.Accounts.Invites.{mark_used, use_invite}
use quma_custom.Accounts.Registration
use quma_custom.Accounts.Registration.{RegisterError, register, delete_account}
use quma_custom.Accounts.Steps.{Step, Reach, here, next}
use quma_custom.Accounts.Codes.{fresh}
use quma_custom.Accounts.Spent.{register-once}
use quma_custom.Accounts.Resets.{
  create_reset_token, find_token, set_password, token_count, create_reset_token-only, invalid_link,
}
use quma_custom.Accounts.ResetOnce
use quma_custom.Accounts.ResetOnce.{set_password-once}
use quma_custom.Accounts.Freed.{delete_account-frees}

abbrev player_role : R.RoleRecord
player_role = record {
  id = 1;
  name = "player";
  display_name = "Player";
  built_in = true;
  created_at = "";
}

abbrev no_users : R.Db
no_users = record {
  roles = player_role ∷ [];
  role_permissions = [];
  users = [];
  next_role_id = 2;
  next_user_id = 1;
  note_users = [];
}

abbrev invite : InviteCode
invite = record {
  id = 1;
  code = "A-1";
  created_by = none;
  used_by = none;
  created_at = "2026-01-01";
  used_at = none;
  expires_at = some "2026-02-01";
}

abbrev invited : Db
invited = record (fresh no_users) { invite_codes = invite ∷ []; next_invite_id = 2 }

abbrev guest : R.User
guest = record {
  id = 1;
  username = "guest";
  spt_profile_id = none;
  password_hash = some "h";
  role = "player";
  disabled = false;
  created_at = "2026-01-02";
  password_changed_at = none;
  is_headless = false;
}

abbrev one_user : R.Db
one_user = record no_users { users = guest ∷ []; next_user_id = 2 }

abbrev with_guest : Db
with_guest = record invited { rbac = one_user; invite_codes = mark_used 1 "2026-01-02" invite ∷ [] }

invited-reached : Reach (λ v. v ≢ 1) (fresh no_users) invited
unfolding Invites.create_invite
invited-reached = next here (Step.create_invite "A-1" none (some "2026-02-01") "2026-01-01" 1 refl)

guest-joins : register "guest" none "h" "A-1" "2026-01-02" invited ≡ inr with_guest
unfolding register R.get_user_by_username Users.insert_user Users.role_exists use_invite
    quma_custom.Sql.find_where quma_custom.Sql.count_where quma_custom.Sql.update_where
guest-joins = refl

register-once_example :
    (e : RegisterError) × (register "other" none "k" "A-1" "2026-01-03" with_guest ≡ inl e)
register-once_example =
    register-once no_users invited with_guest with_guest "A-1" "guest" "h" "2026-01-02" "other" "k"
      "2026-01-03" none none invited-reached guest-joins here

abbrev left : Db
left = record invited {
  rbac = record one_user { users = [] };
  invite_codes = record (mark_used 1 "2026-01-02" invite) { used_by = none } ∷ [];
}

guest-leaves : delete_account 1 with_guest ≡ ok (Users.deleted, left)
unfolding delete_account Registration.cascade Users.delete_user R.get_user_by_id
    Users.delete_found_user R.current_has_manage R.count_joined R.joined quma_custom.Sql.flat_map
    quma_custom.Sql.find_where quma_custom.Sql.count_where quma_custom.Sql.update_where
    quma_custom.Sql.delete_where
guest-leaves = refl

delete_account-frees_example : 0 < (use_invite "A-1" 2 "2026-01-03" left.invite_codes).0
delete_account-frees_example =
    delete_account-frees "A-1" "2026-01-03" 1 2 (mark_used 1 "2026-01-02" invite) with_guest left
      (unfold get_invite quma_custom.Sql.find_where in refl) refl refl guest-leaves

abbrev with_token : Db
with_token = (create_reset_token 1 "tok" "2026-01-04" "2026-01-03" with_guest).1

create_reset_token-only_example :
    (token_count 1 with_token ≡ 1)
    × (t : ResetToken) × (get_reset_token "tok" with_token ≡ some t)
    × (t.user_id ≡ 1)
    × (t.expires_at ≡ "2026-01-04")
create_reset_token-only_example =
    create_reset_token-only 1 1 "tok" "2026-01-04" "2026-01-03" with_guest
      (unfold create_reset_token quma_custom.Sql.delete_where in refl)

abbrev reset : Db
reset = record with_guest {
  rbac = record one_user {
    users = record guest { password_hash = some "n"; password_changed_at = some "2026-01-03" } ∷ [];
  };
  next_token_id = 2;
}

abbrev its_token : ResetToken
its_token = record {
  id = 1;
  user_id = 1;
  token = "tok";
  expires_at = "2026-01-04";
  created_at = "2026-01-03";
}

guest-finds : find_token (λ t. false) "tok" with_token ≡ inr its_token
unfolding find_token create_reset_token get_reset_token quma_custom.Sql.find_where
    quma_custom.Sql.delete_where
guest-finds = refl

guest-resets : set_password its_token "n" "2026-01-03" with_token ≡ inr reset
unfolding set_password create_reset_token Users.update_user_password
    quma_custom.Accounts.Resets.delete_reset_token quma_custom.Sql.count_where
    quma_custom.Sql.update_where quma_custom.Sql.delete_where
guest-resets = refl

-- A second submission that found the same row before sets the password again.
abbrev reset_again : Db
reset_again = record reset {
  rbac = record one_user {
    users = record guest { password_hash = some "m"; password_changed_at = some "2026-01-03" } ∷ [];
  };
}

guest-resets_again : set_password its_token "m" "2026-01-03" reset ≡ inr reset_again
unfolding set_password Users.update_user_password quma_custom.Accounts.Resets.delete_reset_token
    quma_custom.Sql.count_where quma_custom.Sql.update_where quma_custom.Sql.delete_where
guest-resets_again = refl

set_password-once_example : find_token (λ t. false) "tok" reset_again ≡ inl invalid_link
set_password-once_example =
    set_password-once (λ t. false) its_token "n" "2026-01-03" with_token reset reset_again
      guest-resets
      (ResetOnce.next ResetOnce.here
        (ResetOnce.Step.finish its_token "m" "2026-01-03" guest-resets_again))
