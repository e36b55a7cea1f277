-- ===== src/Accounts/Steps.antt =====
-- The operations on invites and accounts, as steps of the database.
use quma_custom.Prelude.{ℕ, String, ◌≡◌, inr, Option, nat_eq, string_eq}
use quma_custom.Sql.{ok}
use quma_custom.Rbac.Tables as R
use quma_custom.Rbac.Users
use quma_custom.Accounts.Tables.{Db}
use quma_custom.Accounts.Invites
use quma_custom.Accounts.Registration

-- The operations on invites and accounts; a user may be deleted where `P` lets them. The last one
-- stands for any write to users and roles that deletes nobody.
pub data Step (P : ℕ → Type 0) (db db' : Db) : Type 0 where
  create_invite :
      (code : String) (created_by : Option ℕ) (expires_at : Option String) (now : String) (id : ℕ)
      → Invites.create_invite code created_by expires_at now db ≡ ok (id, db')
      → Step P db db'
  delete_invite : (id : ℕ) → db' ≡ (Invites.delete_invite id db).1 → Step P db db'
  register :
      (username : String) (profile_aid : Option String) (hash code now : String)
      → Registration.register username profile_aid hash code now db ≡ inr db'
      → Step P db db'
  delete_account :
      (user_id : ℕ) (r : Users.DeleteUserResult)
      → P user_id
      → Registration.delete_account user_id db ≡ ok (r, db')
      → Step P db db'
  write_rbac : (rbac : R.Db) → db' ≡ record db { rbac = rbac } → Step P db db'

pub data Reach (P : ℕ → Type 0) (db : Db) : Db → Type 0 where
  here : Reach P db db
  next : {u v : Db} → Reach P db u → Step P u v → Reach P db v
