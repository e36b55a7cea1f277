-- ===== src/Accounts/Tables.antt =====
-- src/db/users.rs: the tables `invite_codes` and `password_reset_tokens`, beside those of users and
-- roles. A time is the text that is stored, and SQLite and Rust compare texts byte by byte.
use quma_custom.Prelude.{ℕ, String, Bool, true, false, Option, List, ◌==◌, nat_eq, string_eq}
use Prim.Native.Nat.{Ordering}
use Prim.Native.String.{compare}
use quma_custom.Sql.{find_where}
use quma_custom.Rbac.Tables

pub record InviteCode : Type 0 where
  pub id : ℕ
  pub code : String
  pub created_by : Option ℕ
  pub used_by : Option ℕ
  pub created_at : String
  pub used_at : Option String
  pub expires_at : Option String

pub record ResetToken : Type 0 where
  pub id : ℕ
  pub user_id : ℕ
  pub token : String
  pub expires_at : String
  pub created_at : String

pub record Db : Type 0 where
  pub rbac : Tables.Db
  pub invite_codes : List InviteCode
  pub reset_tokens : List ResetToken
  pub next_invite_id : ℕ
  pub next_token_id : ℕ

-- `a < b` on texts
abbrev pub text_lt : String → String → Bool
text_lt a b = elim (compare a b) [ Ordering.lt ↦ true | _ ↦ false ]

unfoldable pub get_invite : String → Db → Option InviteCode
get_invite code db = find_where (λ i. i.code == code) db.invite_codes

unfoldable pub get_reset_token : String → Db → Option ResetToken
get_reset_token token db = find_where (λ t. t.token == token) db.reset_tokens
