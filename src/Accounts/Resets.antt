-- ===== src/Accounts/Resets.antt =====
-- src/db/users.rs, src/web/handlers/auth.rs and src/web/handlers/admin.rs: password reset tokens.
use quma_custom.Prelude.{
  ℕ, ◌+◌, String, ◌≡◌, refl, ◌⊎◌, inl, inr, Bool, true, false, not, ◌||◌, none, some, List, [], ◌∷◌,
  ◌++◌, arith, ◌==◌, nat_eq, string_eq, if◌then◌else◌, Bool-cases, beq_self, any,
}
use quma_custom.Sql.{Result, ok, err, constraint_violation, count_where, delete_where, find_where}
use quma_custom.Sql.Count.{count-append}
use quma_custom.Rbac.Tables.{User, get_user_by_id}
use quma_custom.Rbac.Users
use quma_custom.Accounts.Tables.{Db, ResetToken, get_reset_token}

-- The tokens of the user are deleted first; the foreign key and UNIQUE are tested by the INSERT, which
-- is a statement of its own.
unfoldable pub create_reset_token : ℕ → String → String → String → Db → Result ℕ × Db
create_reset_token user_id token expires_at now db =
    let rest = delete_where (λ (t : ResetToken). t.user_id == user_id) db.reset_tokens in
    if any (λ (t : ResetToken). t.token == token) rest
      || not (any (λ (u : User). u.id == user_id) db.rbac.users)
    then (err constraint_violation, record db { reset_tokens = rest })
    else (
      ok db.next_token_id,
      record db {
        reset_tokens =
            rest
            ++ (record {
              id = db.next_token_id;
              user_id = user_id;
              token = token;
              expires_at = expires_at;
              created_at = now;
            })
              ∷ [];
        next_token_id = db.next_token_id + 1;
      },
    )

unfoldable pub delete_reset_token : String → Db → ℕ × Db
delete_reset_token token db = (
  count_where (λ (t : ResetToken). t.token == token) db.reset_tokens,
  record db { reset_tokens = delete_where (λ t. t.token == token) db.reset_tokens },
)

pub data ResetError : Type 0 where
  invalid_link db_error : ResetError

-- The page that sets the password takes the lock three times, and other requests may run in between.
-- First, the look-up of its token. `is_token_expired` compares times by chrono; the equality in constant
-- time holds for the row that the token itself found.
unfoldable pub find_token : (String → Bool) → String → Db → ResetError ⊎ ResetToken
find_token is_token_expired token db = elim (get_reset_token token db) [
  | none ↦ inl invalid_link
  | some rt ↦
      if not (token == rt.token) || is_token_expired rt.expires_at then inl invalid_link else inr rt
]

-- Second, the user of the row that was found.
unfoldable pub check_user : ResetToken → Db → ResetError ⊎ User
check_user rt db = elim (get_user_by_id rt.user_id db.rbac) [
  | none ↦ inl invalid_link
  | some u ↦ if u.disabled then inl invalid_link else inr u
]

-- Third, the writes for that row, once the new password is hashed.
unfoldable pub set_password : ResetToken → String → String → Db → ResetError ⊎ Db
set_password rt password_hash now db =
    elim (Users.update_user_password rt.user_id password_hash now db.rbac) [
      | err e ↦ inl db_error
      | ok (n, rbac) ↦ inr (delete_reset_token rt.token (record db { rbac = rbac })).1
    ]

-- The tokens that a user has.
abbrev pub token_count : ℕ → Db → ℕ
token_count user_id db = count_where (λ (t : ResetToken). t.user_id == user_id) db.reset_tokens

pub find_where-deleted :
    {A : Type 0} (q : A → Bool) (xs : List A) → find_where q (delete_where q xs) ≡ none
unfolding find_where delete_where
find_where-deleted q [] = refl
find_where-deleted q (x ∷ xs) =
    let rest = find_where-deleted q xs in
    elim (Bool-cases (q x)) [ inl h ↦ rw h rest | inr h ↦ rw (h, h) rest ]

count-deleted : {A : Type 0} (q : A → Bool) (xs : List A) → count_where q (delete_where q xs) ≡ 0
unfolding count_where delete_where
count-deleted q [] = refl
count-deleted q (x ∷ xs) =
    let rest = count-deleted q xs in
    elim (Bool-cases (q x)) [ inl h ↦ rw h rest | inr h ↦ rw (h, h) rest ]

find_where-last :
    {A : Type 0} (q : A → Bool) (xs : List A) (y : A)
    → any q xs ≡ false
    → q y ≡ true
    → find_where q (xs ++ y ∷ []) ≡ some y
unfolding find_where
find_where-last q [] y none_of h = rw h
find_where-last q (x ∷ xs) y none_of h = elim (Bool-cases (q x)) [
  | inl hit ↦ let clash = rw hit at none_of in absurd (cc)
  | inr miss ↦ rw miss (find_where-last q xs y (rw miss at none_of) h)
]

-- A new token replaces every token that the user had: once it is stored the user has one, and the
-- link with it finds a row of that user that expires when it was asked to.
pub create_reset_token-only :
    (user_id id : ℕ) (token expires_at now : String) (db : Db)
    → (create_reset_token user_id token expires_at now db).0 ≡ ok id
    → let db' = (create_reset_token user_id token expires_at now db).1 in
      (token_count user_id db' ≡ 1)
      × (t : ResetToken) × (get_reset_token token db' ≡ some t)
      × (t.user_id ≡ user_id)
      × (t.expires_at ≡ expires_at)
unfolding create_reset_token get_reset_token
create_reset_token-only user_id id token expires_at now db e =
    let rest = delete_where (λ (t : ResetToken). t.user_id == user_id) db.reset_tokens in
    let row : ResetToken = record {
      id = db.next_token_id;
      user_id = user_id;
      token = token;
      expires_at = expires_at;
      created_at = now;
    } in
    let counted = count-append (λ (t : ResetToken). t.user_id == user_id) rest row in
    let gone = count-deleted (λ (t : ResetToken). t.user_id == user_id) db.reset_tokens in
    elim (Bool-cases (any (λ (t : ResetToken). t.token == token) rest)) [
      | inl old ↦ let clash = rw old at e in absurd (cc)
      | inr new ↦ elim (Bool-cases (any (λ (u : User). u.id == user_id) db.rbac.users)) [
        | inr orphan ↦ let clash = rw (new, orphan) at e in absurd (cc)
        | inl known ↦
            rw (new, known)
              (
                omega (arith, rw (beq_self user_id) at counted),
                row,
                find_where-last (λ t. t.token == token) rest row new (beq_self token),
                refl,
                refl,
              )
      ]
    ]
