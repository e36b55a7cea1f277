-- ===== src/Accounts/ResetOnce.antt =====
-- src/web/handlers/auth.rs: what becomes of a link once it has set a password.
use quma_custom.Prelude.{
  ℕ, String, ◌≡◌, refl, sym, ap, subst, ◌≢◌, ◌⊎◌, inl, inr, Bool, false, not, ◌||◌, none, List, [],
  ◌∷◌, ◌++◌, ◌==◌, nat_eq, string_eq, Bool-cases, beq_ne, any,
}
use quma_custom.Sql.{find_where, delete_where}
use quma_custom.Rbac.Tables as R
use quma_custom.Rbac.Users
use quma_custom.Accounts.Tables.{Db, ResetToken, InviteCode, get_reset_token}
use quma_custom.Accounts.Registration
use quma_custom.Accounts.Resets
use quma_custom.Accounts.Resets.{find_where-deleted, invalid_link, find_token, set_password}

-- The operations on reset tokens, while no new token has the text `token`; `set_password` is the end of
-- any submission, also of one that found its row before. The last two stand for any write to users,
-- roles and invites.
pub data Step (token : String) (db db' : Db) : Type 0 where
  create_reset_token :
      (user_id : ℕ) (fresh expires_at now : String)
      → fresh ≢ token
      → db' ≡ (Resets.create_reset_token user_id fresh expires_at now db).1
      → Step token db db'
  delete_reset_token : (t : String) → db' ≡ (Resets.delete_reset_token t db).1 → Step token db db'
  finish :
      (rt : ResetToken) (hash now : String)
      → Resets.set_password rt hash now db ≡ inr db'
      → Step token db db'
  cascade : (user_id : ℕ) → db' ≡ Registration.cascade user_id db → Step token db db'
  write_rbac : (rbac : R.Db) → db' ≡ record db { rbac = rbac } → Step token db db'
  write_invites :
      (codes : List InviteCode) → db' ≡ record db { invite_codes = codes } → Step token db db'

pub data Reach (token : String) (db : Db) : Db → Type 0 where
  here : Reach token db db
  next : {u v : Db} → Reach token db u → Step token u v → Reach token db v

module _ {A : Type 0} (q : A → Bool) where
  still_none :
      (p : A → Bool) (xs : List A)
      → find_where q xs ≡ none
      → find_where q (delete_where p xs) ≡ none
  unfolding find_where delete_where
  still_none p [] h = refl
  still_none p (x ∷ xs) h = elim (Bool-cases (q x)) [
    | inl hit ↦ let clash = rw hit at h in absurd (cc)
    | inr miss ↦
        let rest = still_none p xs (rw miss at h) in
        elim (Bool-cases (p x)) [ inl d ↦ rw d rest | inr k ↦ rw (k, miss) rest ]
  ]

  none_last :
      (xs : List A) (y : A)
      → find_where q xs ≡ none
      → q y ≡ false
      → find_where q (xs ++ y ∷ []) ≡ none
  unfolding find_where
  none_last [] y h miss = rw miss
  none_last (x ∷ xs) y h miss = elim (Bool-cases (q x)) [
    | inl hit ↦ let clash = rw hit at h in absurd (cc)
    | inr skip ↦ rw skip (none_last xs y (rw skip at h) miss)
  ]

abbrev IsGone : String → Db → Type 0
IsGone token db = get_reset_token token db ≡ none

abbrev tokens_of : Resets.ResetError ⊎ Db → List ResetToken
tokens_of (inl e) = []
tokens_of (inr db) = db.reset_tokens

IsGone-Step :
    (token : String) {db db' : Db} → Step token db db' → IsGone token db → IsGone token db'
unfolding get_reset_token Resets.create_reset_token Resets.delete_reset_token Resets.set_password
    Registration.cascade Users.update_user_password
IsGone-Step token {db} (Step.create_reset_token user_id fresh expires_at now apart e) gone =
    let q = λ (t : ResetToken). t.token == token in
    let rest = delete_where (λ (t : ResetToken). t.user_id == user_id) db.reset_tokens in
    let less = still_none q (λ t. t.user_id == user_id) db.reset_tokens gone in
    subst (λ (d : Db). find_where q d.reset_tokens ≡ none) (sym e)
      (elim (Bool-cases (
        any (λ (t : ResetToken). t.token == fresh) rest
        || not (any (λ (u : R.User). u.id == user_id) db.rbac.users))) [
          | inl refused ↦ rw refused less
          | inr stored ↦ rw stored (none_last q rest _ less (beq_ne fresh token apart))
        ])
IsGone-Step token {db} (Step.delete_reset_token t e) gone =
    subst (λ (d : Db). find_where (λ (x : ResetToken). x.token == token) d.reset_tokens ≡ none)
      (sym e) (still_none _ (λ x. x.token == t) db.reset_tokens gone)
IsGone-Step token {db} (Step.finish rt hash now e) gone =
    subst (λ rows. find_where (λ (x : ResetToken). x.token == token) rows ≡ none) (ap tokens_of e)
      (still_none _ (λ x. x.token == rt.token) db.reset_tokens gone)
IsGone-Step token {db} (Step.cascade user_id e) gone =
    subst (λ (d : Db). find_where (λ (x : ResetToken). x.token == token) d.reset_tokens ≡ none)
      (sym e) (still_none _ (λ x. x.user_id == user_id) db.reset_tokens gone)
IsGone-Step token {db} (Step.write_rbac rbac e) gone =
    subst (λ (d : Db). find_where (λ (x : ResetToken). x.token == token) d.reset_tokens ≡ none)
      (sym e) gone
IsGone-Step token {db} (Step.write_invites codes e) gone =
    subst (λ (d : Db). find_where (λ (x : ResetToken). x.token == token) d.reset_tokens ≡ none)
      (sym e) gone

IsGone-Reach :
    (token : String) {db db' : Db} → Reach token db db' → IsGone token db → IsGone token db'
IsGone-Reach token here gone = gone
IsGone-Reach token (next reached s) gone = IsGone-Step token s (IsGone-Reach token reached gone)

-- Once a submission has set a password, every submission of the same link that is looked up later is
-- refused, whatever is done in between, but for a new token with the same text. (One that was looked
-- up before may still set a password.)
pub set_password-once :
    (is_token_expired : String → Bool) (rt : ResetToken) (hash now : String) (db db' later : Db)
    → set_password rt hash now db ≡ inr db'
    → Reach rt.token db' later
    → find_token is_token_expired rt.token later ≡ inl invalid_link
unfolding find_token set_password Resets.delete_reset_token get_reset_token
    Users.update_user_password
set_password-once is_token_expired rt hash now db db' later e reached =
    let gone : IsGone rt.token db' =
      subst (λ rows. find_where (λ (x : ResetToken). x.token == rt.token) rows ≡ none)
        (ap tokens_of e) (find_where-deleted (λ x. x.token == rt.token) db.reset_tokens) in
    rw (IsGone-Reach rt.token reached gone, find_token)
