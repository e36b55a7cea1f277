-- ===== src/Accounts/Codes.antt =====
-- src/db/users.rs: each step on the invites taken apart, and the uniqueness of codes.
use quma_custom.Prelude.{
  ℕ, ◌≤◌, ◌<◌, String, ◌≡◌, refl, sym, ap, subst, ◌⊎◌, inl, inr, Bool, true, false, not, ◌&&◌,
  Option, none, some, List, [], ◌∷◌, ◌++◌, arith, ltb, ◌==◌, nat_eq, string_eq, eq_iff, Bool-cases,
  is_some, any,
}
use quma_custom.Sql.{Result, ok, err, Result-cases, count_where, delete_where}
use quma_custom.Sql.Count.{count-filter_le, count-update_where_le, count-append, count-none}
use quma_custom.Rbac.Tables as R
use quma_custom.Rbac.Tables.{get_user_by_username}
use quma_custom.Rbac.Users
use quma_custom.Accounts.Tables.{Db, InviteCode}
use quma_custom.Accounts.Invites
use quma_custom.Accounts.Steps.{Step, Reach, here, next}
use quma_custom.Accounts.Invites.{
  is_usable, is_after, mark_used, use_invite, create_invite, delete_invite,
}
use quma_custom.Accounts.Registration.{register, delete_account, cascade, forget}

-- Each code stands in one row at most: UNIQUE.
abbrev pub IsUnique : Db → Type 0
IsUnique db = (code : String) → count_where (λ (i : InviteCode). i.code == code) db.invite_codes ≤ 1

-- A registration that succeeds, taken apart.
pub register-parts :
    (username : String) (profile_aid : Option String) (hash code now : String) (db db' : Db)
    → register username profile_aid hash code now db ≡ inr db'
    → (user_id : ℕ) × (rbac : R.Db) × (Users.insert_user username profile_aid
          (some hash)
          "player"
          false
          now
          db.rbac
        ≡ ok (user_id, rbac))
      × (0 < (use_invite code user_id now db.invite_codes).0)
      × (db' ≡ record db {
        rbac = rbac;
        invite_codes = (use_invite code user_id now db.invite_codes).1;
      })
unfolding register
register-parts username profile_aid hash code now db db' e =
    elim (Bool-cases (is_some (get_user_by_username username db.rbac))) [
      | inl taken ↦ let clash = rw taken at e in absurd (cc)
      | inr free ↦
          elim (Result-cases
            (Users.insert_user username profile_aid (some hash) "player" false now db.rbac)) [
              | inl (er, failed) ↦ let clash = rw (free, failed) at e in absurd (cc)
              | inr (a, inserted) ↦
                  elim (Bool-cases ((use_invite code a.0 now db.invite_codes).0 == 0)) [
                    | inl none_used ↦ let clash = rw (free, inserted, none_used) at e in absurd (cc)
                    | inr used ↦
                        let won = rw (free, inserted, used) at e in
                        (a.0, a.1, inserted, ground arith, cc)
                  ]
            ]
    ]

abbrev invites_of : Result (Users.DeleteUserResult × Db) → List InviteCode
invites_of (ok (r, db)) = db.invite_codes
invites_of (err e) = []

-- What a deletion of a user does to the invites.
pub delete_account-parts :
    (user_id : ℕ) (r : Users.DeleteUserResult) (db db' : Db)
    → delete_account user_id db ≡ ok (r, db')
    → (db'.invite_codes ≡ db.invite_codes) ⊎ (db'.invite_codes ≡ (cascade user_id db).invite_codes)
unfolding delete_account cascade
delete_account-parts user_id r db db' e = elim (Result-cases (Users.delete_user user_id db.rbac)) [
  | inl (er, failed) ↦ let clash = rw failed at e in absurd (cc)
  | inr ((Users.deleted, rbac), done) ↦ inr (ap invites_of (sym (rw done at e)))
  | inr ((Users.not_found, rbac), done) ↦ inl (ap invites_of (sym (rw done at e)))
  | inr ((Users.last_admin, rbac), done) ↦ inl (ap invites_of (sym (rw done at e)))
]

abbrev pub has_code : String → InviteCode → Bool
has_code code i = i.code == code

pub delete_invite-parts :
    (id : ℕ) (db : Db)
    → ((Invites.delete_invite id db).1 ≡ db)
      ⊎ ((Invites.delete_invite id db).1 ≡ record db {
        invite_codes =
            delete_where
              (λ (i : InviteCode). i.id == id && not (is_some i.used_by))
              db.invite_codes;
      })
unfolding Invites.delete_invite
delete_invite-parts id db =
    elim (Bool-cases (
      ltb 0 (
        count_where (λ (i : InviteCode). i.id == id && not (is_some i.used_by)) db.invite_codes))) [
          | inl some_row ↦ rw some_row (inr refl)
          | inr no_row ↦
              rw no_row
                (elim (Bool-cases
                  (ltb 0 (count_where (λ (i : InviteCode). i.id == id) db.invite_codes))) [
                    | inl spent ↦ rw spent (inl refl)
                    | inr absent ↦ rw absent (inl refl)
                  ])
        ]

abbrev pub new_invite : ℕ → String → Option ℕ → Option String → String → InviteCode
new_invite id code created_by expires_at now = record {
  id = id;
  code = code;
  created_by = created_by;
  used_by = none;
  created_at = now;
  used_at = none;
  expires_at = expires_at;
}

abbrev invites_after : Result (ℕ × Db) → List InviteCode
invites_after (ok (r, db)) = db.invite_codes
invites_after (err e) = []

pub create_invite-parts :
    (code : String) (created_by : Option ℕ) (expires_at : Option String) (now : String) (id : ℕ)
    (db db' : Db)
    → Invites.create_invite code created_by expires_at now db ≡ ok (id, db')
    → (any (has_code code) db.invite_codes ≡ false)
      × (db'.invite_codes
          ≡ db.invite_codes ++ new_invite db.next_invite_id code created_by expires_at now ∷ [])
unfolding Invites.create_invite
create_invite-parts code created_by expires_at now id db db' e =
    elim (Bool-cases (any (has_code code) db.invite_codes)) [
      | inl old ↦ let clash = rw old at e in absurd (cc)
      | inr new ↦ elim (Bool-cases (Invites.is_orphan created_by db)) [
        | inl orphan ↦ let clash = rw (new, orphan) at e in absurd (cc)
        | inr known ↦ (new, ap invites_after (sym (rw (new, known) at e)))
      ]
    ]

pub IsUnique-Step : {P : ℕ → Type 0} {db db' : Db} → Step P db db' → IsUnique db → IsUnique db'
unfolding use_invite cascade delete_where
IsUnique-Step {db = db} {db' = db'} (Step.create_invite c created_by expires_at now id e) h code =
    let (new, same) = create_invite-parts c created_by expires_at now id db db' e in
    let more =
      count-append (has_code code) db.invite_codes
        (new_invite db.next_invite_id c created_by expires_at now) in
    rw same (elim (Bool-cases (c == code)) [
      | inl hit ↦
          let is_new : any (has_code code) db.invite_codes ≡ false =
            subst (λ z. any (has_code z) db.invite_codes ≡ false) ((eq_iff c code).0 hit) new in
          let zero_rows = count-none (has_code code) db.invite_codes is_new in
          omega (arith, rw hit at more)
      | inr miss ↦ omega (arith, h code, rw miss at more)
    ])
IsUnique-Step {db = db} (Step.delete_invite id e) h code = elim (delete_invite-parts id db) [
  | inl same ↦ rw (e, same) (h code)
  | inr fewer ↦
      let below =
        count-filter_le (has_code code)
          (λ (i : InviteCode). not (i.id == id && not (is_some i.used_by))) db.invite_codes in
      rw (e, fewer) (omega (arith, below, h code))
]
IsUnique-Step {db = db} {db' = db'} (Step.register username aid hash c now e) h code =
    let (user_id, rbac, inserted, used, same) = register-parts username aid hash c now db db' e in
    let fewer =
      count-update_where_le (has_code code) (is_usable c now) (mark_used user_id now)
        db.invite_codes (λ x q p. p) in
    rw same (omega (arith, fewer, h code))
IsUnique-Step {db = db} {db' = db'} (Step.delete_account user_id r p e) h code =
    elim (delete_account-parts user_id r db db' e) [
      | inl same ↦ rw same (h code)
      | inr changed ↦
          let fewer =
            count-update_where_le (has_code code) (λ i. true) (forget user_id) db.invite_codes
              (λ x q p. p) in
          rw changed (omega (arith, fewer, h code))
    ]
IsUnique-Step (Step.write_rbac rbac e) h code = rw e (h code)

-- No invites yet, and any users and roles.
abbrev pub fresh : R.Db → Db
fresh rbac = record {
  rbac = rbac;
  invite_codes = [];
  reset_tokens = [];
  next_invite_id = 1;
  next_token_id = 1;
}

pub IsUnique-Steps : {P : ℕ → Type 0} {db db' : Db} → Reach P db db' → IsUnique db → IsUnique db'
IsUnique-Steps here h = h
IsUnique-Steps (next r s) h = IsUnique-Step s (IsUnique-Steps r h)

pub IsUnique-Reach :
    {P : ℕ → Type 0} {db : Db} (rbac : R.Db) → Reach P (fresh rbac) db → IsUnique db
IsUnique-Reach rbac r = IsUnique-Steps r (λ code. unfold count_where in ground arith)
