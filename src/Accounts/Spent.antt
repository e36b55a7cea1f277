-- ===== src/Accounts/Spent.antt =====
-- src/web/handlers/join.rs and src/db/users.rs: what becomes of an invite code that was used.
use quma_custom.Prelude.{
  ℕ, ◌<◌, String, ◌≡◌, refl, sym, ap, ◌∙◌, subst, ◌≢◌, ◌⊎◌, inl, inr, true, false, not, ◌&&◌,
  Option, none, some, arith, ◌==◌, nat_eq, string_eq, Bool-cases, Option-cases, is_some, beq_ne,
  any,
}
use quma_custom.Sql.{
  Result, ok, err, row_of_count_where, find_where-update_where, find_where-append,
}
use quma_custom.Sql.Count.{find_where-only, find_where-delete_where}
use quma_custom.Rbac.Tables as R
use quma_custom.Rbac.Tables.{get_user_by_username}
use quma_custom.Rbac.Users
use quma_custom.Accounts.Tables.{Db, InviteCode, get_invite}
use quma_custom.Accounts.Steps.{Step, Reach, here, next}
use quma_custom.Accounts.Invites.{is_usable, is_after, mark_used, use_invite}
use quma_custom.Accounts.Registration.{RegisterError, register, cascade, forget}
use quma_custom.Accounts.Codes.{
  IsUnique, has_code, new_invite, register-parts, delete_account-parts, delete_invite-parts,
  create_invite-parts, fresh, IsUnique-Reach, IsUnique-Steps,
}

Sum-cases {ℓ κ} :
    {A : Type ℓ} {B : Type κ} (s : A ⊎ B) → ((a : A) × (s ≡ inl a)) ⊎ ((b : B) × (s ≡ inr b))
Sum-cases (inl a) = inl (a, refl)
Sum-cases (inr b) = inr (b, refl)

some_injective : {A : Type 0} {x y : A} → some x ≡ some y → x ≡ y
some_injective e = cc

-- The code was used by the user `u`.
abbrev pub IsSpent : String → ℕ → Db → Type 0
IsSpent code u db = (i : InviteCode) × (get_invite code db ≡ some i) × (i.used_by ≡ some u)

-- A usable row is the one that is found by its code.
usable_row :
    (code now : String) (user_id : ℕ) (db : Db)
    → IsUnique db
    → 0 < (use_invite code user_id now db.invite_codes).0
    → (i : InviteCode) × (get_invite code db ≡ some i) × (is_usable code now i ≡ true)
unfolding use_invite get_invite
usable_row code now user_id db unique used =
    let (i, m, usable) = row_of_count_where (is_usable code now) db.invite_codes used in
    (i, find_where-only (has_code code) db.invite_codes (unique code) m (ground arith), usable)

unused_of_usable :
    (code now : String) (i : InviteCode) → is_usable code now i ≡ true → i.used_by ≡ none
unused_of_usable code now i h = elim (Option-cases i.used_by) [
  | inl free ↦ free
  | inr (u, spent) ↦ absurd (ground arith)
]

id_of_insert :
    (username : String) (profile_aid : Option String) (hash now : String) (db after : R.Db) (id : ℕ)
    → Users.insert_user username profile_aid (some hash) "player" false now db ≡ ok (id, after)
    → id ≡ db.next_user_id
unfolding Users.insert_user
id_of_insert username profile_aid hash now db after id e =
    elim (Bool-cases (any (λ (u : R.User). u.username == username) db.users)) [
      | inl taken ↦ let clash = rw taken at e in absurd (cc)
      | inr free ↦ elim (Bool-cases (Users.role_exists "player" db)) [
        | inl known ↦ ap id_in (sym (rw (free, known) at e))
        | inr unknown ↦ let clash = rw (free, unknown) at e in absurd (cc)
      ]
    ]
  where
    id_in : Result (ℕ × R.Db) → ℕ
    id_in (ok (n, d)) = n
    id_in (err x) = id

pub register-spends :
    {P : ℕ → Type 0} (rbac : R.Db) (db db' : Db) (username : String) (profile_aid : Option String)
    (hash code now : String)
    → Reach P (fresh rbac) db
    → register username profile_aid hash code now db ≡ inr db'
    → (i : InviteCode) × (get_invite code db ≡ some i)
      × (i.used_by ≡ none)
      × (is_after now i.expires_at ≡ true)
      × (get_invite code db' ≡ some (mark_used db.rbac.next_user_id now i))
unfolding get_invite use_invite
register-spends rbac db db' username profile_aid hash code now reached e =
    let (user_id, after, inserted, used, same) =
      register-parts username profile_aid hash code now db db' e in
    let (i, found, usable) = usable_row code now user_id db (IsUnique-Reach rbac reached) used in
    let marked =
      find_where-update_where (has_code code) (is_usable code now) (mark_used user_id now)
        db.invite_codes i (λ x. refl) found in
    let new_id = id_of_insert username profile_aid hash now db.rbac after user_id inserted in
    (
      i,
      found,
      unused_of_usable code now i usable,
      ground arith,
      subst (λ z. get_invite code db' ≡ some (mark_used z now i)) new_id
          (rw same (marked ∙ rw usable)),
    )

not_usable :
    {u : ℕ} (code now : String) (i : InviteCode) → i.used_by ≡ some u → is_usable code now i ≡ false
not_usable code now i spent =
    rw spent (elim (Bool-cases (i.code == code)) [ inl h ↦ rw h | inr h ↦ rw h ])

IsSpent-Step :
    {u : ℕ} (code : String) (db db' : Db)
    → Step (λ v. v ≢ u) db db'
    → IsSpent code u db
    → IsSpent code u db'
unfolding get_invite use_invite cascade
IsSpent-Step code db db' (Step.create_invite c created_by expires_at now id e) (i, found, spent) =
    let (new, same) = create_invite-parts c created_by expires_at now id db db' e in
    let row = new_invite db.next_invite_id c created_by expires_at now in
    (i, rw same (find_where-append (has_code code) db.invite_codes row ∙ rw found), spent)
IsSpent-Step code db db' (Step.delete_invite id e) (i, found, spent) =
    elim (delete_invite-parts id db) [
      | inl same ↦ (i, rw (e, same) found, spent)
      | inr fewer ↦
          let kept : (i.id == id && not (is_some i.used_by)) ≡ false =
            rw spent (elim (Bool-cases (i.id == id)) [ inl h ↦ rw h | inr h ↦ rw h ]) in
          (
            i,
            rw (e, fewer)
                (find_where-delete_where (has_code code)
                  (λ x. x.id == id && not (is_some x.used_by)) db.invite_codes i kept found),
            spent,
          )
    ]
IsSpent-Step code db db' (Step.register username aid hash c now e) (i, found, spent) =
    let (user_id, rbac, inserted, used, same) = register-parts username aid hash c now db db' e in
    (
      i,
      rw same (
          find_where-update_where (has_code code) (is_usable c now) (mark_used user_id now)
            db.invite_codes i (λ x. refl) found
          ∙ rw (not_usable c now i spent)),
      spent,
    )
IsSpent-Step {u} code db db' (Step.delete_account user_id r p e) (i, found, spent) =
    elim (delete_account-parts user_id r db db' e) [
      | inl same ↦ (i, rw same found, spent)
      | inr changed ↦
          let other : (u == user_id) ≡ false = beq_ne u user_id (λ same. p (sym same)) in
          (
            forget user_id i,
            rw changed (
                find_where-update_where (has_code code) (λ x. true) (forget user_id) db.invite_codes
                  i (λ x. refl) found),
            rw (spent, other),
          )
    ]
IsSpent-Step code db db' (Step.write_rbac rbac e) (i, found, spent) = (i, rw e found, spent)

IsSpent-Reach :
    {u : ℕ} (code : String) (db : Db) {db' : Db}
    → Reach (λ v. v ≢ u) db db'
    → IsSpent code u db
    → IsSpent code u db'
IsSpent-Reach code db here h = h
IsSpent-Reach code db (next {u = v} {v = w} r s) h =
    IsSpent-Step code v w s (IsSpent-Reach code db r h)

refused_of_spent :
    (code now username hash : String) (profile_aid : Option String) (u : ℕ) (db : Db)
    → IsUnique db
    → IsSpent code u db
    → (e : RegisterError) × (register username profile_aid hash code now db ≡ inl e)
refused_of_spent code now username hash profile_aid u db unique (i, found, spent) =
    elim (Sum-cases (register username profile_aid hash code now db)) [
      | inl refused ↦ refused
      | inr (db', e) ↦
          let (user_id, after, inserted, used, same) =
            register-parts username profile_aid hash code now db db' e in
          let (j, again, usable) = usable_row code now user_id db unique used in
          let i_is_j : i ≡ j = some_injective (sym found ∙ again) in
          let no = not_usable code now i spent in
          let yes = ap (is_usable code now) i_is_j ∙ usable in absurd (cc)
    ]

-- A code that let one account in lets no other in for as long as that account is not deleted, whatever
-- else is done to invites, accounts, users and roles in between, and whatever the clock says.
pub register-once :
    {P : ℕ → Type 0} (rbac : R.Db) (db db₁ db₂ : Db)
    (code username hash now username' hash' now' : String)
    (profile_aid profile_aid' : Option String)
    → Reach P (fresh rbac) db
    → register username profile_aid hash code now db ≡ inr db₁
    → Reach (λ v. v ≢ db.rbac.next_user_id) db₁ db₂
    → (e : RegisterError) × (register username' profile_aid' hash' code now' db₂ ≡ inl e)
register-once {P} rbac db db₁ db₂ code username hash now username' hash' now' aid aid' reached e
      later =
    let (i, found, free, valid, spent) =
      register-spends rbac db db₁ username aid hash code now reached e in
    let unique = IsUnique-Reach rbac (next reached (Step.register username aid hash code now e)) in
    refused_of_spent code now' username' hash' aid' db.rbac.next_user_id db₂
      (IsUnique-Steps later unique)
      (IsSpent-Reach code db₁ later (mark_used db.rbac.next_user_id now i, spent, refl))
