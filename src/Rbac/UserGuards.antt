-- ===== src/Rbac/UserGuards.antt =====
-- The guards of src/db/users.rs: no operation on users takes away the last who manages users.
use quma_custom.Prelude.{
  ℕ, String, ◌≡◌, refl, sym, ap, ◌∙◌, subst, Bool, true, false, some, Memᴰ, arith, ◌==◌, nat_eq,
  string_eq, nat_beq_iff, Bool-cases, Option-cases, inl, inr,
}
use quma_custom.Sql.{
  ok, mem-update_where_hit, mem-update_where_miss, mem-delete_where, update_where, find_where-some,
  find_where,
}
use quma_custom.Sql.Keys.{IsKeyed}
use quma_custom.Rbac.Tables.{
  Db, User, count_users_with_permission, current_has_manage, role_has_manage, get_user_by_id,
}
use quma_custom.Rbac.Users.{
  write_user_role, update_user_role, write_user_disabled, set_user_disabled, DeleteUserResult,
  remove_user, delete_user, delete_found_user,
}
use quma_custom.Rbac.Managers.{
  HasManager, other_manager, current_has_manage-true, Holds-of_role_has_manage, Holds-with_users,
  Holds-as,
}

-- A manager whom the statement does not touch is still there.
kept_role :
    (user_id : ℕ) (new_role : String) (db : Db) {n : ℕ} {db' : Db} (h : HasManager db)
    → (h.user.id == user_id) ≡ false
    → write_user_role user_id new_role db ≡ ok (n, db')
    → HasManager db'
unfolding write_user_role
kept_role user_id new_role db {n} {db'} h other e =
    let users =
      update_where (λ (u : User). u.id == user_id) (λ u. record u { role = new_role }) db.users in
    let same : record db { users = users } ≡ db' = ground arith in
    subst HasManager same (record {
      user = h.user;
      user_mem = mem-update_where_miss _ _ h.user_mem other;
      holds = Holds-with_users users h.holds;
      enabled = h.enabled;
    })

-- A manager who is given a role that manages users still does.
given_role :
    (user_id : ℕ) (new_role : String) (db : Db) {n : ℕ} {db' : Db} (h : HasManager db)
    → (h.user.id == user_id) ≡ true
    → role_has_manage new_role db ≡ true
    → write_user_role user_id new_role db ≡ ok (n, db')
    → HasManager db'
unfolding write_user_role
given_role user_id new_role db {n} {db'} h own grants e =
    let users =
      update_where (λ (u : User). u.id == user_id) (λ u. record u { role = new_role }) db.users in
    let same : record db { users = users } ≡ db' = ground arith in
    let moved : User = record (h.user) { role = new_role } in
    subst HasManager same (record {
      user = moved;
      user_mem = mem-update_where_hit _ _ h.user_mem own;
      holds = Holds-with_users users (Holds-of_role_has_manage moved new_role db grants refl);
      enabled = h.enabled;
    })

-- The manager is the user in question only if the guard's query finds it so.
not_self :
    (user_id : ℕ) (db : Db) (h : HasManager db)
    → current_has_manage user_id db ≡ false
    → (h.user.id == user_id) ≡ false
not_self user_id db h e = elim (Bool-cases (h.user.id == user_id)) [
  | inl own ↦
      let found : current_has_manage user_id db ≡ true =
        subst (λ i. current_has_manage i db ≡ true) ((nat_beq_iff _ _).0 own)
          (current_has_manage-true db h) in
      absurd (cc)
  | inr other ↦ other
]

-- If some enabled user manages users, then after a role change that reports no error some enabled
-- user still does.
pub update_user_role-HasManager :
    (user_id : ℕ) (new_role : String) (db : Db) {n : ℕ} {db' : Db}
    → HasManager db
    → update_user_role user_id new_role db ≡ ok (n, db')
    → HasManager db'
unfolding update_user_role
update_user_role-HasManager user_id new_role db {n} {db'} h e =
    elim (Bool-cases (current_has_manage user_id db)) [
      | inr free ↦ kept_role user_id new_role db h (not_self user_id db h free) (rw free at e)
      | inl manages ↦ elim (Bool-cases (role_has_manage new_role db)) [
        | inl grants ↦ elim (Bool-cases (h.user.id == user_id)) [
          | inl own ↦ given_role user_id new_role db h own grants (rw (manages, grants) at e)
          | inr other ↦ kept_role user_id new_role db h other (rw (manages, grants) at e)
        ]
        | inr lacks ↦
            elim (Bool-cases (count_users_with_permission "users.manage" (some user_id) db == 0)) [
              | inl none_left ↦ let same : db ≡ db' = ground arith in subst HasManager same h
              | inr others ↦
                  let (h', other) = other_manager user_id db others in
                  kept_role user_id new_role db h' other (rw (manages, lacks, others) at e)
            ]
      ]
    ]

kept_disabled :
    (user_id : ℕ) (d : Bool) (db : Db) {n : ℕ} {db' : Db} (h : HasManager db)
    → (h.user.id == user_id) ≡ false
    → write_user_disabled user_id d db ≡ ok (n, db')
    → HasManager db'
unfolding write_user_disabled
kept_disabled user_id d db {n} {db'} h other e =
    let users =
      update_where (λ (u : User). u.id == user_id) (λ u. record u { disabled = d }) db.users in
    let same : record db { users = users } ≡ db' = ground arith in
    subst HasManager same (record {
      user = h.user;
      user_mem = mem-update_where_miss _ _ h.user_mem other;
      holds = Holds-with_users users h.holds;
      enabled = h.enabled;
    })

enabled_again :
    (user_id : ℕ) (db : Db) {n : ℕ} {db' : Db}
    → HasManager db
    → write_user_disabled user_id false db ≡ ok (n, db')
    → HasManager db'
enabled_again user_id db {n} {db'} h e = elim (Bool-cases (h.user.id == user_id)) [
  | inr other ↦ kept_disabled user_id false db h other e
  | inl own ↦
      let users =
        update_where (λ (u : User). u.id == user_id) (λ u. record u { disabled = false })
          db.users in
      let same : record db { users = users } ≡ db' = unfold write_user_disabled in ground arith in
      subst HasManager same (record {
        user = record (h.user) { disabled = false };
        user_mem = mem-update_where_hit _ _ h.user_mem own;
        holds = Holds-as h.user false users h.holds;
        enabled = refl;
      })
]

-- If some enabled user manages users, then after a user was disabled or enabled some enabled user
-- still does.
pub set_user_disabled-HasManager :
    (user_id : ℕ) (disabled : Bool) (db : Db) {n : ℕ} {db' : Db}
    → HasManager db
    → set_user_disabled user_id disabled db ≡ ok (n, db')
    → HasManager db'
unfolding set_user_disabled
set_user_disabled-HasManager user_id false db h e = enabled_again user_id db h e
set_user_disabled-HasManager user_id true db {n} {db'} h e =
    elim (Bool-cases (count_users_with_permission "users.manage" (some user_id) db == 0)) [
      | inr others ↦
          let (h', other) = other_manager user_id db others in
          kept_disabled user_id true db h' other (rw others at e)
      | inl alone ↦ elim (Bool-cases (current_has_manage user_id db)) [
        | inl manages ↦ let same : db ≡ db' = ground arith in subst HasManager same h
        | inr free ↦
            kept_disabled user_id true db h (not_self user_id db h free) (rw (alone, free) at e)
      ]
    ]

kept_removed :
    (user_id : ℕ) (db : Db) (h : HasManager db)
    → (h.user.id == user_id) ≡ false
    → HasManager (remove_user user_id db)
kept_removed user_id db h other = record {
  user = h.user;
  user_mem = mem-delete_where _ h.user_mem other;
  holds = Holds-with_users _ h.holds;
  enabled = h.enabled;
}

-- If some enabled user manages users and user ids are distinct, then after a deletion some enabled
-- user still manages users.
pub delete_user-HasManager :
    (user_id : ℕ) (db : Db) {res : DeleteUserResult} {db' : Db} {next : ℕ}
    → IsKeyed User.id next db.users
    → HasManager db
    → delete_user user_id db ≡ ok (res, db')
    → HasManager db'
unfolding delete_user delete_found_user get_user_by_id
delete_user-HasManager user_id db {res} {db'} keyed h e =
    elim (Option-cases (find_where (λ (u : User). u.id == user_id) db.users)) [
      | inl missing ↦ let same : db ≡ db' = ground arith in subst HasManager same h
      | inr (user, found) ↦ elim (Bool-cases user.disabled) [
        | inl disabled ↦
            let (m, hit) = find_where-some _ db.users user found in
            let same : remove_user user_id db ≡ db' = ground arith in
            subst HasManager same (kept_removed user_id db h (distinct user m hit disabled))
        | inr enabled ↦ elim (Bool-cases (current_has_manage user_id db)) [
          | inr free ↦
              let same : remove_user user_id db ≡ db' = ground arith in
              subst HasManager same (kept_removed user_id db h (not_self user_id db h free))
          | inl manages ↦
              elim (Bool-cases
                (count_users_with_permission "users.manage" (some user_id) db == 0)) [
                  | inl alone ↦ let same : db ≡ db' = ground arith in subst HasManager same h
                  | inr others ↦
                      let (h', other) = other_manager user_id db others in
                      let same : remove_user user_id db ≡ db' = ground arith in
                      subst HasManager same (kept_removed user_id db h' other)
                ]
        ]
      ]
    ]
  where
    distinct :
        (user : User)
        → Memᴰ user db.users
        → (user.id == user_id) ≡ true
        → user.disabled ≡ true
        → (h.user.id == user_id) ≡ false
    distinct user m hit disabled = elim (Bool-cases (h.user.id == user_id)) [
      | inr other ↦ other
      | inl own ↦
          let same : user ≡ h.user =
            keyed.unique user h.user m h.user_mem
              ((nat_beq_iff _ _).0 hit ∙ sym ((nat_beq_iff _ _).0 own)) in
          let enabled = h.enabled in let flag = ap (λ (u : User). u.disabled) same in absurd (cc)
    ]
