-- ===== src/Requests/Votes.antt =====
-- src/db/requests.rs: one vote for each user and request.
use mathlib.Core.Option
use quma_custom.Prelude.{
  [], ◌∷◌, ◌++◌, ◌+◌, ◌||◌, any, ℕ, String, ◌≡◌, refl, ap, ◌∙◌, Bool, true, false, ◌&&◌, Option,
  some, none, arith, ◌==◌, nat_eq, if◌then◌else◌, Bool-cases, Option-cases, inl, inr, is_some,
  nat_beq_iff, beq_self,
}
use quma_custom.Sql.{
  ok, err, constraint_violation, update_where, find_where, find_where-some, find_where-update_where,
  find_where-update_where_other, find_where-append,
}
use quma_custom.Requests.Tables.{is_user, ModRequest, Db, ModRequestVote, get_vote}
use quma_custom.Requests.Writes.{upsert_vote}

abbrev pub is_vote_of : ℕ → ℕ → ModRequestVote → Bool
is_vote_of request_id user_id v = v.request_id == request_id && v.user_id == user_id

-- The other pair's test fails wherever this pair's holds.
apart_of :
    (r u r' u' : ℕ) (v : ModRequestVote)
    → (r == r' && u == u') ≡ false
    → is_vote_of r' u' v ≡ true
    → is_vote_of r u v ≡ false
apart_of r u r' u' v h e = ground arith

abbrev changed : Bool → Option String → ModRequestVote → ModRequestVote
changed up comment w = record w { upvote = up; comment = comment }

-- What a user says by a vote.
abbrev pub content : ModRequestVote → Bool × Option String
content v = (v.upvote, v.comment)

module _ (r u : ℕ) (up : Bool) (comment : Option String) (now : String) (db : Db) where
  fresh : ModRequestVote
  fresh = record {
    id = db.next_vote_id;
    request_id = r;
    user_id = u;
    upvote = up;
    comment = comment;
    created_at = now;
  }

  abbrev updated : Db
  updated = record db { votes = update_where (is_vote_of r u) (changed up comment) db.votes }

  abbrev inserted : Db
  inserted = record db { votes = db.votes ++ fresh ∷ []; next_vote_id = db.next_vote_id + 1 }

  -- The user and the request are there, or the user's vote is, which refers to both.
  abbrev pub is_votable : Bool
  is_votable =
      is_some (get_vote r u db) || is_user u db && any (λ (x : ModRequest). x.id == r) db.requests

  upsert_vote-result : upsert_vote r u up comment now db ≡ (
      if is_votable
      then ok (if is_some (get_vote r u db) then updated else inserted)
      else err constraint_violation)
  unfolding upsert_vote fresh
  upsert_vote-result = elim (Bool-cases (is_some (get_vote r u db))) [
    | inl old ↦ rw old
    | inr new ↦
        elim (Bool-cases (is_user u db && any (λ (x : ModRequest). x.id == r) db.requests)) [
          | inl known ↦ rw (new, known)
          | inr unknown ↦ rw (new, unknown)
        ]
  ]

  abbrev stored : Db
  stored = if is_some (get_vote r u db) then updated else inserted

  stored-own : Option.map content (get_vote r u stored) ≡ some (up, comment)
  unfolding get_vote fresh
  stored-own = elim (Option-cases (find_where (is_vote_of r u) db.votes)) [
    | inr (v, found) ↦
        let hit = (find_where-some (is_vote_of r u) db.votes v found).1 in
        rw found (
          ap (Option.map content) {y = some (changed up comment v)} (
            find_where-update_where (is_vote_of r u) (is_vote_of r u) (changed up comment) db.votes
              v (λ w. refl) found
            ∙ rw hit))
    | inl missing ↦ rw missing (
        ap (Option.map content) {y = some fresh} (
          find_where-append (is_vote_of r u) db.votes fresh ∙ rw (missing, beq_self r, beq_self u)))
  ]

  kept :
      (r' u' : ℕ) (o : Option ModRequestVote)
      → (r == r' && u == u') ≡ false
      → (elim o [ some y ↦ some y | none ↦ (if r == r' && u == u' then some fresh else none) ]) ≡ o
  kept r' u' (some y) other = refl
  kept r' u' none other = rw other

  stored-other :
      (r' u' : ℕ) → (r == r' && u == u') ≡ false → get_vote r' u' stored ≡ get_vote r' u' db
  unfolding get_vote fresh
  stored-other r' u' other = elim (Bool-cases (is_some (find_where (is_vote_of r u) db.votes))) [
    | inl old ↦ rw old (
        find_where-update_where_other (is_vote_of r' u') (is_vote_of r u) (changed up comment)
          db.votes (λ w. refl) (λ w e. apart_of r u r' u' w other e))
    | inr new ↦ rw new (
        find_where-append (is_vote_of r' u') db.votes fresh
        ∙ kept r' u' (find_where (is_vote_of r' u') db.votes) other)
  ]

  stored-get :
      (r' u' : ℕ)
      → Option.map content (get_vote r' u' stored) ≡ (
          if r == r' && u == u' then some (up, comment) else Option.map content (get_vote r' u' db))
  stored-get r' u' = elim (Bool-cases (r == r' && u == u')) [
    | inl same ↦
        let er : r ≡ r' = (nat_beq_iff r r').0 (ground arith) in
        let eu : u ≡ u' = (nat_beq_iff u u').0 (ground arith) in
        rw same (rw (← er, ← eu) stored-own)
    | inr other ↦ rw other (ap (Option.map content) (stored-other r' u' other))
  ]

  -- A vote of a user who is in the table on a request that is there, or in place of an earlier vote of
  -- the user on it, is stored, and any other vote is an error. Where it is stored, the user's vote on the
  -- request then says what was cast, and what any other user said, or on any other request, is what it
  -- was.
  pub upsert_vote-get :
      (db' : Db) × (upsert_vote r u up comment now db
        ≡ (if is_votable then ok db' else err constraint_violation))
      × ((r' u' : ℕ)
          → Option.map content (get_vote r' u' db') ≡ (
              if r == r' && u == u'
              then some (up, comment)
              else Option.map content (get_vote r' u' db)))
  upsert_vote-get = (stored, upsert_vote-result, stored-get)
