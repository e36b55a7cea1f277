-- ===== src/Requests/Steps.antt =====
-- Every operation of the program on mod requests, as a step of the database.
use mathlib.Core.List.Memᴰ as M
use quma_custom.Prelude.{
  any, not, ◌&&◌, ◌==◌, some, ℕ, ◌+◌, String, ◌≡◌, refl, sym, ap, ◌∙◌, subst, Bool, true, false,
  Option, List, [], ◌∷◌, ◌++◌, Memᴰ, arith, nat_eq, string_eq, if◌then◌else◌, Bool-cases, inl, inr,
  is_some,
}
use quma_custom.Sql.{Result, ok, err, after, after_write, update_where}
use quma_custom.Sql.Keys.{update_where-IsKeyed, insert-IsKeyed}
use quma_custom.Sql.Distinct.{update_where-Distinct, insert-Distinct}
use quma_custom.Requests.Tables.{
  is_user, Db, ModRequest, RequestStatusLog, ModRequestVote, get_vote,
}
use quma_custom.Requests.Writes
use quma_custom.Requests.Handlers
use quma_custom.Requests.Handlers.{allowed_from, target, Action, approve, reject}
use quma_custom.Requests.Audit.{replay, IsChained, first_status, replay_unknown}
use quma_custom.Requests.Lifecycle.{
  approved_by_user, rejected_pending, rejected_approved, reopened, queued_up, cancelled,
  cancelled_and_rejected, installed_at_once, installed_queued, removed, AllEdges, IsLegal, IsSound,
  transition-IsSound, bulk-IsSound,
}

-- An update that leaves ids and statuses alone.
update-IsSound :
    (p : ModRequest → Bool) (f : ModRequest → ModRequest) (db : Db)
    → ((r : ModRequest) → (f r).id ≡ r.id)
    → ((r : ModRequest) → (f r).status ≡ r.status)
    → IsSound db
    → IsSound (record db { requests = update_where p f db.requests })
update-IsSound p f db same_id same_status h = record {
  audited = record {
    keyed = update_where-IsKeyed ModRequest.id p f same_id h.audited.keyed;
    distinct = update_where-Distinct ModRequest.id p f db.requests same_id h.audited.distinct;
    agrees = agree;
    chained = h.audited.chained;
    known = h.audited.known;
  };
  legal = h.legal;
}
  where
    changed : ModRequest → ModRequest
    changed r = if p r then f r else r

    agree :
        (r : ModRequest)
        → Memᴰ r (update_where p f db.requests)
        → r.status ≡ replay db.log r.id "pending"
    agree r m =
        unfold update_where in
        let (a, ma, ea) = M.of_map changed db.requests m in
        subst (λ (x : ModRequest). x.status ≡ replay db.log x.id "pending") ea
          (elim (Bool-cases (p a)) [
            | inl hit ↦ rw hit (rw same_id (same_status a ∙ h.audited.agrees a ma))
            | inr miss ↦ rw miss (h.audited.agrees a ma)
          ])

votes-IsSound :
    (votes : List ModRequestVote) (next : ℕ) (db : Db)
    → IsSound db
    → IsSound (record db { votes = votes; next_vote_id = next })
votes-IsSound votes next db h = record {
  audited = record {
    keyed = h.audited.keyed;
    distinct = h.audited.distinct;
    agrees = h.audited.agrees;
    chained = h.audited.chained;
    known = h.audited.known;
  };
  legal = h.legal;
}

insert-IsSound :
    (r : ModRequest) (db : Db)
    → r.id ≡ db.next_request_id
    → r.status ≡ "pending"
    → IsSound db
    → IsSound
        (record db { requests = db.requests ++ r ∷ []; next_request_id = db.next_request_id + 1 })
insert-IsSound r db fresh status h = record {
  audited = record {
    keyed = insert-IsKeyed ModRequest.id r fresh h.audited.keyed;
    distinct = insert-Distinct ModRequest.id db.requests r fresh h.audited.keyed h.audited.distinct;
    agrees = λ x m. elim (M.append_cases db.requests m) [
      | inl old ↦ h.audited.agrees x old
      | inr new ↦
          let same = M.eq_of_singleton new in
          ap ModRequest.status same
          ∙ status
          ∙ sym (
              replay_unknown db.log x.id "pending"
                (λ l ml e. let id = ap ModRequest.id same in omega (arith, h.audited.known l ml)))
    ];
    chained = h.audited.chained;
    known = λ l m. omega (arith, h.audited.known l m);
  };
  legal = h.legal;
}

AllEdges-action : (action : Action) → AllEdges (allowed_from action) (target action)
AllEdges-action approve = (approved_by_user, tt)
AllEdges-action reject = (rejected_pending, (rejected_approved, tt))

-- Where the second statement is an error the first has written nothing.
resolve-IsSound :
    (id : ℕ) (action : Action) (by : ℕ) (comment : Option String) (now : String) (db : Db)
    → IsSound db
    → IsSound (after db (Handlers.resolve_request id action by comment now db))
unfolding Handlers.resolve_request Writes.set_request_resolver
resolve-IsSound id action by comment now db h =
    let open_one = λ (r : ModRequest). r.id == id && not (is_some r.resolved_by) in
    let write = λ (r : ModRequest). record r {
      resolved_by = some by;
      resolved_at = some now;
      resolve_comment = comment;
    } in
    let db1 : Db = record db { requests = update_where open_one write db.requests } in
    elim (Bool-cases (any open_one db.requests && not (is_user by db))) [
      | inl refused ↦ rw refused h
      | inr allowed ↦ rw allowed (
          after-IsSound db1
            (Writes.transition_request_status id (allowed_from action) (target action) (some by)
              comment now db1)
            h
            (transition-IsSound id (allowed_from action) (target action) (some by) comment now db1
              (AllEdges-action action)
              (update-IsSound open_one write db (λ r. refl) (λ r. refl) h)))
    ]
  where
    after-IsSound :
        (db1 : Db) (r : Result (Bool × Db))
        → IsSound db
        → IsSound (after db1 r)
        → IsSound (after db r)
    after-IsSound db1 (ok x) h k = k
    after-IsSound db1 (err e) h k = h

-- One call of the program. The arguments are whatever the caller chooses.
pub data Step (db : Db) : Db → Type 0 where
  create_mod_request :
      (user forge_mod : ℕ) (name : String) (slug description : Option String) (fika : String)
      (reason : Option String) (now : String)
      → Step db (
          after db
            (Writes.create_mod_request user forge_mod name slug description fika reason now db))
  resolve_request :
      (id : ℕ) (action : Action) (by : ℕ) (comment : Option String) (now : String)
      → Step db (after db (Handlers.resolve_request id action by comment now db))
  reopen_request :
      (id by : ℕ) (now : String) → Step db (after db (Handlers.reopen_request id by now db))
  queue_install :
      (id by : ℕ) (now : String) → Step db (after db (Handlers.queue_install id by now db))
  installed_from_request :
      (id : ℕ) (now : String) → Step db (after db (Handlers.installed_from_request id now db))
  cancel_op :
      (id : ℕ) (and_reject : Bool) (by : ℕ) (flash now : String)
      → Step db (after db (Handlers.cancel_op_inner id and_reject by flash now db))
  installed_via_queue :
      (id : ℕ) (now : String) → Step db (after db (Handlers.installed_via_queue id now db))
  removed_via_queue :
      (forge_mod : ℕ) (now : String)
      → Step db (after db (Handlers.removed_via_queue forge_mod now db))
  mod_installed :
      (forge_mod : ℕ) (now : String) → Step db (after db (Handlers.mod_installed forge_mod now db))
  mod_removed :
      (forge_mod : ℕ) (now : String) → Step db (after db (Handlers.mod_removed forge_mod now db))
  update_mod_request_cache :
      (id : ℕ) (name : String) (slug description : Option String) (fika now : String)
      → Step db (Writes.update_mod_request_cache id name slug description fika now db).1
  upsert_vote :
      (id user : ℕ) (up : Bool) (comment : Option String) (now : String)
      → Step db (after_write db (Writes.upsert_vote id user up comment now db))
  delete_vote : (id user : ℕ) → Step db (Writes.delete_vote id user db).1

Step-IsSound : {db db' : Db} → Step db db' → IsSound db → IsSound db'
unfolding Writes.create_mod_request Writes.update_mod_request_cache Writes.upsert_vote
    Writes.delete_vote Handlers.reopen_request Handlers.queue_install
    Handlers.installed_from_request Handlers.cancel_op_inner Handlers.installed_via_queue
    Handlers.removed_via_queue Handlers.mod_installed Handlers.mod_removed Handlers.resolve_request
    Writes.set_request_resolver
Step-IsSound {db} (create_mod_request a b c d e f g now) h = elim (Bool-cases (is_user a db)) [
  | inl known ↦ rw known (insert-IsSound _ db refl refl h)
  | inr unknown ↦ rw unknown h
]
Step-IsSound {db} (resolve_request id action by comment now) h =
    resolve-IsSound id action by comment now db h
Step-IsSound {db} (reopen_request id by now) h = transition-IsSound id _ _ _ _ _ db (reopened, tt) h
Step-IsSound {db} (queue_install id by now) h = transition-IsSound id _ _ _ _ _ db (queued_up, tt) h
Step-IsSound {db} (installed_from_request id now) h =
    transition-IsSound id _ _ _ _ _ db (installed_at_once, tt) h
Step-IsSound {db} (cancel_op id true by flash now) h =
    transition-IsSound id _ _ _ _ _ db (cancelled_and_rejected, tt) h
Step-IsSound {db} (cancel_op id false by flash now) h =
    transition-IsSound id _ _ _ _ _ db (cancelled, tt) h
Step-IsSound {db} (installed_via_queue id now) h =
    transition-IsSound id _ _ _ _ _ db (installed_queued, tt) h
Step-IsSound {db} (removed_via_queue m now) h = bulk-IsSound m _ _ _ _ _ db (removed, tt) h
Step-IsSound {db} (mod_installed m now) h =
    bulk-IsSound m _ _ _ _ _ db (installed_at_once, (installed_queued, tt)) h
Step-IsSound {db} (mod_removed m now) h = bulk-IsSound m _ _ _ _ _ db (removed, tt) h
Step-IsSound {db} (update_mod_request_cache id a b c d now) h =
    update-IsSound _ _ db (λ r. refl) (λ r. refl) h
Step-IsSound {db} (upsert_vote id user up comment now) h =
    elim (Bool-cases (is_some (get_vote id user db))) [
      | inl old ↦ rw old (votes-IsSound _ db.next_vote_id db h)
      | inr new ↦
          elim (Bool-cases (is_user user db && any (λ (r : ModRequest). r.id == id) db.requests)) [
            | inl known ↦ rw (new, known) (votes-IsSound _ (db.next_vote_id + 1) db h)
            | inr unknown ↦ rw (new, unknown) h
          ]
    ]
Step-IsSound {db} (delete_vote id user) h = votes-IsSound _ db.next_vote_id db h

pub data Reach (db : Db) : Db → Type 0 where
  here : Reach db db
  next : {mid db' : Db} → Reach db mid → Step mid db' → Reach db db'

-- Before the first request the tables are empty, but for the users.
abbrev pub empty : List ℕ → Db
empty users = record {
  users = users;
  requests = [];
  log = [];
  votes = [];
  next_request_id = 1;
  next_log_id = 1;
  next_vote_id = 1;
}

Reach-IsSound : {users : List ℕ} {db : Db} → Reach (empty users) db → IsSound db
Reach-IsSound here = record {
  audited = record {
    keyed = record { unique = λ x y m. elim m [ ]; below = λ x m. elim m [ ] };
    distinct = tt;
    agrees = λ r m. elim m [ ];
    chained = tt;
    known = λ l m. elim m [ ];
  };
  legal = λ l m. elim m [ ];
}
Reach-IsSound (next r s) = Step-IsSound s (Reach-IsSound r)

-- After any sequence of calls from empty tables the status of every request is the one that the
-- audit log gives when it is replayed from `pending`.
pub status-replay :
    {users : List ℕ} {db : Db} (r : ModRequest)
    → Reach (empty users) db
    → Memᴰ r db.requests
    → r.status ≡ replay db.log r.id "pending"
status-replay r reached m = (Reach-IsSound reached).audited.agrees r m

-- After any sequence of calls from empty tables each row of the audit log starts from the status at
-- which the rows above it leave its request.
pub log-IsChained :
    {users : List ℕ} {db : Db} → Reach (empty users) db → IsChained first_status db.log
log-IsChained r = (Reach-IsSound r).audited.chained

-- After any sequence of calls from empty tables every row of the audit log is one of the ten edges
-- of the life cycle.
pub log-IsLegal :
    {users : List ℕ} {db : Db} (l : RequestStatusLog)
    → Reach (empty users) db
    → Memᴰ l db.log
    → IsLegal l
log-IsLegal l r m = (Reach-IsSound r).legal l m
