-- ===== src/Requests/Audit.antt =====
-- src/db/requests.rs: what the audit log says of the statuses.
use mathlib.Core.List.Memᴰ as M
use quma_custom.Prelude.{
  ℕ, ◌<◌, String, ◌≡◌, ◌≢◌, refl, sym, ap, ◌∙◌, subst, Bool, true, false, Option, List, [], ◌∷◌,
  ◌++◌, Memᴰ, ◌==◌, nat_eq, if◌then◌else◌, Bool-cases, inl, inr, beq_ne, nat_beq_iff,
}
use quma_custom.Sql.{update_where}
use quma_custom.Sql.Keys.{IsKeyed, update_where-IsKeyed}
use quma_custom.Sql.Distinct.{Distinct, update_where-Distinct}
use quma_custom.Requests.Tables.{Db, ModRequest, RequestStatusLog}
use quma_custom.Requests.Writes.{set_status}

-- The status that a request has after the changes of a log, from a first status.
unfoldable pub replay : List RequestStatusLog → ℕ → String → String
replay [] id s = s
replay (l ∷ ls) id s = replay ls id (if l.request_id == id then l.to_status else s)

-- Each row of the log starts where the rows above it left its request.
abbrev pub IsChained : (ℕ → String) → List RequestStatusLog → Type 0
IsChained f [] = Unit
IsChained f (l ∷ ls) =
    (l.from_status ≡ f l.request_id)
    × IsChained (λ i. if l.request_id == i then l.to_status else f i) ls

abbrev pub first_status : ℕ → String
first_status id = "pending"

pub record IsAudited (db : Db) : Type 0 where
  pub keyed : IsKeyed ModRequest.id db.next_request_id db.requests
  pub distinct : Distinct ModRequest.id db.requests
  pub agrees : (r : ModRequest) → Memᴰ r db.requests → r.status ≡ replay db.log r.id "pending"
  pub chained : IsChained first_status db.log
  pub known : (l : RequestStatusLog) → Memᴰ l db.log → l.request_id < db.next_request_id

pub replay-append :
    (ls : List RequestStatusLog) (l : RequestStatusLog) (id : ℕ) (s : String)
    → replay (ls ++ l ∷ []) id s ≡ (if l.request_id == id then l.to_status else replay ls id s)
unfolding replay
replay-append [] l id s = refl
replay-append (k ∷ ls) l id s =
    replay-append ls l id (if k.request_id == id then k.to_status else s)

IsChained-append :
    (f : ℕ → String) (ls : List RequestStatusLog) (l : RequestStatusLog)
    → IsChained f ls
    → l.from_status ≡ replay ls l.request_id (f l.request_id)
    → IsChained f (ls ++ l ∷ [])
unfolding replay
IsChained-append f [] l c e = (e, tt)
IsChained-append f (k ∷ ls) l c e =
    (c.0, IsChained-append (λ i. if k.request_id == i then k.to_status else f i) ls l c.1 e)

-- A log that does not speak of a request leaves its status.
pub replay_unknown :
    (ls : List RequestStatusLog) (id : ℕ) (s : String)
    → ((l : RequestStatusLog) → Memᴰ l ls → l.request_id ≢ id)
    → replay ls id s ≡ s
unfolding replay
replay_unknown [] id s h = refl
replay_unknown (l ∷ ls) id s h =
    rw (beq_ne l.request_id id (h l (Memᴰ.head refl)))
      (replay_unknown ls id s (λ k m. h k (Memᴰ.tail m)))

-- The UPDATE and the INSERT of a transition, from the status that a row has.
pub set_status-IsAudited :
    (r : ModRequest) (new_status : String) (changed_by : Option ℕ) (comment : Option String)
    (now : String) (db : Db)
    → IsAudited db
    → Memᴰ r db.requests
    → IsAudited (set_status r.id r.status new_status changed_by comment now db)
unfolding set_status
set_status-IsAudited r new_status changed_by comment now db h m = record {
  keyed = update_where-IsKeyed ModRequest.id own change (λ x. refl) h.keyed;
  distinct = update_where-Distinct ModRequest.id own change db.requests (λ x. refl) h.distinct;
  agrees = λ x mx. rw (replay-append db.log row x.id "pending") (agree x mx);
  chained = IsChained-append first_status db.log row h.chained (h.agrees r m);
  known = λ l ml. elim (M.append_cases db.log ml) [
    | inl old ↦ h.known l old
    | inr new ↦
        subst (λ i. i < db.next_request_id)
          (sym (ap RequestStatusLog.request_id (M.eq_of_singleton new))) (h.keyed.below r m)
  ];
}
  where
    own : ModRequest → Bool
    own x = x.id == r.id

    change : ModRequest → ModRequest
    change x = record x { status = new_status }

    row : RequestStatusLog
    row = record {
      id = db.next_log_id;
      request_id = r.id;
      from_status = r.status;
      to_status = new_status;
      changed_by = changed_by;
      changed_at = now;
      comment = comment;
    }

    agree :
        (x : ModRequest)
        → Memᴰ x (update_where own change db.requests)
        → x.status ≡ (if r.id == x.id then new_status else replay db.log x.id "pending")
    agree x mx =
        unfold update_where in
        let (a, ma, ea) = M.of_map (λ y. if own y then change y else y) db.requests mx in
        elim (Bool-cases (a.id == r.id)) [
          | inl hit ↦
              let same : change a ≡ x = (rw hit at ea) in
              let id : r.id ≡ x.id = sym ((nat_beq_iff _ _).0 hit) ∙ ap ModRequest.id same in
              rw ((nat_beq_iff r.id x.id).1 id) (sym (ap ModRequest.status same))
          | inr miss ↦
              let same : a ≡ x = (rw miss at ea) in
              let apart : (r.id == x.id) ≡ false = beq_ne r.id x.id (λ e.
                let k : (a.id == r.id) ≡ true =
                  (nat_beq_iff a.id r.id).1 (ap ModRequest.id same ∙ sym e) in
                cc) in
              rw apart (
                subst (λ (y : ModRequest). y.status ≡ replay db.log y.id "pending") same
                  (h.agrees a ma))
        ]
