-- ===== src/Tasks/Prune.antt =====
-- src/web/tasks.rs: how many finished tasks the tracker keeps.
use quma_custom.Prelude.{
  ℕ, zero, suc, ◌-◌, ◌≤◌, ◌≡◌, refl, sym, ap, ◌∙◌, inl, inr, Bool, true, false, not, ◌&&◌, List, [],
  ◌∷◌, map, Memᴰ, arith, ltb, leb, ◌==◌, nat_eq, string_eq, Bool-cases, beq_self, length, take, any,
  filter, mem-any,
}
use quma_custom.Sql.{count_where, delete_where}
use quma_custom.Tasks.Tracker.{
  Tracker, TaskInfo, is_running, is_finished, finished_ids, insert, sort, remove, remove_all,
  prune_old,
}

-- The tasks that do not run.
abbrev pub finished_count : Tracker → ℕ
finished_count t = count_where is_finished t.tasks

count-cons :
    (q : ℕ → Bool) (x : ℕ) (xs ys : List ℕ)
    → count_where q xs ≡ count_where q ys
    → count_where q (x ∷ xs) ≡ count_where q (x ∷ ys)
unfolding count_where
count-cons q x xs ys e = elim (Bool-cases (q x)) [ inl h ↦ rw h (ap suc e) | inr h ↦ rw h e ]

count-swap :
    (q : ℕ → Bool) (x y : ℕ) (xs : List ℕ) → count_where q (y ∷ x ∷ xs) ≡ count_where q (x ∷ y ∷ xs)
unfolding count_where
count-swap q x y xs = elim (Bool-cases (q x)) [
  | inl h ↦ elim (Bool-cases (q y)) [ inl k ↦ rw (h, k) | inr k ↦ rw (h, k) ]
  | inr h ↦ elim (Bool-cases (q y)) [ inl k ↦ rw (h, k) | inr k ↦ rw (h, k) ]
]

count-insert :
    (q : ℕ → Bool) (x : ℕ) (xs : List ℕ) → count_where q (insert x xs) ≡ count_where q (x ∷ xs)
unfolding insert
count-insert q x [] = refl
count-insert q x (y ∷ ys) = elim (Bool-cases (leb x y)) [
  | inl h ↦ rw h
  | inr h ↦ rw h (count-cons q y (insert x ys) (x ∷ ys) (count-insert q x ys) ∙ count-swap q x y ys)
]

count-sort : (q : ℕ → Bool) (xs : List ℕ) → count_where q (sort xs) ≡ count_where q xs
unfolding sort
count-sort q [] = refl
count-sort q (x ∷ xs) = count-insert q x (sort xs) ∙ count-cons q x (sort xs) xs (count-sort q xs)

count-all : (xs : List ℕ) → count_where (λ x. true) xs ≡ length xs
unfolding count_where
count-all [] = refl
count-all (x ∷ xs) = ap suc (count-all xs)

length-sort : (xs : List ℕ) → length (sort xs) ≡ length xs
length-sort xs = sym (count-all (sort xs)) ∙ count-sort (λ x. true) xs ∙ count-all xs

count-ext :
    (p q : ℕ → Bool) (xs : List ℕ) → ((x : ℕ) → p x ≡ q x) → count_where p xs ≡ count_where q xs
unfolding count_where
count-ext p q [] same = refl
count-ext p q (x ∷ xs) same =
    let rest = count-ext p q xs same in
    rw (same x) (elim (Bool-cases (q x)) [ inl h ↦ rw h (ap suc rest) | inr h ↦ rw h rest ])

-- The ids left once each of `ids` is removed.
abbrev kept : List ℕ → ℕ → Bool
kept ids x = not (any (λ id. x == id) ids)

-- The finished tasks after one removal, in order.
finished-remove :
    (id : ℕ) (q : ℕ → Bool) (tasks : List (ℕ × TaskInfo))
    → count_where q (finished_ids (remove id tasks))
      ≡ count_where (λ x. not (x == id) && q x) (finished_ids tasks)
unfolding count_where remove delete_where
finished-remove id q [] = refl
finished-remove id q (e ∷ es) =
    let rest = finished-remove id q es in
    elim (Bool-cases (e.0 == id)) [
      | inl gone ↦ elim (Bool-cases (is_running e.1.status)) [
        | inl r ↦ rw (gone, r) rest
        | inr r ↦ rw (gone, r) (rw gone rest)
      ]
      | inr stays ↦ elim (Bool-cases (is_running e.1.status)) [
        | inl r ↦ rw (stays, r) rest
        | inr r ↦ elim (Bool-cases (q e.0)) [
          | inl h ↦ rw (stays, r, h, stays) (ap suc rest)
          | inr h ↦ rw (stays, r, h, stays) rest
        ]
      ]
    ]

one_more :
    (x id : ℕ) (ids : List ℕ) (b : Bool)
    → (not (x == id) && (kept ids x && b)) ≡ (kept (id ∷ ids) x && b)
one_more x id ids b = elim (Bool-cases (x == id)) [ inl h ↦ rw h | inr h ↦ rw h ]

finished-remove_all :
    (ids : List ℕ) (q : ℕ → Bool) (tasks : List (ℕ × TaskInfo))
    → count_where q (finished_ids (remove_all ids tasks))
      ≡ count_where (λ x. kept ids x && q x) (finished_ids tasks)
unfolding remove_all
finished-remove_all [] q tasks = refl
finished-remove_all (id ∷ ids) q tasks =
    finished-remove_all ids q (remove id tasks)
    ∙ finished-remove id (λ x. kept ids x && q x) tasks
    ∙ count-ext _ _ (finished_ids tasks) (λ x. one_more x id ids (q x))

not_taken : (ids : List ℕ) (x : ℕ) → Memᴰ x ids → (kept ids x && true) ≡ false
not_taken ids x m = rw (mem-any (λ id. x == id) m (beq_self x))

-- What is not among the first `k` of a list is at most the rest.
count-drop :
    (k : ℕ) (q : ℕ → Bool) (xs : List ℕ)
    → ((x : ℕ) → Memᴰ x (take k xs) → q x ≡ false)
    → count_where q xs ≤ length xs - k
unfolding count_where
count-drop zero q [] none_of = ground arith
count-drop zero q (x ∷ xs) none_of =
    let rest = count-drop zero q xs none_of in
    elim (Bool-cases (q x)) [
      | inl h ↦ rw h (omega (arith, rest))
      | inr h ↦ rw h (omega (arith, rest))
    ]
count-drop (suc k) q [] none_of = ground arith
count-drop (suc k) q (x ∷ xs) none_of =
    rw (none_of x (Memᴰ.head refl))
      (omega (arith, count-drop k q xs (λ y m. none_of y (Memᴰ.tail m))))

length-map : (tasks : List (ℕ × TaskInfo)) → length (map (λ e. e.0) tasks) ≡ length tasks
length-map [] = refl
length-map (e ∷ es) = ap suc (length-map es)

prune-bound : (t : Tracker) → length (finished_ids (prune_old t).tasks) ≤ 20
unfolding prune_old
prune-bound t = elim (Bool-cases (ltb 20 (length (finished_ids t.tasks)))) [
  | inl many ↦ rw many (
      let fin = finished_ids t.tasks in
      let ids = take (length fin - 20) (sort fin) in
      let left =
        sym (count-all (finished_ids (remove_all ids t.tasks)))
        ∙ finished-remove_all ids (λ x. true) t.tasks
        ∙ sym (count-sort (λ x. kept ids x && true) fin) in
      let bound =
        count-drop (length fin - 20) (λ x. kept ids x && true) (sort fin) (not_taken ids) in
      let same = length-sort fin in omega arith)
  | inr few ↦ rw few (ground arith)
]

-- However many tasks there are before, at most 20 of those left are finished.
pub prune_old-bound : (t : Tracker) → count_where is_finished (prune_old t).tasks ≤ 20
unfolding count_where
prune_old-bound t =
    let bound = prune-bound t in
    let same = length-map (filter is_finished (prune_old t).tasks) in omega arith
