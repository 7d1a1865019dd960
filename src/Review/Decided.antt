-- ===== src/Review/Decided.antt =====
-- A refused machine is decided on once.
use it_asset_inventory.Base.{
  ℕ, String, ◌≡◌, refl, sym, ap, ◌∙◌, subst, ◌⊎◌, inl, inr, Bool, true, false, Option, some, List,
  [], ◌∷◌, arith, ◌==◌, Bool-cases, Option-cases, update,
}
use it_asset_inventory.Enroll.Attempt.{is_open}
use it_asset_inventory.Enroll.Types.{Db, EnrollAttempt, Hashing}
use it_asset_inventory.Review.Attempts.{
  attempt_by_id, is_in_scope, get_attempt_in_scope, approve_attempt, rejected_attempt,
  reject_attempt,
}
use it_asset_inventory.Review.Types.{
  not_found, not_allowed, bad_request, issued, done, Admin, Answer, NewToken,
}

-- The two decisions.
pub data Decision : Type 0 where
  approving : NewToken → Decision
  rejecting : Decision

abbrev pub decide : Hashing → Decision → Admin → ℕ → Option String → ℕ → Db → Answer × Db
decide h (approving new) admin i why now db = approve_attempt h new admin i why now db
decide h rejecting admin i why now db = reject_attempt admin i why now db

-- A success, not an error.
abbrev pub is_success : Answer → Bool
is_success not_found = false
is_success not_allowed = false
is_success bad_request = false
is_success done = true
is_success (issued text) = true

-- The attempt is closed.
abbrev pub IsClosed : ℕ → Db → Type 0
IsClosed i db =
    (a : EnrollAttempt) × (attempt_by_id i db.attempts ≡ some a) × (is_open a.status ≡ false)

scope_lem :
    (admin : Admin) (i : ℕ) (db : Db)
    → ((r : Answer) × (get_attempt_in_scope admin i db ≡ inl r) × (is_success r ≡ false))
      ⊎ ((a : EnrollAttempt) × (get_attempt_in_scope admin i db ≡ inr a)
          × (attempt_by_id i db.attempts ≡ some a))
unfolding get_attempt_in_scope
scope_lem admin i db = elim (Option-cases (attempt_by_id i db.attempts)) [
  | inl n ↦ inl (not_found, rw (n, get_attempt_in_scope) refl, refl)
  | inr (a, n) ↦ elim (Bool-cases (is_in_scope admin a.org_id)) [
    | inr s ↦ inl (not_allowed, rw (n, s, get_attempt_in_scope) refl, refl)
    | inl s ↦ inr (a, rw (n, s, get_attempt_in_scope) refl, n)
  ]
]

find?-put :
    (i : ℕ) (a b : EnrollAttempt) (rows : List EnrollAttempt)
    → attempt_by_id i rows ≡ some a
    → b.id ≡ a.id
    → attempt_by_id i (update (λ r. r.id == b.id) (λ _. b) rows) ≡ some b
find?-put i a b [] n q = cc
find?-put i a b (x ∷ rows) n q = elim (Bool-cases (x.id == i)) [
  | inl h ↦
      let same : x ≡ a = let n' = rw h at n in cc in
      let own : x.id == b.id ≡ true =
        let q' : x.id ≡ b.id = ap (λ r. r.id) same ∙ sym q in ground arith in
      let here : b.id == i ≡ true = ground arith in rw (own, here) refl
  | inr h ↦
      let rest = find?-put i a b rows (rw h at n) q in
      elim (Bool-cases (x.id == b.id)) [
        | inl k ↦ let away : b.id == i ≡ false = ground arith in rw (k, away) rest
        | inr k ↦ rw (k, h) rest
      ]
]

-- A decision that succeeds closes the attempt.
decide-IsClosed :
    (h : Hashing) (d : Decision) (admin : Admin) (i : ℕ) (why : Option String) (now : ℕ) (db : Db)
    → is_success (decide h d admin i why now db).0 ≡ true
    → IsClosed i (decide h d admin i why now db).1
unfolding approve_attempt reject_attempt
decide-IsClosed h (approving new) admin i why now db won = elim (scope_lem admin i db) [
  | inl (r, g, e) ↦ let won' = rw (g, approve_attempt) at won in cc
  | inr (a, g, n) ↦ elim (Bool-cases (is_open a.status)) [
    | inr o ↦ let won' = rw (g, o, approve_attempt) at won in cc
    | inl o ↦ elim (Option-cases a.org_id) [
      | inl k ↦ let won' = simp (g, o, k, approve_attempt) at won in cc
      | inr (org, k) ↦ simp (g, o, k, approve_attempt) (_, find?-put i a _ db.attempts n refl, refl)
    ]
  ]
]
decide-IsClosed h rejecting admin i why now db won = elim (scope_lem admin i db) [
  | inl (r, g, e) ↦ let won' = rw (g, reject_attempt) at won in cc
  | inr (a, g, n) ↦ elim (Bool-cases (is_open a.status)) [
    | inr o ↦ let won' = rw (g, o, reject_attempt) at won in cc
    | inl o ↦
        simp (g, o, reject_attempt)
          (rejected_attempt admin now why a, find?-put i a _ db.attempts n refl, refl)
  ]
]

-- On a closed attempt no decision is taken.
closed-decide :
    (h : Hashing) (d : Decision) (admin : Admin) (i : ℕ) (why : Option String) (now : ℕ) (db : Db)
    → IsClosed i db
    → (is_success (decide h d admin i why now db).0 ≡ false)
      × ((decide h d admin i why now db).1 ≡ db)
unfolding approve_attempt reject_attempt
closed-decide h (approving new) admin i why now db (b, m, c) = elim (scope_lem admin i db) [
  | inl (r, g, e) ↦ rw (g, approve_attempt) (e, refl)
  | inr (a, g, n) ↦
      let same : b ≡ a = cc in
      let o : is_open a.status ≡ false = subst (λ x. is_open x.status ≡ false) same c in
      rw (g, o, approve_attempt) (refl, refl)
]
closed-decide h rejecting admin i why now db (b, m, c) = elim (scope_lem admin i db) [
  | inl (r, g, e) ↦ rw (g, reject_attempt) (e, refl)
  | inr (a, g, n) ↦
      let same : b ≡ a = cc in
      let o : is_open a.status ≡ false = subst (λ x. is_open x.status ≡ false) same c in
      rw (g, o, reject_attempt) (refl, refl)
]

-- Once a decision on a refused machine has succeeded, any later one on it, an approval or a rejection by whomever,
-- fails and changes nothing: no second token is issued.
pub decided_once :
    (h : Hashing) (first second : Decision) (one_admin other_admin : Admin) (i : ℕ)
    (why because : Option String) (now later : ℕ) (db : Db)
    → is_success (decide h first one_admin i why now db).0 ≡ true
    → let after = (decide h first one_admin i why now db).1 in
      (is_success (decide h second other_admin i because later after).0 ≡ false)
      × ((decide h second other_admin i because later after).1 ≡ after)
decided_once h first second one_admin other_admin i why because now later db won =
    closed-decide h second other_admin i because later (decide h first one_admin i why now db).1
      (decide-IsClosed h first one_admin i why now db won)
