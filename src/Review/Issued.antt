-- ===== src/Review/Issued.antt =====
-- A token that an administrator issues admits a machine.
use it_asset_inventory.Base.{
  ℕ, ◌+◌, ◌*◌, ◌≤◌, String, ◌≡◌, refl, sym, ap, ◌∙◌, inl, inr, Bool, true, false, Option, none,
  some, List, [], ◌∷◌, ◌++◌, arith, eq_iff, ltb, if◌then◌else◌, Bool-cases, Option-cases, Sum-cases,
  str_eq, find?,
}
use it_asset_inventory.Enroll.Attempt.{is_open}
use it_asset_inventory.Enroll.Perform.{
  find_token, put_token, refuse, enroll_machine, check_expiry, check_token, perform_enroll,
}
use it_asset_inventory.Enroll.Types.{
  Db, Call, TokenStatus, EnrollToken, EnrollAttempt, Hashing, unused, used, revoked, expired,
}
use it_asset_inventory.Review.Attempts.{
  attempt_by_id, is_in_scope, get_attempt_in_scope, replacement, approve_attempt,
}
use it_asset_inventory.Review.Types.{issued, hour, Admin, NewToken}

find?-last :
    {A : Type 0} (p : A → Bool) (xs : List A) (x : A)
    → find? p xs ≡ none
    → p x ≡ true
    → find? p (xs ++ x ∷ []) ≡ some x
find?-last p [] x n h = rw h refl
find?-last p (y ∷ xs) x n h = elim (Bool-cases (p y)) [
  | inl e ↦ let n' = rw e at n in cc
  | inr e ↦ rw e (find?-last p xs x (rw e at n) h)
]

check_token-unused :
    (h : Hashing) (c : Call) (t : EnrollToken) (db : Db)
    → t.status ≡ unused
    → ltb t.expires_at c.now ≡ false
    → check_token h c t db ≡ enroll_machine h c t db
check_token-unused h c t db u fresh = by_status t.status u
  where
    by_expiry :
        (b : Bool)
        → b ≡ false
        → (if b
            then refuse h c "expired"
                (some (record t { status = expired }))
                "enroll.denied"
                db
                (put_token (record t { status = expired }) db)
            else enroll_machine h c t db)
          ≡ enroll_machine h c t db
    by_expiry true e = cc
    by_expiry false e = refl

    by_status :
        (s : TokenStatus)
        → s ≡ unused
        → elim s [
          | revoked ↦ refuse h c "revoked" (some t) "enroll.denied" db db
          | used ↦ refuse h c "used" (some t) "enroll.denied" db db
          | unused ↦ check_expiry h c t db
          | expired ↦ check_expiry h c t db
        ]
          ≡ enroll_machine h c t db
    by_status unused e = by_expiry (ltb t.expires_at c.now) fresh
    by_status used e = cc
    by_status revoked e = cc
    by_status expired e = by_expiry (ltb t.expires_at c.now) fresh

-- A token that is the last row, unused and not expired, passes the checks.
pub perform_enroll-last :
    (h : Hashing) (c : Call) (ts : List EnrollToken) (t : EnrollToken) (db : Db)
    → db.enroll_tokens ≡ ts ++ t ∷ []
    → find_token h c.token ts ≡ none
    → t.token_hash ≡ h.hash_token c.token
    → t.status ≡ unused
    → c.now ≤ t.expires_at
    → perform_enroll h c db ≡ enroll_machine h c t db
unfolding perform_enroll
perform_enroll-last h c ts t db q n k u l =
    let own : str_eq t.token_hash (h.hash_token c.token) ≡ true =
      (eq_iff t.token_hash (h.hash_token c.token)).1 k in
    let found : find_token h c.token db.enroll_tokens ≡ some t =
      ap (find_token h c.token) q
      ∙ find?-last (λ r. str_eq r.token_hash (h.hash_token c.token)) ts t n own in
    let fresh : ltb t.expires_at c.now ≡ false = ground arith in
    simp (found, perform_enroll) (check_token-unused h c t db u fresh)

-- What the scope refuses is an error.
scope_error :
    (admin : Admin) (i : ℕ) (db : Db) (text : String)
    → get_attempt_in_scope admin i db ≡ inl (issued text)
    → ⊥
unfolding get_attempt_in_scope
scope_error admin i db text e = elim (Option-cases (attempt_by_id i db.attempts)) [
  | inl n ↦ let e' = rw (n, get_attempt_in_scope) at e in cc
  | inr (a, n) ↦ elim (Bool-cases (is_in_scope admin a.org_id)) [
    | inl s ↦ let e' = rw (n, s, get_attempt_in_scope) at e in cc
    | inr s ↦ let e' = rw (n, s, get_attempt_in_scope) at e in cc
  ]
]

-- What an approval that issues a token has found.
approved_lem :
    (h : Hashing) (new : NewToken) (admin : Admin) (i : ℕ) (why : Option String) (now : ℕ)
    (db after : Db) (text : String)
    → approve_attempt h new admin i why now db ≡ (issued text, after)
    → (a : EnrollAttempt) × (org : ℕ) × (get_attempt_in_scope admin i db ≡ inr a)
      × (is_open a.status ≡ true)
      × (a.org_id ≡ some org)
      × (after.enroll_tokens ≡ db.enroll_tokens ++ replacement h new org now ∷ [])
unfolding approve_attempt
approved_lem h new admin i why now db after text e =
    elim (Sum-cases (get_attempt_in_scope admin i db)) [
      | inl (r, g) ↦
          let e' = rw (g, approve_attempt) at e in
          let same : r ≡ issued text = cc in absurd (scope_error admin i db text (rw same at g))
      | inr (a, g) ↦ elim (Bool-cases (is_open a.status)) [
        | inr o ↦ let e' = rw (g, o, approve_attempt) at e in cc
        | inl o ↦ elim (Option-cases a.org_id) [
          | inl n ↦ let e' = simp (g, o, n, approve_attempt) at e in cc
          | inr (org, n) ↦
              let e' = simp (g, o, n, approve_attempt) at e in
              (a, org, g, o, n, sym (ap (λ r. r.1.enroll_tokens) e'))
        ]
      ]
    ]

-- An approval that issues a token was of a refused machine that was open, of a known organisation that the
-- administrator sees, and an enrolment with the token within 72 hours passes all checks of tokens: it is
-- treated as one with a good token of this organisation, if no row had the token before.
pub approved-enrolls :
    (h : Hashing) (new : NewToken) (admin : Admin) (i : ℕ) (why : Option String) (now : ℕ)
    (db after : Db) (c : Call)
    → approve_attempt h new admin i why now db ≡ (issued c.token, after)
    → new.text ≡ c.token
    → find_token h c.token db.enroll_tokens ≡ none
    → c.now ≤ now + 72 * hour
    → (a : EnrollAttempt) × (org : ℕ) × (get_attempt_in_scope admin i db ≡ inr a)
      × (is_open a.status ≡ true)
      × (a.org_id ≡ some org)
      × (perform_enroll h c after ≡ enroll_machine h c (replacement h new org now) after)
approved-enrolls h new admin i why now db after c e t n l =
    let (a, org, g, o, k, rows) = approved_lem h new admin i why now db after c.token e in
    (
      a,
      org,
      g,
      o,
      k,
      perform_enroll-last h c db.enroll_tokens (replacement h new org now) after rows n
          (ap h.hash_token t) refl l,
    )
