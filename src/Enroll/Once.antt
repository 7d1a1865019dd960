-- ===== src/Enroll/Once.antt =====
-- What an enrolment does with its token and its machine.
use it_asset_inventory.Base.{
  ℕ, ◌≤◌, String, ◌≡◌, refl, sym, ◌∙◌, subst, inl, inr, Bool, true, false, Option, none, some, List,
  [], ◌∷◌, arith, eq_iff, ltb, ◌==◌, Bool-cases, Option-cases, str_eq, update,
}
use it_asset_inventory.Enroll.Attempt.{record_enroll_attempt}
use it_asset_inventory.Enroll.Perform.{
  joined, find_token, put_token, crashed, refused, refuse, enroll_machine, check_expiry,
  check_token, perform_enroll, finish_enroll, enroll, Enrolled,
}
use it_asset_inventory.Enroll.Spent.{
  is_spent, Admitted, Sound, enroll_machine-Sound, record_attempt-machines,
}
use it_asset_inventory.Enroll.Types.{
  Db, Call, Machine, TokenStatus, EnrollToken, Hashing, unused, used, revoked, expired,
}

-- What an enrolment leaves: a machine that joined came with a token of the table that was neither used nor
-- revoked nor past its end, and the token is now used by this machine; a refusal keeps the machines and their
-- tags; an exception keeps everything.
abbrev pub Lawful : Hashing → Call → Db → Enrolled × Db → Type 0
Lawful h c db (joined m is_new t', after) =
    (t : EnrollToken) × (find_token h c.token db.enroll_tokens ≡ some t)
    × (is_spent t.status ≡ false)
    × (c.now ≤ t.expires_at)
    × (t' ≡ record t { status = used; used_at = some c.now; used_by = some m.id })
    × (find_token h c.token after.enroll_tokens ≡ some t')
    × Admitted t db m
Lawful h c db (refused, after) =
    (after.machines ≡ db.machines) × (after.machine_tags ≡ db.machine_tags)
Lawful h c db (crashed, after) = after ≡ db

find_token-put :
    (h : Hashing) (token : String) (t s : EnrollToken) (ts : List EnrollToken)
    → find_token h token ts ≡ some t
    → s.id ≡ t.id
    → s.token_hash ≡ t.token_hash
    → find_token h token (update (λ r. r.id == s.id) (λ _. s) ts) ≡ some s
find_token-put h token t s [] e i g = cc
find_token-put h token t s (r ∷ ts) e i g =
    let x = h.hash_token token in
    elim (Bool-cases (str_eq r.token_hash x)) [
      | inl m ↦ ground (arith, m, eq_iff r.token_hash x, eq_iff s.token_hash x)
      | inr m ↦ ground (
        arith,
        m,
        eq_iff s.token_hash x,
        find_token-put h token t s ts (rw m at e) i g,
        find_token-hash ts (rw m at e),
      )
    ]
  where
    find_token-hash :
        (us : List EnrollToken) → find_token h token us ≡ some t → t.token_hash ≡ h.hash_token token
    find_token-hash [] f = cc
    find_token-hash (u ∷ us) f =
        ground (arith, eq_iff u.token_hash (h.hash_token token), find_token-hash us)

-- What `finish_enroll` makes of a sound outcome.
finish-Lawful :
    (h : Hashing) (sign : ℕ → Option String) (c : Call) (t : EnrollToken) (db : Db)
    → find_token h c.token db.enroll_tokens ≡ some t
    → is_spent t.status ≡ false
    → c.now ≤ t.expires_at
    → (result : Enrolled × Db) → Sound t db result
    → Lawful h c db (finish_enroll sign c db result)
finish-Lawful h sign c t db e s x (refused, after) sound = sound
finish-Lawful h sign c t db e s x (crashed, after) sound = refl
finish-Lawful h sign c t db e s x (joined m is_new r, after) (same, admitted, tokens) =
    elim (Option-cases (sign m.id)) [
      | inl n ↦ rw (n, finish_enroll) refl
      | inr (cert, n) ↦
          let t' = record t { status = used; used_at = some c.now; used_by = some m.id } in
          rw (n, finish_enroll, same, tokens)
            (t, e, s, x, refl, find_token-put h c.token t t' db.enroll_tokens e refl refl, admitted)
    ]

-- A refusal, as the whole enrolment has it.
finish-refused :
    (h : Hashing) (sign : ℕ → Option String) (c : Call) (status : String) (r : Option EnrollToken)
    (action : String) (before db : Db)
    → db.machines ≡ before.machines
    → db.machine_tags ≡ before.machine_tags
    → Lawful h c before (finish_enroll sign c before (refuse h c status r action before db))
finish-refused h sign c status r action before db m g =
    elim (Option-cases (record_enroll_attempt h c status r db)) [
      | inl e ↦ rw (e, refuse) refl
      | inr (after, e) ↦
          rw (e, refuse)
            (let (a, b, d) = record_attempt-machines h c status r db after e in (a ∙ m, b ∙ g))
    ]

check_expiry-Lawful :
    (h : Hashing) (sign : ℕ → Option String) (c : Call) (t : EnrollToken) (db : Db)
    → find_token h c.token db.enroll_tokens ≡ some t
    → is_spent t.status ≡ false
    → Lawful h c db (finish_enroll sign c db (check_expiry h c t db))
check_expiry-Lawful h sign c t db e s =
    let t' = record t { status = expired } in
    elim (Bool-cases (ltb t.expires_at c.now)) [
      | inl x ↦
          rw (x, check_expiry)
            (finish-refused h sign c "expired" (some t') "enroll.denied" db (put_token t' db) refl
              refl)
      | inr x ↦
          rw (x, check_expiry)
            (finish-Lawful h sign c t db e s (ground arith) (enroll_machine h c t db)
              (enroll_machine-Sound h c t db))
    ]

check_token-Lawful :
    (h : Hashing) (sign : ℕ → Option String) (c : Call) (t : EnrollToken) (db : Db)
    → find_token h c.token db.enroll_tokens ≡ some t
    → (status : TokenStatus) → t.status ≡ status
    → Lawful h c db (finish_enroll sign c db (check_token h c t db))
check_token-Lawful h sign c t db e revoked s =
    rw (s, check_token) (finish-refused h sign c "revoked" (some t) "enroll.denied" db db refl refl)
check_token-Lawful h sign c t db e used s =
    rw (s, check_token) (finish-refused h sign c "used" (some t) "enroll.denied" db db refl refl)
check_token-Lawful h sign c t db e unused s =
    rw (s, check_token) (check_expiry-Lawful h sign c t db e (ground arith))
check_token-Lawful h sign c t db e expired s =
    rw (s, check_token) (check_expiry-Lawful h sign c t db e (ground arith))

-- Every enrolment is lawful: a machine joins only with a token of the table that is neither used nor revoked nor
-- past its end, into the token's organisation, online only if it had a row that was not declined, and the token
-- is then used by it; a refusal keeps the machines and their tags, and an exception keeps everything.
pub enroll-Lawful :
    (h : Hashing) (sign : ℕ → Option String) (c : Call) (db : Db)
    → Lawful h c db (enroll h sign c db)
unfolding enroll perform_enroll
enroll-Lawful h sign c db = elim (Option-cases (find_token h c.token db.enroll_tokens)) [
  | inl e ↦
      rw (e, enroll, perform_enroll)
        (finish-refused h sign c "unknown" none "enroll.invalid_token" db db refl refl)
  | inr (t, e) ↦ rw (e, enroll, perform_enroll) (check_token-Lawful h sign c t db e t.status refl)
]

abbrev pub is_joined : Enrolled → Bool
is_joined (joined m is_new t) = true
is_joined refused = false
is_joined crashed = false

stays_used :
    (h : Hashing) (c : Call) (db : Db) (m : Machine) (is_new : Bool) (t : EnrollToken)
    (result : Enrolled × Db)
    → Lawful h c db result
    → result.0 ≡ joined m is_new t
    → (find_token h c.token result.1.enroll_tokens ≡ some t) × (t.status ≡ used)
stays_used h c db m is_new t (refused, after) lawful e = (cc, cc)
stays_used h c db m is_new t (crashed, after) lawful e = (cc, cc)
stays_used h c db m is_new t (joined n b r, after) (first, e1, e2, e3, written, found, e4) e =
    let same : r ≡ t = cc in
    (
      subst (λ x. find_token h c.token after.enroll_tokens ≡ some x) same found,
      subst (λ x. x.status ≡ used) (sym written ∙ same) refl,
    )

used-refused :
    (h : Hashing) (sign : ℕ → Option String) (c : Call) (t : EnrollToken) (db : Db)
    → find_token h c.token db.enroll_tokens ≡ some t
    → t.status ≡ used
    → let after = enroll h sign c db in
      (is_joined after.0 ≡ false)
      × (after.1.machines ≡ db.machines)
      × (after.1.machine_tags ≡ db.machine_tags)
unfolding enroll perform_enroll
used-refused h sign c t db e s =
    elim (Option-cases (record_enroll_attempt h c "used" (some t) db)) [
      | inl n ↦ rw (e, s, n, enroll, perform_enroll, check_token, refuse) (refl, refl, refl)
      | inr (after, n) ↦
          let (a, b, d) = record_attempt-machines h c "used" (some t) db after n in
          rw (e, s, n, enroll, perform_enroll, check_token, refuse) (refl, a, b)
    ]

-- A token that a machine has joined with admits no other: a later enrolment with the same token, whatever
-- machine sends it and whenever, does not join and changes neither the machines nor their tags.
pub enroll_once :
    (h : Hashing) (sign : ℕ → Option String) (c later : Call) (db : Db) (m : Machine)
    (is_new : Bool) (t : EnrollToken)
    → (enroll h sign c db).0 ≡ joined m is_new t
    → later.token ≡ c.token
    → let first = (enroll h sign c db).1 in
      let second = enroll h sign later first in
      (is_joined second.0 ≡ false)
      × (second.1.machines ≡ first.machines)
      × (second.1.machine_tags ≡ first.machine_tags)
enroll_once h sign c later db m is_new t joins again =
    let (found, spent) =
      stays_used h c db m is_new t (enroll h sign c db) (enroll-Lawful h sign c db) joins in
    used-refused h sign later t (enroll h sign c db).1 (rw again found) spent
