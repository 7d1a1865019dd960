-- ===== src/Auth/Rotation.antt =====
-- Refresh tokens: rotation, replay and revocation.
use it_asset_inventory.Auth.Session.{
  log, is_live, revoke, issue_tokens, revoke_refresh_family, find_token, find_user, rotate,
  refresh_row, refresh,
}
use it_asset_inventory.Auth.Types.{unauthorized, User, RefreshToken, Db, Crypto, Fresh, issued}
use it_asset_inventory.Base.{
  ℕ, ◌+◌, ◌≤◌, ◌<◌, String, ◌≡◌, refl, inl, inr, Bool, true, false, ◌&&◌, none, some, List, [], ◌∷◌,
  ◌++◌, arith, eq_iff, leb, ◌==◌, Bool-cases, Option-cases, count, update, All,
}

-- How many live tokens a family has.
abbrev pub live_in : ℕ → List RefreshToken → ℕ
live_in g = count (λ t. t.family_id == g && is_live t)

-- No token of the family is live.
abbrev pub IsDead : ℕ → List RefreshToken → Type 0
IsDead g = All (λ t. t.family_id ≡ g → is_live t ≡ false)

revoke_family-IsDead :
    (now g : ℕ) (tokens : List RefreshToken)
    → IsDead g (update (λ t. t.family_id == g && is_live t) (revoke now) tokens)
revoke_family-IsDead now g [] = tt
revoke_family-IsDead now g (t ∷ tokens) = elim (Bool-cases (t.family_id == g && is_live t)) [
  | inl e ↦ rw e (λ f. refl, revoke_family-IsDead now g tokens)
  | inr e ↦ rw e (λ f. ground arith, revoke_family-IsDead now g tokens)
]

-- A row written back is found again under its hash.
find_token-put :
    (h : String) (t s : RefreshToken) (tokens : List RefreshToken)
    → find_token h tokens ≡ some t
    → s.id ≡ t.id
    → s.token_hash ≡ t.token_hash
    → find_token h (update (λ r. r.id == s.id) (λ _. s) tokens) ≡ some s
find_token-put h t s [] f i e = cc
find_token-put h t s (r ∷ tokens) f i e = ground (
  arith,
  eq_iff r.token_hash h,
  eq_iff s.token_hash h,
  eq_iff t.token_hash h,
  find_token-put h t s tokens,
  find_token-hash h tokens t,
)
  where
    find_token-hash :
        (x : String) (ts : List RefreshToken) (u : RefreshToken)
        → find_token x ts ≡ some u
        → u.token_hash ≡ x
    find_token-hash x [] u g = cc
    find_token-hash x (v ∷ ts) u g = ground (arith, eq_iff v.token_hash x, find_token-hash x ts u)

find_token-append :
    (h : String) (t : RefreshToken) (xs ys : List RefreshToken)
    → find_token h xs ≡ some t
    → find_token h (xs ++ ys) ≡ some t
find_token-append h t [] ys f = cc
find_token-append h t (x ∷ xs) ys f = ground (arith, find_token-append h t xs ys)

-- The rotated row as the table has it after the rotation.
rotated :
    (c : Crypto) (now : ℕ) (f : Fresh) (u : User) (h : String) (t : RefreshToken) (db : Db)
    → find_token h db.tokens ≡ some t
    → (s : RefreshToken) × (find_token h (rotate c now f u t db).1.tokens ≡ some s)
      × (s.family_id ≡ t.family_id)
      × (s.expires_at ≡ t.expires_at)
      × (is_live s ≡ false)
unfolding issue_tokens
rotated c now f u h t db e =
    let put1 = find_token-put h t (revoke now t) db.tokens e refl refl in
    let new : RefreshToken = record {
      id = f.id;
      user_id = u.id;
      token_hash = c.digest f.token;
      family_id = t.family_id;
      expires_at = now + c.refresh_seconds;
      revoked_at = none;
      replaced_by = none;
    } in
    let first = update (λ r. r.id == t.id) (λ _. revoke now t) db.tokens in
    let put2 = find_token-append h (revoke now t) first (new ∷ []) put1 in
    elim (Option-cases (find_token (c.digest f.token) (first ++ new ∷ []))) [
      | inl n ↦ (revoke now t, rw (n, rotate) put2, refl, refl, refl)
      | inr (n, q) ↦ (
        record (revoke now t) { replaced_by = some n.id },
        rw (q, rotate)
            (find_token-put h (revoke now t) (record (revoke now t) { replaced_by = some n.id })
              (first ++ new ∷ []) put2 refl refl),
        refl,
        refl,
        refl,
      )
    ]

-- A row of the family that was rotated once is refused, and its family is dead.
replayed :
    (c : Crypto) (now : ℕ) (f : Fresh) (token user : String) (t : RefreshToken) (db : Db)
    → c.decode token ≡ some user
    → find_token (c.digest token) db.tokens ≡ some t
    → leb t.expires_at now ≡ false
    → is_live t ≡ false
    → ((refresh c now f token db).0 ≡ unauthorized)
      × IsDead t.family_id (refresh c now f token db).1.tokens
replayed c now f token user t db d e x l =
    let dead = revoke_family-IsDead now t.family_id db.tokens in rw refused (refl, dead)
  where
    refused : refresh c now f token db ≡ (
      unauthorized,
      log "auth.refresh_reuse_detected" (some t.user_id) (record db {
        tokens = update (λ r. r.family_id == t.family_id && is_live r) (revoke now) db.tokens;
      }),
    )
    refused = unfold refresh revoke_refresh_family in ground arith

module _ (c : Crypto) (now later : ℕ) (f f' : Fresh) (token user : String) (u : User)
    (t : RefreshToken) (db : Db) (decoded : c.decode token ≡ some user)
    (stored : find_token (c.digest token) db.tokens ≡ some t)
    (known : find_user user db.users ≡ some u) (active : u.is_active ≡ true)
    (live : is_live t ≡ true) (fresh : now < t.expires_at) where
  refreshes : refresh c now f token db ≡ rotate c now f u t db
  unfolding refresh
  refreshes = ground arith

  -- A refresh with a live, unexpired token of an active user succeeds, and the same token presented again
  -- before it expires is refused, and then no token of its family is live, the new one included.
  pub refresh_replay :
      later < t.expires_at
      → let after = refresh c later f' token (refresh c now f token db).1 in
        ((refresh c now f token db).0 ≡ issued f.token u.must_change_password)
        × (after.0 ≡ unauthorized)
        × IsDead t.family_id after.1.tokens
  refresh_replay h =
      let (s, found, family, expiry, dead) = rotated c now f u (c.digest token) t db stored in
      let again =
        replayed c later f' token user s (rotate c now f u t db).1 decoded found
          (rw expiry (ground arith)) dead in
      rw refreshes (unfold issue_tokens in ground arith, again.0, rw family at again.1)

live_in-put_le :
    (g : ℕ) (s : RefreshToken) (tokens : List RefreshToken)
    → is_live s ≡ false
    → live_in g (update (λ r. r.id == s.id) (λ _. s) tokens) ≤ live_in g tokens
live_in-put_le g s [] l = omega arith
live_in-put_le g s (r ∷ tokens) l = ground (arith, live_in-put_le g s tokens l)

-- Writing back a revoked row that was live takes one live token from its family.
live_in-put_lt :
    (h : String) (t s : RefreshToken) (tokens : List RefreshToken)
    → find_token h tokens ≡ some t
    → is_live t ≡ true
    → is_live s ≡ false
    → s.id ≡ t.id
    → live_in t.family_id (update (λ r. r.id == s.id) (λ _. s) tokens) + 1
      ≤ live_in t.family_id tokens
live_in-put_lt h t s [] e l d i = cc
live_in-put_lt h t s (r ∷ tokens) e l d i =
    ground (arith, live_in-put_lt h t s tokens, live_in-put_le t.family_id s tokens d)

live_in-append :
    (g : ℕ) (xs ys : List RefreshToken) → live_in g (xs ++ ys) ≡ live_in g xs + live_in g ys
live_in-append g [] ys = omega arith
live_in-append g (x ∷ xs) ys = ground (arith, live_in-append g xs ys)

live_in-rotate :
    (c : Crypto) (now g : ℕ) (f : Fresh) (u : User) (h : String) (t : RefreshToken) (db : Db)
    → find_token h db.tokens ≡ some t
    → is_live t ≡ true
    → live_in g (rotate c now f u t db).1.tokens ≤ live_in g db.tokens
unfolding issue_tokens
live_in-rotate c now g f u h t db e l =
    let new : RefreshToken = record {
      id = f.id;
      user_id = u.id;
      token_hash = c.digest f.token;
      family_id = t.family_id;
      expires_at = now + c.refresh_seconds;
      revoked_at = none;
      replaced_by = none;
    } in
    let first = update (λ r. r.id == t.id) (λ _. revoke now t) db.tokens in
    let split = live_in-append g first (new ∷ []) in
    let less = live_in-put_le g (revoke now t) db.tokens refl in
    let fewer = live_in-put_lt h t (revoke now t) db.tokens e l refl refl in
    elim (Option-cases (find_token (c.digest f.token) (first ++ new ∷ []))) [
      | inl n ↦ rw (n, rotate) (ground (arith, split, less, fewer))
      | inr (n, q) ↦
          rw (q, rotate)
            (ground (
              arith,
              split,
              less,
              fewer,
              live_in-put_le g (record (revoke now t) { replaced_by = some n.id })
                  (first ++ new ∷ []) refl,
            ))
    ]

live_in-revoke :
    (now g : ℕ) (p : RefreshToken → Bool) (tokens : List RefreshToken)
    → live_in g (update p (revoke now) tokens) ≤ live_in g tokens
live_in-revoke now g p [] = omega arith
live_in-revoke now g p (t ∷ tokens) = ground (arith, live_in-revoke now g p tokens)

-- No refresh, whether it succeeds or is refused, raises the number of live tokens of any family.
live_in-refresh :
    (c : Crypto) (now g : ℕ) (f : Fresh) (token : String) (db : Db)
    → live_in g (refresh c now f token db).1.tokens ≤ live_in g db.tokens
unfolding refresh
live_in-refresh c now g f token db = elim (Option-cases (c.decode token)) [
  | inl d ↦ rw (d, refresh) (omega arith)
  | inr (user, d) ↦ elim (Option-cases (find_token (c.digest token) db.tokens)) [
    | inl e ↦ rw (d, e, refresh) (omega arith)
    | inr (t, e) ↦ rw (d, e, refresh) (row user t e)
  ]
]
  where
    closed :
        (t : RefreshToken)
        → live_in g (update (λ r. r.family_id == t.family_id && is_live r) (revoke now) db.tokens)
          ≤ live_in g db.tokens
    closed t = live_in-revoke now g (λ r. r.family_id == t.family_id && is_live r) db.tokens

    row :
        (user : String) (t : RefreshToken)
        → find_token (c.digest token) db.tokens ≡ some t
        → live_in g (refresh_row c now f user t db).1.tokens ≤ live_in g db.tokens
    row user t e = elim (Option-cases (find_user user db.users)) [
      | inl n ↦ unfold revoke_refresh_family in ground (arith, closed t)
      | inr (u, q) ↦ elim (Bool-cases (is_live t)) [
        | inl l ↦
            unfold revoke_refresh_family in
            ground (arith, closed t, live_in-rotate c now g f u (c.digest token) t db e l)
        | inr l ↦ unfold revoke_refresh_family in ground (arith, closed t)
      ]
    ]
