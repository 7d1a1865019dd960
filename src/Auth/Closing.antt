-- ===== src/Auth/Closing.antt =====
-- What ends a session: a change of the password, and a logout (server/app/api/routes/auth.py).
use it_asset_inventory.Auth.Account.{change_password}
use it_asset_inventory.Auth.Session.{
  is_live, revoke, revoke_user_refresh_tokens, find_token, find_user, refresh, logout,
}
use it_asset_inventory.Auth.Types.{unauthorized, User, RefreshToken, Db, Crypto, Fresh, done}
use it_asset_inventory.Base.{
  ℕ, String, ◌≡◌, refl, ap, ◌⊎◌, inl, inr, true, false, not, ◌&&◌, none, some, List, [], ◌∷◌, arith,
  eq_iff, ◌==◌, Bool-cases, Option-cases, str_eq, truthy, filter, find?, update, All,
}

-- The tokens of other users.
abbrev pub of_others : String → List RefreshToken → List RefreshToken
of_others user = filter (λ t. not (str_eq t.user_id user))

revoke_user-All :
    (now : ℕ) (user : String) (tokens : List RefreshToken)
    → let after = update (λ t. str_eq t.user_id user && is_live t) (revoke now) tokens in
      All (λ t. t.user_id ≡ user → is_live t ≡ false) after
      × (of_others user after ≡ of_others user tokens)
revoke_user-All now user [] = (tt, refl)
revoke_user-All now user (t ∷ tokens) =
    let (dead, same) = revoke_user-All now user tokens in
    elim (Bool-cases (str_eq t.user_id user)) [
      | inl e ↦ elim (Bool-cases (is_live t)) [
        | inl l ↦ rw (e, l, e) ((λ f. refl, dead), same)
        | inr l ↦ rw (e, l, e) ((λ f. l, dead), same)
      ]
      | inr e ↦
          rw (e, e) ((λ f. ground (arith, eq_iff t.user_id user), dead), ap (λ ts. t ∷ ts) same)
    ]

find_user-put :
    (id : String) (v w : User) (users : List User)
    → find_user id users ≡ some v
    → w.id ≡ id
    → find_user id (update (λ x. str_eq x.id w.id) (λ _. w) users) ≡ some w
find_user-put id v w [] e i = cc
find_user-put id v w (x ∷ users) e i =
    ground (arith, eq_iff x.id id, eq_iff w.id id, eq_iff x.id w.id, find_user-put id v w users)

-- A change of the password by a user of the table, who gives the old one and a new one that differs, stores the hash of
-- the new one with the user and takes the demand for a change away; it leaves no token of the user live and changes
-- no token of another user.
pub change_password_closes :
    (c : Crypto) (now : ℕ) (u : User) (h old new : String) (db : Db)
    → u.password_hash ≡ some h
    → c.verify_password old h ≡ true
    → str_eq old new ≡ false
    → (v : User) → find_user u.id db.users ≡ some v
    → let after = change_password c now u old new db in
      (after.0 ≡ done)
      × All (λ t. t.user_id ≡ u.id → is_live t ≡ false) after.1.tokens
      × (of_others u.id after.1.tokens ≡ of_others u.id db.tokens)
      × (w : User) × (find_user u.id after.1.users ≡ some w)
      × (w.password_hash ≡ some (c.hash_password new))
      × (w.must_change_password ≡ false)
unfolding change_password revoke_user_refresh_tokens
change_password_closes c now u h old new db p k d v e =
    let (dead, same) = revoke_user-All now u.id db.tokens in
    rw (p, k, d) (refl, dead, same, _, find_user-put u.id v _ db.users e refl, refl, refl)

refresh_dead :
    (c : Crypto) (now : ℕ) (f : Fresh) (token : String) (db : Db)
    → ((t : RefreshToken) → find_token (c.digest token) db.tokens ≡ some t → is_live t ≡ false)
    → (refresh c now f token db).0 ≡ unauthorized
unfolding refresh
refresh_dead c now f token db dead = elim (Option-cases (c.decode token)) [
  | inl d ↦ rw (d, refresh) refl
  | inr (user, d) ↦ elim (Option-cases (find_token (c.digest token) db.tokens)) [
    | inl e ↦ rw (d, e, refresh) refl
    | inr (t, e) ↦ let l = dead t e in rw (d, e, refresh) (ground arith)
  ]
]

-- The first row of a hash, once a dead row of this hash is written back.
put_dead :
    (h : String) (s r : RefreshToken) (ts : List RefreshToken)
    → is_live s ≡ false
    → s.token_hash ≡ h
    → ((t : RefreshToken) → find_token h ts ≡ some t → (is_live t ≡ false) ⊎ (t.id ≡ s.id))
    → find_token h (update (λ t. t.id == s.id) (λ _. s) ts) ≡ some r
    → is_live r ≡ false
put_dead h s r [] l e q f = cc
put_dead h s r (t ∷ ts) l e q f = elim (Bool-cases (str_eq t.token_hash h)) [
  | inl m ↦ let first = q t (rw m refl) in ground (arith, eq_iff s.token_hash h)
  | inr m ↦ ground (arith, eq_iff s.token_hash h, put_dead h s r ts l e (λ u g. q u (rw m g)))
]

-- The live row of a hash that is found, next to the first row of the hash.
first_live :
    (h : String) (ts : List RefreshToken)
    → let live = find? (λ t. str_eq t.token_hash h && is_live t) ts in
      (live ≡ none → (t : RefreshToken) → find_token h ts ≡ some t → is_live t ≡ false)
      × ((s : RefreshToken)
          → live ≡ some s
          → (s.token_hash ≡ h)
            × ((t : RefreshToken) → find_token h ts ≡ some t → (is_live t ≡ false) ⊎ (t.id ≡ s.id)))
first_live h [] = (λ n t e. cc, λ s n. cc)
first_live h (t ∷ ts) =
    let (below, found) = first_live h ts in
    elim (Bool-cases (str_eq t.token_hash h)) [
      | inl m ↦ elim (Bool-cases (is_live t)) [
        | inl l ↦
            rw (m, l)
              (λ n. cc, λ s n. (ground (arith, eq_iff t.token_hash h), λ r e. inr (ground arith)))
        | inr l ↦
            rw (m, l) (λ n r e. ground arith, λ s n. ((found s n).0, λ r e. inl (ground arith)))
      ]
      | inr m ↦ rw m (below, found)
    ]

-- After a logout with a refresh token, no refresh with this token succeeds.
logout_ends :
    (c : Crypto) (now later : ℕ) (f : Fresh) (u : User) (token : String) (db : Db)
    → truthy token ≡ true
    → let after = (logout c now u (some token) db).1 in
      (refresh c later f token after).0 ≡ unauthorized
unfolding logout
logout_ends c now later f u token db t =
    let (none_live, one_live) = first_live (c.digest token) db.tokens in
    elim (Option-cases (find? (λ t. str_eq t.token_hash (c.digest token) && is_live t) db.tokens)) [
      | inl n ↦ rw (t, n, logout) (refresh_dead c later f token _ (none_live n))
      | inr (s, n) ↦
          let (hash, first) = one_live s n in
          rw (t, n, logout)
            (refresh_dead c later f token _
              (λ r. put_dead (c.digest token) (revoke now s) r db.tokens refl hash first))
    ]
