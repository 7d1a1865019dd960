-- ===== src/Auth/Login.antt =====
-- What a login asks for, and what a second factor costs.
use it_asset_inventory.Auth.SignIn.{
  try_step, verify_totp_counter, is_new_counter, take_backup, by_backup, by_counter, second_factor,
  knows_password, Second, accepted, refused, broken,
}
use it_asset_inventory.Auth.Types.{
  bad_request, unauthorized, User, Crypto, Response, issued, requires_2fa, done, crashed,
}
use it_asset_inventory.Base.{
  ℕ, zero, suc, ◌+◌, ◌-◌, ◌/◌, ◌<◌, String, ◌≡◌, refl, ap, ◌∙◌, subst, ◌⊎◌, inl, inr, Bool, true,
  false, not, ◌&&◌, ◌||◌, Option, none, some, List, [], ◌∷◌, ◌++◌, arith, eq_iff, Bool-cases,
  Option-cases, str_eq, truthy?, text_of, strip, is_ascii,
}

abbrev pub is_issued : Response → Bool
is_issued (issued token must) = true
is_issued requires_2fa = false
is_issued done = false
is_issued unauthorized = false
is_issued bad_request = false
is_issued crashed = false

abbrev pub is_accepted : Second → Bool
is_accepted (accepted u) = true
is_accepted refused = false
is_accepted broken = false

-- The three demands on the user that the address names.
abbrev pub may_enter : Crypto → ℕ → String → Option String → Option User → Bool
may_enter c now password code none = false
may_enter c now password code (some u) =
    knows_password c password u
    && u.is_active
    && (not u.is_2fa_enabled
        || (truthy? code && is_accepted (second_factor c now (text_of code) u)))

-- The time-step is new: there was none on record, or 0, which the code takes for none, or it is greater.
abbrev pub IsLater : Option ℕ → ℕ → Type 0
IsLater last k = ((last ≡ none) ⊎ (last ≡ some 0)) ⊎ ((l : ℕ) × (last ≡ some l) × (l < k))

-- The code is that of the user's secret at a time of the time-step, now or one interval before or after.
abbrev pub Matches : Crypto → ℕ → String → String → ℕ → Type 0
Matches c now secret code k =
    (t : ℕ) × (((t ≡ now - c.interval) ⊎ (t ≡ now)) ⊎ (t ≡ now + c.interval))
    × (c.code_at secret t ≡ strip code)
    × (k ≡ t / c.interval)

-- One backup code that the code verifies is taken out.
abbrev pub TakesOne : Crypto → String → List String → List String → Type 0
TakesOne c code hs rest =
    (before : List String) × (h : String) × (after : List String) × (hs ≡ before ++ h ∷ after)
    × (rest ≡ before ++ after)
    × (c.verify_password code h ≡ true)

-- What an accepted code costs: a new time-step on record, or one backup code.
abbrev pub Spends : Crypto → ℕ → String → User → User → Type 0
Spends c now code u v =
    ((k : ℕ) × (secret : String) × (v.totp_last_counter ≡ some k)
      × IsLater u.totp_last_counter k
      × (c.decrypt (text_of u.totp_secret_encrypted) ≡ some secret)
      × Matches c now secret code k
      × (v.backup_codes ≡ u.backup_codes))
    ⊎ ((v.totp_last_counter ≡ u.totp_last_counter) × TakesOne c code u.backup_codes v.backup_codes)

take_backup-TakesOne :
    (c : Crypto) (code : String) (hs rest : List String)
    → take_backup c code hs ≡ some rest
    → TakesOne c code hs rest
unfolding take_backup
take_backup-TakesOne c code [] rest e = cc
take_backup-TakesOne c code (h ∷ hs) rest e = elim (Bool-cases (c.verify_password code h)) [
  | inl y ↦
      let e' = rw (y, take_backup) at e in let same : rest ≡ hs = cc in ([], h, hs, refl, same, y)
  | inr n ↦ elim (Option-cases (take_backup c code hs)) [
    | inl m ↦ let e' = rw (n, m, take_backup) at e in cc
    | inr (tail, m) ↦
        let e' = rw (n, m, take_backup) at e in
        let same : rest ≡ h ∷ tail = cc in
        let (before, k, after, p, q, y) = take_backup-TakesOne c code hs tail m in
        (h ∷ before, k, after, ap (λ xs. h ∷ xs) p, same ∙ ap (λ xs. h ∷ xs) q, y)
  ]
]

is_new_counter-IsLater :
    (last : Option ℕ) (k : ℕ) → is_new_counter (some k) last ≡ true → IsLater last k
is_new_counter-IsLater none k h = inl (inl refl)
is_new_counter-IsLater (some zero) k h = inl (inr refl)
is_new_counter-IsLater (some (suc l)) k h = inr (suc l, refl, ground arith)

-- One offset after the other.
try_step-cases :
    (c : Crypto) (secret code : String) (t k : ℕ) (other : Option ℕ)
    → try_step c secret code t other ≡ some k
    → ((c.code_at secret t ≡ strip code) × (k ≡ t / c.interval)) ⊎ (other ≡ some k)
try_step-cases c secret code t k other e =
    elim (Bool-cases (str_eq (c.code_at secret t) (strip code))) [
      | inl y ↦
          let e' = rw y at e in let same : k ≡ t / c.interval = cc in inl ((eq_iff _ _).0 y, same)
      | inr n ↦ inr (rw n at e)
    ]

verify_totp_counter-Matches :
    (c : Crypto) (now k : ℕ) (secret code : String)
    → verify_totp_counter c now secret code ≡ some (some k)
    → Matches c now secret code k
unfolding verify_totp_counter
verify_totp_counter-Matches c now k secret code e = elim (Bool-cases (is_ascii (strip code))) [
  | inr n ↦ let e' = rw (n, verify_totp_counter) at e in cc
  | inl y ↦
      let e' = rw (y, verify_totp_counter) at e in
      elim (try_step-cases c secret code (now - c.interval) k _ (cc)) [
        | inl (m, q) ↦ (now - c.interval, inl (inl refl), m, q)
        | inr f ↦ elim (try_step-cases c secret code now k _ f) [
          | inl (m, q) ↦ (now, inl (inr refl), m, q)
          | inr g ↦ elim (try_step-cases c secret code (now + c.interval) k none g) [
            | inl (m, q) ↦ (now + c.interval, inr refl, m, q)
            | inr none_left ↦ cc
          ]
        ]
      ]
]

accepted-Spends :
    (c : Crypto) (now : ℕ) (code : String) (u w v : User)
    → accepted w ≡ accepted v
    → Spends c now code u w
    → Spends c now code u v
accepted-Spends c now code u w v e spent =
    let same : w ≡ v = cc in subst (λ x. Spends c now code u x) same spent

by_backup-Spends :
    (c : Crypto) (now : ℕ) (code : String) (u v : User)
    → by_backup c code u ≡ accepted v
    → Spends c now code u v
by_backup-Spends c now code u v h = elim (Option-cases (take_backup c code u.backup_codes)) [
  | inl n ↦ let g = rw (n, by_backup) at h in cc
  | inr (rest, q) ↦
      accepted-Spends c now code u (record u { backup_codes = rest }) v (rw (q, by_backup) at h)
        (inr (refl, take_backup-TakesOne c code u.backup_codes rest q))
]

by_counter-Spends :
    (c : Crypto) (now : ℕ) (secret code : String) (u v : User) (counter : Option ℕ)
    → c.decrypt (text_of u.totp_secret_encrypted) ≡ some secret
    → verify_totp_counter c now secret code ≡ some counter
    → by_counter c code u counter ≡ accepted v
    → Spends c now code u v
by_counter-Spends c now secret code u v none d r h = by_backup-Spends c now code u v h
by_counter-Spends c now secret code u v (some k) d r h =
    elim (Bool-cases (is_new_counter (some k) u.totp_last_counter)) [
      | inl n ↦
          accepted-Spends c now code u (record u { totp_last_counter = some k }) v
            (rw (n, by_counter) at h)
            (inl (
              k,
              secret,
              refl,
              is_new_counter-IsLater u.totp_last_counter k n,
              d,
              verify_totp_counter-Matches c now k secret code r,
              refl,
            ))
      | inr n ↦ by_backup-Spends c now code u v (rw (n, by_counter) at h)
    ]

-- A second factor that is accepted is spent: either the time-step of the code is put on record, which is that of
-- the user's secret now or one interval before or after, and is greater than the one on record before, if there was
-- one and it was not 0, and the backup codes stay; or the time-step stays, and one backup code that the code verifies
-- is taken out. A time-step of 0 on record counts as none, so that its code may be accepted again.
pub second_factor-Spends :
    (c : Crypto) (now : ℕ) (code : String) (u v : User)
    → second_factor c now code u ≡ accepted v
    → Spends c now code u v
unfolding second_factor
second_factor-Spends c now code u v h = elim (Bool-cases (truthy? u.totp_secret_encrypted)) [
  | inl e ↦ elim (Option-cases (c.decrypt (text_of u.totp_secret_encrypted))) [
    | inl n ↦ let g = rw (e, n, second_factor) at h in cc
    | inr (secret, q) ↦ elim (Option-cases (verify_totp_counter c now secret code)) [
      | inl r ↦ let g = rw (e, q, r, second_factor) at h in cc
      | inr (counter, r) ↦
          by_counter-Spends c now secret code u v counter q r (rw (e, q, r, second_factor) at h)
    ]
  ]
  | inr e ↦ by_backup-Spends c now code u v (rw (e, second_factor) at h)
]
