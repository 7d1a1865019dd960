-- ===== src/Access/Roles.antt =====
-- Who passes a guard, and what the certificate of an agent says.
use it_asset_inventory.Access.Guards.{
  user_by_id, resolve_user_from_token, get_current_user, require_role, Guarded, unauthorized,
  forbidden, ok,
}
use it_asset_inventory.Access.Types.{User}
use it_asset_inventory.Base.{
  ℕ, String, ◌≡◌, refl, sym, ◌∙◌, subst, ◌↔◌, inl, inr, true, not, ◌&&◌, ◌||◌, Option, none, some,
  List, arith, if◌then◌else◌, Bool-cases, Option-cases, one_of,
}

-- The credentials are those of a user.
abbrev pub SignedIn : (String → Option ℕ) → Option String → List User → User → Type 0
SignedIn decode credentials users u =
    (token : String) × (i : ℕ) × (credentials ≡ some token)
    × (decode token ≡ some i)
    × (user_by_id i users ≡ some u)

-- What a guard for roles answers to a user.
abbrev verdict : List String → User → Guarded User
verdict roles u =
    if u.is_active
    then if u.must_change_password
      then forbidden
      else if one_of u.role roles
      then ok u
      else forbidden
    else unauthorized

require_role-verdict :
    (roles : List String) (decode : String → Option ℕ) (token : String) (users : List User) (i : ℕ)
    (v : User)
    → decode token ≡ some i
    → user_by_id i users ≡ some v
    → require_role roles decode (some token) users ≡ verdict roles v
unfolding require_role get_current_user resolve_user_from_token
require_role-verdict roles decode token users i v d n = elim (Bool-cases v.is_active) [
  | inr a ↦ rw (d, n, a, require_role, get_current_user, resolve_user_from_token) refl
  | inl a ↦ elim (Bool-cases v.must_change_password) [
    | inl m ↦ rw (d, n, a, m, require_role, get_current_user, resolve_user_from_token) refl
    | inr m ↦ rw (d, n, a, m, require_role, get_current_user, resolve_user_from_token) refl
  ]
]

verdict-ok :
    (roles : List String) (v u : User)
    → verdict roles v ≡ ok u
    → (v ≡ u) × (v.is_active && not v.must_change_password && one_of v.role roles ≡ true)
verdict-ok roles v u e = elim (Bool-cases v.is_active) [
  | inr a ↦ let e' = rw a at e in cc
  | inl a ↦ elim (Bool-cases v.must_change_password) [
    | inl m ↦ let e' = rw (a, m) at e in cc
    | inr m ↦ elim (Bool-cases (one_of v.role roles)) [
      | inl r ↦ let e' = rw (a, m, r) at e in (cc, rw (a, m, r) refl)
      | inr r ↦ let e' = rw (a, m, r) at e in cc
    ]
  ]
]

verdict-forbidden :
    (roles : List String) (v : User)
    → verdict roles v ≡ forbidden
    → v.is_active && (v.must_change_password || not (one_of v.role roles)) ≡ true
verdict-forbidden roles v e = elim (Bool-cases v.is_active) [
  | inr a ↦ let e' = rw a at e in cc
  | inl a ↦ elim (Bool-cases v.must_change_password) [
    | inl m ↦ rw (a, m) refl
    | inr m ↦ elim (Bool-cases (one_of v.role roles)) [
      | inl r ↦ let e' = rw (a, m, r) at e in cc
      | inr r ↦ rw (a, m, r) refl
    ]
  ]
]

SignedIn-one :
    (decode : String → Option ℕ) (token : String) (users : List User) (i : ℕ) (v u : User)
    → decode token ≡ some i
    → user_by_id i users ≡ some v
    → SignedIn decode (some token) users u
    → v ≡ u
SignedIn-one decode token users i v u d n (token', i', t, d', n') =
    let same : i ≡ i' = cc in let n'' : user_by_id i users ≡ some u = rw same n' in cc

-- Credentials that are nobody's.
undecoded :
    (roles : List String) (decode : String → Option ℕ) (token : String) (users : List User)
    → decode token ≡ none
    → (require_role roles decode (some token) users ≡ unauthorized)
      × ((u : User) → SignedIn decode (some token) users u → ⊥)
unfolding require_role get_current_user resolve_user_from_token
undecoded roles decode token users d = (
  rw (d, require_role, get_current_user, resolve_user_from_token) refl,
  λ u (t, i, e, d', n). let same : token ≡ t = cc in let d'' = rw (← same) at d' in cc,
)

unknown :
    (roles : List String) (decode : String → Option ℕ) (token : String) (users : List User) (i : ℕ)
    → decode token ≡ some i
    → user_by_id i users ≡ none
    → (require_role roles decode (some token) users ≡ unauthorized)
      × ((u : User) → SignedIn decode (some token) users u → ⊥)
unfolding require_role get_current_user resolve_user_from_token
unknown roles decode token users i d n = (
  rw (d, n, require_role, get_current_user, resolve_user_from_token) refl,
  λ u (t, i', e, d', n').
      let same : token ≡ t = cc in
      let d'' = rw (← same) at d' in let index : i' ≡ i = cc in let n'' = rw index at n' in cc,
)

verdict-passes :
    (roles : List String) (u v : User)
    → v ≡ u
    → u.is_active && not u.must_change_password && one_of u.role roles ≡ true
    → verdict roles v ≡ ok u
verdict-passes roles u v q p = rw q (ground arith)

verdict-refuses :
    (roles : List String) (u v : User)
    → v ≡ u
    → u.is_active && (u.must_change_password || not (one_of u.role roles)) ≡ true
    → verdict roles v ≡ forbidden
verdict-refuses roles u v q p = rw q (ground arith)

-- The guard for roles lets a user through exactly if the credentials are theirs, they are active, need not change
-- their password, and have one of the roles; and it answers 403 exactly if the credentials are an active user's
-- who must change the password or has none of the roles.
pub require_role_iff :
    (roles : List String) (decode : String → Option ℕ) (credentials : Option String)
    (users : List User) (u : User)
    → ((require_role roles decode credentials users ≡ ok u) ↔ (
        SignedIn decode credentials users u
        × (u.is_active && not u.must_change_password && one_of u.role roles ≡ true)))
      × ((require_role roles decode credentials users ≡ forbidden) ↔ (
          (v : User) × SignedIn decode credentials users v
          × (v.is_active && (v.must_change_password || not (one_of v.role roles)) ≡ true)))
unfolding require_role get_current_user resolve_user_from_token
require_role_iff roles decode none users u =
    ((λ h. cc, λ ((t, i, e, d, n), p). cc), (λ h. cc, λ (v, (t, i, e, d, n), p). cc))
require_role_iff roles decode (some token) users u = elim (Option-cases (decode token)) [
  | inl d ↦
      let (r, no_one) = undecoded roles decode token users d in
      (
        (λ h. let x = sym r ∙ h in cc, λ (w, p). absurd (no_one u w)),
        (λ h. let x = sym r ∙ h in cc, λ (v, w, p). absurd (no_one v w)),
      )
  | inr (i, d) ↦ elim (Option-cases (user_by_id i users)) [
    | inl n ↦
        let (r, no_one) = unknown roles decode token users i d n in
        (
          (λ h. let x = sym r ∙ h in cc, λ (w, p). absurd (no_one u w)),
          (λ h. let x = sym r ∙ h in cc, λ (v, w, p). absurd (no_one v w)),
        )
    | inr (v, n) ↦
        let answer = require_role-verdict roles decode token users i v d n in
        let signed : SignedIn decode (some token) users v = (token, i, refl, d, n) in
        (
          (
            λ h.
                let (q, p) = verdict-ok roles v u (sym answer ∙ h) in
                subst
                  (λ w.
                    SignedIn decode (some token) users w
                    × (w.is_active && not w.must_change_password && one_of w.role roles ≡ true))
                  q (signed, p),
            λ (w, p).
                let q = SignedIn-one decode token users i v u d n w in
                answer ∙ verdict-passes roles u v q p,
          ),
          (
            λ h. (v, signed, verdict-forbidden roles v (sym answer ∙ h)),
            λ (u', w, p).
                let q = SignedIn-one decode token users i v u' d n w in
                answer ∙ verdict-refuses roles u' v q p,
          ),
        )
  ]
]
