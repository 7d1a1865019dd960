-- ===== src/Review/Claimed.antt =====
-- What a claim of a link leads to, and the end of a link.
use it_asset_inventory.Access.Orgs.{has}
use it_asset_inventory.Base.{
  ℕ, ◌+◌, ◌*◌, ◌≤◌, String, ◌≡◌, refl, sym, ap, inl, inr, Bool, true, false, not, ◌||◌, Option,
  none, some, List, [], ◌∷◌, ◌++◌, arith, ◌==◌, Bool-cases, Option-cases, str_eq, filter, all,
  update, all-find?,
}
use it_asset_inventory.Enroll.Perform.{find_token, enroll_machine, perform_enroll}
use it_asset_inventory.Enroll.Types.{Call, EnrollToken, Hashing}
use it_asset_inventory.Review.Issued.{perform_enroll-last}
use it_asset_inventory.Review.Links.{
  link_by_id, link_by_code, toggle_link, delete_link, claim_token, claim, SelfServiceLink, Portal,
}
use it_asset_inventory.Review.Types.{not_found, issued, done, hour, Admin, Answer, NewToken}

-- What a claim that issues a token has found.
claimed_lem :
    (h : Hashing) (new : NewToken) (code : String) (mail : Option String) (now : ℕ)
    (p after : Portal) (text : String)
    → claim h new code mail now p ≡ (issued text, after)
    → (l : SelfServiceLink) × (link_by_code code p.links ≡ some l)
      × (l.enabled ≡ true)
      × (after.db.enroll_tokens ≡ p.db.enroll_tokens ++ claim_token h new mail now l ∷ [])
unfolding claim
claimed_lem h new code mail now p after text e = elim (Option-cases (link_by_code code p.links)) [
  | inl n ↦ let e' = rw (n, claim) at e in cc
  | inr (l, n) ↦ elim (Bool-cases l.enabled) [
    | inr o ↦ let e' = rw (n, o, claim) at e in cc
    | inl o ↦ let e' = rw (n, o, claim) at e in (l, n, o, sym (ap (λ r. r.1.db.enroll_tokens) e'))
  ]
]

-- A claim that issues a token was of an enabled link, and adds one token: it is of the link's organisation, has the
-- address of the claim, the classification of a machine for official use and no purposes, and expires after 72 hours.
-- An enrolment with it until then passes all checks of tokens and is treated as one with a good token of these
-- fields, if no row had the token before.
pub claimed-enrolls :
    (h : Hashing) (new : NewToken) (code : String) (mail : Option String) (now : ℕ)
    (p after : Portal) (c : Call)
    → claim h new code mail now p ≡ (issued c.token, after)
    → new.text ≡ c.token
    → find_token h c.token p.db.enroll_tokens ≡ none
    → c.now ≤ now + 72 * hour
    → (l : SelfServiceLink) × (t : EnrollToken) × (link_by_code code p.links ≡ some l)
      × (l.enabled ≡ true)
      × (after.db.enroll_tokens ≡ p.db.enroll_tokens ++ t ∷ [])
      × (t.org_id ≡ l.org_id)
      × (t.email ≡ mail)
      × (t.classification ≡ some "official")
      × (t.purpose_tags ≡ [])
      × (t.expires_at ≡ now + 72 * hour)
      × (perform_enroll h c after.db ≡ enroll_machine h c t after.db)
claimed-enrolls h new code mail now p after c e q n u =
    let (l, found, on, rows) = claimed_lem h new code mail now p after c.token e in
    (
      l,
      claim_token h new mail now l,
      found,
      on,
      rows,
      refl,
      refl,
      refl,
      refl,
      refl,
      perform_enroll-last h c p.db.enroll_tokens (claim_token h new mail now l) after.db rows n
          (ap h.hash_token q) refl u,
    )

-- The two ways to close a link.
pub data Closing : Type 0 where
  locking deleting : Closing

abbrev pub close : Closing → Admin → ℕ → Portal → Answer × Portal
close locking admin i p = toggle_link admin i false p
close deleting admin i p = delete_link admin i p

-- No row with the code is enabled.
abbrev pub is_dead : String → SelfServiceLink → Bool
is_dead code l = not (str_eq l.code code) || not l.enabled

dead-claim :
    (h : Hashing) (new : NewToken) (code : String) (mail : Option String) (now : ℕ) (p : Portal)
    → all (is_dead code) p.links ≡ true
    → claim h new code mail now p ≡ (not_found, p)
unfolding claim
dead-claim h new code mail now p d = elim (Option-cases (link_by_code code p.links)) [
  | inl n ↦ rw (n, claim) refl
  | inr (l, n) ↦
      let found = all-find? (is_dead code) (λ x. str_eq x.code code) p.links l d n in
      let off : l.enabled ≡ false = ground arith in rw (n, off, claim) refl
]

dead_update :
    (l : SelfServiceLink) (links : List SelfServiceLink)
    → all (λ r. not (str_eq r.code l.code) || r.id == l.id) links ≡ true
    → all (is_dead l.code) (update (λ x. x.id == l.id) (λ _. record l { enabled = false }) links)
      ≡ true
dead_update l [] a = refl
dead_update l (x ∷ links) a = elim (Bool-cases (x.id == l.id)) [
  | inl h ↦ rw h (ground (arith, dead_update l links))
  | inr h ↦ rw h (ground (arith, dead_update l links))
]

dead_filter :
    (l : SelfServiceLink) (links : List SelfServiceLink)
    → all (λ r. not (str_eq r.code l.code) || r.id == l.id) links ≡ true
    → all (is_dead l.code) (filter (λ x. not (x.id == l.id)) links) ≡ true
dead_filter l [] a = refl
dead_filter l (x ∷ links) a = elim (Bool-cases (x.id == l.id)) [
  | inl h ↦ rw h (dead_filter l links (ground arith))
  | inr h ↦ rw h (ground (arith, dead_filter l links))
]

-- If an administrator who sees the organisation of a link locks or deletes it, this succeeds, and from then on a
-- claim of its code is answered with 404 and changes nothing, provided no other link has the code.
pub close-claim :
    (way : Closing) (admin : Admin) (l : SelfServiceLink) (h : Hashing) (new : NewToken)
    (mail : Option String) (now : ℕ) (p : Portal)
    → link_by_id l.id p.links ≡ some l
    → has l.org_id admin.visible ≡ true
    → all (λ r. not (str_eq r.code l.code) || r.id == l.id) p.links ≡ true
    → let closed = close way admin l.id p in
      (closed.0 ≡ done) × (claim h new l.code mail now closed.1 ≡ (not_found, closed.1))
unfolding toggle_link delete_link
close-claim locking admin l h new mail now p n v only =
    rw (n, v, toggle_link) (refl, dead-claim h new l.code mail now _ (dead_update l p.links only))
close-claim deleting admin l h new mail now p n v only =
    rw (n, v, delete_link) (refl, dead-claim h new l.code mail now _ (dead_filter l p.links only))
