-- ===== src/Enroll/Spent.antt =====
-- Who an enrolment admits, and that its token is spent.
use it_asset_inventory.Base.{
  ℕ, String, ◌≡◌, refl, sym, subst, ◌⊎◌, inl, inr, Bool, true, false, not, ◌&&◌, Option, none, some,
  List, [], ◌∷◌, arith, ◌==◌, Bool-cases, Option-cases, str_eq, filter, find?, any,
}
use it_asset_inventory.Enroll.Attempt.{
  found_in, one_or_none, is_machine, is_recent, match_machine, save_attempt, record_enroll_attempt,
}
use it_asset_inventory.Enroll.Fingerprint.{compute_weighted_id, is_same_machine}
use it_asset_inventory.Enroll.Perform.{
  joined, crashed, refused, create_machine, back, seen_again, has_drift, update_machine, find_alike,
  enroll_machine, Enrolled,
}
use it_asset_inventory.Enroll.Types.{
  Db, Call, Machine, MachineStatus, TokenStatus, EnrollToken, Hashing, Found, online, offline, lost,
  decommissioned, awaiting, unused, used, revoked, expired, absent, many, one,
}

abbrev pub is_declined : MachineStatus → Bool
is_declined decommissioned = true
is_declined online = false
is_declined offline = false
is_declined lost = false
is_declined awaiting = false

abbrev pub is_spent : TokenStatus → Bool
is_spent revoked = true
is_spent used = true
is_spent unused = false
is_spent expired = false

-- The machine has a row that was not declined.
abbrev pub is_in_good_standing : Machine → Machine → Bool
is_in_good_standing m r = r.id == m.id && not (is_declined r.status)

-- The machine is of the token's organisation, and it is online only if it was in good standing: it waits for
-- approval otherwise.
abbrev pub Admitted : EnrollToken → Db → Machine → Type 0
Admitted t db m =
    (m.org_id ≡ t.org_id)
    × ((m.status ≡ awaiting)
        ⊎ ((m.status ≡ online) × (any (is_in_good_standing m) db.machines ≡ true)))

-- The outcome of an enrolment with a token that is good.
abbrev pub Sound : EnrollToken → Db → Enrolled × Db → Type 0
Sound t db (joined m is_new t', after) =
    (t' ≡ t) × Admitted t db m × (after.enroll_tokens ≡ db.enroll_tokens)
Sound t db (refused, after) =
    (after.machines ≡ db.machines) × (after.machine_tags ≡ db.machine_tags)
Sound t db (crashed, after) = after ≡ db

pub Found-cases : {A : Type 0} (f : Found A) → (f ≡ absent) ⊎ ((f ≡ many) ⊎ ((a : A) × (f ≡ one a)))
Found-cases absent = inl refl
Found-cases many = inr (inl refl)
Found-cases (one a) = inr (inr (a, refl))

-- A row that a query finds is in the table and passes the test.
pub find?-any :
    {A : Type 0} (p q : A → Bool) (rows : List A) (a : A)
    → find? p rows ≡ some a
    → (p a ≡ true) × (q a ≡ true → any q rows ≡ true)
find?-any p q [] a e = (cc, λ h. cc)
find?-any p q (x ∷ rows) a e = elim (Bool-cases (p x)) [
  | inl h ↦
      let same : x ≡ a = ground (arith, h) in
      (
        subst (λ y. p y ≡ true) same h,
        λ g. let here : q x ≡ true = subst (λ y. q y ≡ true) (sym same) g in rw here refl,
      )
  | inr h ↦
      let (passes, inside) = find?-any p q rows a (rw h at e) in
      (passes, λ g. ground (arith, inside g))
]

pub filter-head :
    {A : Type 0} (p : A → Bool) (rows rest : List A) (a : A)
    → filter p rows ≡ a ∷ rest
    → find? p rows ≡ some a
filter-head p [] rest a e = cc
filter-head p (x ∷ rows) rest a e = elim (Bool-cases (p x)) [
  | inl h ↦ ground (arith, h)
  | inr h ↦ rw h (filter-head p rows rest a (rw h at e))
]

pub found_in-one : {A : Type 0} (rows : List A) (a : A) → found_in rows ≡ one a → rows ≡ a ∷ []
found_in-one [] a e = cc
found_in-one (x ∷ []) a e = cc
found_in-one (x ∷ y ∷ rows) a e = cc

update_machine-Sound :
    (h : Hashing) (c : Call) (uuid : String) (t : EnrollToken) (old : Machine) (db : Db)
    → old.org_id ≡ t.org_id
    → (is_in_good_standing old old ≡ true → any (is_in_good_standing old) db.machines ≡ true)
    → Sound t db (update_machine h c uuid t old db)
update_machine-Sound h c uuid t old db org standing =
    elim (Bool-cases (str_eq old.machine_uuid uuid)) [
      | inl e ↦ rw (e, update_machine) (refl, admitted, refl)
      | inr e ↦ elim (Found-cases (one_or_none (has_drift old.id) db.drifts)) [
        | inl f ↦ rw (e, f, update_machine) (refl, admitted, refl)
        | inr (inl f) ↦ rw (e, f, update_machine) refl
        | inr (inr (d, f)) ↦ rw (e, f, update_machine) (refl, admitted, refl)
      ]
    ]
  where
    by_status :
        (s : MachineStatus)
        → old.status ≡ s
        → (back s ≡ awaiting)
          ⊎ ((back s ≡ online) × (any (is_in_good_standing old) db.machines ≡ true))
    by_status decommissioned e = inl refl
    by_status awaiting e = inr (refl, standing (rw e (ground arith)))
    by_status online e = inr (refl, standing (rw e (ground arith)))
    by_status offline e = inr (refl, standing (rw e (ground arith)))
    by_status lost e = inr (refl, standing (rw e (ground arith)))

    admitted : Admitted t db (seen_again c old)
    admitted = (org, by_status old.status refl)

create_machine-Sound :
    (c : Call) (uuid : String) (t : EnrollToken) (db : Db) → Sound t db (create_machine c uuid t db)
create_machine-Sound c uuid t db = (refl, (refl, inl refl), refl)

pub enroll_machine-Sound :
    (h : Hashing) (c : Call) (t : EnrollToken) (db : Db) → Sound t db (enroll_machine h c t db)
enroll_machine-Sound h c t db =
    let uuid = compute_weighted_id h c.fingerprint in
    let is_its = is_machine t.org_id uuid in
    elim (Found-cases (one_or_none is_its db.machines)) [
      | inr (inl f) ↦ rw (f, enroll_machine) refl
      | inr (inr (m, f)) ↦
          let (passes, inside) =
            find?-any is_its (is_in_good_standing m) db.machines m
              (filter-head is_its db.machines [] m (found_in-one _ m f)) in
          rw (f, enroll_machine) (update_machine-Sound h c uuid t m db (ground arith) inside)
      | inl f ↦ elim (Option-cases (find_alike h c t.org_id db)) [
        | inl n ↦ rw (f, n, enroll_machine) (create_machine-Sound c uuid t db)
        | inr (m, n) ↦
            let (passes, inside) =
              find?-any (λ r. r.org_id == t.org_id && is_same_machine h c.fingerprint r.fingerprint)
                (is_in_good_standing m) db.machines m n in
            rw (f, n, enroll_machine) (update_machine-Sound h c uuid t m db (ground arith) inside)
      ]
    ]

save_attempt-machines :
    (c : Call) (uuid status : String) (t : Option EnrollToken) (matched : Option ℕ) (db after : Db)
    → save_attempt c uuid status t matched db ≡ some after
    → (after.machines ≡ db.machines)
      × (after.machine_tags ≡ db.machine_tags)
      × (after.drifts ≡ db.drifts)
save_attempt-machines c uuid status t matched db after e =
    elim (Found-cases (one_or_none (is_recent uuid status c.now) db.attempts)) [
      | inl f ↦ let g = rw (f, save_attempt) at e in (cc, cc, cc)
      | inr (inl f) ↦ let g = rw (f, save_attempt) at e in (cc, cc, cc)
      | inr (inr (a, f)) ↦ let g = rw (f, save_attempt) at e in (cc, cc, cc)
    ]

-- An attempt that is put on record keeps the machines and their tags.
pub record_attempt-machines :
    (h : Hashing) (c : Call) (status : String) (r : Option EnrollToken) (db after : Db)
    → record_enroll_attempt h c status r db ≡ some after
    → (after.machines ≡ db.machines)
      × (after.machine_tags ≡ db.machine_tags)
      × (after.drifts ≡ db.drifts)
unfolding record_enroll_attempt
record_attempt-machines h c status r db after e =
    let uuid = compute_weighted_id h c.fingerprint in
    elim (Found-cases (match_machine uuid r db)) [
      | inl f ↦
          save_attempt-machines c uuid status r none db after (rw (f, record_enroll_attempt) at e)
      | inr (inl f) ↦ let q = rw (f, record_enroll_attempt) at e in (cc, cc, cc)
      | inr (inr (x, f)) ↦
          save_attempt-machines c uuid status r (some x.id) db after
            (rw (f, record_enroll_attempt) at e)
    ]
