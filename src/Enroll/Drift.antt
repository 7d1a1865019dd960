-- ===== src/Enroll/Drift.antt =====
-- The likeness of fingerprints, and the reason that is given for a drift.
use it_asset_inventory.Base.{
  ℕ, String, ◌≡◌, refl, inl, inr, Bool, true, false, ◌&&◌, ◌||◌, List, [], ◌∷◌, ◌++◌, arith, ◌==◌,
  if◌then◌else◌, Bool-cases, Option-cases, str_eq, truthy, All,
}
use it_asset_inventory.Enroll.Attempt.{one_or_none, is_machine}
use it_asset_inventory.Enroll.Fingerprint.{
  field, compute_weighted_id, compare_field, similarity_score, is_same_machine,
}
use it_asset_inventory.Enroll.Perform.{
  drift_reason, has_drift, update_machine, find_alike, enroll_machine,
}
use it_asset_inventory.Enroll.Spent.{Found-cases, find?-any, filter-head, found_in-one}
use it_asset_inventory.Enroll.Types.{Db, Call, Machine, Fingerprint, EnrollToken, Hashing}
use text.Mathlib.TextPositions.{eq_refl}

-- The three fields that a fingerprint is known by.
abbrev pub is_identified : Fingerprint → Bool
is_identified fp =
    truthy (field "smbios_uuid" fp)
    || truthy (field "machine_guid" fp)
    || truthy (field "mainboard_serial" fp)

compare_field_self :
    (h : Hashing) (w : ℕ) (v : String)
    → compare_field h w v v ≡ (if truthy v then (w, (w, 1)) else (0, (0, 1)))
compare_field_self h w v = elim (Bool-cases (truthy v)) [
  | inl e ↦ rw (e, eq_refl v) refl
  | inr e ↦ rw e refl
]

compare_field-none : (h : Hashing) (w : ℕ) (v : String) → compare_field h w v "" ≡ (0, (0, 1))
compare_field-none h w v = elim (Bool-cases (truthy v)) [ inl e ↦ rw e refl | inr e ↦ rw e refl ]

-- A fingerprint is taken for the same machine as itself exactly if it has one of the three fields.
is_same_machine_self : (h : Hashing) (fp : Fingerprint) → is_same_machine h fp fp ≡ is_identified fp
unfolding is_same_machine similarity_score
is_same_machine_self h fp = by_presence (truthy a) (truthy b) (truthy c) refl refl refl
  where
    a : String
    a = field "smbios_uuid" fp

    b : String
    b = field "machine_guid" fp

    c : String
    c = field "mainboard_serial" fp

    self :
        (w : ℕ) (v : String)
        → compare_field h w v v ≡ (if truthy v then (w, (w, 1)) else (0, (0, 1)))
    self = compare_field_self h

    by_presence :
        (x y z : Bool)
        → truthy a ≡ x
        → truthy b ≡ y
        → truthy c ≡ z
        → is_same_machine h fp fp ≡ x || y || z
    by_presence true true true p q r =
        rw (self 5 a, self 3 b, self 2 c, p, q, r, is_same_machine, similarity_score) refl
    by_presence true true false p q r =
        rw (self 5 a, self 3 b, self 2 c, p, q, r, is_same_machine, similarity_score) refl
    by_presence true false true p q r =
        rw (self 5 a, self 3 b, self 2 c, p, q, r, is_same_machine, similarity_score) refl
    by_presence true false false p q r =
        rw (self 5 a, self 3 b, self 2 c, p, q, r, is_same_machine, similarity_score) refl
    by_presence false true true p q r =
        rw (self 5 a, self 3 b, self 2 c, p, q, r, is_same_machine, similarity_score) refl
    by_presence false true false p q r =
        rw (self 5 a, self 3 b, self 2 c, p, q, r, is_same_machine, similarity_score) refl
    by_presence false false true p q r =
        rw (self 5 a, self 3 b, self 2 c, p, q, r, is_same_machine, similarity_score) refl
    by_presence false false false p q r =
        rw (self 5 a, self 3 b, self 2 c, p, q, r, is_same_machine, similarity_score) refl

-- A fingerprint that is alike to a machine's comes from a machine that has one.
alike-reason :
    (h : Hashing) (fp old : Fingerprint)
    → is_same_machine h fp old ≡ true
    → drift_reason h fp old ≡ "other"
unfolding is_same_machine similarity_score field
alike-reason h fp [] e =
    let g =
      rw
        (
          compare_field-none h 5 (field "smbios_uuid" fp),
          compare_field-none h 3 (field "machine_guid" fp),
          compare_field-none h 2 (field "mainboard_serial" fp),
          is_same_machine,
          similarity_score,
        )
        at e in
    cc
alike-reason h fp (x ∷ old) e = rw (e, drift_reason) refl

-- No drift has the reason that a reinstallation has.
abbrev pub AllOther : Db → Type 0
AllOther db = All (λ d. d.reason ≡ "other") db.drifts

pub All-append_one :
    {A : Type 0} (P : A → Type 0) (xs : List A) (x : A) → All P xs → P x → All P (xs ++ x ∷ [])
All-append_one P [] x hs p = (p, tt)
All-append_one P (y ∷ xs) x (q, hs) p = (q, All-append_one P xs x hs p)

update_machine-AllOther :
    (h : Hashing) (c : Call) (uuid : String) (t : EnrollToken) (old : Machine) (db : Db)
    → (str_eq old.machine_uuid uuid ≡ false
        → drift_reason h c.fingerprint old.fingerprint ≡ "other")
    → AllOther db
    → AllOther (update_machine h c uuid t old db).1
update_machine-AllOther h c uuid t old db why others =
    elim (Bool-cases (str_eq old.machine_uuid uuid)) [
      | inl e ↦ rw (e, update_machine) others
      | inr e ↦ elim (Found-cases (one_or_none (has_drift old.id) db.drifts)) [
        | inl f ↦
            rw (e, f, update_machine)
              (All-append_one (λ d. d.reason ≡ "other") db.drifts _ others (why e))
        | inr (inl f) ↦ rw (e, f, update_machine) others
        | inr (inr (d, f)) ↦ rw (e, f, update_machine) others
      ]
    ]

-- If every drift of the table has the reason "other", every drift has it after an enrolment with a good token: the
-- reason "os_reinstall" is given for no machine.
enroll_machine-AllOther :
    (h : Hashing) (c : Call) (t : EnrollToken) (db : Db)
    → AllOther db
    → AllOther (enroll_machine h c t db).1
enroll_machine-AllOther h c t db others =
    let uuid = compute_weighted_id h c.fingerprint in
    let is_its = is_machine t.org_id uuid in
    elim (Found-cases (one_or_none is_its db.machines)) [
      | inr (inl f) ↦ rw (f, enroll_machine) others
      | inr (inr (m, f)) ↦
          let passes =
            (find?-any is_its is_its db.machines m
              (filter-head is_its db.machines [] m (found_in-one _ m f))).0 in
          rw (f, enroll_machine)
            (update_machine-AllOther h c uuid t m db (λ d. ground arith) others)
      | inl f ↦ elim (Option-cases (find_alike h c t.org_id db)) [
        | inl n ↦ rw (f, n, enroll_machine) others
        | inr (m, n) ↦
            let alike = λ (r : Machine).
              r.org_id == t.org_id && is_same_machine h c.fingerprint r.fingerprint in
            let passes = (find?-any alike alike db.machines m n).0 in
            rw (f, n, enroll_machine)
              (update_machine-AllOther h c uuid t m db
                (λ d. alike-reason h c.fingerprint m.fingerprint (ground arith)) others)
      ]
    ]
