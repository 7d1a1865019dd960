-- ===== src/Review/Recognised.antt =====
-- A machine is recognised by the fingerprint that an administrator has approved.
use it_asset_inventory.Access.Orgs.{has}
use it_asset_inventory.Base.{
  ℕ, String, ◌≡◌, refl, sym, ap, ◌∙◌, inl, inr, true, false, not, ◌||◌, some, List, [], ◌∷◌, arith,
  eq_iff, ◌==◌, Bool-cases, Option-cases, str_eq, filter, count, all, update,
}
use it_asset_inventory.Enroll.Attempt.{found_in, one_or_none, is_open, is_machine}
use it_asset_inventory.Enroll.Fingerprint.{compute_weighted_id}
use it_asset_inventory.Enroll.Perform.{joined, seen_again, update_machine, enroll_machine}
use it_asset_inventory.Enroll.Types.{
  Db, Call, Machine, EnrollToken, FingerprintDrift, Hashing, approved, one,
}
use it_asset_inventory.Review.Drifts.{machine_by_id, drift_by_id, renewed, resolve}
use it_asset_inventory.Review.Types.{done, Admin}

-- One row has the key, and no other machine of the organisation has the identifier.
abbrev pub IsOnly : Machine → ℕ → String → List Machine → Type 0
IsOnly m org uuid rows =
    (count (λ r. r.id == m.id) rows ≡ 1)
    × (all (λ r. r.id == m.id || not (is_machine org uuid r)) rows ≡ true)

no_row :
    (m new : Machine) (org : ℕ) (uuid : String) (rows : List Machine)
    → count (λ r. r.id == m.id) rows ≡ 0
    → all (λ r. r.id == m.id || not (is_machine org uuid r)) rows ≡ true
    → filter (is_machine org uuid) (update (λ r. r.id == m.id) (λ _. new) rows) ≡ []
no_row m new org uuid [] c a = refl
no_row m new org uuid (x ∷ rows) c a = elim (Bool-cases (x.id == m.id)) [
  | inl h ↦ absurd (ground arith)
  | inr h ↦
      let away : is_machine org uuid x ≡ false = ground arith in
      rw (h, away) (no_row m new org uuid rows (ground arith) (ground arith))
]

one_row :
    (m new : Machine) (org : ℕ) (uuid : String) (rows : List Machine)
    → IsOnly m org uuid rows
    → is_machine org uuid new ≡ true
    → filter (is_machine org uuid) (update (λ r. r.id == m.id) (λ _. new) rows) ≡ new ∷ []
one_row m new org uuid [] (c, a) n = absurd (omega arith)
one_row m new org uuid (x ∷ rows) (c, a) n = elim (Bool-cases (x.id == m.id)) [
  | inl h ↦ rw (h, n) (ap (λ l. new ∷ l) (no_row m new org uuid rows (ground arith) (ground arith)))
  | inr h ↦
      let away : is_machine org uuid x ≡ false = ground arith in
      rw (h, away) (one_row m new org uuid rows (ground arith, ground arith) n)
]

-- What an approval of a change has found and done.
resolved_lem :
    (h : Hashing) (admin : Admin) (i now : ℕ) (db after : Db)
    → resolve h admin i approved now db ≡ (done, after)
    → (d : FingerprintDrift) × (m : Machine) × (drift_by_id i db.drifts ≡ some d)
      × (machine_by_id d.machine_id db.machines ≡ some m)
      × (is_open d.status ≡ true)
      × (after.machines ≡ update (λ r. r.id == m.id) (λ _. renewed h d m) db.machines)
unfolding resolve
resolved_lem h admin i now db after e = elim (Option-cases (drift_by_id i db.drifts)) [
  | inl n ↦ let e' = rw (n, resolve) at e in cc
  | inr (d, n) ↦ elim (Option-cases (machine_by_id d.machine_id db.machines)) [
    | inl k ↦ let e' = rw (n, k, resolve) at e in cc
    | inr (m, k) ↦ elim (Bool-cases (has m.org_id admin.visible)) [
      | inr v ↦ let e' = rw (n, k, v, resolve) at e in cc
      | inl v ↦ elim (Bool-cases (is_open d.status)) [
        | inr o ↦ let e' = simp (n, k, v, o, resolve) at e in cc
        | inl o ↦
            let e' = simp (n, k, v, o, resolve) at e in
            (d, m, n, k, o, sym (ap (λ r. r.1.machines) e'))
      ]
    ]
  ]
]

-- An enrolment that finds its machine by the identifier.
recognised :
    (h : Hashing) (c : Call) (t : EnrollToken) (db : Db) (m : Machine)
    → one_or_none (is_machine t.org_id (compute_weighted_id h c.fingerprint)) db.machines ≡ one m
    → str_eq m.machine_uuid (compute_weighted_id h c.fingerprint) ≡ true
    → ((enroll_machine h c t db).0 ≡ joined (seen_again c m) false t)
      × ((enroll_machine h c t db).1.drifts ≡ db.drifts)
recognised h c t db m found its = rw (found, its, enroll_machine, update_machine) (refl, refl)

-- After a change of fingerprint was approved, an enrolment with the new fingerprint and a good token of the
-- machine's organisation is taken for this machine and for no new one, and it reports no change again, if one row
-- has the machine's key and no other machine of the organisation has the identifier of the fingerprint.
pub approved-recognised :
    (h : Hashing) (admin : Admin) (i now : ℕ) (db after : Db) (c : Call) (t : EnrollToken)
    (d : FingerprintDrift) (m : Machine)
    → resolve h admin i approved now db ≡ (done, after)
    → drift_by_id i db.drifts ≡ some d
    → machine_by_id d.machine_id db.machines ≡ some m
    → c.fingerprint ≡ d.new_fingerprint
    → t.org_id ≡ m.org_id
    → IsOnly m t.org_id (compute_weighted_id h c.fingerprint) db.machines
    → ((enroll_machine h c t after).0 ≡ joined (seen_again c (renewed h d m)) false t)
      × ((enroll_machine h c t after).1.drifts ≡ after.drifts)
approved-recognised h admin i now db after c t d m e n k f o only =
    let (d', m', n', k', o', q) = resolved_lem h admin i now db after e in
    let same_d : d' ≡ d = cc in
    let k'' = rw same_d at k' in
    let same_m : m' ≡ m = cc in
    let rows : after.machines ≡ update (λ r. r.id == m.id) (λ _. renewed h d m) db.machines =
      let q' = rw same_d at q in rw same_m at q' in
    let uuid = compute_weighted_id h c.fingerprint in
    let its : str_eq (renewed h d m).machine_uuid uuid ≡ true =
      (eq_iff _ uuid).1 (ap (compute_weighted_id h) (sym f)) in
    let own : is_machine t.org_id uuid (renewed h d m) ≡ true = ground (arith, o, its) in
    let found : one_or_none (is_machine t.org_id uuid) after.machines ≡ one (renewed h d m) =
      ap (λ l. one_or_none (is_machine t.org_id uuid) l) rows
      ∙ ap found_in (one_row m (renewed h d m) t.org_id uuid db.machines only own) in
    recognised h c t after (renewed h d m) found its
