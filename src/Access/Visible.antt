-- ===== src/Access/Visible.antt =====
-- What a user sees, and what a subscription covers.
use it_asset_inventory.Access.Below.{walk_iff, Below}
use it_asset_inventory.Access.Fuel.{walk_from, walk_from_row}
use it_asset_inventory.Access.Orgs.{has, all_org_ids, walk, depth, scope_orgs, visible_org_ids}
use it_asset_inventory.Access.Types.{is_super_admin, Organization, User}
use it_asset_inventory.Base.{
  ℕ, ◌+◌, ◌≤◌, String, ◌≡◌, refl, subst, ◌≢◌, ◌↔◌, ◌⊎◌, inl, inr, Bool, true, false, Option, none,
  some, List, [], ◌∷◌, arith, eq_iff, if◌then◌else◌, Bool-cases, str_eq, length,
}

-- A super administrator sees every row of the table, another user the own organisation and all below it.
abbrev pub Sees : List Organization → User → ℕ → Type 0
Sees rows u o =
    ((is_super_admin u ≡ true) × (has o (all_org_ids rows) ≡ true))
    ⊎ ((is_super_admin u ≡ false) × Below rows u.org_id o)

-- The organisations that a user sees are always found, cycles of parents included: for a super administrator these
-- are all rows, for any other user the own organisation and all that parent links lead down to, and no other.
pub visible_org_ids_iff :
    (rows : List Organization) (u : User)
    → (ids : List ℕ) × (visible_org_ids rows u ≡ some ids)
      × ((o : ℕ) → (has o ids ≡ true) ↔ Sees rows u o)
unfolding visible_org_ids
visible_org_ids_iff rows u = elim (Bool-cases (is_super_admin u)) [
  | inl s ↦ (
    all_org_ids rows,
    rw (s, visible_org_ids) refl,
    λ o. (λ h. inl (s, h), λ v. elim v [ inl (t, h) ↦ h | inr (t, b) ↦ absurd (not_both s t) ]),
  )
  | inr s ↦
      let (seen, e, l) = walk_from rows u.org_id in
      (
        seen,
        rw (s, visible_org_ids) e,
        λ o. (
          λ h. inr (s, (walk_iff rows u.org_id o seen e).0 h),
          λ v. elim v [
            | inl (t, h) ↦ absurd (not_both t s)
            | inr (t, b) ↦ (walk_iff rows u.org_id o seen e).1 b
          ],
        ),
      )
]
  where
    not_both : {b : Bool} → b ≡ true → b ≡ false → ⊥
    not_both t f = cc

-- What a subscription covers: with the mode `system` every row, with `org_only` its organisation, and with any other
-- mode its organisation and all below it.
abbrev pub Covers : List Organization → Option ℕ → String → ℕ → Type 0
Covers rows org_id mode o =
    ((mode ≡ "system") × (has o (all_org_ids rows) ≡ true))
    ⊎ ((mode ≢ "system")
        × (s : ℕ) × (org_id ≡ some s)
        × (((mode ≡ "org_only") × (o ≡ s)) ⊎ ((mode ≢ "org_only") × Below rows s o)))

-- At most as many as there are rows, or one more where the start is not in the table.
abbrev pub IsFew : List Organization → Option ℕ → List ℕ → Type 0
IsFew rows org_id ids =
    (length ids ≤ length rows)
    ⊎ ((s : ℕ) × (org_id ≡ some s)
        × (has s (all_org_ids rows) ≡ false)
        × (length ids ≤ length rows + 1))

length-all_org_ids : (rows : List Organization) → length (all_org_ids rows) ≡ length rows
length-all_org_ids [] = refl
length-all_org_ids (r ∷ rows) = omega (arith, length-all_org_ids rows)

length-has : (s : ℕ) (xs : List ℕ) → has s xs ≡ true → 1 ≤ length xs
length-has s [] h = cc
length-has s (x ∷ xs) h = omega arith

-- One organisation by itself.
alone-IsFew : (rows : List Organization) (s : ℕ) → IsFew rows (some s) (s ∷ [])
alone-IsFew rows s = elim (Bool-cases (has s (all_org_ids rows))) [
  | inl h ↦ inl (omega (arith, length-all_org_ids rows, length-has s (all_org_ids rows) h))
  | inr h ↦ inr (s, refl, h, omega arith)
]

-- A walk from one organisation.
tree-IsFew :
    (rows : List Organization) (s : ℕ)
    → (ids : List ℕ) × (walk (depth rows) rows (s ∷ []) [] ≡ some ids) × IsFew rows (some s) ids
tree-IsFew rows s = elim (Bool-cases (has s (all_org_ids rows))) [
  | inl h ↦ let (ids, e, l) = walk_from_row rows s h in (ids, e, inl l)
  | inr h ↦ let (ids, e, l) = walk_from rows s in (ids, e, inr (s, refl, h, l))
]

differs : (s t : String) → str_eq s t ≡ false → s ≢ t
differs s t n q = let e : str_eq s t ≡ true = (eq_iff s t).1 q in cc

-- The organisations of a mode other than `system`, from one organisation.
from_one :
    (rows : List Organization) (s : ℕ) (scope_mode : String)
    → scope_mode ≢ "system"
    → (ids : List ℕ) × ((if str_eq scope_mode "org_only"
          then some (s ∷ [])
          else walk (depth rows) rows (s ∷ []) [])
        ≡ some ids)
      × ((o : ℕ) → (has o ids ≡ true) ↔ Covers rows (some s) scope_mode o)
      × IsFew rows (some s) ids
from_one rows s scope_mode n = elim (Bool-cases (str_eq scope_mode "org_only")) [
  | inl k ↦
      let only = (eq_iff scope_mode "org_only").0 k in
      (
        s ∷ [],
        rw k refl,
        λ o. (
          λ h. inr (n, s, refl, inl (only, ground arith)),
          λ c. elim c [
            | inl (m, h) ↦ absurd (n m)
            | inr (m, z, e, w) ↦ elim w [
              | inl (m', q) ↦ let same : s ≡ z = cc in ground arith
              | inr (m', b) ↦ absurd (m' only)
            ]
          ],
        ),
        alone-IsFew rows s,
      )
  | inr k ↦
      let other = differs scope_mode "org_only" k in
      let (ids, e, few) = tree-IsFew rows s in
      (
        ids,
        rw k e,
        λ o. (
          λ h. inr (n, s, refl, inr (other, (walk_iff rows s o ids e).0 h)),
          λ c. elim c [
            | inl (m, h) ↦ absurd (n m)
            | inr (m, z, q, w) ↦ elim w [
              | inl (m', p) ↦ absurd (other m')
              | inr (m', b) ↦
                  let same : z ≡ s = cc in
                  (walk_iff rows s o ids e).1 (subst (λ y. Below rows y o) same b)
            ]
          ],
        ),
        few,
      )
]

-- A subscription's organisations are always found, cycles of parents included: with the mode `system` these are all
-- rows, with `org_only` its organisation, with any other mode its organisation and all that parent links lead down
-- to, and none without an organisation; and there are at most as many as rows of the table, or one more where the
-- organisation is not in the table.
pub scope_orgs_ends :
    (rows : List Organization) (org_id : Option ℕ) (scope_mode : String)
    → (ids : List ℕ) × (scope_orgs rows org_id scope_mode ≡ some ids)
      × ((o : ℕ) → (has o ids ≡ true) ↔ Covers rows org_id scope_mode o)
      × IsFew rows org_id ids
unfolding scope_orgs
scope_orgs_ends rows org_id scope_mode = elim (Bool-cases (str_eq scope_mode "system")) [
  | inl t ↦
      let system = (eq_iff scope_mode "system").0 t in
      (
        all_org_ids rows,
        rw (t, scope_orgs) refl,
        λ o. (
          λ h. inl (system, h),
          λ c. elim c [ inl (m, h) ↦ h | inr (m, z, e, w) ↦ absurd (m system) ],
        ),
        inl (omega (arith, length-all_org_ids rows)),
      )
  | inr t ↦ rw (t, scope_orgs) (by_org org_id (differs scope_mode "system" t))
]
  where
    by_org :
        (start : Option ℕ)
        → scope_mode ≢ "system"
        → (ids : List ℕ) × (elim start [
          | none ↦ some []
          | some s ↦
              if str_eq scope_mode "org_only"
              then some (s ∷ [])
              else walk (depth rows) rows (s ∷ []) []
        ]
            ≡ some ids)
          × ((o : ℕ) → (has o ids ≡ true) ↔ Covers rows start scope_mode o)
          × IsFew rows start ids
    by_org none n = (
      [],
      refl,
      λ o. (λ h. cc, λ c. elim c [ inl (m, h) ↦ absurd (n m) | inr (m, z, e, w) ↦ cc ]),
      inl (omega arith),
    )
    by_org (some s) n = from_one rows s scope_mode n
