-- ===== src/Access/Entry.antt =====
-- What a new organisation changes of what users see.
use it_asset_inventory.Access.Below.{is_parent, Below, itself, child}
use it_asset_inventory.Access.Create.{
  high_level_types, valid_create_types, is_foreign, new_organization, create_within, create_org,
  OrganizationCreate, OrgEntry, created,
}
use it_asset_inventory.Access.Orgs.{has, all_org_ids}
use it_asset_inventory.Access.Types.{is_super_admin, Organization, User}
use it_asset_inventory.Access.Visible.{Sees, visible_org_ids_iff}
use it_asset_inventory.Base.{
  ℕ, ◌+◌, ◌≡◌, refl, sym, ap, subst, ◌↔◌, ◌⊎◌, inl, inr, Bool, true, false, not, ◌&&◌, ◌||◌, Option,
  none, some, List, [], ◌∷◌, ◌++◌, arith, ◌==◌, Bool-cases, Option-cases, eq?, length, any,
  length-append, one_of,
}

-- The id of the new row is used nowhere.
abbrev pub is_new : ℕ → OrganizationCreate → List Organization → Bool
is_new fresh body rows =
    not (any (λ r. r.id == fresh || eq? r.parent_id (some fresh)) rows)
    && not (eq? body.parent_id (some fresh))

is_parent-append :
    (rows : List Organization) (r : Organization) (p c : ℕ)
    → is_parent (rows ++ r ∷ []) p c ≡ is_parent rows p c || (eq? r.parent_id (some p) && c == r.id)
is_parent-append [] r p c = ground arith
is_parent-append (s ∷ rows) r p c = ground (arith, is_parent-append rows r p c)

-- A new id is no parent and no row.
unused_parent :
    (fresh c : ℕ) (rows : List Organization)
    → any (λ r. r.id == fresh || eq? r.parent_id (some fresh)) rows ≡ false
    → is_parent rows fresh c ≡ false
unused_parent fresh c [] e = refl
unused_parent fresh c (r ∷ rows) e = ground (arith, unused_parent fresh c rows)

eq?-some : (o : Option ℕ) (p : ℕ) → eq? o (some p) ≡ true → o ≡ some p
eq?-some none p h = absurd (ground arith)
eq?-some (some q) p h = ap (λ n. some n) (ground arith)

eq?_refl : (p : ℕ) → eq? (some p) (some p) ≡ true
eq?_refl p = ground arith

-- Who sees the new row: super administrators, and who sees its parent.
abbrev pub SeesNew : OrganizationCreate → List Organization → User → Type 0
SeesNew body rows u =
    (is_super_admin u ≡ true) ⊎ ((p : ℕ) × (body.parent_id ≡ some p) × Sees rows u p)

module _ (fresh : ℕ) (body : OrganizationCreate) (rows : List Organization)
    (fits : is_new fresh body rows ≡ true) where
  org : Organization
  org = new_organization fresh body

  Below-before :
      (a x : ℕ)
      → Below (rows ++ org ∷ []) a x
      → Below rows a x ⊎ ((p : ℕ) × (body.parent_id ≡ some p) × (x ≡ fresh) × Below rows a p)
  unfolding org
  Below-before a _ itself = inl itself
  Below-before a _ (child {b} {c} d e) = elim (Below-before a b d) [
    | inl d' ↦ elim (Bool-cases (is_parent rows b c)) [
      | inl k ↦ inl (child d' k)
      | inr k ↦
          let g : eq? body.parent_id (some b) && c == fresh ≡ true =
            ground (arith, is_parent-append rows org b c) in
          inr (b, eq?-some body.parent_id b (ground arith), ground arith, d')
    ]
    | inr (p, q, f, d') ↦
        let e' : is_parent (rows ++ org ∷ []) fresh c ≡ true =
          subst (λ y. is_parent (rows ++ org ∷ []) y c ≡ true) f e in
        absurd (ground (arith, is_parent-append rows org fresh c, unused_parent fresh c rows))
  ]

  Below-after : (a x : ℕ) → Below rows a x → Below (rows ++ org ∷ []) a x
  Below-after a _ itself = itself
  Below-after a _ (child {b} {c} d e) =
      child (Below-after a b d) (ground (arith, is_parent-append rows org b c))

  Below-new :
      (a p : ℕ) → body.parent_id ≡ some p → Below rows a p → Below (rows ++ org ∷ []) a fresh
  unfolding org
  Below-new a p e d =
      let own : eq? body.parent_id (some p) ≡ true = rw e (eq?_refl p) in
      child (Below-after a p d) (ground (arith, is_parent-append rows org p fresh))

  has-ids :
      (o : ℕ) (rs : List Organization)
      → has o (all_org_ids (rs ++ org ∷ [])) ≡ has o (all_org_ids rs) || o == fresh
  unfolding org
  has-ids o [] = ground arith
  has-ids o (r ∷ rs) = ground (arith, has-ids o rs)

  Sees-iff :
      (u : User) (o : ℕ)
      → Sees (rows ++ org ∷ []) u o ↔ (Sees rows u o ⊎ ((o ≡ fresh) × SeesNew body rows u))
  Sees-iff u o = (
    λ v. elim v [
      | inl (s, h) ↦ elim (Bool-cases (has o (all_org_ids rows))) [
        | inl k ↦ inl (inl (s, k))
        | inr k ↦ inr (ground (arith, has-ids o rows), inl s)
      ]
      | inr (s, d) ↦ elim (Below-before u.org_id o d) [
        | inl d' ↦ inl (inr (s, d'))
        | inr (p, e, f, d') ↦ inr (f, inr (p, e, inr (s, d')))
      ]
    ],
    λ v. elim v [
      | inl (inl (s, h)) ↦ inl (s, ground (arith, has-ids o rows))
      | inl (inr (s, d)) ↦ inr (s, Below-after u.org_id o d)
      | inr (f, inl s) ↦ inl (s, ground (arith, has-ids o rows))
      | inr (f, inr (p, e, inl (s, h))) ↦ inl (s, ground (arith, has-ids o rows))
      | inr (f, inr (p, e, inr (s, d))) ↦
          inr
            (s, subst (λ y. Below (rows ++ org ∷ []) u.org_id y) (sym f) (Below-new u.org_id p e d))
    ],
  )

-- What a creation that succeeds has passed.
created_lem :
    (fresh : ℕ) (body : OrganizationCreate) (admin : User) (rows rows' : List Organization)
    (audit audit' : List OrgEntry) (o : Organization)
    → create_org fresh body admin rows audit ≡ some (created o, (rows', audit'))
    → (rows' ≡ rows ++ new_organization fresh body ∷ []) × SeesNew body rows admin
unfolding create_org create_within
created_lem fresh body admin rows rows' audit audit' o e =
    let (visible, v, seen) = visible_org_ids_iff rows admin in
    elim (Bool-cases (one_of body.type valid_create_types)) [
      | inr t ↦ let e' = rw (t, create_org) at e in cc
      | inl t ↦ elim (Bool-cases (is_foreign body.parent_id visible)) [
        | inl f ↦ let e' = rw (t, v, f, create_org, create_within) at e in cc
        | inr f ↦ elim (Bool-cases (is_super_admin admin)) [
          | inl s ↦ let e' = rw (t, v, f, s, create_org, create_within) at e in (cc, inl s)
          | inr s ↦ elim (Bool-cases (one_of body.type high_level_types)) [
            | inl k ↦ let e' = rw (t, v, f, s, k, create_org, create_within) at e in cc
            | inr k ↦ elim (Option-cases body.parent_id) [
              | inl n ↦ let e' = rw (t, v, f, s, k, n, create_org, create_within) at e in cc
              | inr (p, n) ↦
                  let e' = rw (t, v, f, s, k, n, create_org, create_within) at e in
                  let h : has p visible ≡ true = let f' = rw n at f in ground arith in
                  (cc, inr (p, n, (seen p).0 h))
            ]
          ]
        ]
      ]
    ]

-- If the id of a new organisation is used nowhere, a creation that succeeds adds one row, which its creator sees;
-- any user sees what was seen before, and the new organisation exactly if the user is a super administrator or
-- sees its parent.
pub create_org-Sees :
    (fresh : ℕ) (body : OrganizationCreate) (admin : User) (rows rows' : List Organization)
    (audit audit' : List OrgEntry) (o : Organization)
    → is_new fresh body rows ≡ true
    → create_org fresh body admin rows audit ≡ some (created o, (rows', audit'))
    → (length rows' ≡ length rows + 1)
      × Sees rows' admin fresh
      × ((u : User) (x : ℕ)
          → Sees rows' u x ↔ (Sees rows u x ⊎ ((x ≡ fresh) × SeesNew body rows u)))
unfolding org
create_org-Sees fresh body admin rows rows' audit audit' o fits e =
    let (r, s) = created_lem fresh body admin rows rows' audit audit' o e in
    let views = Sees-iff fresh body rows fits in
    rw r (
      omega (arith, length-append rows (new_organization fresh body ∷ [])),
      (views admin fresh).1 (inr (refl, s)),
      views,
    )
