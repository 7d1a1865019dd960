-- ===== src/Access/Walk.antt =====
-- The walk over the tree of organisations: it ends within its fuel, and sees what lies below its start.
use it_asset_inventory.Access.Orgs.{has, by_parent, walk}
use it_asset_inventory.Access.Types.{Organization}
use it_asset_inventory.Base.{
  ℕ, zero, suc, ◌≡◌, refl, subst, ◌⊎◌, inl, inr, true, false, ◌||◌, some, List, [], ◌∷◌, ◌++◌,
  arith, ◌==◌, Bool-cases, Option-cases,
}

pub has-append : (x : ℕ) (xs ys : List ℕ) → has x (xs ++ ys) ≡ has x xs || has x ys
has-append x [] ys = refl
has-append x (y ∷ xs) ys = ground (arith, has-append x xs ys)

-- Every element of the first list stands in the second.
abbrev pub Within : List ℕ → List ℕ → Type 0
Within xs ys = (x : ℕ) → has x xs ≡ true → has x ys ≡ true

-- One step of a walk that ends.
pub walk-zero :
    (rows : List Organization) (o : ℕ) (os out seen : List ℕ)
    → walk 0 rows (o ∷ os) out ≡ some seen
    → (has o out ≡ true) × (walk 0 rows os out ≡ some seen)
unfolding walk
walk-zero rows o os out seen e = elim (Bool-cases (has o out)) [
  | inl t ↦ (t, rw (t, walk) at e)
  | inr t ↦ let e' = rw (t, walk) at e in cc
]

pub walk-suc :
    (fuel : ℕ) (rows : List Organization) (o : ℕ) (os out seen : List ℕ)
    → walk (suc fuel) rows (o ∷ os) out ≡ some seen
    → ((has o out ≡ true) × (walk (suc fuel) rows os out ≡ some seen))
      ⊎ ((below : List ℕ) × (has o out ≡ false)
          × (walk fuel rows (by_parent rows o) (out ++ o ∷ []) ≡ some below)
          × (walk (suc fuel) rows os below ≡ some seen))
unfolding walk
walk-suc fuel rows o os out seen e = elim (Bool-cases (has o out)) [
  | inl t ↦ inl (t, rw (t, walk) at e)
  | inr t ↦ elim (Option-cases (walk fuel rows (by_parent rows o) (out ++ o ∷ []))) [
    | inl n ↦ let e' = rw (t, n, walk) at e in cc
    | inr (below, b) ↦ inr (below, t, b, rw (t, b, walk) at e)
  ]
]

pub walk_grows :
    (fuel : ℕ) (rows : List Organization) (os out seen : List ℕ)
    → walk fuel rows os out ≡ some seen
    → Within out seen
unfolding walk
walk_grows zero rows [] out seen e x h = ground arith
walk_grows (suc fuel) rows [] out seen e x h = ground arith
walk_grows zero rows (o ∷ os) out seen e x h =
    walk_grows zero rows os out seen (walk-zero rows o os out seen e).1 x h
walk_grows (suc fuel) rows (o ∷ os) out seen e x h = elim (walk-suc fuel rows o os out seen e) [
  | inl (t, e') ↦ walk_grows (suc fuel) rows os out seen e' x h
  | inr (below, t, b, e') ↦ walk_grows (suc fuel) rows os below seen e' x (
      walk_grows fuel rows (by_parent rows o) (out ++ o ∷ []) below b x
        (ground (arith, has-append x out (o ∷ []))))
]

-- An organisation that a walk has added has its children among those seen.
abbrev pub ClosedBeyond : List Organization → List ℕ → List ℕ → Type 0
ClosedBeyond rows out seen =
    (x : ℕ) → has x seen ≡ true → has x out ≡ false → Within (by_parent rows x) seen

with_first :
    (out seen : List ℕ) (o : ℕ) (os : List ℕ)
    → has o out ≡ true
    → Within out seen
    → Within os seen
    → Within (o ∷ os) seen
with_first out seen o os t grows listed x h = elim (Bool-cases (x == o)) [
  | inl q ↦ let q' : o ≡ x = ground arith in grows x (subst (λ y. has y out ≡ true) q' t)
  | inr q ↦ listed x (ground arith)
]

pub walk_covers :
    (fuel : ℕ) (rows : List Organization) (os out seen : List ℕ)
    → walk fuel rows os out ≡ some seen
    → Within os seen × ClosedBeyond rows out seen
unfolding walk
walk_covers zero rows [] out seen e = (λ x h. ground arith, λ x h n. ground arith)
walk_covers (suc fuel) rows [] out seen e = (λ x h. ground arith, λ x h n. ground arith)
walk_covers zero rows (o ∷ os) out seen e =
    let (t, e') = walk-zero rows o os out seen e in
    let (listed, closed) = walk_covers zero rows os out seen e' in
    (with_first out seen o os t (walk_grows zero rows os out seen e') listed, closed)
walk_covers (suc fuel) rows (o ∷ os) out seen e = elim (walk-suc fuel rows o os out seen e) [
  | inl (t, e') ↦
      let (listed, closed) = walk_covers (suc fuel) rows os out seen e' in
      (with_first out seen o os t (walk_grows (suc fuel) rows os out seen e') listed, closed)
  | inr (below, t, b, e') ↦
      let grows = walk_grows (suc fuel) rows os below seen e' in
      let (listed, closed) = walk_covers (suc fuel) rows os below seen e' in
      let added = walk_grows fuel rows (by_parent rows o) (out ++ o ∷ []) below b in
      let (children, closed_below) =
        walk_covers fuel rows (by_parent rows o) (out ++ o ∷ []) below b in
      let first : has o (out ++ o ∷ []) ≡ true = ground (arith, has-append o out (o ∷ [])) in
      (
        with_first below seen o os (added o first) grows listed,
        λ x h n. elim (Bool-cases (has x below)) [
          | inr m ↦ closed x h m
          | inl m ↦ elim (Bool-cases (x == o)) [
            | inl q ↦
                let q' : o ≡ x = ground arith in
                subst (λ y. Within (by_parent rows y) seen) q' (λ y k. grows y (children y k))
            | inr q ↦
                λ y k. grows y (closed_below x m (ground (arith, has-append x out (o ∷ []))) y k)
          ]
        ],
      )
]
