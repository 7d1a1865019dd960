-- ===== src/Access/Below.antt =====
-- The organisations that a walk sees are those below its start.
use it_asset_inventory.Access.Orgs.{has, by_parent, walk, depth}
use it_asset_inventory.Access.Types.{Organization}
use it_asset_inventory.Access.Walk.{has-append, Within, walk-zero, walk-suc, walk_covers}
use it_asset_inventory.Base.{
  ℕ, zero, suc, ◌≡◌, refl, sym, ◌∙◌, subst, ◌↔◌, inl, inr, Bool, true, ◌&&◌, some, List, [], ◌∷◌,
  ◌++◌, arith, ◌==◌, Bool-cases, eq?, any,
}

-- A row of the table has the id and the parent.
abbrev pub is_parent : List Organization → ℕ → ℕ → Bool
is_parent rows p c = any (λ r. eq? r.parent_id (some p) && c == r.id) rows

-- An organisation is below another if parent links lead from it there.
pub data Below (rows : List Organization) (a : ℕ) : ℕ → Type 0 where
  itself : Below rows a a
  child : {b c : ℕ} → Below rows a b → is_parent rows b c ≡ true → Below rows a c

has-by_parent : (rows : List Organization) (p c : ℕ) → has c (by_parent rows p) ≡ is_parent rows p c
has-by_parent [] p c = refl
has-by_parent (r ∷ rows) p c = ground (arith, has-by_parent rows p c)

abbrev AllBelow : List Organization → ℕ → List ℕ → Type 0
AllBelow rows a xs = (x : ℕ) → has x xs ≡ true → Below rows a x

walk-AllBelow :
    (a fuel : ℕ) (rows : List Organization) (os out seen : List ℕ)
    → walk fuel rows os out ≡ some seen
    → AllBelow rows a os
    → AllBelow rows a out
    → AllBelow rows a seen
unfolding walk
walk-AllBelow a zero rows [] out seen e i j = λ x h. j x (ground arith)
walk-AllBelow a (suc fuel) rows [] out seen e i j = λ x h. j x (ground arith)
walk-AllBelow a zero rows (o ∷ os) out seen e i j =
    walk-AllBelow a zero rows os out seen (walk-zero rows o os out seen e).1
      (λ x h. i x (ground arith)) j
walk-AllBelow a (suc fuel) rows (o ∷ os) out seen e i j =
    elim (walk-suc fuel rows o os out seen e) [
      | inl (t, e') ↦ walk-AllBelow a (suc fuel) rows os out seen e' (λ x h. i x (ground arith)) j
      | inr (below, t, b, e') ↦
          let first : Below rows a o = i o (ground arith) in
          let out' : AllBelow rows a (out ++ o ∷ []) = λ x h. elim (Bool-cases (has x out)) [
            | inl k ↦ j x k
            | inr k ↦
                let q : o ≡ x = ground (arith, has-append x out (o ∷ [])) in
                subst (λ y. Below rows a y) q first
          ] in
          let children : AllBelow rows a (by_parent rows o) =
            λ x h. child first (sym (has-by_parent rows o x) ∙ h) in
          walk-AllBelow a (suc fuel) rows os below seen e' (λ x h. i x (ground arith))
            (walk-AllBelow a fuel rows (by_parent rows o) (out ++ o ∷ []) below b children out')
    ]

-- Among organisations that hold the children of each, all that are below one of them.
closed_holds :
    (rows : List Organization) (a x : ℕ) (seen : List ℕ)
    → has a seen ≡ true
    → ((p : ℕ) → has p seen ≡ true → Within (by_parent rows p) seen)
    → Below rows a x
    → has x seen ≡ true
closed_holds rows a _ seen start closed itself = start
closed_holds rows a _ seen start closed (child {b} {c} below e) =
    closed b (closed_holds rows a b seen start closed below) c (has-by_parent rows b c ∙ e)

-- From an organisation a walk sees this one and all below it, and no other.
pub walk_iff :
    (rows : List Organization) (o x : ℕ) (seen : List ℕ)
    → walk (depth rows) rows (o ∷ []) [] ≡ some seen
    → (has x seen ≡ true) ↔ Below rows o x
walk_iff rows o x seen e =
    let (listed, closed) = walk_covers (depth rows) rows (o ∷ []) [] seen e in
    (
      λ h.
          walk-AllBelow o (depth rows) rows (o ∷ []) [] seen e
            (λ y k. let q : o ≡ y = ground arith in subst (λ z. Below rows o z) q itself)
            (λ y k. absurd (ground arith)) x h,
      λ b. closed_holds rows o x seen (listed o (ground arith)) (λ p k. closed p k refl) b,
    )
