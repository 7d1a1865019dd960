-- ===== src/Access/Fuel.antt =====
-- The fuel of a walk over the tree of organisations, and how many it may see.
use it_asset_inventory.Access.Orgs.{has, all_org_ids, by_parent, walk, depth}
use it_asset_inventory.Access.Types.{Organization}
use it_asset_inventory.Access.Walk.{has-append, Within, walk_grows}
use it_asset_inventory.Base.{
  ℕ, zero, suc, ◌+◌, ◌≤◌, ◌<◌, ◌≡◌, refl, subst, inl, inr, true, false, not, some, List, [], ◌∷◌,
  ◌++◌, arith, ◌==◌, Bool-cases, length, count, count-le-length, length-append,
}

-- How many rows a walk has not seen.
abbrev pub unvisited : List Organization → List ℕ → ℕ
unvisited rows out = count (λ r. not (has r.id out)) rows

unvisited_mono :
    (rows : List Organization) (out seen : List ℕ)
    → Within out seen
    → unvisited rows seen ≤ unvisited rows out
unvisited_mono [] out seen w = omega arith
unvisited_mono (r ∷ rows) out seen w = ground (arith, unvisited_mono rows out seen w, w r.id)

Within-more : (out more : List ℕ) → Within out (out ++ more)
Within-more out more x h = ground (arith, has-append x out more)

unvisited_drops :
    (rows : List Organization) (o : ℕ) (out : List ℕ)
    → has o (all_org_ids rows) ≡ true
    → has o out ≡ false
    → unvisited rows (out ++ o ∷ []) < unvisited rows out
unvisited_drops [] o out h n = absurd (ground arith)
unvisited_drops (r ∷ rows) o out h n = elim (Bool-cases (o == r.id)) [
  | inl q ↦
      let q' : o ≡ r.id = ground arith in
      let n' : has r.id out ≡ false = subst (λ y. has y out ≡ false) q' n in
      let m : has r.id (out ++ o ∷ []) ≡ true = ground (arith, has-append r.id out (o ∷ [])) in
      ground (arith, unvisited_mono rows out (out ++ o ∷ []) (Within-more out (o ∷ [])))
  | inr q ↦ ground (arith, unvisited_drops rows o out, has-append r.id out (o ∷ []))
]

-- The children of an organisation are rows of the table.
by_parent-ids : (rows : List Organization) (o : ℕ) → Within (by_parent rows o) (all_org_ids rows)
by_parent-ids [] o x h = h
by_parent-ids (r ∷ rows) o x h = ground (arith, by_parent-ids rows o x)

-- A walk ends if its fuel exceeds the number of rows that were not seen, and each organisation that it adds is one
-- of these.
walk_ends :
    (fuel : ℕ) (rows : List Organization) (os out : List ℕ)
    → Within os (all_org_ids rows)
    → unvisited rows out < fuel
    → (seen : List ℕ) × (walk fuel rows os out ≡ some seen)
      × (length seen + unvisited rows seen ≤ length out + unvisited rows out)
unfolding walk
walk_ends zero rows os out w f = absurd (omega arith)
walk_ends (suc fuel) rows [] out w f = (out, refl, omega arith)
walk_ends (suc fuel) rows (o ∷ os) out w f = elim (Bool-cases (has o out)) [
  | inl t ↦ rw (t, walk) (walk_ends (suc fuel) rows os out (λ x h. w x (ground arith)) f)
  | inr t ↦
      let here : has o (all_org_ids rows) ≡ true = w o (ground arith) in
      let drops = unvisited_drops rows o out here t in
      let (below, b, l) =
        walk_ends fuel rows (by_parent rows o) (out ++ o ∷ []) (by_parent-ids rows o)
          (omega (arith, drops)) in
      let grows = walk_grows fuel rows (by_parent rows o) (out ++ o ∷ []) below b in
      let fewer = unvisited_mono rows (out ++ o ∷ []) below grows in
      let (seen, e, l') =
        walk_ends (suc fuel) rows os below (λ x h. w x (ground arith))
          (omega (arith, drops, fewer)) in
      rw (t, b, walk) (seen, e, omega (arith, drops, l, l', length-append out (o ∷ [])))
]

walk_first :
    (fuel : ℕ) (rows : List Organization) (o : ℕ) (seen : List ℕ)
    → walk fuel rows (by_parent rows o) (o ∷ []) ≡ some seen
    → walk (suc fuel) rows (o ∷ []) [] ≡ some seen
unfolding walk
walk_first fuel rows o seen e = rw (e, walk) refl

-- From one organisation, in the table or not, the fuel of `depth` is enough.
pub walk_from :
    (rows : List Organization) (o : ℕ)
    → (seen : List ℕ) × (walk (depth rows) rows (o ∷ []) [] ≡ some seen)
      × (length seen ≤ length rows + 1)
walk_from rows o =
    let most = count-le-length (λ (r : Organization). not (has r.id (o ∷ []))) rows in
    let (seen, e, l) =
      walk_ends (suc (length rows)) rows (by_parent rows o) (o ∷ []) (by_parent-ids rows o)
        (omega (arith, most)) in
    (seen, walk_first (suc (length rows)) rows o seen e, omega (arith, most, l))

-- From an organisation of the table it sees at most as many as there are rows.
pub walk_from_row :
    (rows : List Organization) (o : ℕ)
    → has o (all_org_ids rows) ≡ true
    → (seen : List ℕ) × (walk (depth rows) rows (o ∷ []) [] ≡ some seen)
      × (length seen ≤ length rows)
walk_from_row rows o h =
    let fewer = unvisited_drops rows o [] h refl in
    let most = count-le-length (λ (r : Organization). not (has r.id [])) rows in
    let (seen, e, l) =
      walk_ends (suc (length rows)) rows (by_parent rows o) (o ∷ []) (by_parent-ids rows o)
        (omega (arith, most, fewer)) in
    (seen, walk_first (suc (length rows)) rows o seen e, omega (arith, most, fewer, l))
