-- ===== src/Access/Orgs.antt =====
-- The organisations of a subscription and those that a user sees (`scope_orgs`, `all_org_ids` of
-- server/app/services/org_scope.py and `visible_org_ids` of server/app/api/deps.py).
use it_asset_inventory.Access.Types.{is_super_admin, Organization, User}
use it_asset_inventory.Base.{
  ℕ, zero, suc, String, Bool, true, false, ◌||◌, Option, none, some, List, [], ◌∷◌, ◌++◌, map, ◌==◌,
  if◌then◌else◌, str_eq, eq?, length, filter,
}

abbrev pub has : ℕ → List ℕ → Bool
has o [] = false
has o (x ∷ xs) = o == x || has o xs

-- `all_org_ids`.
abbrev pub all_org_ids : List Organization → List ℕ
all_org_ids rows = map (λ r. r.id) rows

-- `by_parent.get(o, [])`.
abbrev pub is_child : ℕ → Organization → Bool
is_child o r = eq? r.parent_id (some o)

abbrev pub by_parent : List Organization → ℕ → List ℕ
by_parent rows o = map (λ r. r.id) (filter (is_child o) rows)

-- `walk` on each element of a list. `out` holds what was seen, in the order of the first visit; `none` when the
-- fuel, a bound on the depth of the recursion, is spent.
unfoldable pub walk : ℕ → List Organization → List ℕ → List ℕ → Option (List ℕ)
walk fuel rows [] out = some out
walk zero rows (o ∷ os) out = let rest = walk zero rows os out in if has o out then rest else none
walk (suc fuel) rows (o ∷ os) out = elim (has o out) [
  | true ↦ walk (suc fuel) rows os out
  | false ↦ elim (walk fuel rows (by_parent rows o) (out ++ o ∷ [])) [
    | none ↦ none
    | some seen ↦ walk (suc fuel) rows os seen
  ]
]

-- Fuel for a walk over a table.
abbrev pub depth : List Organization → ℕ
depth rows = suc (suc (length rows))

-- `scope_orgs`.
unfoldable pub scope_orgs : List Organization → Option ℕ → String → Option (List ℕ)
scope_orgs rows org_id scope_mode =
    if str_eq scope_mode "system" then some (all_org_ids rows) else elim org_id [
      | none ↦ some []
      | some o ↦
          if str_eq scope_mode "org_only" then some (o ∷ []) else walk (depth rows) rows (o ∷ []) []
    ]

-- `visible_org_ids`.
unfoldable pub visible_org_ids : List Organization → User → Option (List ℕ)
visible_org_ids rows user =
    if is_super_admin user
    then some (all_org_ids rows)
    else walk (depth rows) rows (user.org_id ∷ []) []
