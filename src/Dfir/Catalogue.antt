-- ===== src/Dfir/Catalogue.antt =====
-- The artifacts that a request names (`_load_custom_artifact_refs` of server/app/services/dfir_investigation.py).
use it_asset_inventory.Base.{
  ℕ, zero, suc, ◌≤◌, String, ◌≡◌, refl, ap, subst, ◌⊎◌, inl, inr, Bool, true, ◌&&◌, List, [], ◌∷◌,
  map, arith, eq_iff, Bool-cases, str_eq, length, take, filter, all, All, length-take-le, one_of,
}
use it_asset_inventory.Dfir.Prepare.{
  platforms, precedes, insert_row, sort_rows, or_windows, artifact_ref, load_custom_artifact_refs,
  ArtifactRow, ArtifactRef,
}

-- A reference in order for a machine of a platform: the tier is 1 or 2, the
-- platforms are canonical names, and the machine's platform is one of them.
pub record Fits (platform : String) (r : ArtifactRef) : Type 0 where
  pub tier_known : (r.tier ≡ 1) ⊎ (r.tier ≡ 2)
  pub canonical : all (λ p. one_of p platforms) r.supported_platforms ≡ true
  pub supports : one_of platform r.supported_platforms ≡ true

one_of-filter :
    (q : String → Bool) (x : String) (ps : List String)
    → one_of x ps ≡ true
    → q x ≡ true
    → one_of x (filter q ps) ≡ true
unfolding one_of
one_of-filter q x [] h e = cc
one_of-filter q x (p ∷ ps) h e = elim (Bool-cases (str_eq x p)) [
  | inl m ↦
      let same : x ≡ p = ground (arith, eq_iff x p) in
      let keeps : q p ≡ true = subst (λ y. q y ≡ true) same e in rw keeps (ground arith)
  | inr m ↦ let inside = one_of-filter q x ps (ground arith) e in ground (arith, inside)
]

all-filter : (q : String → Bool) (ps : List String) → all q (filter q ps) ≡ true
all-filter q [] = refl
all-filter q (p ∷ ps) = elim (Bool-cases (q p)) [
  | inl e ↦ rw (e, e) (all-filter q ps)
  | inr e ↦ rw e (all-filter q ps)
]

or_windows-one_of :
    (x : String) (ps : List String) → one_of x ps ≡ true → one_of x (or_windows ps) ≡ true
unfolding one_of
or_windows-one_of x [] h = cc
or_windows-one_of x (p ∷ ps) h = h

or_windows-canonical :
    (ps : List String)
    → all (λ p. one_of p platforms) ps ≡ true
    → all (λ p. one_of p platforms) (or_windows ps) ≡ true
unfolding one_of
or_windows-canonical [] h = refl
or_windows-canonical (p ∷ ps) h = h

artifact_ref-Fits :
    (describe : String → String) (platform : String) (row : ArtifactRow)
    → one_of platform platforms ≡ true
    → one_of platform row.supported_platforms ≡ true
    → Fits platform (artifact_ref describe row)
artifact_ref-Fits describe platform row known offered =
    let given = or_windows row.supported_platforms in
    let q = λ (p : String). one_of p platforms in
    record {
      tier_known = ground arith;
      canonical = or_windows-canonical (filter q given) (all-filter q given);
      supports = or_windows-one_of platform (filter q given) (
          one_of-filter q platform given
            (or_windows-one_of platform row.supported_platforms offered) known);
    }

module _ (before : String → String → Bool) (P : ArtifactRow → Type 0) where
  All-insert_row :
      (a : ArtifactRow) (rows : List ArtifactRow)
      → P a
      → All P rows
      → All P (insert_row before a rows)
  All-insert_row a [] h hs = (h, tt)
  All-insert_row a (b ∷ rows) h hs = elim (Bool-cases (precedes before a b)) [
    | inl e ↦ rw e (h, hs)
    | inr e ↦ rw e (hs.0, All-insert_row a rows h hs.1)
  ]

  All-sort_rows : (rows : List ArtifactRow) → All P rows → All P (sort_rows before rows)
  All-sort_rows [] hs = tt
  All-sort_rows (a ∷ rows) hs =
      All-insert_row a (sort_rows before rows) hs.0 (All-sort_rows rows hs.1)

All-take_rows :
    (P : ArtifactRow → Type 0) (n : ℕ) (rows : List ArtifactRow) → All P rows → All P (take n rows)
All-take_rows P zero rows hs = tt
All-take_rows P (suc n) [] hs = tt
All-take_rows P (suc n) (a ∷ rows) hs = (hs.0, All-take_rows P n rows hs.1)

All-map_refs :
    (describe : String → String) (platform : String) (rows : List ArtifactRow)
    → one_of platform platforms ≡ true
    → All (λ r. one_of platform r.supported_platforms ≡ true) rows
    → All (Fits platform) (map (artifact_ref describe) rows)
All-map_refs describe platform [] known hs = tt
All-map_refs describe platform (a ∷ rows) known hs = (
  artifact_ref-Fits describe platform a known hs.0,
  All-map_refs describe platform rows known hs.1,
)

offered_rows :
    (platform : String) (rows : List ArtifactRow)
    → All
        (λ r. one_of platform r.supported_platforms ≡ true)
        (filter
          (λ r.
            r.enabled && str_eq r.artifact_type "CLIENT" && one_of platform r.supported_platforms)
          rows)
offered_rows platform [] = tt
offered_rows platform (a ∷ rows) =
    elim (Bool-cases
      (a.enabled && str_eq a.artifact_type "CLIENT" && one_of platform a.supported_platforms)) [
        | inl e ↦ rw e (ground arith, offered_rows platform rows)
        | inr e ↦ rw e (offered_rows platform rows)
      ]

length-map_refs :
    (f : ArtifactRow → ArtifactRef) (rows : List ArtifactRow) → length (map f rows) ≡ length rows
length-map_refs f [] = refl
length-map_refs f (a ∷ rows) = ap suc (length-map_refs f rows)

-- For a machine of one of the three platforms a request names at most 20 artifacts, and each has tier 1 or 2, only
-- canonical platforms, and the machine's platform among them, whatever the catalogue holds.
load_custom_artifact_refs-Fits :
    (before : String → String → Bool) (describe : String → String) (platform : String)
    (rows : List ArtifactRow)
    → one_of platform platforms ≡ true
    → let refs = load_custom_artifact_refs before describe platform rows in
      (length refs ≤ 20) × All (Fits platform) refs
unfolding load_custom_artifact_refs
load_custom_artifact_refs-Fits before describe platform rows known =
    let test = λ (r : ArtifactRow). one_of platform r.supported_platforms ≡ true in
    let chosen =
      filter
        (λ r. r.enabled && str_eq r.artifact_type "CLIENT" && one_of platform r.supported_platforms)
        rows in
    let sorted = sort_rows before chosen in
    (
      omega (
        arith,
        length-map_refs (artifact_ref describe) (take 20 sorted),
        length-take-le 20 sorted,
      ),
      All-map_refs describe platform (take 20 sorted) known (
          All-take_rows test 20 sorted
            (All-sort_rows before test chosen (offered_rows platform rows))),
    )
