-- ===== src/Agent/Tiers.antt =====
-- Which artifacts a request can bring into an investigation.
use it_asset_inventory.Agent.Catalog.{
  Request, ArtifactRef, custom, tier1_bare, tier1_custom_tools, tier2_custom_tools, has_tier,
  has_tier_n, is_tier1, is_tier2, initial_custom_tool_names, tier2_custom_tool_names,
}
use it_asset_inventory.Base.{
  String, ◌≡◌, refl, ap, ◌⊎◌, inl, inr, true, false, List, [], ◌∷◌, map, arith, eq_iff, Bool-cases,
  str_eq, filter, All, one_of,
}
use text.Mathlib.TextPositions.{eq_refl}

-- The tool is an artifact of the second tier that is made for the platform of the request.
abbrev pub FromRequest : Request → String → Type 0
FromRequest r tool =
    (ref : ArtifactRef) × (tool ≡ custom ref.name)
    × (has_tier 2 ref ≡ true)
    × (one_of r.target_platform ref.supported_platforms ≡ true)

one_of-map :
    (ref : ArtifactRef) (names : List String)
    → one_of ref.name names ≡ true
    → one_of (custom ref.name) (map custom names) ≡ true
unfolding one_of
one_of-map ref [] h = cc
one_of-map ref (n ∷ names) h = elim (Bool-cases (str_eq ref.name n)) [
  | inl e ↦
      let same : ref.name ≡ n = (eq_iff ref.name n).0 e in
      let here : str_eq (custom ref.name) (custom n) ≡ true = (eq_iff _ _).1 (ap custom same) in
      ground arith
  | inr e ↦ ground (arith, one_of-map ref names)
]

one_of_self :
    (xs : List String) (ys : List String)
    → ((x : String) → one_of x ys ≡ true → one_of x xs ≡ true)
    → All (λ y. one_of y xs ≡ true) ys
unfolding one_of
one_of_self xs [] w = tt
one_of_self xs (y ∷ ys) w =
    let own : str_eq y y ≡ true = eq_refl y in
    (w y (ground arith), one_of_self xs ys (λ x h. w x (ground arith)))

-- Whatever a request brings, the first collection uses only artifacts that the service itself lists for the
-- platform; and the second one uses those that it lists, if the request has none of the second tier, or
-- else only artifacts of the request that are of this tier and made for the platform.
tools_listed :
    (r : Request)
    → All
        (λ tool. one_of tool (tier1_custom_tools r.target_platform) ≡ true)
        (initial_custom_tool_names r)
      × (((has_tier_n r 2 ≡ false)
            × (tier2_custom_tool_names r ≡ tier2_custom_tools r.target_platform))
          ⊎ All (FromRequest r) (tier2_custom_tool_names r))
unfolding initial_custom_tool_names tier2_custom_tool_names
tools_listed r = (first, second)
  where
    listed :
        (refs : List ArtifactRef)
        → All
            (λ tool. one_of tool (tier1_custom_tools r.target_platform) ≡ true)
            (map (λ ref. custom ref.name) (filter (is_tier1 r) refs))
    listed [] = tt
    listed (ref ∷ refs) = elim (Bool-cases (is_tier1 r ref)) [
      | inr h ↦ rw h (listed refs)
      | inl h ↦ rw h (one_of-map ref (tier1_bare r.target_platform) (ground arith), listed refs)
    ]

    fitting :
        (refs : List ArtifactRef)
        → All (FromRequest r) (map (λ ref. custom ref.name) (filter (is_tier2 r) refs))
    fitting [] = tt
    fitting (ref ∷ refs) = elim (Bool-cases (is_tier2 r ref)) [
      | inr h ↦ rw h (fitting refs)
      | inl h ↦ rw h ((ref, refl, ground arith, ground arith), fitting refs)
    ]

    first :
        All
          (λ tool. one_of tool (tier1_custom_tools r.target_platform) ≡ true)
          (initial_custom_tool_names r)
    first =
        unfold initial_custom_tool_names in
        elim (Bool-cases (has_tier_n r 1)) [
          | inr h ↦ rw h (one_of_self _ _ (λ x k. k))
          | inl h ↦ rw h (listed r.custom_artifacts)
        ]

    second :
        ((has_tier_n r 2 ≡ false)
          × (tier2_custom_tool_names r ≡ tier2_custom_tools r.target_platform))
        ⊎ All (FromRequest r) (tier2_custom_tool_names r)
    second =
        unfold tier2_custom_tool_names in
        elim (Bool-cases (has_tier_n r 2)) [
          | inr h ↦ inl (h, rw h refl)
          | inl h ↦ inr (rw h (fitting r.custom_artifacts))
        ]
