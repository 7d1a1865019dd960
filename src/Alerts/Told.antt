-- ===== src/Alerts/Told.antt =====
-- Who is to be told of an alert, said without the code's tests.
use it_asset_inventory.Access.Orgs.{has}
use it_asset_inventory.Access.Types.{is_super_admin, User}
use it_asset_inventory.Alerts.Engine.{
  severity_rank, get_pref, opts_out, is_org_admin, is_active_super, Rules,
}
use it_asset_inventory.Alerts.Types.{AlertTemplate, UserNotificationPref}
use it_asset_inventory.Base.{
  ℕ, String, ◌≡◌, refl, sym, subst, ◌↔◌, ◌⊎◌, inl, inr, Bool, true, false, not, ◌&&◌, ◌||◌, Option,
  none, some, List, [], ◌∷◌, arith, eq_iff, ltb, if◌then◌else◌, Bool-cases, str_eq, truthy, truthy?,
  text_of, one_of,
}

-- The severities above the lowest, in their order.
abbrev pub levels : List String
levels = "success" ∷ "warning" ∷ "error" ∷ "critical" ∷ []

-- A level and those above it.
abbrev pub from_level : String → List String → List String
from_level s [] = []
from_level s (x ∷ xs) = if str_eq s x then x ∷ xs else from_level s xs

-- The first severity is a level, and the second is neither it nor above it.
abbrev pub IsHigher : String → String → Type 0
IsHigher s d = (one_of s levels ≡ true) × (one_of d (from_level s levels) ≡ false)

-- The choice mutes the alert, or asks for a higher severity where the template lets users choose it.
abbrev pub OptsOut : AlertTemplate → UserNotificationPref → Type 0
OptsOut t p =
    (p.muted ≡ true)
    ⊎ ((one_of "severity" t.opt_out_controls ≡ true)
        × (s : String) × (p.min_severity ≡ some s)
        × IsHigher s t.default_severity)

-- The user has made such a choice for the alerts of the template.
abbrev pub Declines : Rules → AlertTemplate → User → Type 0
Declines e t u = (p : UserNotificationPref) × (get_pref e.prefs u.id t.code ≡ some p) × OptsOut t p

abbrev pub Told : Rules → AlertTemplate → List ℕ → User → Type 0
Told e t scope u =
    (u.is_active ≡ true)
    × ((one_of u.role ("super_admin" ∷ "admin_global" ∷ []) ≡ true)
        ⊎ ((one_of u.role ("org_admin" ∷ "admin_org" ∷ []) ≡ true)
            × (has u.org_id scope ≡ true)
            × (Declines e t u → ⊥)))

-- A level, or none.
abbrev Known : String → Type 0
Known s = ((s ≡ "success") ⊎ (s ≡ "warning")) ⊎ ((s ≡ "error") ⊎ (s ≡ "critical"))

abbrev Unknown : String → Type 0
Unknown s =
    (str_eq s "success" ≡ false)
    × (str_eq s "warning" ≡ false)
    × (str_eq s "error" ≡ false)
    × (str_eq s "critical" ≡ false)

level-cases : (s : String) → Known s ⊎ Unknown s
level-cases s = elim (Bool-cases (str_eq s "success")) [
  | inl a ↦ inl (inl (inl ((eq_iff s "success").0 a)))
  | inr a ↦ elim (Bool-cases (str_eq s "warning")) [
    | inl b ↦ inl (inl (inr ((eq_iff s "warning").0 b)))
    | inr b ↦ elim (Bool-cases (str_eq s "error")) [
      | inl c ↦ inl (inr (inl ((eq_iff s "error").0 c)))
      | inr c ↦ elim (Bool-cases (str_eq s "critical")) [
        | inl d ↦ inl (inr (inr ((eq_iff s "critical").0 d)))
        | inr d ↦ inr (a, b, c, d)
      ]
    ]
  ]
]

at_levels :
    (P : String → Type 0)
    → P "success"
    → P "warning"
    → P "error"
    → P "critical"
    → (s : String) → Known s
    → P s
at_levels P a b c d s (inl (inl e)) = subst P (sym e) a
at_levels P a b c d s (inl (inr e)) = subst P (sym e) b
at_levels P a b c d s (inr (inl e)) = subst P (sym e) c
at_levels P a b c d s (inr (inr e)) = subst P (sym e) d

-- The comparison of ranks is that of levels.
abbrev RanksAgree : String → String → Type 0
RanksAgree d s =
    ltb (severity_rank d) (severity_rank s)
    ≡ one_of s levels && not (one_of d (from_level s levels))

Unknown-RanksAgree : (d s : String) → Unknown d → Known s → RanksAgree d s
unfolding severity_rank one_of
Unknown-RanksAgree d s (a, b, c, e) k =
    at_levels (RanksAgree d) (rw (a, b, c, e) refl) (rw (a, b, c, e) refl) (rw (a, b, c, e) refl)
      (rw (a, b, c, e) refl) s k

Known-RanksAgree : (d s : String) → Known d → Known s → RanksAgree d s
unfolding severity_rank one_of
Known-RanksAgree d s k l =
    at_levels (λ x. RanksAgree x s) (at_levels (RanksAgree "success") refl refl refl refl s l)
      (at_levels (RanksAgree "warning") refl refl refl refl s l)
      (at_levels (RanksAgree "error") refl refl refl refl s l)
      (at_levels (RanksAgree "critical") refl refl refl refl s l) d k

ranks_agree : (d s : String) → RanksAgree d s
unfolding severity_rank one_of
ranks_agree d s = elim (level-cases s) [
  | inr (a, b, c, e) ↦ rw (a, b, c, e) (ground arith)
  | inl k ↦ elim (level-cases d) [
    | inl l ↦ Known-RanksAgree d s l k
    | inr l ↦ Unknown-RanksAgree d s l k
  ]
]

-- The test by which the engine chooses.
abbrev pub is_told : Rules → AlertTemplate → List ℕ → User → Bool
is_told e t scope u =
    is_active_super u || is_org_admin scope u && not (opts_out t (get_pref e.prefs u.id t.code))

higher_truthy : (s d : String) → IsHigher s d → truthy s ≡ true
unfolding one_of
higher_truthy s d (known, above) = elim (Bool-cases (str_eq s "")) [
  | inr n ↦ rw n refl
  | inl e ↦
      let empty : s ≡ "" = (eq_iff s "").0 e in
      let no_level : one_of "" levels ≡ true = subst (λ x. one_of x levels ≡ true) empty known in cc
]

asks_iff :
    (d : String) (m : Option String)
    → (truthy? m && ltb (severity_rank d) (severity_rank (text_of m)) ≡ true)
      ↔ ((s : String) × (m ≡ some s) × IsHigher s d)
asks_iff d none = (λ h. cc, λ (s, e, k). cc)
asks_iff d (some s) = (
  λ h. (s, refl, (ground (arith, ranks_agree d s), ground (arith, ranks_agree d s))),
  λ (s', e, k).
      let same : s ≡ s' = cc in
      let k' = subst (λ x. IsHigher x d) (sym same) k in
      ground (arith, ranks_agree d s, higher_truthy s d k', k'.0, k'.1),
)

opts_out_iff :
    (t : AlertTemplate) (p : UserNotificationPref) → (opts_out t (some p) ≡ true) ↔ OptsOut t p
unfolding opts_out
opts_out_iff t p =
    let asks = asks_iff t.default_severity p.min_severity in
    (
      λ h. elim (Bool-cases p.muted) [
        | inl m ↦ inl m
        | inr m ↦ let (s, e, k) = asks.0 (ground arith) in inr (ground arith, s, e, k)
      ],
      λ o. elim o [
        | inl m ↦ ground arith
        | inr (c, s, e, k) ↦ let a = asks.1 (s, e, k) in ground arith
      ],
    )

Declines-iff :
    (e : Rules) (t : AlertTemplate) (u : User)
    → (opts_out t (get_pref e.prefs u.id t.code) ≡ true) ↔ Declines e t u
Declines-iff e t u = by_pref (get_pref e.prefs u.id t.code)
  where
    by_pref :
        (o : Option UserNotificationPref)
        → (opts_out t o ≡ true) ↔ ((p : UserNotificationPref) × (o ≡ some p) × OptsOut t p)
    by_pref none = unfold opts_out in (λ h. cc, λ (p, q, k). cc)
    by_pref (some p) = (
      λ h. (p, refl, (opts_out_iff t p).0 h),
      λ (p', q, k).
          let same : p ≡ p' = cc in (opts_out_iff t p).1 (subst (λ x. OptsOut t x) (sym same) k),
    )

pub is_told_iff :
    (e : Rules) (t : AlertTemplate) (scope : List ℕ) (u : User)
    → (is_told e t scope u ≡ true) ↔ Told e t scope u
is_told_iff e t scope u =
    let declines = Declines-iff e t u in
    (
      λ h. elim (Bool-cases (is_super_admin u)) [
        | inl s ↦ (ground arith, inl s)
        | inr s ↦ (
          ground arith,
          inr (ground arith, ground arith, λ d. let q = declines.1 d in absurd (ground arith)),
        )
      ],
      λ (a, o). elim o [
        | inl s ↦ ground arith
        | inr (r, s, n) ↦ elim (Bool-cases (opts_out t (get_pref e.prefs u.id t.code))) [
          | inl q ↦ absurd (n (declines.0 q))
          | inr q ↦ ground arith
        ]
      ],
    )
