-- ===== src/Alerts/Controls.antt =====
-- What users may choose is what the templates allow.
use it_asset_inventory.Alerts.Engine.{get_template, is_pref, get_pref}
use it_asset_inventory.Alerts.Prefs.{
  is_set, joined_text, is_refused, new_pref, kept_muted, kept_severity, changed_pref, put_pref,
  upsert_item, upsert_prefs, PrefItem, Upserted, not_found, unprocessable, saved,
}
use it_asset_inventory.Alerts.Types.{AlertTemplate, UserNotificationPref}
use it_asset_inventory.Base.{
  ℕ, String, ◌≡◌, refl, subst, inl, inr, Bool, true, false, not, ◌&&◌, ◌||◌, Option, none, some,
  List, [], ◌∷◌, ◌++◌, arith, eq_iff, Bool-cases, Option-cases, truthy?, update, All, one_of,
}

-- A choice that a template allows.
abbrev pub allows : List String → Bool → Option String → Bool
allows controls muted severity =
    (not muted || one_of "template" controls)
    && (not (truthy? severity) || one_of "severity" controls)

-- The template of the row allows what it holds.
abbrev pub Allowed : List AlertTemplate → UserNotificationPref → Type 0
Allowed templates p =
    (t : AlertTemplate) × (get_template templates p.template_code ≡ some t)
    × (allows t.opt_out_controls p.muted p.min_severity ≡ true)

abbrev pub AllAllowed : List AlertTemplate → List UserNotificationPref → Type 0
AllAllowed templates prefs = All (Allowed templates) prefs

-- What holds of the table that a request leaves.
abbrev pub AllowedAfter : List AlertTemplate → Upserted → Type 0
AllowedAfter templates not_found = Unit
AllowedAfter templates unprocessable = Unit
AllowedAfter templates (saved prefs) = AllAllowed templates prefs

All-last :
    {A : Type 0} (P : A → Type 0) (xs : List A) (x : A) → All P xs → P x → All P (xs ++ x ∷ [])
All-last P [] x a p = (p, tt)
All-last P (y ∷ xs) x (q, a) p = (q, All-last P xs x a p)

All-update :
    {A : Type 0} (P : A → Type 0) (p : A → Bool) (f : A → A) (xs : List A)
    → ((x : A) → p x ≡ true → P x → P (f x))
    → All P xs
    → All P (update p f xs)
All-update P p f [] keep a = tt
All-update P p f (x ∷ xs) keep (q, a) = elim (Bool-cases (p x)) [
  | inl h ↦ rw h (keep x h q, All-update P p f xs keep a)
  | inr h ↦ rw h (q, All-update P p f xs keep a)
]

-- What an item that is not refused asks for is allowed.
accepted_new :
    (templates : List AlertTemplate) (user : ℕ) (code : String) (item : PrefItem)
    (t : AlertTemplate)
    → get_template templates code ≡ some t
    → is_refused t item ≡ false
    → Allowed templates (new_pref user code item)
accepted_new templates user code item t g r = (t, g, ground arith)

accepted_kept :
    (controls : List String) (m : Option Bool) (v : Option (Option String)) (muted : Bool)
    (severity : Option String)
    → is_set m && not (one_of "template" controls)
        || truthy? (joined_text v) && not (one_of "severity" controls)
      ≡ false
    → allows controls muted severity ≡ true
    → allows controls (kept_muted m muted) (kept_severity v severity) ≡ true
accepted_kept controls none none muted severity r a = a
accepted_kept controls none (some v) muted severity r a = ground arith
accepted_kept controls (some m) none muted severity r a = ground arith
accepted_kept controls (some m) (some v) muted severity r a = ground arith

accepted_change :
    (templates : List AlertTemplate) (user : ℕ) (code : String) (item : PrefItem)
    (t : AlertTemplate) (p : UserNotificationPref)
    → get_template templates code ≡ some t
    → is_refused t item ≡ false
    → is_pref user code p ≡ true
    → Allowed templates p
    → Allowed templates (changed_pref item p)
accepted_change templates user code item t p g r own (t', g', a) =
    let its : p.template_code ≡ code = (eq_iff p.template_code code).0 (ground arith) in
    let same : t ≡ t' = let h = subst (λ k. get_template templates k ≡ some t') its g' in cc in
    let r' : is_refused t' item ≡ false = subst (λ u. is_refused u item ≡ false) same r in
    (
      t',
      g',
      accepted_kept t'.opt_out_controls item.muted item.min_severity p.muted p.min_severity r' a,
    )

put_pref-AllAllowed :
    (templates : List AlertTemplate) (user : ℕ) (code : String) (item : PrefItem)
    (t : AlertTemplate) (prefs : List UserNotificationPref)
    → get_template templates code ≡ some t
    → is_refused t item ≡ false
    → AllAllowed templates prefs
    → AllAllowed templates (put_pref user code item prefs)
unfolding put_pref
put_pref-AllAllowed templates user code item t prefs g r a =
    elim (Option-cases (get_pref prefs user code)) [
      | inl n ↦
          rw (n, put_pref)
            (All-last (Allowed templates) prefs _ a (accepted_new templates user code item t g r))
      | inr (p, n) ↦
          rw (n, put_pref)
            (All-update (Allowed templates) (is_pref user code) (changed_pref item) prefs
              (λ q own. accepted_change templates user code item t q g r own) a)
    ]

upsert_item-Allowed :
    (templates : List AlertTemplate) (user : ℕ) (item : PrefItem)
    (prefs : List UserNotificationPref)
    → AllAllowed templates prefs
    → AllowedAfter templates (upsert_item templates user item prefs)
unfolding upsert_item
upsert_item-Allowed templates user item prefs a = elim (Option-cases item.template_code) [
  | inl c ↦ simp (c, upsert_item) tt
  | inr (code, c) ↦ elim (Option-cases (get_template templates code)) [
    | inl g ↦ simp (c, g, upsert_item) tt
    | inr (t, g) ↦ elim (Bool-cases (is_refused t item)) [
      | inl r ↦ simp (c, g, r, upsert_item) tt
      | inr r ↦
          simp (c, g, r, upsert_item) (put_pref-AllAllowed templates user code item t prefs g r a)
    ]
  ]
]

-- If every choice in the table is one that its template allows, this is so after a request that succeeds, for items
-- in any number and order: no one mutes an alert, or asks for a severity, where the template does not offer it.
pub upsert_prefs-Allowed :
    (templates : List AlertTemplate) (user : ℕ) (items : List PrefItem)
    (prefs : List UserNotificationPref)
    → AllAllowed templates prefs
    → AllowedAfter templates (upsert_prefs templates user items prefs)
unfolding upsert_prefs
upsert_prefs-Allowed templates user [] prefs a = a
upsert_prefs-Allowed templates user (item ∷ items) prefs a =
    next (upsert_item templates user item prefs) (upsert_item-Allowed templates user item prefs a)
      refl (λ later. upsert_prefs-Allowed templates user items later)
  where
    next :
        (u : Upserted)
        → AllowedAfter templates u
        → upsert_item templates user item prefs ≡ u
        → ((later : List UserNotificationPref)
            → AllAllowed templates later
            → AllowedAfter templates (upsert_prefs templates user items later))
        → AllowedAfter templates (upsert_prefs templates user (item ∷ items) prefs)
    next not_found k e rest = rw (e, upsert_prefs) tt
    next unprocessable k e rest = rw (e, upsert_prefs) tt
    next (saved prefs') k e rest = rw (e, upsert_prefs) (rest prefs' k)
