-- ===== src/Alerts/Recipients.antt =====
-- Who is told of an alert.
use mathlib.Core.List.{Memᴰ}
use it_asset_inventory.Access.Orgs.{has}
use it_asset_inventory.Access.Types.{User}
use it_asset_inventory.Alerts.Engine.{
  get_pref, opts_out, is_org_admin, is_active_super, has_id, dedup, resolve_recipients, Rules,
}
use it_asset_inventory.Alerts.Told.{Told, is_told, is_told_iff}
use it_asset_inventory.Alerts.Types.{AlertTemplate}
use it_asset_inventory.Base.{
  ℕ, ◌≡◌, refl, sym, ap, ◌∙◌, subst, ◌↔◌, inl, inr, Bool, true, false, not, ◌&&◌, ◌||◌, List, [],
  ◌∷◌, ◌++◌, map, arith, ◌==◌, Bool-cases, filter, any, any-append,
}
use mathlib.Core.List.{Memᴰ}

abbrev pub user_ids : List User → List ℕ
user_ids users = map (λ (u : User). u.id) users

has-user_ids : (i : ℕ) (users : List User) → has i (user_ids users) ≡ has_id i users
has-user_ids i [] = refl
has-user_ids i (u ∷ users) = ground (arith, has-user_ids i users)

any-filter :
    {A : Type 0} (p q : A → Bool) (xs : List A) → any p (filter q xs) ≡ any (λ x. q x && p x) xs
any-filter p q [] = refl
any-filter p q (x ∷ xs) = ground (arith, any-filter p q xs)

-- `dedup` keeps the ids that were not seen.
dedup-has_id :
    (i : ℕ) (seen us : List User) → has_id i (dedup seen us) ≡ has_id i us && not (has_id i seen)
unfolding dedup
dedup-has_id i seen [] = refl
dedup-has_id i seen (u ∷ us) = elim (Bool-cases (has_id u.id seen)) [
  | inl h ↦
      rw (h, dedup)
        (elim (Bool-cases (u.id == i)) [
          | inr q ↦ ground (arith, dedup-has_id i seen us)
          | inl q ↦
              let q' : u.id ≡ i = ground arith in
              let h' : has_id i seen ≡ true = subst (λ j. has_id j seen ≡ true) q' h in
              ground (arith, dedup-has_id i seen us)
        ])
  | inr h ↦
      rw (h, dedup)
        (elim (Bool-cases (u.id == i)) [
          | inr q ↦ ground (arith, dedup-has_id i (u ∷ seen) us)
          | inl q ↦
              let q' : u.id ≡ i = ground arith in
              let h' : has_id i seen ≡ false = subst (λ j. has_id j seen ≡ false) q' h in
              ground arith
        ])
]

-- No id stands twice.
abbrev pub AllDistinct : List User → Type 0
AllDistinct [] = Unit
AllDistinct (u ∷ us) = (has_id u.id us ≡ false) × AllDistinct us

dedup-AllDistinct : (seen us : List User) → AllDistinct (dedup seen us)
unfolding dedup
dedup-AllDistinct seen [] = tt
dedup-AllDistinct seen (u ∷ us) = elim (Bool-cases (has_id u.id seen)) [
  | inl h ↦ rw (h, dedup) (dedup-AllDistinct seen us)
  | inr h ↦
      let same : u.id == u.id ≡ true = ground arith in
      rw (h, dedup)
        (ground (arith, dedup-has_id u.id (u ∷ seen) us), dedup-AllDistinct (u ∷ seen) us)
]

any_found :
    {A : Type 0} (p : A → Bool) (xs : List A) → any p xs ≡ true → (x : A) × Memᴰ x xs × (p x ≡ true)
any_found p [] h = cc
any_found p (x ∷ xs) h = elim (Bool-cases (p x)) [
  | inl k ↦ (x, Memᴰ.head refl, k)
  | inr k ↦ let (y, m, l) = any_found p xs (ground arith) in (y, Memᴰ.tail m, l)
]

any_here :
    {A : Type 0} (p : A → Bool) (xs : List A) (x : A) → Memᴰ x xs → p x ≡ true → any p xs ≡ true
any_here p [] x m h = elim m [ ]
any_here p (y ∷ ys) x (Memᴰ.head e) h =
    let here : p y ≡ true = subst (λ z. p z ≡ true) e h in ground arith
any_here p (y ∷ ys) x (Memᴰ.tail m) h = let later = any_here p ys x m h in ground arith

and_true : (b : Bool) → b && true ≡ b
and_true true = refl
and_true false = refl

any_or :
    {A : Type 0} (p q s r : A → Bool) (xs : List A)
    → any (λ x. q x && (p x && r x)) xs || any (λ x. s x && r x) xs
      ≡ any (λ x. (s x || q x && p x) && r x) xs
any_or p q s r [] = refl
any_or p q s r (x ∷ xs) = ground (arith, any_or p q s r xs)

any-chosen :
    {A : Type 0} (p q s r : A → Bool) (xs : List A)
    → any r (filter p (filter q xs) ++ filter s xs) ≡ any (λ x. (s x || q x && p x) && r x) xs
any-chosen p q s r xs =
    any-append r (filter p (filter q xs)) (filter s xs)
    ∙ ap (λ b. b || any r (filter s xs)) (any-filter r p (filter q xs))
    ∙ ap (λ b. b || any r (filter s xs)) (any-filter (λ x. p x && r x) q xs)
    ∙ ap (λ b. any (λ x. q x && (p x && r x)) xs || b) (any-filter r s xs)
    ∙ any_or p q s r xs

-- The recipients by the test on users.
recipients-any :
    (e : Rules) (t : AlertTemplate) (o : ℕ) (scope : List ℕ) (i : ℕ)
    → has_id i (resolve_recipients e t (o ∷ scope))
      ≡ any (λ u. is_told e t (o ∷ scope) u && u.id == i) e.users
unfolding resolve_recipients
recipients-any e t o scope i =
    let chosen = λ (u : User). not (opts_out t (get_pref e.prefs u.id t.code)) in
    let found =
      any-chosen chosen (is_org_admin (o ∷ scope)) is_active_super (λ u. u.id == i) e.users in
    dedup-has_id i [] _ ∙ and_true _ ∙ found

-- For a rule about at least one organisation, the recipients are distinct, and an id is among them exactly if it is
-- the id of an active user with a role of super administrators, or of an active user of one of the organisations
-- with a role of their administrators, whose choice does not opt out: one that mutes the alert, or, where the
-- template lets users choose the severity, asks for a higher severity than the template's.
pub resolve_recipients_iff :
    (e : Rules) (t : AlertTemplate) (o : ℕ) (scope : List ℕ)
    → AllDistinct (resolve_recipients e t (o ∷ scope))
      × ((i : ℕ)
          → (has_id i (resolve_recipients e t (o ∷ scope)) ≡ true)
            ↔ ((u : User) × Memᴰ u e.users × (u.id ≡ i) × Told e t (o ∷ scope) u))
unfolding resolve_recipients
resolve_recipients_iff e t o scope = (
  dedup-AllDistinct [] _,
  λ i. (
    λ h.
        let (u, m, k) =
          any_found (λ u. is_told e t (o ∷ scope) u && u.id == i) e.users
            (sym (recipients-any e t o scope i) ∙ h) in
        (u, m, ground arith, (is_told_iff e t (o ∷ scope) u).0 (ground arith)),
    λ (u, m, q, told).
        let chosen = (is_told_iff e t (o ∷ scope) u).1 told in
        recipients-any e t o scope i
        ∙ any_here (λ u. is_told e t (o ∷ scope) u && u.id == i) e.users u m (ground arith),
  ),
)
