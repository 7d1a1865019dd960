-- ===== src/Tags/Single.antt =====
-- The rows of one machine, by the kind of their tags.
use it_asset_inventory.Base.{
  ℕ, ◌≤◌, String, ◌≡◌, refl, ap, ◌∙◌, ◌⊎◌, inl, inr, Bool, true, false, not, ◌&&◌, Option, some,
  List, [], ◌∷◌, ◌++◌, arith, ◌==◌, if◌then◌else◌, Bool-cases, Option-cases, is_some, filter, count,
  any, count-append, append_nil, filter-append, one_of,
}
use it_asset_inventory.Tags.{
  classification_keys, get_tag_by_key, classifies, has_purpose, assign, set_machine_classification,
  dedupe, is_purpose_key, purpose_rows, set_machine_purpose_tags, Tag, MachineTag, classification,
}

-- The rows that a test refuses hold none that it admits.
filter-not :
    {A : Type 0} (p : A → Bool) (xs : List A)
    → (filter p (filter (λ x. not (p x)) xs) ≡ [])
      × (filter (λ x. not (p x)) (filter (λ x. not (p x)) xs) ≡ filter (λ x. not (p x)) xs)
filter-not p [] = (refl, refl)
filter-not p (x ∷ xs) =
    let (none_left, all_left) = filter-not p xs in
    elim (Bool-cases (p x)) [
      | inl e ↦ rw e (none_left, all_left)
      | inr e ↦ rw (e, e) (none_left, ap (λ ys. x ∷ ys) all_left)
    ]

-- What a change of the classification leaves: with a key of the three whose tag exists, the machine's only
-- classification is this tag, and every other row stays; otherwise nothing changes.
set_machine_classification_lem :
    (tags : List Tag) (m : ℕ) (key : String) (actor : Option ℕ) (rows : List MachineTag)
    → let after = set_machine_classification tags m key actor rows in
      ((one_of key classification_keys && is_some (get_tag_by_key tags key) ≡ false)
        × (after ≡ (false, rows)))
      ⊎ ((tag : Tag) × (get_tag_by_key tags key ≡ some tag)
          × (one_of key classification_keys ≡ true)
          × (after.0 ≡ true)
          × (filter (classifies m) after.1 ≡ assign m tag.id classification actor ∷ [])
          × (filter (λ r. not (classifies m r)) after.1 ≡ filter (λ r. not (classifies m r)) rows))
unfolding set_machine_classification
set_machine_classification_lem tags m key actor rows =
    elim (Bool-cases (one_of key classification_keys)) [
      | inr k ↦ inl (ground arith, ground arith)
      | inl k ↦ elim (Option-cases (get_tag_by_key tags key)) [
        | inl e ↦ inl (rw (e, k) refl, rw (k, e) refl)
        | inr (tag, e) ↦
            let new = assign m tag.id classification actor in
            let own : classifies m new ≡ true = ground arith in
            let kept = filter (λ r. not (classifies m r)) rows in
            let (none_left, all_left) = filter-not (classifies m) rows in
            inr (
              rw (k, e)
                (
                  tag,
                  refl,
                  refl,
                  refl,
                  filter-append (classifies m) kept (new ∷ []) ∙ rw (own, none_left) refl,
                  filter-append (λ r. not (classifies m r)) kept (new ∷ [])
                      ∙ rw own (append_nil _ ∙ all_left),
                ))
      ]
    ]

-- A row of another machine or of the other kind counts for nothing.
pub count-kept :
    (m n : ℕ) (rows : List MachineTag)
    → count (classifies n) (filter (λ r. not (classifies m r)) rows)
      ≤ (if m == n then 0 else count (classifies n) rows)
count-kept m n [] = ground arith
count-kept m n (r ∷ rows) = ground (arith, count-kept m n rows)

count-purposes :
    (n m : ℕ) (rows : List MachineTag)
    → count (classifies n) (filter (λ r. not (has_purpose m r)) rows) ≡ count (classifies n) rows
count-purposes n m [] = refl
count-purposes n m (r ∷ rows) = ground (arith, count-purposes n m rows)

count-purpose_rows :
    (n : ℕ) (tags : List Tag) (m : ℕ) (actor : Option ℕ) (keys : List String)
    → count (classifies n) (purpose_rows tags m actor keys) ≡ 0
unfolding purpose_rows
count-purpose_rows n tags m actor [] = refl
count-purpose_rows n tags m actor (k ∷ ks) = elim (Option-cases (get_tag_by_key tags k)) [
  | inl e ↦ rw (e, count) (count-purpose_rows n tags m actor ks)
  | inr (tag, e) ↦ rw (e, count) (ground (arith, count-purpose_rows n tags m actor ks))
]

pub any-count :
    (m : ℕ) (rows : List MachineTag)
    → any (classifies m) rows ≡ false
    → count (classifies m) rows ≡ 0
any-count m [] h = refl
any-count m (r ∷ rows) h = ground (arith, any-count m rows)

pub any-count_pos :
    (m : ℕ) (rows : List MachineTag)
    → any (classifies m) rows ≡ true
    → 1 ≤ count (classifies m) rows
any-count_pos m [] h = cc
any-count_pos m (r ∷ rows) h = ground (arith, any-count_pos m rows)

pub set_purpose-count :
    (n : ℕ) (tags : List Tag) (m : ℕ) (keys : List String) (actor : Option ℕ)
    (rows : List MachineTag)
    → count (classifies n) (set_machine_purpose_tags tags m keys actor rows)
      ≡ count (classifies n) rows
unfolding set_machine_purpose_tags
set_purpose-count n tags m keys actor rows =
    let valid = filter (is_purpose_key tags) (dedupe [] keys) in
    let split =
      count-append (classifies n) (filter (λ r. not (has_purpose m r)) rows)
        (purpose_rows tags m actor valid) in
    omega (arith, split, count-purposes n m rows, count-purpose_rows n tags m actor valid)

purpose_rows-kept :
    (tags : List Tag) (m : ℕ) (actor : Option ℕ) (keys : List String)
    → filter (λ r. not (has_purpose m r)) (purpose_rows tags m actor keys) ≡ []
unfolding purpose_rows
purpose_rows-kept tags m actor [] = refl
purpose_rows-kept tags m actor (k ∷ ks) = elim (Option-cases (get_tag_by_key tags k)) [
  | inl e ↦ rw (e, filter) (purpose_rows-kept tags m actor ks)
  | inr (tag, e) ↦ rw (e, filter) (ground (arith, purpose_rows-kept tags m actor ks))
]

-- A choice of purposes leaves the classifications and the rows of other machines as they are, and a later
-- choice replaces an earlier one entirely.
set_purposes_last :
    (tags : List Tag) (m : ℕ) (keys later : List String) (actor by : Option ℕ)
    (rows : List MachineTag)
    → let after = set_machine_purpose_tags tags m keys actor rows in
      (filter (λ r. not (has_purpose m r)) after ≡ filter (λ r. not (has_purpose m r)) rows)
      × (set_machine_purpose_tags tags m later by after
          ≡ set_machine_purpose_tags tags m later by rows)
unfolding set_machine_purpose_tags
set_purposes_last tags m keys later actor by rows =
    let valid = filter (is_purpose_key tags) (dedupe [] keys) in
    let new = purpose_rows tags m by (filter (is_purpose_key tags) (dedupe [] later)) in
    let kept = filter (λ r. not (has_purpose m r)) rows in
    let same : filter (λ r. not (has_purpose m r)) (kept ++ purpose_rows tags m actor valid)
        ≡ kept =
      filter-append (λ r. not (has_purpose m r)) kept (purpose_rows tags m actor valid)
      ∙ rw (purpose_rows-kept tags m actor valid)
          (append_nil _ ∙ (filter-not (has_purpose m) rows).1) in
    (same, ap (λ ks. ks ++ new) same)
