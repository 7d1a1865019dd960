-- ===== src/Tags/Each.antt =====
-- The number of classifications of each machine.
use it_asset_inventory.Base.{
  ℕ, ◌≤◌, String, ◌≡◌, refl, ◌∙◌, subst, inl, inr, Bool, true, not, ◌||◌, Option, none, some, List,
  [], ◌∷◌, ◌++◌, arith, eq_iff, Bool-cases, Option-cases, str_eq, is_some, text_or, text_of, filter,
  count, any, count-append, one_of,
}
use it_asset_inventory.Tags.{
  classification_keys, default_classification, get_tag_by_key, ensure_system_tag,
  ensure_system_tags, classifies, assign, known_key, ensure_classification,
  set_machine_classification, set_machine_purpose_tags, apply_token_tags, Tag, MachineTag,
  classification,
}
use it_asset_inventory.Tags.Single.{count-kept, any-count, any-count_pos, set_purpose-count}

-- Every machine has at most one classification.
abbrev pub OneEach : List MachineTag → Type 0
OneEach rows = (m : ℕ) → count (classifies m) rows ≤ 1

set_classification-OneEach :
    (tags : List Tag) (m : ℕ) (key : String) (actor : Option ℕ) (rows : List MachineTag)
    → OneEach rows
    → OneEach (set_machine_classification tags m key actor rows).1
unfolding set_machine_classification
set_classification-OneEach tags m key actor rows one n =
    let kept = filter (λ r. not (classifies m r)) rows in
    elim (Option-cases (get_tag_by_key tags key)) [
      | inl e ↦ ground (arith, one n)
      | inr (tag, e) ↦
          let split =
            count-append (classifies n) kept (assign m tag.id classification actor ∷ []) in
          ground (arith, split, one n, count-kept m n rows)
    ]

ensure-OneEach :
    (tags : List Tag) (m : ℕ) (key : String) (actor : Option ℕ) (rows : List MachineTag)
    → OneEach rows
    → OneEach (ensure_classification tags m key actor rows)
unfolding ensure_classification
ensure-OneEach tags m key actor rows one n =
    elim (Option-cases (get_tag_by_key tags (known_key key))) [
      | inl e ↦ rw (e, ensure_classification) (one n)
      | inr (tag, e) ↦
          let new = assign m tag.id classification actor in
          let split = count-append (classifies n) rows (new ∷ []) in
          elim (Bool-cases (any (classifies m) rows)) [
            | inl h ↦ rw (e, h, ensure_classification) (one n)
            | inr h ↦
                rw (e, h, ensure_classification) (ground (arith, split, one n, any-count m rows h))
          ]
    ]

-- Each of the three operations on the rows keeps every machine at one classification at most.
tags-OneEach :
    (tags : List Tag) (m : ℕ) (key : String) (chosen : Option String) (keys : List String)
    (actor : Option ℕ) (rows : List MachineTag)
    → OneEach rows
    → OneEach (set_machine_classification tags m key actor rows).1
      × OneEach (set_machine_purpose_tags tags m keys actor rows)
      × OneEach (apply_token_tags tags m chosen keys actor rows)
unfolding apply_token_tags
tags-OneEach tags m key chosen keys actor rows one = (
  set_classification-OneEach tags m key actor rows one,
  λ n. rw (set_purpose-count n tags m keys actor rows) (one n),
  applied keys,
)
  where
    name : String
    name = text_of (text_or chosen (some default_classification))

    applied : (ks : List String) → OneEach (apply_token_tags tags m chosen ks actor rows)
    applied [] n = ensure-OneEach tags m name actor rows one n
    applied (k ∷ ks) n =
        rw
          (set_purpose-count n tags m (k ∷ ks) actor (ensure_classification tags m name actor rows))
          (ensure-OneEach tags m name actor rows one n)

-- A key that a tag has.
abbrev pub is_known : List Tag → String → Bool
is_known tags key = is_some (get_tag_by_key tags key)

is_known-append :
    (key : String) (xs ys : List Tag) → is_known (xs ++ ys) key ≡ is_known xs key || is_known ys key
is_known-append key [] ys = refl
is_known-append key (x ∷ xs) ys = ground (arith, is_known-append key xs ys)

is_known-ensure :
    (fresh idx : ℕ) (key label k : String) (tags : List Tag)
    → is_known (ensure_system_tag fresh idx key label tags) k ≡ is_known tags k || str_eq key k
is_known-ensure fresh idx key label k tags = elim (Option-cases (get_tag_by_key tags key)) [
  | inl e ↦ rw (e, ensure_system_tag) (is_known-append k tags _ ∙ ground arith)
  | inr (t, e) ↦
      rw (e, ensure_system_tag)
        (elim (Bool-cases (str_eq key k)) [
          | inl h ↦
              let same : key ≡ k = ground (arith, eq_iff key k) in
              let known : is_some (get_tag_by_key tags k) ≡ true =
                subst (λ x. is_some (get_tag_by_key tags x) ≡ true) same (rw e refl) in
              ground arith
          | inr h ↦ ground arith
        ])
]

seeded-known :
    (fresh : ℕ) (k : String) (tags : List Tag)
    → one_of k classification_keys ≡ true
    → is_known (ensure_system_tags fresh tags) k ≡ true
unfolding ensure_system_tags one_of
seeded-known fresh k tags h =
    let t1 = ensure_system_tag fresh 1 "personal" "Máy cá nhân" tags in
    let t2 = ensure_system_tag fresh 2 "official" "Máy công vụ" t1 in
    let one = is_known-ensure fresh 1 "personal" "Máy cá nhân" k tags in
    let two = is_known-ensure fresh 2 "official" "Máy công vụ" k t1 in
    let three = is_known-ensure fresh 3 "bmnn" "Máy BMNN" k t2 in
    rw (three, two, one)
      (ground (
        arith,
        eq_iff "personal" k,
        eq_iff "official" k,
        eq_iff "bmnn" k,
        eq_iff k "personal",
        eq_iff k "official",
        eq_iff k "bmnn",
      ))

known_key-one_of : (key : String) → one_of (known_key key) classification_keys ≡ true
unfolding one_of
known_key-one_of key = elim (Bool-cases (one_of key classification_keys)) [
  | inl e ↦ rw (e, known_key) e
  | inr e ↦ rw (e, known_key) refl
]

ensured_one :
    (tags : List Tag) (m : ℕ) (key : String) (actor : Option ℕ) (rows : List MachineTag)
    → OneEach rows
    → is_known tags (known_key key) ≡ true
    → count (classifies m) (ensure_classification tags m key actor rows) ≡ 1
unfolding ensure_classification
ensured_one tags m key actor rows one known =
    elim (Option-cases (get_tag_by_key tags (known_key key))) [
      | inl e ↦ let g : is_some {A = Tag} none ≡ true = subst (λ o. is_some o ≡ true) e known in cc
      | inr (tag, e) ↦
          let new = assign m tag.id classification actor in
          let split = count-append (classifies m) rows (new ∷ []) in
          elim (Bool-cases (any (classifies m) rows)) [
            | inl h ↦
                rw (e, h, ensure_classification) (omega (arith, one m, any-count_pos m rows h))
            | inr h ↦ rw (e, h, ensure_classification) (ground (arith, split, any-count m rows h))
          ]
    ]

-- Once the system's tags are seeded, a machine that the tags of an enrolment token are applied to has exactly
-- one classification, whatever the token asks for, if no machine had more than one before.
pub apply_token_tags-one :
    (fresh m : ℕ) (chosen : Option String) (keys : List String) (actor : Option ℕ) (tags : List Tag)
    (rows : List MachineTag)
    → OneEach rows
    → count
        (classifies m)
        (apply_token_tags (ensure_system_tags fresh tags) m chosen keys actor rows)
      ≡ 1
apply_token_tags-one fresh m chosen keys actor tags rows one = at_all keys
  where
    seeded : List Tag
    seeded = ensure_system_tags fresh tags

    name : String
    name = text_of (text_or chosen (some default_classification))

    ensured : count (classifies m) (ensure_classification seeded m name actor rows) ≡ 1
    ensured =
        ensured_one seeded m name actor rows one
          (seeded-known fresh (known_key name) tags (known_key-one_of name))

    at_all :
        (ks : List String)
        → count (classifies m) (apply_token_tags seeded m chosen ks actor rows) ≡ 1
    at_all [] = unfold apply_token_tags in ensured
    at_all (k ∷ ks) =
        unfold apply_token_tags in
        rw
          (set_purpose-count m seeded m (k ∷ ks) actor
            (ensure_classification seeded m name actor rows))
          ensured
