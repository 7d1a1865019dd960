-- ===== src/Dfir/Capacity.antt =====
-- The slots of DeepAgent: how many rows a claim takes, which ones, and how many rows a whole tick
-- leaves analyzing.
use mathlib.Core.List.{Perm}
use mathlib.Core.List.Perm
use it_asset_inventory.Base.{
  ℕ, zero, suc, ◌+◌, ◌-◌, ◌≤◌, min, String, ◌≡◌, refl, ap, inl, inr, Bool, true, false, ◌&&◌, List,
  [], ◌∷◌, ◌++◌, map, arith, eq_iff, leb, leb→le, Bool-cases, str_eq, length, take, drop, filter,
  count, All, length-take-le, length-take,
}
use it_asset_inventory.Dfir.Queue.{
  is_active, is_waiting, insert_by_created, sort_by_created, has_id, reserve, picked,
  claim_deepagent_dispatches,
}
use it_asset_inventory.Dfir.Table.{IsKeyed, All-insert}
use it_asset_inventory.Dfir.Types.{Inv}
use it_asset_inventory.Dfir.Worker.{put}

abbrev pub slots : List Inv → ℕ
slots = count is_active

-- A claim takes at most the free slots.
pub length-claim :
    (free : Inv → Bool) (capacity : ℕ) (rows : List Inv)
    → length (claim_deepagent_dispatches free capacity rows).0 ≤ capacity - slots rows
unfolding claim_deepagent_dispatches picked
length-claim free capacity rows = ground (
  arith,
  length-map-reserve
      (take (capacity - slots rows) (sort_by_created (filter (λ i. is_waiting i && free i) rows))),
  length-take-le (capacity - slots rows)
      (sort_by_created (filter (λ i. is_waiting i && free i) rows)),
)
  where
    length-map-reserve : (l : List Inv) → length (map reserve l) ≡ length l
    length-map-reserve [] = refl
    length-map-reserve (i ∷ is) = ap suc (length-map-reserve is)

abbrev NotNewer : ℕ → List Inv → Type 0
NotNewer t = All (λ i. t ≤ i.created_at)

-- Every row is no newer than the rows behind it.
abbrev pub IsFifo : List Inv → Type 0
IsFifo [] = Unit
IsFifo (i ∷ is) = NotNewer i.created_at is × IsFifo is

NotNewer-trans : (s t : ℕ) (rows : List Inv) → s ≤ t → NotNewer t rows → NotNewer s rows
NotNewer-trans s t [] h hs = tt
NotNewer-trans s t (i ∷ is) h hs = (omega arith, NotNewer-trans s t is h hs.1)

insert-IsFifo : (i : Inv) (rows : List Inv) → IsFifo rows → IsFifo (insert_by_created i rows)
insert-IsFifo i [] h = (tt, tt)
insert-IsFifo i (j ∷ rows) h = elim (Bool-cases (leb i.created_at j.created_at)) [
  | inl e ↦
      let le = leb→le i.created_at j.created_at e in
      rw e ((le, NotNewer-trans i.created_at j.created_at rows le h.0), h)
  | inr e ↦ rw e (
    All-insert (λ k. j.created_at ≤ k.created_at) i rows (ground arith) h.0,
    insert-IsFifo i rows h.1,
  )
]

sort-IsFifo : (rows : List Inv) → IsFifo (sort_by_created rows)
sort-IsFifo [] = tt
sort-IsFifo (i ∷ rows) = insert-IsFifo i (sort_by_created rows) (sort-IsFifo rows)

insert-perm : (i : Inv) (rows : List Inv) → Perm (insert_by_created i rows) (i ∷ rows)
insert-perm i [] = Perm.refl (i ∷ [])
insert-perm i (j ∷ rows) = elim (Bool-cases (leb i.created_at j.created_at)) [
  | inl e ↦ rw e (Perm.refl (i ∷ j ∷ rows))
  | inr e ↦ rw e (Perm.trans (Perm.cons j (insert-perm i rows)) (Perm.swap i j rows))
]

sort-perm : (rows : List Inv) → Perm (sort_by_created rows) rows
sort-perm [] = Perm.refl []
sort-perm (i ∷ rows) =
    Perm.trans (insert-perm i (sort_by_created rows)) (Perm.cons i (sort-perm rows))

take-append-drop : (n : ℕ) (rows : List Inv) → take n rows ++ drop n rows ≡ rows
take-append-drop zero rows = refl
take-append-drop (suc n) [] = refl
take-append-drop (suc n) (i ∷ rows) = rw (take-append-drop n rows)

-- The picked rows and the rows left waiting are together, in order of age, the unlocked rows that wait, and as many are
-- picked as there are free slots, or all of them if fewer wait.
pub picked-IsFifo :
    (free : Inv → Bool) (capacity : ℕ) (rows : List Inv)
    → (rest : List Inv) × Perm
        (picked free capacity rows ++ rest)
        (filter (λ i. is_waiting i && free i) rows)
      × IsFifo (picked free capacity rows ++ rest)
      × (length (picked free capacity rows)
          ≡ min (capacity - slots rows) (length (picked free capacity rows ++ rest)))
unfolding picked
picked-IsFifo free capacity rows =
    let waiting = filter (λ i. is_waiting i && free i) rows in
    let n = capacity - slots rows in
    let whole = take-append-drop n (sort_by_created waiting) in
    (
      drop n (sort_by_created waiting),
      rw whole (sort-perm waiting),
      rw whole (sort-IsFifo waiting),
      rw whole (length-take n (sort_by_created waiting)),
    )

-- Writing a row back raises the number of slots by one at most, and not at all if the row holds no slot.
pub slots-put_le :
    (i : Inv) (rows : List Inv) → has_id i.id rows ≡ false → slots (put i rows) ≡ slots rows
slots-put_le i [] h = refl
slots-put_le i (j ∷ rows) h = ground (arith, slots-put_le i rows)

pub slots-put : (i : Inv) (rows : List Inv) → IsKeyed rows → slots (put i rows) ≤ slots rows + 1
slots-put i [] k = omega arith
slots-put i (j ∷ rows) k =
    ground (arith, slots-put i rows k.1, slots-put_le i rows, eq_iff j.id i.id)

pub slots-put_inactive :
    (i : Inv) (rows : List Inv) → is_active i ≡ false → slots (put i rows) ≤ slots rows
slots-put_inactive i [] h = omega arith
slots-put_inactive i (j ∷ rows) h = ground (arith, slots-put_inactive i rows h)

-- Every row of this identifier holds a slot.
abbrev pub Holds : String → List Inv → Type 0
Holds x [] = Unit
Holds x (j ∷ rows) = (str_eq j.id x ≡ true → is_active j ≡ true) × Holds x rows

pub slots-put_active :
    (i : Inv) (rows : List Inv) → Holds i.id rows → slots (put i rows) ≤ slots rows
slots-put_active i [] h = omega arith
slots-put_active i (j ∷ rows) h = ground (arith, slots-put_active i rows h.1, h.0)

pub Holds-put_ne :
    (x : String) (i : Inv) (rows : List Inv)
    → str_eq i.id x ≡ false
    → Holds x rows
    → Holds x (put i rows)
Holds-put_ne x i [] e h = tt
Holds-put_ne x i (j ∷ rows) e h = (
  elim (Bool-cases (str_eq j.id i.id)) [ inl s ↦ rw s (λ t. ground arith) | inr s ↦ rw s h.0 ],
  Holds-put_ne x i rows e h.1,
)
