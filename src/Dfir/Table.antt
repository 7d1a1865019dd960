-- ===== src/Dfir/Table.antt =====
-- The table of investigations as a keyed table: writing rows back, and choosing rows from it.
use it_asset_inventory.Base.{
  ℕ, zero, suc, String, ◌≡◌, refl, ◌∙◌, inl, inr, Bool, true, false, ◌||◌, some, List, [], ◌∷◌,
  arith, eq_iff, leb, Bool-cases, str_eq, take, filter, All,
}
use it_asset_inventory.Dfir.External.{find_row}
use it_asset_inventory.Dfir.Queue.{insert_by_created, sort_by_created, has_id}
use it_asset_inventory.Dfir.Types.{Inv}
use it_asset_inventory.Dfir.Worker.{put}

-- No identifier stands twice.
abbrev pub IsKeyed : List Inv → Type 0
IsKeyed [] = Unit
IsKeyed (i ∷ is) = (has_id i.id is ≡ false) × IsKeyed is

pub str_eq_refl : (x : String) → str_eq x x ≡ true
str_eq_refl x = (eq_iff x x).1 refl

pub str_eq_comm : (x y : String) → str_eq x y ≡ str_eq y x
str_eq_comm x y = ground (arith, eq_iff x y, eq_iff y x)

-- Writing a row back keeps every identifier in its place.
has_id-put : (x : String) (i : Inv) (rows : List Inv) → has_id x (put i rows) ≡ has_id x rows
has_id-put x i [] = refl
has_id-put x i (j ∷ rows) = ground (arith, has_id-put x i rows, eq_iff j.id i.id)

pub put-IsKeyed : (i : Inv) (rows : List Inv) → IsKeyed rows → IsKeyed (put i rows)
put-IsKeyed i [] k = tt
put-IsKeyed i (j ∷ rows) k =
    ground (arith, put-IsKeyed i rows k.1, has_id-put j.id i rows, eq_iff j.id i.id)

-- A row of another identifier is found as before.
pub find_row-put_ne :
    (x : String) (i : Inv) (rows : List Inv)
    → str_eq i.id x ≡ false
    → find_row x (put i rows) ≡ find_row x rows
find_row-put_ne x i [] h = refl
find_row-put_ne x i (j ∷ rows) h =
    ground (arith, find_row-put_ne x i rows h, eq_iff j.id i.id, eq_iff i.id x)

-- The written row is found where a row of its identifier stands.
pub find_row-put_self :
    (i : Inv) (rows : List Inv) → has_id i.id rows ≡ true → find_row i.id (put i rows) ≡ some i
find_row-put_self i [] h = cc
find_row-put_self i (j ∷ rows) h =
    ground (arith, find_row-put_self i rows, eq_iff j.id i.id, str_eq_refl i.id)

-- Choosing rows: by a test, in order of time, at most so many.
pub has_id-filter :
    (x : String) (p : Inv → Bool) (rows : List Inv)
    → has_id x rows ≡ false
    → has_id x (filter p rows) ≡ false
has_id-filter x p [] h = refl
has_id-filter x p (j ∷ rows) h = ground (arith, has_id-filter x p rows)

pub filter-IsKeyed : (p : Inv → Bool) (rows : List Inv) → IsKeyed rows → IsKeyed (filter p rows)
filter-IsKeyed p [] k = tt
filter-IsKeyed p (j ∷ rows) k =
    ground (arith, filter-IsKeyed p rows k.1, has_id-filter j.id p rows k.0)

has_id-insert :
    (x : String) (i : Inv) (rows : List Inv)
    → has_id x (insert_by_created i rows) ≡ (str_eq i.id x || has_id x rows)
has_id-insert x i [] = refl
has_id-insert x i (j ∷ rows) = ground (arith, has_id-insert x i rows)

insert-IsKeyed :
    (i : Inv) (rows : List Inv)
    → has_id i.id rows ≡ false
    → IsKeyed rows
    → IsKeyed (insert_by_created i rows)
insert-IsKeyed i [] h k = (refl, tt)
insert-IsKeyed i (j ∷ rows) h k =
    ground (arith, insert-IsKeyed i rows, has_id-insert j.id i rows, str_eq_comm i.id j.id)

pub has_id-sort : (x : String) (rows : List Inv) → has_id x (sort_by_created rows) ≡ has_id x rows
has_id-sort x [] = refl
has_id-sort x (i ∷ rows) =
    has_id-insert x i (sort_by_created rows) ∙ ground (arith, has_id-sort x rows)

pub sort-IsKeyed : (rows : List Inv) → IsKeyed rows → IsKeyed (sort_by_created rows)
sort-IsKeyed [] k = tt
sort-IsKeyed (i ∷ rows) k =
    insert-IsKeyed i (sort_by_created rows) (has_id-sort i.id rows ∙ k.0) (sort-IsKeyed rows k.1)

pub has_id-take :
    (x : String) (n : ℕ) (rows : List Inv) → has_id x rows ≡ false → has_id x (take n rows) ≡ false
has_id-take x zero rows h = refl
has_id-take x (suc n) [] h = refl
has_id-take x (suc n) (j ∷ rows) h = ground (arith, has_id-take x n rows)

take-IsKeyed : (n : ℕ) (rows : List Inv) → IsKeyed rows → IsKeyed (take n rows)
take-IsKeyed zero rows k = tt
take-IsKeyed (suc n) [] k = tt
take-IsKeyed (suc n) (j ∷ rows) k = (has_id-take j.id n rows k.0, take-IsKeyed n rows k.1)

-- What holds of every row holds of every chosen row.
pub All-filter :
    (P : Inv → Type 0) (p : Inv → Bool) (rows : List Inv) → All P rows → All P (filter p rows)
All-filter P p [] h = tt
All-filter P p (j ∷ rows) h = elim (Bool-cases (p j)) [
  | inl e ↦ rw e (h.0, All-filter P p rows h.1)
  | inr e ↦ rw e (All-filter P p rows h.1)
]

pub All-test : (p : Inv → Bool) (rows : List Inv) → All (λ i. p i ≡ true) (filter p rows)
All-test p [] = tt
All-test p (j ∷ rows) = elim (Bool-cases (p j)) [
  | inl e ↦ rw e (e, All-test p rows)
  | inr e ↦ rw e (All-test p rows)
]

pub All-insert :
    (P : Inv → Type 0) (i : Inv) (rows : List Inv)
    → P i
    → All P rows
    → All P (insert_by_created i rows)
All-insert P i [] h hs = (h, tt)
All-insert P i (j ∷ rows) h hs = elim (Bool-cases (leb i.created_at j.created_at)) [
  | inl e ↦ rw e (h, hs)
  | inr e ↦ rw e (hs.0, All-insert P i rows h hs.1)
]

pub All-sort : (P : Inv → Type 0) (rows : List Inv) → All P rows → All P (sort_by_created rows)
All-sort P [] h = tt
All-sort P (i ∷ rows) h = All-insert P i (sort_by_created rows) h.0 (All-sort P rows h.1)

pub All-take : (P : Inv → Type 0) (n : ℕ) (rows : List Inv) → All P rows → All P (take n rows)
All-take P zero rows h = tt
All-take P (suc n) [] h = tt
All-take P (suc n) (j ∷ rows) h = (h.0, All-take P n rows h.1)
