-- ===== src/Agent/Again.antt =====
-- What a repeated request does.
use it_asset_inventory.Agent.Jobs.{create_investigation, is_for, new_job, Job}
use it_asset_inventory.Base.{
  String, ◌≡◌, refl, inl, inr, true, none, some, List, [], ◌∷◌, ◌++◌, Bool-cases, Option-cases,
  find?,
}
use text.Mathlib.TextPositions.{eq_refl}

create-found :
    (i : String) (jobs : List Job) (j : Job)
    → find? (is_for i) jobs ≡ some j
    → create_investigation i jobs ≡ (j, jobs)
unfolding create_investigation
create-found i jobs j n = rw (n, create_investigation) refl

create-new :
    (i : String) (jobs : List Job)
    → find? (is_for i) jobs ≡ none
    → create_investigation i jobs ≡ (new_job i, jobs ++ new_job i ∷ [])
unfolding create_investigation
create-new i jobs n = rw (n, create_investigation) refl

-- A request for an investigation that was asked for before is answered with its job and changes nothing.
pub create_twice :
    (i : String) (jobs : List Job)
    → let first = create_investigation i jobs in create_investigation i first.1 ≡ (first.0, first.1)
create_twice i jobs = elim (Option-cases (find? (is_for i) jobs)) [
  | inr (j, n) ↦ rw (create-found i jobs j n) (create-found i jobs j n)
  | inl n ↦
      rw (create-new i jobs n) (create-found i (jobs ++ new_job i ∷ []) (new_job i) (last jobs n))
]
  where
    last :
        (xs : List Job)
        → find? (is_for i) xs ≡ none
        → find? (is_for i) (xs ++ new_job i ∷ []) ≡ some (new_job i)
    last [] e = let own : is_for i (new_job i) ≡ true = eq_refl i in rw own refl
    last (x ∷ xs) e = elim (Bool-cases (is_for i x)) [
      | inl h ↦ let e' = rw h at e in cc
      | inr h ↦ rw h (last xs (rw h at e))
    ]
