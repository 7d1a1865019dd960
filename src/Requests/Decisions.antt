-- ===== src/Requests/Decisions.antt =====
-- The trail of decisions under any calls of any callers.
use it_asset_inventory.Access.Guards.{
  user_by_id, require_super_admin, Guarded, unauthorized, forbidden, ok,
}
use it_asset_inventory.Access.Roles.{require_role_iff}
use it_asset_inventory.Access.Types.{super_admin_roles, is_super_admin, User}
use it_asset_inventory.Base.{
  ℕ, ◌≡◌, refl, sym, ◌∙◌, subst, inl, inr, true, some, List, [], ◌∷◌, arith, ◌==◌, Bool-cases,
}
use it_asset_inventory.Requests.Handle.{
  approve, reject, create, guarded, create_as, create_request, approve_as, reject_as, complete_as,
  patch_as, serve, serve_all, RequestCall, complete, patch,
}
use it_asset_inventory.Requests.Trail.{
  is_reviewer, Traced, Keeps, create-Traced, approve-Traced, reject-Traced, complete-Traced,
  patch-Traced,
}
use it_asset_inventory.Requests.Types.{Db, Answer, Caller}

-- The user that a guard for super administrators lets through.
reviewer_found :
    (i : ℕ) (u : User) (users : List User)
    → user_by_id i users ≡ some u
    → is_super_admin u ≡ true
    → is_reviewer users u.id ≡ true
reviewer_found i u [] n s = cc
reviewer_found i u (x ∷ users) n s = elim (Bool-cases (x.id == i)) [
  | inl h ↦
      let n' = rw h at n in
      let same : x ≡ u = cc in
      subst (λ (y : User). is_reviewer (y ∷ users) u.id ≡ true) (sym same) (ground arith)
  | inr h ↦ let later = reviewer_found i u users (rw h at n) s in ground arith
]

super-reviewer :
    (k : Caller) (db : Db) (u : User)
    → require_super_admin k.decode k.credentials db.users ≡ ok u
    → is_reviewer db.users u.id ≡ true
super-reviewer k db u e =
    let ((token, i, c, d, n), p) =
      (require_role_iff super_admin_roles k.decode k.credentials db.users u).0.0 e in
    reviewer_found i u db.users n (ground arith)

guarded-Keeps :
    (g : Guarded User) (handler : User → Answer × Db) (db : Db)
    → Traced db
    → ((u : User) → g ≡ ok u → Keeps db (handler u).1)
    → Keeps db (guarded g handler db).1
guarded-Keeps unauthorized handler db t keep = (refl, t)
guarded-Keeps forbidden handler db t keep = (refl, t)
guarded-Keeps (ok u) handler db t keep = keep u refl

serve-Traced : (k : Caller) (c : RequestCall) (db : Db) → Traced db → Keeps db (serve k c db).1
unfolding serve create_request
serve-Traced k (create body fresh started) db t =
    guarded-Keeps _ (create_as body fresh started db) db t
      (λ u e. create-Traced body fresh started db u t)
serve-Traced k (approve i) db t =
    guarded-Keeps _ (approve_as i db) db t
      (λ u e. approve-Traced i db u (super-reviewer k db u e) t)
serve-Traced k (reject i body) db t =
    guarded-Keeps _ (reject_as i body db) db t
      (λ u e. reject-Traced i body db u (super-reviewer k db u e) t)
serve-Traced k (complete i body now) db t =
    guarded-Keeps _ (complete_as i body now db) db t (λ u e. complete-Traced i body now db u t)
serve-Traced k (patch i body now) db t =
    guarded-Keeps _ (patch_as i body now db) db t
      (λ u e. patch-Traced i body now db u (super-reviewer k db u e) t)

-- If every request is traced, this is so after any calls of any callers, in any order: one that is approved,
-- rejected or completed names a user of the table with a role of super administrators as its reviewer, one has an
-- end exactly if it is completed or failed, and only such a request names a flow.
pub serve_all-Traced :
    (calls : List (Caller × RequestCall)) (db : Db) → Traced db → Keeps db (serve_all calls db)
unfolding serve_all
serve_all-Traced [] db t = (refl, t)
serve_all-Traced ((k, c) ∷ calls) db t =
    let (same, t') = serve-Traced k c db t in
    let (same', t'') = serve_all-Traced calls (serve k c db).1 t' in (same' ∙ same, t'')
