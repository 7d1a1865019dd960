-- ===== src/Requests/Trail.antt =====
-- Every decision on a request can be traced to a super administrator.
use it_asset_inventory.Access.Types.{is_super_admin, User}
use it_asset_inventory.Base.{
  ℕ, ◌≡◌, refl, inl, inr, Bool, true, false, not, ◌&&◌, ◌||◌, none, some, List, [], ◌∷◌, arith,
  ◌==◌, Bool-cases, Option-cases, str_eq, is_some, any, all, all-append, all-update, all-find?,
}
use it_asset_inventory.Requests.Handle.{
  is_pending, request_by_id, put_request, new_request, create_as, can_reject, can_complete,
  approved_by, rejected_by, completed_with, failed_with, approve_as, reject_as, complete_as,
  fail_as, patch_as,
}
use it_asset_inventory.Requests.Types.{
  Db, approved, rejected, pending, running, completed, failed, RequestStatus, InvestigationRequest,
  RequestCreate, RequestReview,
}

abbrev pub is_reviewer : List User → ℕ → Bool
is_reviewer users a = any (λ (u : User). u.id == a && is_super_admin u) users

abbrev pub has_reviewer : List User → InvestigationRequest → Bool
has_reviewer users r = elim r.reviewed_by [ none ↦ false | some a ↦ is_reviewer users a ]

abbrev pub is_over : RequestStatus → Bool
is_over pending = false
is_over approved = false
is_over rejected = false
is_over running = false
is_over completed = true
is_over failed = true

-- The statuses that need no reviewer.
abbrev pub is_unreviewed : RequestStatus → Bool
is_unreviewed pending = true
is_unreviewed approved = false
is_unreviewed rejected = false
is_unreviewed running = false
is_unreviewed completed = false
is_unreviewed failed = true

-- A row that is neither pending nor failed names a super administrator as its reviewer, a row has an end exactly if
-- it is completed or failed, and only such a row names a flow.
abbrev pub is_traced : List User → InvestigationRequest → Bool
is_traced users r =
    (is_unreviewed r.status || has_reviewer users r)
    && (not (is_some r.completed_at) || is_over r.status)
    && (is_some r.completed_at || not (is_over r.status))
    && (not (is_some r.velociraptor_flow_id) || is_over r.status)

abbrev pub Traced : Db → Type 0
Traced db = all (is_traced db.users) db.requests ≡ true

pending_open : (s : RequestStatus) → is_pending s && is_over s ≡ false
pending_open pending = refl
pending_open approved = refl
pending_open rejected = refl
pending_open running = refl
pending_open completed = refl
pending_open failed = refl

reject_open : (s : RequestStatus) → can_reject s && is_over s ≡ false
reject_open pending = refl
reject_open approved = refl
reject_open rejected = refl
reject_open running = refl
reject_open completed = refl
reject_open failed = refl

complete_reviewed : (s : RequestStatus) → can_complete s && is_unreviewed s ≡ false
complete_reviewed pending = refl
complete_reviewed approved = refl
complete_reviewed rejected = refl
complete_reviewed running = refl
complete_reviewed completed = refl
complete_reviewed failed = refl

found-Traced :
    (i : ℕ) (db : Db) (r : InvestigationRequest)
    → Traced db
    → request_by_id i db.requests ≡ some r
    → is_traced db.users r ≡ true
found-Traced i db r t n = (all-find? (is_traced db.users) (λ x. x.id == i) db.requests r t n).0

put-Traced :
    (r : InvestigationRequest) (db : Db)
    → is_traced db.users r ≡ true
    → Traced db
    → Traced (put_request r db)
put-Traced r db k t =
    all-update (is_traced db.users) (λ x. x.id == r.id) (λ _. r) db.requests (λ x h q. k) t

-- What a handler keeps: the users, and the trail.
abbrev pub Keeps : Db → Db → Type 0
Keeps db db' = (db'.users ≡ db.users) × Traced db'

pub create-Traced :
    (body : RequestCreate) (fresh started : ℕ) (db : Db) (u : User)
    → Traced db
    → Keeps db (create_as body fresh started db u).1
unfolding create_as
create-Traced body fresh started db u t =
    elim (Bool-cases (any (λ m. m == body.machine_id) db.machines)) [
      | inr h ↦ rw (h, create_as) (refl, t)
      | inl h ↦
          rw (h, create_as)
            (
              refl,
              ground (
                arith,
                all-append (is_traced db.users) db.requests (new_request u body fresh started ∷ []),
              ),
            )
    ]

pub approve-Traced :
    (i : ℕ) (db : Db) (admin : User)
    → is_reviewer db.users admin.id ≡ true
    → Traced db
    → Keeps db (approve_as i db admin).1
unfolding approve_as
approve-Traced i db admin a t = elim (Option-cases (request_by_id i db.requests)) [
  | inl n ↦ rw (n, approve_as) (refl, t)
  | inr (r, n) ↦ elim (Bool-cases (is_pending r.status)) [
    | inr h ↦ rw (n, h, approve_as) (refl, t)
    | inl h ↦
        let before = found-Traced i db r t n in
        let after : is_traced db.users (approved_by admin r) ≡ true =
          ground (arith, pending_open r.status) in
        rw (n, h, approve_as) (refl, put-Traced (approved_by admin r) db after t)
  ]
]

pub reject-Traced :
    (i : ℕ) (body : RequestReview) (db : Db) (admin : User)
    → is_reviewer db.users admin.id ≡ true
    → Traced db
    → Keeps db (reject_as i body db admin).1
unfolding reject_as
reject-Traced i body db admin a t = elim (Option-cases (request_by_id i db.requests)) [
  | inl n ↦ rw (n, reject_as) (refl, t)
  | inr (r, n) ↦ elim (Bool-cases (can_reject r.status)) [
    | inr h ↦ rw (n, h, reject_as) (refl, t)
    | inl h ↦
        let before = found-Traced i db r t n in
        let after : is_traced db.users (rejected_by admin body r) ≡ true =
          ground (arith, reject_open r.status) in
        rw (n, h, reject_as) (refl, put-Traced (rejected_by admin body r) db after t)
  ]
]

pub complete-Traced :
    (i : ℕ) (body : RequestReview) (now : ℕ) (db : Db) (admin : User)
    → Traced db
    → Keeps db (complete_as i body now db admin).1
unfolding complete_as
complete-Traced i body now db admin t = elim (Option-cases (request_by_id i db.requests)) [
  | inl n ↦ rw (n, complete_as) (refl, t)
  | inr (r, n) ↦ elim (Bool-cases (can_complete r.status)) [
    | inr h ↦ rw (n, h, complete_as) (refl, t)
    | inl h ↦
        let before = found-Traced i db r t n in
        let after : is_traced db.users (completed_with body now r) ≡ true =
          ground (arith, complete_reviewed r.status) in
        rw (n, h, complete_as) (refl, put-Traced (completed_with body now r) db after t)
  ]
]

fail-Traced :
    (i : ℕ) (body : RequestReview) (now : ℕ) (db : Db) (admin : User)
    → Traced db
    → Keeps db (fail_as i body now db admin).1
unfolding fail_as
fail-Traced i body now db admin t = elim (Option-cases (request_by_id i db.requests)) [
  | inl n ↦ rw (n, fail_as) (refl, t)
  | inr (r, n) ↦
      let after : is_traced db.users (failed_with body now r) ≡ true = ground arith in
      rw (n, fail_as) (refl, put-Traced (failed_with body now r) db after t)
]

pub patch-Traced :
    (i : ℕ) (body : RequestReview) (now : ℕ) (db : Db) (admin : User)
    → is_reviewer db.users admin.id ≡ true
    → Traced db
    → Keeps db (patch_as i body now db admin).1
unfolding patch_as
patch-Traced i body now db admin a t = elim (Bool-cases (str_eq body.action "approve")) [
  | inl p ↦ rw (p, patch_as) (approve-Traced i db admin a t)
  | inr p ↦ elim (Bool-cases (str_eq body.action "reject")) [
    | inl q ↦ rw (p, q, patch_as) (reject-Traced i body db admin a t)
    | inr q ↦ elim (Bool-cases (str_eq body.action "complete")) [
      | inl c ↦ rw (p, q, c, patch_as) (complete-Traced i body now db admin t)
      | inr c ↦ elim (Bool-cases (str_eq body.action "fail")) [
        | inl f ↦ rw (p, q, c, f, patch_as) (fail-Traced i body now db admin t)
        | inr f ↦ rw (p, q, c, f, patch_as) (refl, t)
      ]
    ]
  ]
]
